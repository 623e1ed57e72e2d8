-- ===== src/Boot/Exact.antt =====
-- The rules for what the file helpers of include/boot_recovery.hpp leave when they succeed.
pub mod Copy
pub mod Atomic
pub mod Reading
use audiox.Prelude.{
  Option-cases, sym, Option, inr, inl, Bool-cases, ◌∙◌, subst, append_assoc, ap, if◌then◌else◌,
  drop, append-nil, ◌≡◌, ◌++◌, take, ℕ, List, Bool, ◌∷◌, [], some, none, true, false, refl, zero,
  suc,
}
use audiox.Boot.Disk.{
  get_file, file_in, called, create, ◌>>=◌, put_file, pure, put_dir, dir_of, change, Written,
  ReadAnswer, M, set_file, Name, Files, Dir, Disk, World, Os,
}
use audiox.Boot.Disk.{write_interrupted, write_failed, wrote, read_interrupted, read_failed, got}
use audiox.Boot.Disk.Laws.{dir_of-put_dir, put_dir-put_dir, put-put}
use audiox.Boot.Files.{
  copy_file, write_temporary, write_now, copy_now, copy_bytes, synced, keep_or_unlink, write_all,
  copy_loop,
}

-- The disk is `k`, with the file `n` of the directory `d` of files `fs` written as `text`.
pub record Holding (d : Dir) (n : Name) (fs : Files) (k : Disk) (text : List ℕ) (w : World)
    : Type 0 where
  pub holding : w.disk ≡ put_dir d (some (put_file n text fs)) k

-- The disk is `k`, with these files in the directory `d`.
pub record Ready (d : Dir) (fs : Files) (k : Disk) (w : World) : Type 0 where
  pub same_disk : w.disk ≡ k
  pub listed : dir_of d k ≡ some fs

-- What an operation that starts where `P` holds leaves.
pub record Triple {A : Type 0} (P : World → Type 0) (m : M A) (Q : A → World → Type 0)
    : Type 0 where
  pub run : (w : World) → P w → Q (m w).0 (m w).1

-- Nothing is said of an operation that fails.
pub record OnTrue (Q : World → Type 0) (b : Bool) (w : World) : Type 0 where
  pub on_true : b ≡ true → Q w

pub take-append-drop : (n : ℕ) (l : List ℕ) → take n l ++ drop n l ≡ l
take-append-drop zero l = refl
take-append-drop (suc n) [] = refl
take-append-drop (suc n) (x ∷ l) = ap (λ t. x ∷ t) (take-append-drop n l)

append-take-drop : (n : ℕ) (out l : List ℕ) → (out ++ take n l) ++ drop n l ≡ out ++ l
append-take-drop n out l = rw (append_assoc out (take n l) (drop n l), take-append-drop n l) refl

pub bind-Triple :
    {A B : Type 0} {P : World → Type 0} {Q : A → World → Type 0} (m : M A) (f : A → M B)
    {S : B → World → Type 0}
    → Triple P m Q
    → ((a : A) → Triple (Q a) (f a) S)
    → Triple P (m >>= f) S
bind-Triple m f p q = record { run = λ w h. (q (m w).0).run (m w).1 (p.run w h) }

pub false-Triple : {P Q : World → Type 0} → Triple P (pure false) (OnTrue Q)
false-Triple = record { run = λ w h. record { on_true = λ e. cc } }

module _ {P R : World → Type 0} where
  pub guard-Triple :
      (b : Bool) (m : M Bool)
      → Triple P m (OnTrue R)
      → Triple (OnTrue P b) (if b then m else pure false) (OnTrue R)
  guard-Triple true m t = record { run = λ w h. t.run w (h.on_true refl) }
  guard-Triple false m t = record { run = λ w h. record { on_true = λ e. cc } }

module _ {d : Dir} {n : Name} {fs : Files} {k : Disk} where
  pub set_file-Holding :
      {out : List ℕ} (more : List ℕ) (w : World)
      → Holding d n fs k out w
      → Holding d n fs k more (set_file d n more w)
  unfolding set_file change
  set_file-Holding {out} more w h =
      let e : dir_of d w.disk ≡ some (put_file n out fs) =
        ap (dir_of d) h.holding ∙ dir_of-put_dir d _ k in
      record { holding = rw (set_file, e, h.holding, put_dir-put_dir, put-put) refl }

  pub write_all-Holding :
      (ws : List Written) (bytes out : List ℕ)
      → Triple
          (Holding d n fs k out)
          (write_all d n ws bytes out)
          (OnTrue (Holding d n fs k (out ++ bytes)))
  unfolding write_all
  write_all-Holding ws [] out = record {
    run = λ w h. record { on_true = λ e. rw (append-nil out) h };
  }
  write_all-Holding [] (b ∷ rest) out = false-Triple
  write_all-Holding (write_interrupted ∷ ws) (b ∷ rest) out = write_all-Holding ws (b ∷ rest) out
  write_all-Holding (write_failed ∷ ws) (b ∷ rest) out = false-Triple
  write_all-Holding (wrote zero ∷ ws) (b ∷ rest) out = false-Triple
  write_all-Holding (wrote (suc i) ∷ ws) (b ∷ rest) out =
      subst
        (λ t.
          Triple (Holding d n fs k out) (write_all d n (wrote (suc i) ∷ ws) (b ∷ rest) out)
            (OnTrue (Holding d n fs k t)))
        (append-take-drop (suc i) out (b ∷ rest))
        record {
          run = λ w h.
              (write_all-Holding ws (drop (suc i) (b ∷ rest)) (out ++ take (suc i) (b ∷ rest))).run
                _ (set_file-Holding _ w h);
        }

  pub copy_loop-Holding :
      (rs : List ReadAnswer) (bytes out : List ℕ)
      → Triple
          (Holding d n fs k out)
          (copy_loop d n rs bytes out)
          (OnTrue (Holding d n fs k (out ++ bytes)))
  unfolding copy_loop
  copy_loop-Holding rs [] out = record {
    run = λ w h. record { on_true = λ e. rw (append-nil out) h };
  }
  copy_loop-Holding [] (b ∷ rest) out = false-Triple
  copy_loop-Holding (read_interrupted ∷ rs) (b ∷ rest) out = copy_loop-Holding rs (b ∷ rest) out
  copy_loop-Holding (read_failed ∷ rs) (b ∷ rest) out = false-Triple
  copy_loop-Holding (got i ws ∷ rs) (b ∷ rest) out =
      let bytes = take (suc i) (b ∷ rest) in
      subst
        (λ t.
          Triple (Holding d n fs k out) (copy_loop d n (got i ws ∷ rs) (b ∷ rest) out)
            (OnTrue (Holding d n fs k t)))
        (append-take-drop (suc i) out (b ∷ rest))
        (bind-Triple _ _ (write_all-Holding ws bytes out) (λ done.
          guard-Triple done _ (copy_loop-Holding rs (drop (suc i) (b ∷ rest)) (out ++ bytes))))

  pub synced-Holding :
      {text : List ℕ} (os : Os) (b : Bool)
      → Triple (OnTrue (Holding d n fs k text) b) (synced os b) (OnTrue (Holding d n fs k text))
  unfolding synced called
  synced-Holding os true = record {
    run = λ w h. record { on_true = λ e. record { holding = (h.on_true refl).holding } };
  }
  synced-Holding os false = record { run = λ w h. record { on_true = λ e. cc } }

  pub keep_or_unlink-Holding :
      {text : List ℕ} (os : Os) (b : Bool)
      → Triple
          (OnTrue (Holding d n fs k text) b)
          (keep_or_unlink os d n b)
          (OnTrue (Holding d n fs k text))
  unfolding keep_or_unlink
  keep_or_unlink-Holding os true = record { run = λ w h. h }
  keep_or_unlink-Holding os false = record { run = λ w h. record { on_true = λ e. cc } }

  pub create-Holding :
      (os : Os) → Triple (Ready d fs k) (create os d n) (OnTrue (Holding d n fs k []))
  unfolding create called set_file change
  create-Holding os = record {
    run = λ w h.
        let e : dir_of d w.disk ≡ some fs = ap (dir_of d) h.same_disk ∙ h.listed in
        elim (Bool-cases (os.ok w.calls)) [
          | inl f ↦
              rw (create, f, set_file, e)
                record { on_true = λ r. record { holding = ap (put_dir d _) h.same_disk } }
          | inr f ↦ rw (create, f) record { on_true = λ r. cc }
        ];
  }

  pub write_now-Holding :
      (os : Os) (text : List ℕ)
      → Triple (Holding d n fs k []) (write_now os d n text []) (OnTrue (Holding d n fs k text))
  unfolding write_now
  write_now-Holding os text = record {
    run = λ w h. (write_all-Holding (os.writes w.calls) text []).run w h;
  }

  pub copy_now-Holding :
      (os : Os) (text : List ℕ)
      → Triple (Holding d n fs k []) (copy_now os d n text) (OnTrue (Holding d n fs k text))
  unfolding copy_now
  copy_now-Holding os text = record {
    run = λ w h. (copy_loop-Holding (os.reads w.calls) text []).run w h;
  }

  -- The frame that both writers share.
  finished :
      (os : Os) (text : List ℕ) (m : M Bool)
      → Triple (Holding d n fs k []) m (OnTrue (Holding d n fs k text))
      → Triple
          (Ready d fs k)
          (create os d n >>= λ made.
            if made then m >>= synced os >>= keep_or_unlink os d n else pure false)
          (OnTrue (Holding d n fs k text))
  finished os text m t = bind-Triple _ _ (create-Holding os) (λ made.
      guard-Triple made _
        (bind-Triple _ _ (bind-Triple _ _ t (synced-Holding os)) (keep_or_unlink-Holding os)))

  pub write_temporary-Holding :
      (os : Os) (text : List ℕ)
      → Triple (Ready d fs k) (write_temporary os d n text) (OnTrue (Holding d n fs k text))
  unfolding write_temporary
  write_temporary-Holding os text = finished os text _ (write_now-Holding os text)

  pub copy_bytes-Holding :
      (os : Os) (text : List ℕ)
      → Triple (Ready d fs k) (copy_bytes os d n (some text)) (OnTrue (Holding d n fs k text))
  unfolding copy_bytes
  copy_bytes-Holding os text = finished os text _ (copy_now-Holding os text)
