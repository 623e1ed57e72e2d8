-- ===== src/Boot/Trial/Backup.antt =====
-- The copy that `bootRecoveryPrepareUpdate` of include/boot_recovery.hpp makes of the boot files.
use audiox.Prelude.{
  ◌||◌, ap, ◌∙◌, inr, sym, inl, if◌then◌else◌, Bool, ℕ, Bool-cases, ◌≡◌, List, bytes_eq, Option,
  ◌∷◌, [], some, none, true, false, refl,
}
use audiox.Boot.Disk.{◌>>=◌}
use audiox.Boot.Disk.{
  is_some, put_file, pure, find_file, file_in, Name, Files, Os, World, boot, backup_tmp,
}
use audiox.Boot.Disk.Laws.{find-put_self, find-put_ne}
use audiox.Boot.Exact.{guard-Triple, bind-Triple, Triple, OnTrue}
use audiox.Boot.Exact.Copy.{copy_file_exact}
use audiox.Boot.Names.{has_name}
use audiox.Boot.Files.{copy_file}
use audiox.Boot.Trial.{exists, back_up_files, back_up_file, Bool, give_up}
use audiox.Prelude.Text.{bytes_eq_refl, bytes_eq→eq}
use audiox.Boot.Exact.Atomic.{unless_Triple}

-- Where the copy stands: it holds the boot files `b` of these names, and nothing else.
pub record Filled (b : Option Files) (done : List Name) (w : World) : Type 0 where
  pub boot_same : w.disk.boot_dir ≡ b
  pub files : Files
  pub tmp : w.disk.backup_tmp_dir ≡ some files
  pub exact : (n : Name) → find_file n files ≡ (if has_name n done then file_in n b else none)

pub differs_sym : (n m : Name) → bytes_eq m n ≡ false → bytes_eq n m ≡ false
differs_sym n m h = elim (Bool-cases (bytes_eq n m)) [
  | inl e ↦ let f : bytes_eq m n ≡ true = rw (bytes_eq→eq n m e) (bytes_eq_refl m) in absurd cc
  | inr e ↦ e
]

not_there : {A : Type 0} (o : Option A) → is_some o ≡ false → o ≡ none
not_there none h = refl
not_there (some a) h = absurd cc

none_either : (c : Bool) → if◌then◌else◌ {A = Option (List ℕ)} c none none ≡ none
none_either true = refl
none_either false = refl

module _ (b : Option Files) (done : List Name) (n : Name) where
  copied-exact :
      (t : List ℕ) (files : Files)
      → file_in n b ≡ some t
      → ((m : Name) → find_file m files ≡ (if has_name m done then file_in m b else none))
      → (m : Name)
      → find_file m (put_file n t files) ≡ (if has_name m (n ∷ done) then file_in m b else none)
  unfolding has_name
  copied-exact t files e h m = elim (Bool-cases (bytes_eq m n)) [
    | inl f ↦ rw (has_name, f, bytes_eq→eq m n f, find-put_self n t files, e) refl
    | inr f ↦ rw (has_name, f, find-put_ne m n t files (differs_sym n m f)) (h m)
  ]

  missing-exact :
      (files : Files)
      → file_in n b ≡ none
      → ((m : Name) → find_file m files ≡ (if has_name m done then file_in m b else none))
      → (m : Name) → find_file m files ≡ (if has_name m (n ∷ done) then file_in m b else none)
  unfolding has_name
  missing-exact files e h m = elim (Bool-cases (bytes_eq m n)) [
    | inl f ↦ rw (has_name, f, bytes_eq→eq m n f, h n, e) (none_either (has_name n done))
    | inr f ↦ rw (has_name, f) (h m)
  ]

  copying :
      (os : Os)
      → Triple (Filled b done) (copy_file os boot n backup_tmp n) (OnTrue (Filled b (n ∷ done)))
  copying os = record {
    run = λ w h. record {
      on_true = λ r.
          let c = copy_file_exact os boot n backup_tmp n w r in
          let same : some c.files ≡ some h.files = sym c.target ∙ h.tmp in
          let files : c.files ≡ h.files = cc in
          record {
            boot_same = ap (λ k. k.boot_dir) c.copied ∙ h.boot_same;
            files = put_file n c.text c.files;
            tmp = ap (λ k. k.backup_tmp_dir) c.copied;
            exact =
                rw files (
                  copied-exact c.text h.files (ap (file_in n) (sym h.boot_same) ∙ c.source)
                    h.exact);
          };
    };
  }

  or_give_up :
      (os : Os) (good : Bool) {R : World → Type 0}
      → Triple (OnTrue R good) (if good then pure true else give_up os) (OnTrue R)
  unfolding give_up
  or_give_up os true = record { run = λ w h. h }
  or_give_up os false = record { run = λ w h. record { on_true = λ e. absurd cc } }

  -- Whether the file is there, and the copy as it stands.
  pub record Looked (there : Bool) (w : World) : Type 0 where
    pub stands : Filled b done w
    pub answer : is_some (file_in n b) ≡ there

  looking : Triple (Filled b done) (exists boot n) Looked
  unfolding exists
  looking = record { run = λ w h. record { stands = h; answer = rw h.boot_same refl } }

  there_or_not :
      (os : Os) (there : Bool)
      → Triple
          (Looked there)
          (if there
            then (copy_file os boot n backup_tmp n >>= λ good.
                if good then pure true else give_up os)
            else pure true)
          (OnTrue (Filled b (n ∷ done)))
  there_or_not os true =
      bind-Triple _ _ record { run = λ w h. (copying os).run w h.stands }
        (λ good. or_give_up os good)
  there_or_not os false = record {
    run = λ w h. record {
      on_true = λ r. record {
        boot_same = h.stands.boot_same;
        files = h.stands.files;
        tmp = h.stands.tmp;
        exact = missing-exact h.stands.files (not_there _ h.answer) h.stands.exact;
      };
    };
  }

  pub back_up_file-Filled :
      (os : Os) → Triple (Filled b done) (back_up_file os n) (OnTrue (Filled b (n ∷ done)))
  unfolding back_up_file
  back_up_file-Filled os = unless_Triple _ _ (bind-Triple _ _ looking (there_or_not os))

-- The names that are copied, the last one first.
unfoldable pub add_names : List Name → List Name → List Name
add_names [] done = done
add_names (n ∷ ns) done = add_names ns (n ∷ done)

pub has_name-add_names :
    (m : Name) (ns done : List Name)
    → (has_name m ns || has_name m done) ≡ true
    → has_name m (add_names ns done) ≡ true
unfolding has_name add_names
has_name-add_names m [] done h = h
has_name-add_names m (n ∷ ns) done h =
    has_name-add_names m ns (n ∷ done)
      (sym (moved (bytes_eq m n) (has_name m ns) (has_name m done)) ∙ h)
  where
    moved : (x y z : Bool) → ((x || y) || z) ≡ (y || (x || z))
    moved true true z = refl
    moved true false z = refl
    moved false y z = refl

pub back_up_files-Filled :
    (b : Option Files) (os : Os) (ns done : List Name)
    → Triple (Filled b done) (back_up_files os ns) (OnTrue (Filled b (add_names ns done)))
unfolding back_up_files add_names
back_up_files-Filled b os [] done = record { run = λ w h. record { on_true = λ e. h } }
back_up_files-Filled b os (n ∷ ns) done =
    bind-Triple _ _ (back_up_file-Filled b done n os)
      (λ good. guard-Triple good _ (back_up_files-Filled b os ns (n ∷ done)))
