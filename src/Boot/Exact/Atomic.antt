-- ===== src/Boot/Exact/Atomic.antt =====
-- `brWriteFileAtomic` of include/boot_recovery.hpp, where it succeeds.
use audiox.Boot.Disk.Laws.{put_dir-put_dir}
use audiox.Boot.Disk.{◌>>=◌}
use audiox.Prelude.{
  Bool-cases, ◌∙◌, ap, ◌++◌, if◌then◌else◌, ◌≡◌, bytes_eq, ℕ, List, Bool, some, true, false, refl,
}
use audiox.Boot.Disk.{
  unlink, remove_file, pure, put_file, change, put_dir, called, rename, dir_of, M, file_in, Name,
  Files, Dir, Disk, World, Os,
}
use audiox.Boot.Files.{tmp_suffix, rename_or_unlink, fsync_dir, write_file_atomic}
use audiox.Boot.Exact.{
  inr, inl, guard-Triple, Bool-cases, write_temporary-Holding, false-Triple, ap, bind-Triple,
  dir_of-put_dir, Ready, OnTrue, Holding, Triple,
}
use audiox.Boot.Disk.Laws.{put_dir-put_dir, find-remove_ne, find-put_self, find-put_ne}

-- The disk is `k` with the file `to` of `d` written as `text`, by way of the file `from`.
pub record Replaced (d : Dir) (from to : Name) (fs : Files) (k : Disk) (text : List ℕ) (w : World)
    : Type 0 where
  pub replaced :
      w.disk ≡ put_dir d (some (put_file to text (remove_file from (put_file from text fs)))) k

module _ {d : Dir} {from to : Name} {fs : Files} {k : Disk} {text : List ℕ} where
  pub rename-Replaced :
      (os : Os)
      → Triple
          (Holding d from fs k text)
          (rename os d from to)
          (OnTrue (Replaced d from to fs k text))
  unfolding rename called change file_in
  rename-Replaced os = record {
    run = λ w h.
        let e : dir_of d w.disk ≡ some (put_file from text fs) =
          ap (dir_of d) h.holding ∙ dir_of-put_dir d _ k in
        elim (Bool-cases (os.ok w.calls)) [
          | inl f ↦
              rw (rename, f, e, find-put_self from text fs, e)
                record { on_true = λ r. record { replaced = rw (h.holding, put_dir-put_dir) refl } }
          | inr f ↦ rw (rename, f) record { on_true = λ r. cc }
        ];
  }

  moved_or_unlinked :
      (os : Os) (b : Bool)
      → Triple
          (OnTrue (Replaced d from to fs k text) b)
          (if b then pure true else (unlink os d from >>= λ x. pure false))
          (OnTrue (Replaced d from to fs k text))
  moved_or_unlinked os true = record { run = λ w h. h }
  moved_or_unlinked os false = record { run = λ w h. record { on_true = λ e. cc } }

  rename_or_unlink-Replaced :
      (os : Os)
      → Triple
          (Holding d from fs k text)
          (rename_or_unlink os d from to)
          (OnTrue (Replaced d from to fs k text))
  unfolding rename_or_unlink
  rename_or_unlink-Replaced os = bind-Triple _ _ (rename-Replaced os) (moved_or_unlinked os)

  synced_dir :
      (os : Os)
      → Triple
          (Replaced d from to fs k text)
          (fsync_dir os d >>= λ x. pure true)
          (OnTrue (Replaced d from to fs k text))
  unfolding fsync_dir called
  synced_dir os = record { run = λ w h. record { on_true = λ e. record { replaced = h.replaced } } }

pub unless_Triple :
    {P R : World → Type 0} (b : Bool) (m : M Bool)
    → Triple P m (OnTrue R)
    → Triple P (if b then pure false else m) (OnTrue R)
unless_Triple true m t = false-Triple
unless_Triple false m t = t

module _ {d : Dir} {fs : Files} {k : Disk} where
  pub write_file_atomic-Replaced :
      (os : Os) (n : Name) (text : List ℕ)
      → Triple
          (Ready d fs k)
          (write_file_atomic os d n text)
          (OnTrue (Replaced d (n ++ tmp_suffix) n fs k text))
  unfolding write_file_atomic
  write_file_atomic-Replaced os n text = unless_Triple _ _ (
      bind-Triple _ _ (write_temporary-Holding os text) (λ written. guard-Triple written _ (
        bind-Triple _ _ (rename_or_unlink-Replaced os)
          (λ moved. guard-Triple moved _ (synced_dir os)))))

-- The file reads as it was written, and the other files as before.
pub Replaced-find :
    (from n : Name) (text : List ℕ) (fs : Files) (d : Dir) (k : Disk) (w : World)
    → Replaced d from n fs k text w
    → file_in n (dir_of d w.disk) ≡ some text
unfolding file_in
Replaced-find from n text fs d k w h = rw (h.replaced, dir_of-put_dir, find-put_self) refl

pub Replaced-find_other :
    (from n x : Name) (text : List ℕ) (fs : Files) (d : Dir) (k : Disk) (w : World)
    → bytes_eq n x ≡ false
    → bytes_eq from x ≡ false
    → Replaced d from n fs k text w
    → dir_of d k ≡ some fs
    → file_in x (dir_of d w.disk) ≡ file_in x (dir_of d k)
unfolding file_in
Replaced-find_other from n x text fs d k w a b h e =
    rw
      (
        h.replaced,
        dir_of-put_dir,
        e,
        find-put_ne x n _ _ a,
        find-remove_ne x from _ b,
        find-put_ne x from _ _ b,
      )
      refl
