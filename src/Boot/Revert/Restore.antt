-- ===== src/Boot/Revert/Restore.antt =====
-- The restore of `bootRecoveryRevert` in include/boot_recovery.hpp, at all times.
use audiox.Prelude.{
  ◌&&◌, Bool, inr, inl, Bool-cases, ◌∙◌, sym, ap, ℕ, List, ◌++◌, ◌≡◌, Option, ◌∷◌, [], some, true,
  false,
}
use audiox.Boot.Disk.{remove_file, put_file, put_dir, file_in, called, rename}
use audiox.Boot.Disk.{Name, Files, Disk, Os, World, boot, backup}
use audiox.Boot.Kept.{
  bind-Keeps, pure-Keeps, if-Keeps, change-AtAllTimes, called-Keeps, KeptByRemove, KeptByPut,
  AtAllTimes, Keeps,
}
use audiox.Boot.Kept.Writes.{unlink-Keeps, copy_file-Keeps}
use audiox.Boot.Names.{is_boot_file}
use audiox.Boot.Files.{copy_file}
use audiox.Boot.Revert.{
  move_into_place, Bool, restore_files, restore_file, restore_copy, moved_or_unlinked, ℕ, List,
  restore_suffix,
}
use audiox.Boot.Trial.{exists}
use audiox.Boot.Exact.Copy.{copy_file_exact, IsCopied}
use audiox.Boot.Disk.Laws.{find-put_self}

unfoldable pub AllBoot : List Name → Type 0
AllBoot [] = Unit
AllBoot (n ∷ ns) = (is_boot_file n ≡ true) × AllBoot ns

-- A property of the disk that restoring boot files from the backup `bk` keeps.
pub record IsRestorable (bk : Option Files) (P : Disk → Type 0) : Type 0 where
  pub same_backup : (k : Disk) → P k → k.backup_dir ≡ bk
  pub put_ok : (n : Name) → KeptByPut P boot (n ++ restore_suffix)
  pub remove_ok : (n : Name) → KeptByRemove P boot (n ++ restore_suffix)
  pub move_ok :
      (n : Name)
      → is_boot_file n ≡ true
      → (t : List ℕ) → file_in n bk ≡ some t
      → (fs : Files) (k : Disk) → k.boot_dir ≡ some fs
      → P k
      → P (put_dir boot (some (put_file n t (remove_file (n ++ restore_suffix) fs))) k)

module _ (os : Os) (bk : Option Files) (P : Disk → Type 0) (c : IsRestorable bk P) (n : Name)
    (ok : is_boot_file n ≡ true) where
  copying : Keeps P (copy_file os backup n boot (n ++ restore_suffix))
  copying = copy_file-Keeps os backup n boot _ (c.put_ok n) (c.remove_ok n)

  -- After a copy that succeeded the temporary file holds what the backup holds.
  moving :
      {old : List Disk} (w w' : World)
      → AtAllTimes P old w'
      → P w.disk
      → IsCopied backup n boot (n ++ restore_suffix) w.disk w'.disk
      → AtAllTimes P old (rename os boot (n ++ restore_suffix) n w').1
  unfolding rename called file_in
  moving {old = old} w w' h p d =
      let e : w'.disk.boot_dir ≡ some (put_file (n ++ restore_suffix) d.text d.files) =
        ap (λ k. k.boot_dir) d.copied in
      let source : file_in n bk ≡ some d.text =
        ap (file_in n) (sym (c.same_backup w.disk p)) ∙ d.source in
      let kept = (called-Keeps os).keeps w' h in
      elim (Bool-cases (os.ok w'.calls)) [
        | inl f ↦
            rw (rename, f, e, find-put_self (n ++ restore_suffix) d.text d.files, e)
              (change-AtAllTimes P _ _ (c.move_ok n ok d.text source _ w'.disk e h.now) kept)
        | inr f ↦ rw (rename, f) kept
      ]

  ending : (moved : Bool) → Keeps P (moved_or_unlinked os n moved)
  unfolding moved_or_unlinked
  ending true = pure-Keeps true
  ending false = bind-Keeps _ _ (unlink-Keeps os boot _ (c.remove_ok n)) (λ x. pure-Keeps false)

  restore_copy-AtAllTimes :
      {old : List Disk} (w : World) → AtAllTimes P old w → AtAllTimes P old (restore_copy os n w).1
  unfolding restore_copy move_into_place
  restore_copy-AtAllTimes w h =
      let w' = (copy_file os backup n boot (n ++ restore_suffix) w).1 in
      elim (Bool-cases (copy_file os backup n boot (n ++ restore_suffix) w).0) [
        | inl e ↦
            rw (restore_copy, e)
              ((ending _).keeps _
                (moving w w' (copying.keeps w h) h.now (copy_file_exact os backup n boot _ w e)))
        | inr e ↦ rw (restore_copy, e) ((ending false).keeps w' (copying.keeps w h))
      ]

  restore_copy-Keeps : Keeps P (restore_copy os n)
  restore_copy-Keeps = record { keeps = restore_copy-AtAllTimes }

  looking : Keeps P (exists backup n)
  unfolding exists
  looking = record { keeps = λ w h. h }

  pub restore_file-Keeps : Keeps P (restore_file os n)
  unfolding restore_file
  restore_file-Keeps =
      if-Keeps _ (pure-Keeps false)
        (bind-Keeps _ _ looking (λ there. if-Keeps there restore_copy-Keeps (pure-Keeps true)))

module _ (os : Os) (bk : Option Files) (P : Disk → Type 0) (c : IsRestorable bk P) where
  pub restore_files-Keeps : (ns : List Name) → AllBoot ns → Keeps P (restore_files os ns)
  unfolding restore_files AllBoot
  restore_files-Keeps [] h = pure-Keeps true
  restore_files-Keeps (n ∷ ns) (ok, h) =
      bind-Keeps _ _ (restore_file-Keeps os bk P c n ok)
        (λ good. bind-Keeps _ _ (restore_files-Keeps ns h) (λ rest. pure-Keeps (good && rest)))
