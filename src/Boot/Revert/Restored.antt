-- ===== src/Boot/Revert/Restored.antt =====
-- The restore of `bootRecoveryRevert` in include/boot_recovery.hpp, where it succeeds.
use audiox.Prelude.{
  subst, ap, sym, ◌∙◌, inr, inl, ◌||◌, bytes_eq, Bool-cases, ◌++◌, not, ◌≡◌, ℕ, List, Option, ◌∷◌,
  [], some, true, false, refl,
}
use audiox.Boot.Disk.{
  remove_file, put_file, find_file, rename, path_fits, file_in, Name, Files, Disk, Os, World, boot,
  backup,
}
use audiox.Boot.Names.{is_boot_file, has_name}
use audiox.Boot.Kept.{starts, KeptByRemove, KeptByPut}
use audiox.Boot.Revert.{
  restore_suffix, not, ℕ, moved_or_unlinked, move_into_place, List, restore_files, restore_file,
  restore_copy,
}
use audiox.Boot.Revert.Restore.{restore_file-Keeps, restore_files-Keeps, IsRestorable, AllBoot}
use audiox.Boot.Trial.{exists}
use audiox.Prelude.Text.{bytes_eq→eq, and_parts}
use audiox.Boot.Disk.Laws.{find-put_self, find-remove_ne, find-put_ne}
use audiox.Boot.Files.{copy_file}
use audiox.Boot.Revert.Suffix.{restore_suffix-differs}
use audiox.Boot.Exact.Copy.{copy_file_exact}
use audiox.Boot.Exact.Atomic.{Replaced-find, rename-Replaced}

module _ (os : Os) (n : Name) where
  restore_copy-copies :
      (w : World) (t : List ℕ)
      → file_in n w.disk.backup_dir ≡ some t
      → (restore_copy os n w).0 ≡ true
      → file_in n (restore_copy os n w).1.disk.boot_dir ≡ some t
  unfolding restore_copy move_into_place moved_or_unlinked
  restore_copy-copies w t e r =
      let from = n ++ restore_suffix in
      let w' = (copy_file os backup n boot from w).1 in
      elim (Bool-cases (copy_file os backup n boot from w).0) [
        | inr f ↦ let g : (restore_copy os n w).0 ≡ false = rw (restore_copy, f) refl in absurd cc
        | inl f ↦ elim (Bool-cases (rename os boot from n w').0) [
          | inr p ↦
              let g : (restore_copy os n w).0 ≡ false =
                rw (restore_copy, f, move_into_place, p) refl in
              absurd cc
          | inl p ↦
              let c = copy_file_exact os backup n boot from w f in
              let replaced =
                ((rename-Replaced os).run w' record { holding = c.copied }).on_true p in
              let both : some c.text ≡ some t = sym c.source ∙ e in
              let holds =
                Replaced-find from n c.text c.files boot w.disk (rename os boot from n w').1
                  replaced in
              rw (restore_copy, f, move_into_place, p) (holds ∙ both)
        ]
      ]

  restore_file-copies :
      (w : World) (t : List ℕ)
      → file_in n w.disk.backup_dir ≡ some t
      → (restore_file os n w).0 ≡ true
      → file_in n (restore_file os n w).1.disk.boot_dir ≡ some t
  unfolding restore_file exists
  restore_file-copies w t e r =
      let long =
        not (path_fits os backup n 0)
        || (not (path_fits os boot n 0) || not (path_fits os boot n 8)) in
      elim (Bool-cases long) [
        | inl f ↦ let g : (restore_file os n w).0 ≡ false = rw (restore_file, f) refl in absurd cc
        | inr f ↦
            let same : restore_file os n w ≡ restore_copy os n w =
              rw (restore_file, f, exists, e) refl in
            rw same (restore_copy-copies w t e (rw (sym same) r))
      ]

-- The backup is `bk`, and the boot file `n` holds `t`.
unfoldable HasRestored : Option Files → Name → List ℕ → Disk → Type 0
HasRestored bk n t k = (k.backup_dir ≡ bk) × (file_in n k.boot_dir ≡ some t)

HasRestored-IsRestorable :
    (bk : Option Files) (n : Name) (t : List ℕ)
    → is_boot_file n ≡ true
    → file_in n bk ≡ some t
    → IsRestorable bk (HasRestored bk n t)
unfolding HasRestored KeptByPut KeptByRemove file_in
HasRestored-IsRestorable bk n t ok here = record {
  same_backup = λ k h. h.0;
  put_ok = λ m u fs k e h.
      (h.0, find-put_ne n _ u fs (restore_suffix-differs m n ok) ∙ sym (ap (file_in n) e) ∙ h.1);
  remove_ok = λ m fs k e h.
      (h.0, find-remove_ne n _ fs (restore_suffix-differs m n ok) ∙ sym (ap (file_in n) e) ∙ h.1);
  move_ok = λ m mok u source fs k e h. (
    h.0,
    elim (Bool-cases (bytes_eq m n)) [
      | inl f ↦
          let same : file_in m bk ≡ some t = ap (λ x. file_in x bk) (bytes_eq→eq m n f) ∙ here in
          subst (λ x. find_file x (put_file m u (remove_file (m ++ restore_suffix) fs)) ≡ some t)
            (bytes_eq→eq m n f) (find-put_self m u _ ∙ sym source ∙ same)
      | inr f ↦
          find-put_ne n m u _ f
          ∙ find-remove_ne n _ fs (restore_suffix-differs m n ok)
          ∙ sym (ap (file_in n) e)
          ∙ h.1
    ],
  );
}

SameBackup : Option Files → Disk → Type 0
SameBackup bk k = k.backup_dir ≡ bk

SameBackup-IsRestorable : (bk : Option Files) → IsRestorable bk (SameBackup bk)
unfolding SameBackup KeptByPut KeptByRemove
SameBackup-IsRestorable bk = record {
  same_backup = λ k h. h;
  put_ok = λ m u fs k e h. h;
  remove_ok = λ m fs k e h. h;
  move_ok = λ m mok u source fs k e h. h;
}

restore_file_same_backup :
    (os : Os) (n : Name)
    → is_boot_file n ≡ true
    → (w : World) → (restore_file os n w).1.disk.backup_dir ≡ w.disk.backup_dir
unfolding SameBackup
restore_file_same_backup os n ok w =
    let bk = w.disk.backup_dir in
    ((restore_file-Keeps os bk (SameBackup bk) (SameBackup-IsRestorable bk) n ok).keeps w
      (starts w refl)).now

-- If every file could be restored, each of the names that the backup holds is in the boot
-- directory with the backup's bytes.
pub restore_files_complete :
    (os : Os) (ns : List Name) (w : World)
    → AllBoot ns
    → (restore_files os ns w).0 ≡ true
    → (n : Name) (t : List ℕ) → has_name n ns ≡ true
    → file_in n w.disk.backup_dir ≡ some t
    → file_in n (restore_files os ns w).1.disk.boot_dir ≡ some t
unfolding restore_files AllBoot has_name HasRestored
restore_files_complete os [] w h r n t named here = absurd cc
restore_files_complete os (m ∷ ms) w (ok, h) r n t named here =
    let (good, rest) = and_parts _ _ r in
    let w' = (restore_file os m w).1 in
    let bk = w.disk.backup_dir in
    elim (Bool-cases (bytes_eq n m)) [
      | inl f ↦
          let e : m ≡ n = sym (bytes_eq→eq n m f) in
          let there : file_in m bk ≡ some t = ap (λ x. file_in x bk) e ∙ here in
          let copied = restore_file-copies os m w t there good in
          let same_bk = restore_file_same_backup os m ok w in
          subst (λ x. file_in x (restore_files os ms w').1.disk.boot_dir ≡ some t) e
            (((restore_files-Keeps os bk (HasRestored bk m t)
                (HasRestored-IsRestorable bk m t ok there) ms h).keeps
              w' (starts w' (same_bk, copied))).now.1)
      | inr f ↦
          let same_bk = restore_file_same_backup os m ok w in
          restore_files_complete os ms w' h rest n t (sym (rw (has_name, f) refl) ∙ named)
            (ap (file_in n) same_bk ∙ here)
    ]
