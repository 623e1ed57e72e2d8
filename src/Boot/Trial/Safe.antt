-- ===== src/Boot/Trial/Safe.antt =====
-- What the steps of `bootRecoveryPrepareUpdate` of include/boot_recovery.hpp keep at all times.
use audiox.Prelude.{
  inr, subst, inl, ◌∙◌, bytes_eq, ap, Bool-cases, sym, List, ◌≡◌, Option, ◌∷◌, [], some, none, true,
  false, refl,
}
use audiox.Boot.Disk.{
  remove_file, put_dir, mkdir, file_in, find_file, Name, Files, Disk, Os, boot, state, backup,
  backup_tmp,
}
use audiox.Boot.Disk.Laws.{find-remove_self, find-remove_ne}
use audiox.Boot.Kept.{pure-Keeps, if-Keeps, bind-Keeps, KeptByPut, KeptByRemove, KeptByMove, Keeps}
use audiox.Boot.Kept.Writes.{copy_file-Keeps}
use audiox.Boot.Names.{config_name, version_name}
use audiox.Boot.Files.{remove_flat_dir}
use audiox.Boot.Trial.{
  config_kernel_name, List, give_up, exists, current_kernel, back_up_files, back_up_file,
}
use audiox.Boot.Kept.Dirs.{read_small_file-Keeps, remove_flat_dir-Keeps, mkdir-Keeps}
use audiox.Prelude.Text.{bytes_eq→eq}

-- The boot files are `b`, and there is no whole backup.
unfoldable pub Before : Option Files → Disk → Type 0
Before b k = (k.boot_dir ≡ b) × (file_in version_name k.backup_dir ≡ none)

-- The boot files are `b`, and the backup is `old`.
unfoldable pub Beside : Option Files → Option Files → Disk → Type 0
Beside b old k = (k.boot_dir ≡ b) × (k.backup_dir ≡ old)

still_none :
    (n : Name) (fs : Files)
    → find_file version_name fs ≡ none
    → find_file version_name (remove_file n fs) ≡ none
still_none n fs h = elim (Bool-cases (bytes_eq n version_name)) [
  | inl e ↦
      subst (λ x. find_file version_name (remove_file x fs) ≡ none)
        (sym (bytes_eq→eq n version_name e)) (find-remove_self version_name fs)
  | inr e ↦ find-remove_ne version_name n fs e ∙ h
]

module _ (b : Option Files) where
  backup-remove : (n : Name) → KeptByRemove (Before b) backup n
  unfolding KeptByRemove Before file_in
  backup-remove n fs k e (same, h) = (same, still_none n fs (sym (ap (file_in version_name) e) ∙ h))

  backup-none : (k : Disk) → Before b k → Before b (put_dir backup none k)
  unfolding Before file_in
  backup-none k (same, h) = (same, refl)

  pub tmp-put : (n : Name) → KeptByPut (Before b) backup_tmp n
  unfolding KeptByPut Before
  tmp-put n t fs k e h = h

  pub tmp-remove : (n : Name) → KeptByRemove (Before b) backup_tmp n
  unfolding KeptByRemove Before
  tmp-remove n fs k e h = h

  pub tmp-move : (n m : Name) → KeptByMove (Before b) backup_tmp n m
  unfolding KeptByMove Before
  tmp-move n m t fs k e f h = h

  tmp-dir : (f : Option Files) (k : Disk) → Before b k → Before b (put_dir backup_tmp f k)
  unfolding Before
  tmp-dir f k h = h

  state-dir : (f : Option Files) (k : Disk) → Before b k → Before b (put_dir state f k)
  unfolding Before
  state-dir f k h = h

  module _ (os : Os) where
    pub give_up-Keeps : Keeps (Before b) (give_up os)
    unfolding give_up
    give_up-Keeps =
        bind-Keeps _ _ (remove_flat_dir-Keeps os backup_tmp tmp-remove (tmp-dir none))
          (λ x. pure-Keeps false)

    pub remove_backup-Keeps : Keeps (Before b) (remove_flat_dir os backup)
    remove_backup-Keeps = remove_flat_dir-Keeps os backup backup-remove backup-none

    pub remove_tmp-Keeps : Keeps (Before b) (remove_flat_dir os backup_tmp)
    remove_tmp-Keeps = remove_flat_dir-Keeps os backup_tmp tmp-remove (tmp-dir none)

    pub make_tmp-Keeps : Keeps (Before b) (mkdir os backup_tmp)
    make_tmp-Keeps = mkdir-Keeps os backup_tmp (λ k e h. tmp-dir (some []) k h)

    pub current_kernel-Keeps : Keeps (Before b) (current_kernel os)
    unfolding current_kernel
    current_kernel-Keeps =
        if-Keeps _
          (bind-Keeps _ _ (read_small_file-Keeps os boot config_name 16384) (λ text.
            pure-Keeps (config_kernel_name (elim text [ none ↦ [] | some bytes ↦ bytes ]))))
          (pure-Keeps (config_kernel_name []))

    exists-Keeps : (n : Name) → Keeps (Before b) (exists boot n)
    unfolding exists
    exists-Keeps n = record { keeps = λ w h. h }

    back_up_file-Keeps : (n : Name) → Keeps (Before b) (back_up_file os n)
    unfolding back_up_file
    back_up_file-Keeps n =
        let copying = copy_file-Keeps os boot n backup_tmp n (tmp-put n) (tmp-remove n) in
        if-Keeps _ (pure-Keeps false) (
          bind-Keeps _ _ (exists-Keeps n) (λ there.
            if-Keeps there
              (bind-Keeps _ _ copying (λ good. if-Keeps good (pure-Keeps true) give_up-Keeps))
              (pure-Keeps true)))

    pub back_up_files-Keeps : (ns : List Name) → Keeps (Before b) (back_up_files os ns)
    unfolding back_up_files
    back_up_files-Keeps [] = pure-Keeps true
    back_up_files-Keeps (n ∷ ns) =
        bind-Keeps _ _ (back_up_file-Keeps n)
          (λ good. if-Keeps good (back_up_files-Keeps ns) (pure-Keeps false))
