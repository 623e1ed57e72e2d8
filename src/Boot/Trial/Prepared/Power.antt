-- ===== src/Boot/Trial/Prepared/Power.antt =====
-- The making of a backup in `bootRecoveryPrepareUpdate` of include/boot_recovery.hpp, at all times.
use audiox.Boot.Disk.{change}
use audiox.Boot.Files.{remove_flat_dir}
use audiox.Prelude.{
  subst, ◌∙◌, ap, ◌++◌, ℕ, inr, Bool-cases, ◌||◌, not, ◌&&◌, ◌⊎◌, if◌then◌else◌, Bool, ◌≡◌, inl,
  List, Option, ◌∷◌, [], none, true, false, refl,
}
use audiox.Boot.Disk.{
  find_file, mkdir, is_empty, is_some, pure, called, rename_dir, file_in, M, ◌>>=◌,
}
use audiox.Boot.Disk.{Name, Files, Disk, Os, World, state, backup, backup_tmp}
use audiox.Boot.Exact.{bind-Triple, Triple, OnTrue}
use audiox.Boot.Kept.{
  change-AtAllTimes, pure-Keeps, bind-Keeps, called-Keeps, AtAllTimes-map, AtAllTimes, Keeps,
}
use audiox.Boot.Kept.Writes.{fsync_dir-Keeps}
use audiox.Boot.Names.{version_name, has_name, file_names}
use audiox.Boot.Trial.Backup.{back_up_files-Filled, add_names, Filled}
use audiox.Boot.Trial.Safe.{
  current_kernel-Keeps, remove_backup-Keeps, remove_tmp-Keeps, tmp-move, tmp-remove, tmp-put,
  back_up_files-Keeps, give_up-Keeps, Before,
}
use audiox.Boot.Files.{fsync_dir}
use audiox.Boot.Trial.Prepared.{
  current_kernel-Selected, subst, Selected, ap, version-Complete, valid_kernel_name, inr,
  Bool-cases, IsBackup, Complete, Selected, current_kernel-Selected, current_kernel_same,
  current_kernel_valid,
}
use audiox.Boot.Trial.{ℕ, finish_backup, fill_backup, current_kernel, back_up, not, give_up}
use audiox.Boot.Kept.Dirs.{write_file_atomic-Keeps}

-- The boot files are `b`; the backup is not marked, or a whole copy of them.
unfoldable pub NewBackup : Os → Option Files → Disk → Type 0
NewBackup os b k =
    (k.boot_dir ≡ b) × ((file_in version_name k.backup_dir ≡ none) ⊎ IsBackup os b k.backup_dir)

pub Before-NewBackup : (os : Os) (b : Option Files) (k : Disk) → Before b k → NewBackup os b k
unfolding Before NewBackup
Before-NewBackup os b k (same, h) = (same, inl h)

pub Filled-disk :
    (b : Option Files) (done : List Name) (w w' : World)
    → w'.disk ≡ w.disk
    → Filled b done w
    → Filled b done w'
Filled-disk b done w w' e h = record {
  boot_same = ap (λ k. k.boot_dir) e ∙ h.boot_same;
  files = h.files;
  tmp = ap (λ k. k.backup_tmp_dir) e ∙ h.tmp;
  exact = h.exact;
}

module _ (b : Option Files) (old : List Disk) (os : Os) where
  -- No backup is marked so far, and after a success `R` holds.
  record Going (R : World → Type 0) (c : Bool) (w : World) : Type 0 where
    all : AtAllTimes (Before b) old w
    next : c ≡ true → R w

  unfoldable pub NewSoFar : {A : Type 0} → A → World → Type 0
  NewSoFar a w = AtAllTimes (NewBackup os b) old w

  going :
      {R S : World → Type 0} (m : M Bool)
      → Keeps (Before b) m
      → Triple R m (OnTrue S)
      → Triple (Going R true) m (Going S)
  going m p t = record {
    run = λ w h. record { all = p.keeps w h.all; next = λ e. (t.run w (h.next refl)).on_true e };
  }

  stopped :
      {A : Type 0} {R : World → Type 0} {c : Bool} (m : M A)
      → Keeps (Before b) m
      → Triple (Going R c) m NewSoFar
  unfolding NewSoFar
  stopped m p = record { run = λ w h. AtAllTimes-map (Before-NewBackup os b) (p.keeps w h.all) }

  go_on :
      {A : Type 0} {R : World → Type 0} (c : Bool) (m x : M A)
      → Triple (Going R true) m NewSoFar
      → Keeps (Before b) x
      → Triple (Going R c) (if c then m else x) NewSoFar
  go_on true m x t p = t
  go_on false m x t p = stopped x p

  record Renamed (c : Bool) (w : World) : Type 0 where
    unmarked : c ≡ false → AtAllTimes (Before b) old w
    made : AtAllTimes (NewBackup os b) old w

  renaming : Triple (Going (Complete os b) true) (rename_dir os backup_tmp backup) Renamed
  unfolding rename_dir called NewBackup
  renaming = record {
    run = λ w h.
        let c = h.next refl in
        let kept = (called-Keeps os).keeps w h.all in
        let good =
          os.ok w.calls
          && (is_some (w.disk.backup_tmp_dir)
              && (not (is_some (w.disk.backup_dir)) || is_empty (w.disk.backup_dir))) in
        elim (Bool-cases good) [
          | inl e ↦
              rw (rename_dir, e)
                record {
                  unmarked = λ f. absurd cc;
                  made =
                      change-AtAllTimes (NewBackup os b) _ _ (c.boot_same, inr c.tmp)
                        (AtAllTimes-map (Before-NewBackup os b) kept);
                }
          | inr e ↦
              rw (rename_dir, e)
                record { unmarked = λ f. kept; made = AtAllTimes-map (Before-NewBackup os b) kept }
        ];
  }

  after_rename :
      (moved : Bool)
      → Triple
          (Renamed moved)
          (if moved then (fsync_dir os state >>= λ x. pure true) else give_up os)
          NewSoFar
  unfolding NewSoFar
  after_rename true = record {
    run = λ w h. (bind-Keeps _ _ (fsync_dir-Keeps os state) (λ x. pure-Keeps true)).keeps w h.made;
  }
  after_rename false = record {
    run = λ w h.
        AtAllTimes-map (Before-NewBackup os b) ((give_up-Keeps b os).keeps w (h.unmarked refl));
  }

  fill_end :
      (kernel : Name)
      → valid_kernel_name kernel ≡ true
      → Selected os b kernel
      → (version : List ℕ) (good : Bool)
      → Triple
          (Going (Filled b (add_names (file_names ++ (kernel ∷ [])) [])) good)
          (if good then finish_backup os version else pure false)
          NewSoFar
  unfolding finish_backup
  fill_end kernel ok chosen version good =
      go_on good _ _
        (bind-Triple _ _
          (going _
            (write_file_atomic-Keeps os backup_tmp version_name _ (tmp-put b _) (tmp-remove b _)
              (tmp-move b _ _))
            (version-Complete b os kernel ok chosen _))
          (λ written.
            go_on written _ _ (bind-Triple _ _ renaming after_rename) (give_up-Keeps b os)))
        (pure-Keeps false)

  -- The kernel that was read is a valid name, and reading changes nothing.
  record Read (kernel : Name) (w : World) : Type 0 where
    safe : AtAllTimes (Before b) old w
    empty : Filled b [] w
    valid : valid_kernel_name kernel ≡ true
    chosen : Selected os b kernel

  reading : Triple (Going (Filled b []) true) (current_kernel os) Read
  reading = record {
    run = λ w h. record {
      safe = (current_kernel-Keeps b os).keeps w h.all;
      empty = Filled-disk b [] w _ (current_kernel_same os w) (h.next refl);
      valid = current_kernel_valid os w;
      chosen =
          subst (λ f. Selected os f (current_kernel os w).0) (h.next refl).boot_same
            (current_kernel-Selected os w);
    };
  }

  fill_backup-New :
      (version : List ℕ) → Triple (Going (Filled b []) true) (fill_backup os version) NewSoFar
  unfolding fill_backup
  fill_backup-New version = bind-Triple _ _ reading (λ kernel. record {
    run = λ w h.
        let names = file_names ++ (kernel ∷ []) in
        let g : Going (Filled b []) true w = record { all = h.safe; next = λ e. h.empty } in
        (bind-Triple _ _
            (going _ (back_up_files-Keeps b os names) (back_up_files-Filled b os names []))
            (fill_end kernel h.valid h.chosen version)).run
          w g;
  })

  unfoldable pub SoFar : {A : Type 0} → A → World → Type 0
  SoFar a w = AtAllTimes (Before b) old w

  making : Triple (SoFar tt) (mkdir os backup_tmp) (Going (Filled b []))
  unfolding mkdir called Before find_file has_name SoFar change
  making = record {
    run = λ w h. elim (Bool-cases (os.ok w.calls && not (is_some (w.disk.backup_tmp_dir)))) [
      | inl e ↦
          rw (mkdir, e)
            record {
              all = change-AtAllTimes (Before b) _ _ h.now ((called-Keeps os).keeps w h);
              next = λ r. record { boot_same = h.now.0; files = []; tmp = refl; exact = λ n. refl };
            }
      | inr e ↦ rw (mkdir, e) record { all = (called-Keeps os).keeps w h; next = λ r. absurd cc }
    ];
  }

  unless_New :
      {A : Type 0} {P : World → Type 0} (c : Bool) (a : A) (m : M A)
      → Triple P (pure a) NewSoFar
      → Triple P m NewSoFar
      → Triple P (if c then pure a else m) NewSoFar
  unless_New true a m s t = s
  unless_New false a m s t = t

  pub back_up-New : (version : List ℕ) → Triple (SoFar tt) (back_up os version) NewSoFar
  unfolding back_up SoFar NewSoFar
  back_up-New version =
      unless_New _ false _ record { run = λ w h. AtAllTimes-map (Before-NewBackup os b) h }
        (bind-Triple (remove_flat_dir os backup_tmp) _
          record { run = λ w h. (remove_tmp-Keeps b os).keeps w h }
          (λ x.
            bind-Triple (remove_flat_dir os backup) _
              record { run = λ w h. (remove_backup-Keeps b os).keeps w h }
              (λ y.
                bind-Triple _ _ making
                  (λ made. go_on made _ _ (fill_backup-New version) (pure-Keeps false)))))
