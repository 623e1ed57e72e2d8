-- ===== src/Boot/Trial/Prepared/Success.antt =====
-- `bootRecoveryPrepareUpdate` of include/boot_recovery.hpp, where it succeeds.
use audiox.Prelude.{
  subst, sym, codes, ◌||◌, ◌++◌, not, Option-cases, ◌&&◌, ℕ, if◌then◌else◌, ◌≡◌, List, Bool-cases,
  Bool, Option, ◌∷◌, [], some, true, false, refl,
}
use audiox.Boot.Disk.{
  is_empty, dir_of, path_fits, pure, find_file, change, rename_dir, file_in, called, mkdir, is_some,
  M, ◌>>=◌,
}
use audiox.Boot.Disk.{Name, Files, Dir, Disk, Os, World, state, backup, backup_tmp}
use audiox.Boot.Exact.{guard-Triple, Ready, bind-Triple, Triple, OnTrue}
use audiox.Boot.Kept.{starts}
use audiox.Boot.Names.{trial_text, or_default, has_name, version_name, trial_name, file_names}
use audiox.Boot.Trial.Backup.{back_up_files-Filled, Filled}
use audiox.Boot.Files.{remove_flat_dir, tmp_suffix, write_temporary, fsync_dir, write_file_atomic}
use audiox.Boot.Trial.{
  save_boot_files, ensure_state_dir, start_trial, save_and_start, prepare_update, back_up, codes,
  not, back_up_files, ℕ, List, Bool, give_up, finish_backup, fill_backup, current_kernel,
}
use audiox.Update.Names.{valid_kernel_name}
use audiox.Boot.Trial.Prepared.{
  subst, sym, version-Complete, inr, inl, Complete, Selected, current_kernel-Selected,
  current_kernel_same, current_kernel_valid,
}
use audiox.Boot.Trial.Prepared.Power.{Filled-disk}
use audiox.Boot.Exact.Atomic.{unless_Triple, write_file_atomic-Replaced, Replaced-find}
use audiox.Boot.Exact.Copy.{create_needs_dir}
use audiox.Boot.Trial.Prepared.Outage.{has_backup_reads, start_trial-Keeps, OnState}

write_file_atomic-writes :
    (os : Os) (d : Dir) (n : Name) (text : List ℕ) (w : World)
    → (write_file_atomic os d n text w).0 ≡ true
    → file_in n (dir_of d (write_file_atomic os d n text w).1.disk) ≡ some text
unfolding write_file_atomic write_temporary
write_file_atomic-writes os d n text w r = elim (Option-cases (dir_of d w.disk)) [
  | inr (fs, e) ↦
      let ready : Ready d fs w.disk w = record { same_disk = refl; listed = e } in
      Replaced-find _ n text fs d w.disk _
        (((write_file_atomic-Replaced os n text).run w ready).on_true r)
  | inl e ↦ elim (Bool-cases (not (path_fits os d n 0) || not (path_fits os d n 4))) [
    | inl f ↦
        let g : (write_file_atomic os d n text w).0 ≡ false = rw (write_file_atomic, f) refl in
        absurd cc
    | inr f ↦
        let h = create_needs_dir os d (n ++ tmp_suffix) w e in
        let g : (write_file_atomic os d n text w).0 ≡ false =
          rw (write_file_atomic, f, write_temporary, h) refl in
        absurd cc
  ]
]

-- The backup has its version file.
pub record Marked (w : World) : Type 0 where
  pub marked : is_some (file_in version_name w.disk.backup_dir) ≡ true

record Anything {A : Type 0} (a : A) (w : World) : Type 0 where

record Emptied (w : World) : Type 0 where
  emptied : Filled w.disk.boot_dir [] w

module _ (os : Os) where
  anything : {A : Type 0} {P : World → Type 0} (m : M A) → Triple P m Anything
  anything m = record { run = λ w h. record {} }

  making : {P : World → Type 0} → Triple P (mkdir os backup_tmp) (OnTrue Emptied)
  unfolding mkdir called find_file has_name change
  making = record {
    run = λ w h. elim (Bool-cases (os.ok w.calls && not (is_some (w.disk.backup_tmp_dir)))) [
      | inl e ↦
          rw (mkdir, e)
            record {
              on_true = λ r. record {
                emptied = record { boot_same = refl; files = []; tmp = refl; exact = λ n. refl };
              };
            }
      | inr e ↦ rw (mkdir, e) record { on_true = λ r. absurd cc }
    ];
  }

  module _ (b : Option Files) where
    record Chosen (kernel : Name) (w : World) : Type 0 where
      empty : Filled b [] w
      valid : valid_kernel_name kernel ≡ true
      chosen : Selected os b kernel

    choosing : Triple (Filled b []) (current_kernel os) Chosen
    choosing = record {
      run = λ w h. record {
        empty = Filled-disk b [] w _ (current_kernel_same os w) h;
        valid = current_kernel_valid os w;
        chosen =
            subst (λ f. Selected os f (current_kernel os w).0) h.boot_same
              (current_kernel-Selected os w);
      };
    }

    renaming : Triple (Complete os b) (rename_dir os backup_tmp backup) (OnTrue Marked)
    unfolding rename_dir called change
    renaming = record {
      run = λ w h.
          elim (Bool-cases (
            os.ok w.calls
            && (is_some (w.disk.backup_tmp_dir)
                && (not (is_some (w.disk.backup_dir)) || is_empty (w.disk.backup_dir))))) [
                  | inl e ↦
                      rw (rename_dir, e) record { on_true = λ r. record { marked = h.tmp.marked } }
                  | inr e ↦ rw (rename_dir, e) record { on_true = λ r. absurd cc }
                ];
    }

    or_give_up :
        {P R : World → Type 0} (c : Bool) (m : M Bool)
        → Triple P m (OnTrue R)
        → Triple (OnTrue P c) (if c then m else give_up os) (OnTrue R)
    unfolding give_up
    or_give_up true m t = record { run = λ w h. t.run w (h.on_true refl) }
    or_give_up false m t = record { run = λ w h. record { on_true = λ e. absurd cc } }

    synced_dir : Triple Marked (fsync_dir os state >>= λ x. pure true) (OnTrue Marked)
    unfolding fsync_dir called
    synced_dir = record { run = λ w h. record { on_true = λ e. record { marked = h.marked } } }

    filling :
        (version : List ℕ) (kernel : Name)
        → Triple
            (Chosen kernel)
            (back_up_files os (file_names ++ (kernel ∷ [])) >>= λ good.
              if good then finish_backup os version else pure false)
            (OnTrue Marked)
    unfolding finish_backup
    filling version kernel = record {
      run = λ w h.
          (bind-Triple _ _ (back_up_files-Filled b os (file_names ++ (kernel ∷ [])) []) (λ good.
              guard-Triple good _ (
                bind-Triple _ _
                  (version-Complete b os kernel h.valid h.chosen
                    (or_default version (codes "unknown\n")))
                  (λ written.
                    or_give_up written _
                      (bind-Triple _ _ renaming (λ moved. or_give_up moved _ synced_dir)))))).run
            w h.empty;
    }

    fill_backup-Marked :
        (version : List ℕ) → Triple (Filled b []) (fill_backup os version) (OnTrue Marked)
    unfolding fill_backup
    fill_backup-Marked version = bind-Triple _ _ choosing (filling version)

  back_up-Marked : (version : List ℕ) → Triple (Anything tt) (back_up os version) (OnTrue Marked)
  unfolding back_up
  back_up-Marked version = unless_Triple _ _ (
      bind-Triple (remove_flat_dir os backup_tmp) _ (anything _) (λ x.
        bind-Triple (remove_flat_dir os backup) _ (anything _) (λ y. bind-Triple _ _ making (λ made.
          guard-Triple made (fill_backup os version)
            record { run = λ w h. (fill_backup-Marked w.disk.boot_dir version).run w h.emptied }))))

IsMarked : Disk → Type 0
IsMarked k = is_some (file_in version_name k.backup_dir) ≡ true

IsMarked-OnState : OnState IsMarked
unfolding OnState IsMarked
IsMarked-OnState f k h = h

-- A trial is under way: there is a marked backup, and no attempt is counted.
pub record OnTrial (w : World) : Type 0 where
  pub saved : is_some (file_in version_name w.disk.backup_dir) ≡ true
  pub uncounted : file_in trial_name w.disk.state_dir ≡ some (trial_text 0)

start_trial-OnTrial :
    (os : Os) (w : World) → Marked w → (start_trial os w).0 ≡ true → OnTrial (start_trial os w).1
unfolding start_trial IsMarked
start_trial-OnTrial os w h r = record {
  saved = ((start_trial-Keeps os IsMarked-OnState).keeps w (starts w h.marked)).now;
  uncounted = write_file_atomic-writes os state trial_name (trial_text 0) _ r;
}

save_and_start-OnTrial :
    (os : Os) (version : List ℕ) (w : World)
    → path_fits os backup version_name 0 ≡ true
    → (save_and_start os version w).0 ≡ true
    → OnTrial (save_and_start os version w).1
unfolding save_and_start save_boot_files
save_and_start-OnTrial os version w short r =
    elim (Option-cases (file_in version_name w.disk.backup_dir)) [
      | inr (t, e) ↦
          let same : save_and_start os version w ≡ start_trial os w =
            rw (save_and_start, has_backup_reads os w short, e) refl in
          rw same (start_trial-OnTrial os w record { marked = rw e refl } (rw (sym same) r))
      | inl e ↦
          let w' = (back_up os version w).1 in
          elim (Bool-cases (back_up os version w).0) [
            | inl f ↦
                let same : save_and_start os version w ≡ start_trial os w' =
                  rw (save_and_start, has_backup_reads os w short, e, f) refl in
                rw same (
                  start_trial-OnTrial os w'
                    (((back_up-Marked os version).run w record {}).on_true f) (rw (sym same) r))
            | inr f ↦
                let g : (save_and_start os version w).0 ≡ false =
                  rw (save_and_start, has_backup_reads os w short, e, f) refl in
                absurd cc
          ]
    ]

-- Where `bootRecoveryPrepareUpdate` returns 0, there is a backup with its version file, and the
-- trial's counter stands at 0.
pub prepare_update-OnTrial :
    (os : Os) (version : List ℕ) (w : World)
    → path_fits os backup version_name 0 ≡ true
    → (prepare_update os version w).0 ≡ true
    → OnTrial (prepare_update os version w).1
unfolding prepare_update
prepare_update-OnTrial os version w short r = elim (Bool-cases (ensure_state_dir os w).0) [
  | inl e ↦
      let w' = (ensure_state_dir os w).1 in
      let same : prepare_update os version w ≡ save_and_start os version w' =
        rw (prepare_update, e) refl in
      rw same (save_and_start-OnTrial os version w' short (rw (sym same) r))
  | inr e ↦
      let g : (prepare_update os version w).0 ≡ false = rw (prepare_update, e) refl in absurd cc
]
