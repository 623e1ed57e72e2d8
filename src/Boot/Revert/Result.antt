-- ===== src/Boot/Revert/Result.antt =====
-- `bootRecoveryRevert` of include/boot_recovery.hpp as a whole.
use audiox.Prelude.{
  ◌&&◌, ◌-◌, if◌then◌else◌, ltb, bytes_eq, length, ◌≢◌, leb, inr, Option-cases, ◌++◌, ℕ, inl, Bool,
  ◌≡◌, List, Bool-cases, Option, ◌∷◌, [], true, false, refl,
}
use audiox.Boot.Disk.{path_fits, file_in, M, called, get_dir, ◌>>=◌, pure}
use audiox.Boot.Disk.{Name, Files, Disk, Os, World, state, backup}
use audiox.Boot.Exact.{bind-Triple, Triple}
use audiox.Boot.Kept.{
  starts, pure-Keeps, bind-Keeps, KeptByRemove, AtAllTimes-map, AtAllTimes, Keeps,
}
use audiox.Boot.Kept.Writes.{fsync_dir-Keeps}
use audiox.Boot.Names.{
  backup_name, report_name, max_files, events_name, note_entry, list_loop, list_backup, has_name,
  is_boot_file, trial_name, config_name,
}
use audiox.Boot.Revert.{
  failed_text, report_head, restored_version, restore_files, revert, restore_reported, ltb,
  write_report, restore_and_clear, clear_trial, ℕ, Bool, List, restore_names, Option, RevertResult,
  revert_failed, reverted, no_backup,
}
use audiox.Boot.Revert.Restore.{restore_files-Keeps, AllBoot}
use audiox.Boot.Revert.Outage.{
  restored_version-Keeps, has_backup-Keeps, made_state-Keeps, write_report-Keeps,
  Restoring-IsRestorable, restore_names-Keeps, TrialKept, Restoring, EachWhole,
}
use audiox.Boot.Trial.Prepared.Outage.{clear_state_file-Keeps, OnState}
use audiox.Boot.Files.{remove_flat_dir}
use audiox.Update.Names.{value_max}
use audiox.Boot.Kept.Dirs.{remove_flat_dir-Keeps}
use audiox.Prelude.{length}

-- At all times each boot file is whole; after a failure the backup and the trial are kept.
pub record Outcome (b bk : Option Files) (trial : Option (List ℕ)) (old : List Disk)
    (r : RevertResult) (w : World) : Type 0 where
  pub all : AtAllTimes (EachWhole b bk) old w
  pub failed : r ≡ revert_failed → TrialKept bk trial w.disk

AllBoot-append : (ms ns : List Name) → AllBoot ms → AllBoot ns → AllBoot (ms ++ ns)
unfolding AllBoot
AllBoot-append [] ns h k = k
AllBoot-append (m ∷ ms) ns h k = (h.0, AllBoot-append ms ns h.1 k)

note_entry-AllBoot :
    (n : Name) (found : List Name × Bool) → AllBoot found.0 → AllBoot (note_entry n found).0
unfolding note_entry AllBoot
note_entry-AllBoot n (names, has_config) h = elim (Bool-cases (is_boot_file n)) [
  | inr e ↦ rw (note_entry, e) h
  | inl e ↦ elim (Bool-cases (leb value_max (length n))) [
    | inl f ↦ rw (note_entry, e, f) h
    | inr f ↦ elim (Bool-cases (bytes_eq n config_name)) [
      | inl g ↦ rw (note_entry, e, f, g) h
      | inr g ↦ elim (Bool-cases (ltb (length names) (max_files - 1))) [
        | inl p ↦ rw (note_entry, e, f, g, p) (AllBoot-append names (n ∷ []) h (e, tt))
        | inr p ↦ rw (note_entry, e, f, g, p) h
      ]
    ]
  ]
]

list_loop-AllBoot :
    (fs : Files) (found : List Name × Bool) → AllBoot found.0 → AllBoot (list_loop fs found).0
unfolding list_loop
list_loop-AllBoot [] found h = h
list_loop-AllBoot ((n, t) ∷ fs) found h = list_loop-AllBoot fs _ (note_entry-AllBoot n found h)

config_is_boot : is_boot_file config_name ≡ true
unfolding is_boot_file has_name
config_is_boot = refl

list_backup-AllBoot : (fs : Files) → AllBoot (list_backup fs)
unfolding list_backup AllBoot
list_backup-AllBoot fs =
    let h = list_loop-AllBoot fs ([], false) tt in
    elim (Bool-cases (list_loop fs ([], false)).1) [
      | inl e ↦ rw (list_backup, e) (AllBoot-append _ (config_name ∷ []) h (config_is_boot, tt))
      | inr e ↦ rw (list_backup, e) h
    ]

restore_names-AllBoot : (os : Os) (kept : Bool) (w : World) → AllBoot (restore_names os kept w).0
unfolding restore_names AllBoot get_dir called
restore_names-AllBoot os false w = tt
restore_names-AllBoot os true w = elim (Option-cases w.disk.backup_dir) [
  | inl e ↦ rw (restore_names, e) tt
  | inr (fs, e) ↦ elim (Bool-cases (os.ok w.calls)) [
    | inl f ↦ rw (restore_names, e, f) (list_backup-AllBoot fs)
    | inr f ↦ rw (restore_names, e, f) tt
  ]
]

module _ (b bk : Option Files) (trial : Option (List ℕ)) (old : List Disk) (os : Os) where
  SoFar : World → Type 0
  SoFar w = AtAllTimes (Restoring b bk trial) old w

  whole : {w : World} → AtAllTimes (Restoring b bk trial) old w → AtAllTimes (EachWhole b bk) old w
  unfolding Restoring
  whole h = AtAllTimes-map (λ k p. p.0) h

  by_keeping : {A : Type 0} (m : M A) → Keeps (Restoring b bk trial) m → Triple SoFar m (λ a. SoFar)
  unfolding SoFar
  by_keeping m p = record { run = λ w h. p.keeps w h }

  stop : Triple SoFar (pure revert_failed) (Outcome b bk trial old)
  unfolding SoFar Restoring
  stop = record { run = λ w h. record { all = whole h; failed = λ e. h.now.1 } }

  on_state : OnState (EachWhole b bk)
  unfolding OnState EachWhole
  on_state f k h = h

  remove_backup : Keeps (EachWhole b bk) (remove_flat_dir os backup)
  unfolding EachWhole KeptByRemove
  remove_backup = remove_flat_dir-Keeps os backup (λ n fs k e h. h) (λ k h. h)

  clearing : (kept : Bool) → Keeps (EachWhole b bk) (clear_trial os kept)
  unfolding clear_trial
  clearing kept = bind-Keeps _ _ (clear_state_file-Keeps os on_state trial_name) (λ x.
      bind-Keeps _ _ (clear_state_file-Keeps os on_state events_name) (λ y.
        bind-Keeps _ _ remove_backup (λ z.
          bind-Keeps _ _ (fsync_dir-Keeps os state)
            (λ u. pure-Keeps (if kept then reverted else no_backup)))))

  clear_trial_ends : (kept : Bool) (w : World) → (clear_trial os kept w).0 ≢ revert_failed
  unfolding clear_trial
  clear_trial_ends true w e = cc
  clear_trial_ends false w e = cc

  restore_and_clear-Outcome :
      (kept : Bool) (names : List Name)
      → AllBoot names
      → Triple SoFar (restore_and_clear os kept names) (Outcome b bk trial old)
  unfolding restore_and_clear SoFar Restoring
  restore_and_clear-Outcome kept names h = record {
    run = λ w p.
        let q =
          (restore_files-Keeps os bk (Restoring b bk trial) (Restoring-IsRestorable b bk trial)
              names h).keeps
            w p in
        elim (Bool-cases (restore_files os names w).0) [
          | inl e ↦
              rw (restore_and_clear, e)
                record {
                  all = (clearing kept).keeps _ (whole q);
                  failed = λ f. absurd (clear_trial_ends kept _ f);
                }
          | inr e ↦ rw (restore_and_clear, e) record { all = whole q; failed = λ f. q.now.1 }
        ];
  }

  reported :
      (kept : Bool) (names : List Name)
      → AllBoot names
      → (text : List ℕ)
      → Triple SoFar
          (write_report os text >>= λ x. restore_and_clear os kept names)
          (Outcome b bk trial old)
  reported kept names h text =
      bind-Triple _ _ (by_keeping _ (write_report-Keeps b bk trial os text))
        (λ x. restore_and_clear-Outcome kept names h)

  -- The names that are restored are boot files.
  record Listed (names : List Name) (w : World) : Type 0 where
    so : SoFar w
    are_boot : AllBoot names

  listing : (kept : Bool) → Triple SoFar (restore_names os kept) Listed
  unfolding SoFar
  listing kept = record {
    run = λ w h. record {
      so = (restore_names-Keeps b bk trial os kept).keeps w h;
      are_boot = restore_names-AllBoot os kept w;
    };
  }

  either_way :
      (c : Bool) (m : M RevertResult)
      → Triple SoFar m (Outcome b bk trial old)
      → Triple SoFar (if c then m else pure revert_failed) (Outcome b bk trial old)
  either_way true m t = t
  either_way false m t = stop

  with_version :
      (kept : Bool) (names : List Name) (h : AllBoot names) (version : List ℕ) (attempts : ℕ)
      → Triple SoFar
          (restored_version os kept >>= λ restored.
            restore_reported os version attempts kept names restored)
          (Outcome b bk trial old)
  unfolding restore_reported
  with_version kept names h version attempts =
      bind-Triple _ _ (by_keeping _ (restored_version-Keeps b bk trial os kept)) (λ restored.
        either_way (path_fits os state report_name 0 && path_fits os state report_name 4) _ (
          reported kept names h
            (report_head (failed_text os version) restored attempts kept names)))

  restoring :
      (kept : Bool) (names : List Name) (version : List ℕ) (attempts : ℕ)
      → Triple
          (Listed names)
          (restored_version os kept >>= λ restored.
            restore_reported os version attempts kept names restored)
          (Outcome b bk trial old)
  restoring kept names version attempts = record {
    run = λ w h. (with_version kept names h.are_boot version attempts).run w h.so;
  }

  revert-Triple :
      (version : List ℕ) (attempts : ℕ)
      → Triple SoFar (revert os version attempts) (Outcome b bk trial old)
  unfolding revert
  revert-Triple version attempts =
      bind-Triple _ _ (by_keeping _ (made_state-Keeps b bk trial os)) (λ ready.
        either_way (ready && path_fits os state backup_name 0) _ (
          bind-Triple _ _ (by_keeping _ (has_backup-Keeps b bk trial os)) (λ kept.
            bind-Triple _ _ (listing kept) (λ names. restoring kept names version attempts))))

-- At every moment of a revert, each boot file is either the one that was there or the one of the
-- backup, never a torn one. Where it returns -1, the backup and the trial file are as they were, so
-- that the next boot tries again.
pub revert_outcome :
    (os : Os) (version : List ℕ) (attempts : ℕ) (w : World)
    → Outcome w.disk.boot_dir w.disk.backup_dir
        (file_in trial_name w.disk.state_dir)
        w.past
        (revert os version attempts w).0
        (revert os version attempts w).1
unfolding SoFar Restoring EachWhole TrialKept
revert_outcome os version attempts w =
    (revert-Triple w.disk.boot_dir w.disk.backup_dir (file_in trial_name w.disk.state_dir) w.past os
        version attempts).run
      w (starts w ((λ n e. inl refl), (refl, refl)))
