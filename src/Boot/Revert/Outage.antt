-- ===== src/Boot/Revert/Outage.antt =====
-- What `bootRecoveryRevert` of include/boot_recovery.hpp keeps, up to the restore.
use audiox.Prelude.{
  ◌||◌, if◌then◌else◌, codes, Bool, inr, inl, bytes_eq, Bool-cases, ◌∙◌, ap, sym, subst, ◌++◌, ◌⊎◌,
  ℕ, ◌≡◌, List, Option, [], some, none, true, false, refl,
}
use audiox.Boot.Disk.{is_some, path_fits, remove_file, put_file, put_dir, Dir, find_file, file_in}
use audiox.Boot.Disk.{Name, Files, Disk, Os, root, state, backup}
use audiox.Boot.Files.{tmp_suffix}
use audiox.Boot.Kept.{
  pure-Keeps, called-Keeps, if-Keeps, bind-Keeps, KeptByRemove, KeptByPut, KeptByMove, Keeps,
}
use audiox.Boot.Kept.Writes.{
  get_dir-Keeps, fsync_dir-Keeps, rename_or_unlink-Keeps, write_now-Keeps, get_file-Keeps,
  create-Keeps,
}
use audiox.Boot.Names.{
  events_name, trim_line, version_name, list_backup, is_boot_file, trial_name, report_name,
}
use audiox.Boot.Revert.{
  restored_version, restore_names, report_bytes, restore_suffix, write_report, report_file,
  report_append_file, report_text,
}
use audiox.Boot.Revert.Restore.{IsRestorable}
use audiox.Boot.Disk.Laws.{find-put_self, find-remove_ne, find-put_ne}
use audiox.Boot.Revert.Suffix.{restore_suffix-differs}
use audiox.Prelude.Text.{bytes_eq→eq}
use audiox.Boot.Kept.Dirs.{mkdir-Keeps, read_small_file-Keeps}
use audiox.Boot.Trial.{exists, has_backup, ensure_state_dir}
use audiox.Update.Names.{until_nul}

-- Every boot file is the one that was there or the one of the backup, whole.
unfoldable pub EachWhole : Option Files → Option Files → Disk → Type 0
EachWhole b bk k =
    (n : Name)
    → is_boot_file n ≡ true
    → (file_in n k.boot_dir ≡ file_in n b) ⊎ (file_in n k.boot_dir ≡ file_in n bk)

-- The backup is `bk`, and the trial file as it was.
unfoldable pub TrialKept : Option Files → Option (List ℕ) → Disk → Type 0
TrialKept bk trial k = (k.backup_dir ≡ bk) × (file_in trial_name k.state_dir ≡ trial)

unfoldable pub Restoring : Option Files → Option Files → Option (List ℕ) → Disk → Type 0
Restoring b bk trial k = EachWhole b bk k × TrialKept bk trial k

module _ (b bk : Option Files) (trial : Option (List ℕ)) where
  pub Restoring-IsRestorable : IsRestorable bk (Restoring b bk trial)
  unfolding Restoring EachWhole TrialKept KeptByPut KeptByRemove file_in
  Restoring-IsRestorable = record {
    same_backup = λ k h. h.1.0;
    put_ok = λ n t fs k e h. (
      λ m ok.
          subst (λ f. (f ≡ file_in m b) ⊎ (f ≡ file_in m bk))
            (ap (file_in m) e ∙ sym (find-put_ne m _ t fs (restore_suffix-differs n m ok)))
            (h.0 m ok),
      h.1,
    );
    remove_ok = λ n fs k e h. (
      λ m ok.
          subst (λ f. (f ≡ file_in m b) ⊎ (f ≡ file_in m bk))
            (ap (file_in m) e ∙ sym (find-remove_ne m _ fs (restore_suffix-differs n m ok)))
            (h.0 m ok),
      h.1,
    );
    move_ok = λ n ok t source fs k e h. (
      λ m mok. elim (Bool-cases (bytes_eq n m)) [
        | inl f ↦ inr (
            subst
              (λ x.
                find_file x (put_file n t (remove_file (n ++ restore_suffix) fs)) ≡ file_in x bk)
              (bytes_eq→eq n m f) (find-put_self n t _ ∙ sym source))
        | inr f ↦
            subst (λ x. (x ≡ file_in m b) ⊎ (x ≡ file_in m bk))
              (ap (file_in m) e
                ∙ sym (find-remove_ne m _ fs (restore_suffix-differs n m mok))
                ∙ sym (find-put_ne m n t _ f))
              (h.0 m mok)
      ],
      h.1,
    );
  }

  -- The report does not touch the trial.
  report-put : KeptByPut (Restoring b bk trial) state (report_name ++ tmp_suffix)
  unfolding Restoring EachWhole TrialKept KeptByPut file_in
  report-put t fs k e h =
      (h.0, (h.1.0, find-put_ne trial_name _ t fs refl ∙ sym (ap (file_in trial_name) e) ∙ h.1.1))

  report-remove : KeptByRemove (Restoring b bk trial) state (report_name ++ tmp_suffix)
  unfolding Restoring EachWhole TrialKept KeptByRemove file_in
  report-remove fs k e h =
      (h.0, (h.1.0, find-remove_ne trial_name _ fs refl ∙ sym (ap (file_in trial_name) e) ∙ h.1.1))

  report-move : KeptByMove (Restoring b bk trial) state (report_name ++ tmp_suffix) report_name
  unfolding Restoring EachWhole TrialKept KeptByMove file_in
  report-move t fs k e f h = (
    h.0,
    (
      h.1.0,
      find-put_ne trial_name _ t _ refl
          ∙ find-remove_ne trial_name _ fs refl
          ∙ sym (ap (file_in trial_name) e)
          ∙ h.1.1,
    ),
  )

  state-made :
      (k : Disk)
      → k.state_dir ≡ none
      → Restoring b bk trial k
      → Restoring b bk trial (put_dir state (some []) k)
  unfolding Restoring EachWhole TrialKept file_in find_file
  state-made k e h = (h.0, (h.1.0, sym (ap (file_in trial_name) e) ∙ h.1.1))

  module _ (os : Os) where
    told-Keeps :
        (title : List ℕ) (text : Option (List ℕ)) (opened sized : Bool)
        → Keeps (Restoring b bk trial) (report_bytes os title text opened sized)
    unfolding report_bytes
    told-Keeps title text opened sized = record { keeps = λ w h. h }

    report_append_file-Keeps :
        (title : List ℕ) (d : Dir) (n : Name)
        → Keeps (Restoring b bk trial) (report_append_file os title d n)
    unfolding report_append_file
    report_append_file-Keeps title d n = bind-Keeps _ _ (get_file-Keeps d n) (λ text.
        bind-Keeps _ _ (called-Keeps os) (λ opened.
          bind-Keeps _ _ (called-Keeps os) (λ sized. told-Keeps title text opened sized)))

    report_file-Keeps :
        (title : List ℕ) (d : Dir) (n : Name)
        → Keeps (Restoring b bk trial) (report_file os title d n)
    unfolding report_file
    report_file-Keeps title d n = if-Keeps _ (report_append_file-Keeps title d n) (pure-Keeps [])

    report_text-Keeps : (head : List ℕ) → Keeps (Restoring b bk trial) (report_text os head)
    unfolding report_text
    report_text-Keeps head =
        bind-Keeps _ _ (report_file-Keeps (codes "boot trial events") state events_name) (λ events.
          bind-Keeps _ _
            (report_file-Keeps (codes "stdout.log from the last failed attempt") root
              (codes "stdout.log"))
            (λ out.
              bind-Keeps _ _
                (report_file-Keeps (codes "stderr.log from the last failed attempt") root
                  (codes "stderr.log"))
                (λ err. pure-Keeps (head ++ events ++ out ++ err))))

    pub write_report-Keeps : (head : List ℕ) → Keeps (Restoring b bk trial) (write_report os head)
    unfolding write_report
    write_report-Keeps head = bind-Keeps _ _ (create-Keeps os state _ report-put) (λ opened.
        if-Keeps opened
          (bind-Keeps _ _ (report_text-Keeps head) (λ text.
            bind-Keeps _ _ (write_now-Keeps os state _ text [] report-put) (λ x.
              bind-Keeps _ _ (called-Keeps os) (λ y.
                bind-Keeps _ _ (rename_or_unlink-Keeps os state _ _ report-move report-remove)
                  (λ z. bind-Keeps _ _ (fsync_dir-Keeps os state) (λ u. pure-Keeps tt))))))
          (pure-Keeps tt))

    pub made_state-Keeps : Keeps (Restoring b bk trial) (ensure_state_dir os)
    unfolding ensure_state_dir
    made_state-Keeps =
        if-Keeps _
          (bind-Keeps _ _ (mkdir-Keeps os state state-made) (λ made.
            bind-Keeps _ _ (get_dir-Keeps state) (λ there. pure-Keeps (made || is_some there))))
          (pure-Keeps false)

    pub restored_version-Keeps :
        (kept : Bool) → Keeps (Restoring b bk trial) (restored_version os kept)
    unfolding restored_version
    restored_version-Keeps false = pure-Keeps (codes "none")
    restored_version-Keeps true =
        if-Keeps _
          (bind-Keeps _ _ (read_small_file-Keeps os backup version_name 128) (λ text.
            pure-Keeps (trim_line (until_nul (elim text [ none ↦ [] | some bytes ↦ bytes ])))))
          (pure-Keeps (codes "none"))

    pub restore_names-Keeps : (kept : Bool) → Keeps (Restoring b bk trial) (restore_names os kept)
    unfolding restore_names
    restore_names-Keeps false = pure-Keeps []
    restore_names-Keeps true = bind-Keeps _ _ (get_dir-Keeps backup) (λ entries.
        bind-Keeps _ _ (called-Keeps os) (λ listed.
          pure-Keeps
            (elim entries [ none ↦ [] | some fs ↦ if listed then list_backup fs else [] ])))

    pub has_backup-Keeps : Keeps (Restoring b bk trial) (has_backup os)
    unfolding has_backup exists
    has_backup-Keeps = record {
      keeps = λ w h. elim (Bool-cases (path_fits os backup version_name 0)) [
        | inl e ↦ rw (has_backup, e) h
        | inr e ↦ rw (has_backup, e) h
      ];
    }
