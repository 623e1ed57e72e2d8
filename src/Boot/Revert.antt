-- ===== src/Boot/Revert.antt =====
-- `bootRecoveryRevert` of include/boot_recovery.hpp and the report that it writes.
pub mod Suffix
pub mod Restore
pub mod Outage
pub mod Result
pub mod Restored
use audiox.Boot.Names.{
  report_name, list_backup, version_name, trim_line, backup_name, trial_name, events_name,
  or_default,
}
use audiox.Prelude.Decimal.{decimal}
use audiox.Boot.Trial.{exists, clear_state_file, ensure_state_dir, has_backup}
use audiox.Boot.Disk.{
  root, unlink, read_interrupted, read_failed, got, called, state, path_fits, get_file, boot,
  backup, rename, get_dir, create, ReadAnswer, Dir, Name, Os, M, ◌>>=◌, pure, World,
}
use audiox.Boot.Files.{
  write_now, rename_or_unlink, fsync_dir, tmp_suffix, remove_flat_dir, read_small_file, write_all,
  copy_file,
}
use audiox.Prelude.{
  Option, ◌-◌, drop, suc, ◌||◌, take, length, not, ltb, ◌++◌, ◌*◌, ◌&&◌, if◌then◌else◌, codes, ℕ,
  List, Bool, ◌∷◌, [], some, none, true, false,
}
use audiox.Update.Names.{until_nul}

pub data RevertResult : Type 0 where
  revert_failed reverted no_backup : RevertResult

abbrev pub log_tail_bytes : ℕ
log_tail_bytes = 32 * 1024

abbrev pub restore_suffix : List ℕ
restore_suffix = codes ".restore"

abbrev pub yes_no : Bool → List ℕ
yes_no true = codes "yes"
yes_no false = codes "no"

unfoldable pub comma_separated : List Name → List ℕ
comma_separated [] = []
comma_separated (n ∷ []) = n
comma_separated (n ∷ m ∷ ms) = n ++ codes "," ++ comma_separated (m ∷ ms)

-- The read() loop of `brReportAppendFile`: it ends at the first answer that is no count.
unfoldable pub read_chunks : List ReadAnswer → List ℕ → List ℕ
read_chunks rs [] = []
read_chunks [] (b ∷ rest) = []
read_chunks (read_interrupted ∷ rs) (b ∷ rest) = []
read_chunks (read_failed ∷ rs) (b ∷ rest) = []
read_chunks (got k ws ∷ rs) (b ∷ rest) =
    take (suc k) (b ∷ rest) ++ read_chunks rs (drop (suc k) (b ∷ rest))

abbrev pub report_title : List ℕ → List ℕ
report_title title = codes "\n--- " ++ title ++ codes " ---\n"

-- The end of a file that is longer than `tail_bytes`; fstat() succeeded if `sized`.
unfoldable pub report_tail : Bool → ℕ → List ReadAnswer → List ℕ → List ℕ
report_tail sized tail_bytes rs text =
    if ltb 0 tail_bytes && (sized && ltb tail_bytes (length text))
    then codes "(last "
      ++ decimal tail_bytes
      ++ codes " of "
      ++ decimal (length text)
      ++ codes " bytes)\n"
      ++ read_chunks rs (drop (length text - tail_bytes) text)
    else read_chunks rs text

-- The lines of the report before the files.
unfoldable pub report_head : List ℕ → List ℕ → ℕ → Bool → List Name → List ℕ
report_head failed restored attempts kept names =
    codes "failed_version="
    ++ failed
    ++ codes "\nrestored_version="
    ++ (if kept then restored else codes "none")
    ++ codes "\nattempts="
    ++ decimal attempts
    ++ codes "\nreverted="
    ++ yes_no kept
    ++ codes "\nrestored_files="
    ++ comma_separated names
    ++ codes "\n\nThe updated image failed to stay healthy for "
    ++ decimal attempts
    ++ codes " boot attempt(s).\n"
    ++ (if kept
        then []
        else codes "No backup boot set was available, so the failing image was left in place.\n")

module _ (os : Os) where
  unfoldable pub report_bytes : List ℕ → Option (List ℕ) → Bool → Bool → M (List ℕ)
  report_bytes title text opened sized w =
      let unavailable = codes "(unavailable: " ++ os.message w.calls ++ codes ")\n" in
      (
        report_title title ++ (elim text [
          | none ↦ unavailable
          | some bytes ↦
              if opened
              then report_tail sized log_tail_bytes (os.reads w.calls) bytes
              else unavailable
        ]),
        w,
      )

  -- The part of the report about one file.
  unfoldable pub report_append_file : List ℕ → Dir → Name → M (List ℕ)
  report_append_file title d n = do
    text ← get_file d n
    opened ← called os
    sized ← called os
    report_bytes title text opened sized

  unfoldable pub report_file : List ℕ → Dir → Name → M (List ℕ)
  report_file title d n = if path_fits os d n 0 then report_append_file title d n else pure []

  unfoldable pub report_text : List ℕ → M (List ℕ)
  report_text head = do
    events ← report_file (codes "boot trial events") state events_name
    out ← report_file (codes "stdout.log from the last failed attempt") root (codes "stdout.log")
    err ← report_file (codes "stderr.log from the last failed attempt") root (codes "stderr.log")
    pure (head ++ events ++ out ++ err)

  -- stdio writes the text as far as it can; what it cannot write is lost.
  unfoldable pub write_report : List ℕ → M (Unit {0})
  write_report head = do
    opened ← create os state (report_name ++ tmp_suffix)
    if opened
        then (do
          text ← report_text head
          _ ← write_now os state (report_name ++ tmp_suffix) text []
          _ ← called os
          _ ← rename_or_unlink os state (report_name ++ tmp_suffix) report_name
          _ ← fsync_dir os state
          pure tt)
        else pure tt

  -- The names to restore; none if the directory cannot be listed.
  unfoldable pub restore_names : Bool → M (List Name)
  restore_names false = pure []
  restore_names true = do
    entries ← get_dir backup
    listed ← called os
    pure (elim entries [ none ↦ [] | some fs ↦ if listed then list_backup fs else [] ])

  unfoldable pub restored_version : Bool → M (List ℕ)
  restored_version false = pure (codes "none")
  restored_version true =
      if path_fits os backup version_name 0
      then (do
        text ← read_small_file os backup version_name 128
        pure (trim_line (until_nul (elim text [ none ↦ [] | some bytes ↦ bytes ]))))
      else pure (codes "none")

  -- `brCopyFile(src, tmp) < 0 || rename(tmp, dst) < 0`, negated.
  unfoldable pub move_into_place : Name → Bool → M Bool
  move_into_place n false = pure false
  move_into_place n true = rename os boot (n ++ restore_suffix) n

  unfoldable pub moved_or_unlinked : Name → Bool → M Bool
  moved_or_unlinked n true = pure true
  moved_or_unlinked n false = do _ ← unlink os boot (n ++ restore_suffix); pure false

  unfoldable pub restore_copy : Name → M Bool
  restore_copy n = do
    copied ← copy_file os backup n boot (n ++ restore_suffix)
    moved ← move_into_place n copied
    moved_or_unlinked n moved

  unfoldable pub restore_file : Name → M Bool
  restore_file n =
      if not (path_fits os backup n 0)
        || (not (path_fits os boot n 0) || not (path_fits os boot n 8))
      then pure false
      else do there ← exists backup n; if there then restore_copy n else pure true

  -- Every file is tried; the result is whether all went well.
  unfoldable pub restore_files : List Name → M Bool
  restore_files [] = pure true
  restore_files (n ∷ ns) = do good ← restore_file n; rest ← restore_files ns; pure (good && rest)

  unfoldable pub clear_trial : Bool → M RevertResult
  clear_trial kept = do
    _ ← clear_state_file os trial_name
    _ ← clear_state_file os events_name
    _ ← remove_flat_dir os backup
    _ ← fsync_dir os state
    pure (if kept then reverted else no_backup)

  unfoldable pub failed_text : List ℕ → List ℕ
  failed_text version = trim_line (take 127 (or_default version (codes "unknown")))

  unfoldable pub restore_and_clear : Bool → List Name → M RevertResult
  restore_and_clear kept names = do
    good ← restore_files names
    if good then clear_trial kept else pure revert_failed

  -- With what is to be restored: the report first.
  unfoldable pub restore_reported : List ℕ → ℕ → Bool → List Name → List ℕ → M RevertResult
  restore_reported failed_version attempts kept names restored =
      if path_fits os state report_name 0 && path_fits os state report_name 4
      then (do
        _ ← write_report (report_head (failed_text failed_version) restored attempts kept names)
        restore_and_clear kept names)
      else pure revert_failed

  unfoldable pub revert : List ℕ → ℕ → M RevertResult
  revert failed_version attempts = do
    ready ← ensure_state_dir os
    if ready && path_fits os state backup_name 0
        then (do
          kept ← has_backup os
          names ← restore_names kept
          restored ← restored_version kept
          restore_reported failed_version attempts kept names restored)
        else pure revert_failed
