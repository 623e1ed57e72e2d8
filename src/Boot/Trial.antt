-- ===== src/Boot/Trial.antt =====
-- The operations of include/boot_recovery.hpp on a trial: `bootRecoveryPrepareUpdate`,
-- `bootRecoveryBeginBoot` and `bootRecoveryConfirm`. What access() answers is what the disk holds.
pub mod Attempts
pub mod Safe
pub mod Backup
pub mod Prepared
use audiox.Boot.Files.{
  read_small_file, remove_flat_dir, copy_file, write_file_atomic, tmp_suffix, append_text,
  fsync_dir,
}
use audiox.Prelude.{
  ◌+◌, ◌==◌, ◌||◌, ◌++◌, leb, codes, take, not, Option, ℕ, if◌then◌else◌, List, Bool, ◌∷◌, [], some,
  none, true, false,
}
use audiox.Boot.Disk.{
  rename_dir, get_dir, backup_tmp, unlink, mkdir, dir_of, state, root, file_in, boot, backup,
  path_fits, is_some, Dir, Name, Os, M, ◌>>=◌, pure,
}
use audiox.Boot.Names.{
  trial_text, read_attempts, or_default, version_name, max_attempts, config_name, backup_name,
  file_names, events_name, dir_name, trial_name,
}
use audiox.Prelude.Decimal.{decimal}
use audiox.Update.Names.{config_kernel_name}

pub data BootTrialAction : Type 0 where
  trial_none trial_attempt trial_revert : BootTrialAction

unfoldable pub exists : Dir → Name → M Bool
exists d n w = (is_some (file_in n (dir_of d w.disk)), w)

unfoldable pub last_byte : List ℕ → ℕ
last_byte [] = 0
last_byte (c ∷ []) = c
last_byte (c ∷ b ∷ bs) = last_byte (b ∷ bs)

-- The line for the log, in a buffer of 256 bytes.
unfoldable pub event_line : ℕ → List ℕ → List ℕ
event_line attempts version = take 255 (
    codes "[BOOT] trial attempt "
    ++ decimal attempts
    ++ codes "/3, runtime version "
    ++ or_default version (codes "unknown")
    ++ (if last_byte version == 10 then [] else codes "\n"))

module _ (os : Os) where
  unfoldable pub ensure_state_dir : M Bool
  ensure_state_dir =
      if path_fits os root dir_name 0
      then (do made ← mkdir os state; there ← get_dir state; pure (made || is_some there))
      else pure false

  unfoldable pub has_backup : M Bool
  has_backup = if path_fits os backup version_name 0 then exists backup version_name else pure false

  unfoldable pub trial_pending : M Bool
  trial_pending = if path_fits os state trial_name 0 then exists state trial_name else pure false

  -- The kernel that config.txt on the boot partition selects.
  unfoldable pub current_kernel : M Name
  current_kernel =
      if path_fits os boot config_name 0
      then (do
        text ← read_small_file os boot config_name 16384
        pure (config_kernel_name (elim text [ none ↦ [] | some bytes ↦ bytes ])))
      else pure (config_kernel_name [])

  unfoldable pub give_up : M Bool
  give_up = do _ ← remove_flat_dir os backup_tmp; pure false

  -- One name of the loop over `backup_names`, and the loop: false where the function returns -1.
  unfoldable pub back_up_file : Name → M Bool
  back_up_file n =
      if not (path_fits os boot n 0) || not (path_fits os backup_tmp n 0) then pure false else do
        there ← exists boot n
        if there
            then (do good ← copy_file os boot n backup_tmp n; if good then pure true else give_up)
            else pure true

  unfoldable pub back_up_files : List Name → M Bool
  back_up_files [] = pure true
  back_up_files (n ∷ ns) = do good ← back_up_file n; if good then back_up_files ns else pure false

  -- The version file marks the copy as whole; then it becomes the backup.
  unfoldable pub finish_backup : List ℕ → M Bool
  finish_backup version = do
    written ← write_file_atomic os backup_tmp version_name (or_default version (codes "unknown\n"))
    if written
        then (do
          moved ← rename_dir os backup_tmp backup
          if moved then (do _ ← fsync_dir os state; pure true) else give_up)
        else give_up

  unfoldable pub fill_backup : List ℕ → M Bool
  fill_backup version = do
    kernel ← current_kernel
    good ← back_up_files (file_names ++ (kernel ∷ []))
    if good then finish_backup version else pure false

  unfoldable pub back_up : List ℕ → M Bool
  back_up version =
      if not (path_fits os state backup_name 0)
        || not (path_fits os state (backup_name ++ tmp_suffix) 0)
      then pure false
      else do
        _ ← remove_flat_dir os backup_tmp
        _ ← remove_flat_dir os backup
        made ← mkdir os backup_tmp
        if made then fill_backup version else pure false

  -- unlink() of a file of the state directory, if its path fits.
  unfoldable pub clear_state_file : Name → M Bool
  clear_state_file n = if path_fits os state n 0 then unlink os state n else pure false

  unfoldable pub start_trial : M Bool
  start_trial = do
    _ ← clear_state_file events_name
    write_file_atomic os state trial_name (trial_text 0)

  -- A backup that is there is kept: it is the last boot set known to be good.
  unfoldable pub save_boot_files : List ℕ → Bool → M Bool
  save_boot_files version kept = if kept then pure true else back_up version

  unfoldable pub save_and_start : List ℕ → M Bool
  save_and_start version = do
    kept ← has_backup
    saved ← save_boot_files version kept
    if saved then start_trial else pure false

  unfoldable pub prepare_update : List ℕ → M Bool
  prepare_update version = do
    ready ← ensure_state_dir
    if ready then save_and_start version else pure false

  unfoldable pub log_attempt : ℕ → List ℕ → M (Unit {0})
  log_attempt attempts version =
      if path_fits os state events_name 0
      then append_text os state events_name (event_line attempts version)
      else pure tt

  unfoldable pub next_attempt : List ℕ → ℕ → M (BootTrialAction × Option ℕ)
  next_attempt version attempts =
      if leb max_attempts attempts then pure (trial_revert, some attempts) else do
        written ← write_file_atomic os state trial_name (trial_text (attempts + 1))
        if written
            then (do
              _ ← log_attempt (attempts + 1) version
              pure (trial_attempt, some (attempts + 1)))
            else pure (trial_revert, some attempts)

  -- With the text of the trial file.
  unfoldable pub attempt_after : List ℕ → Option (List ℕ) → M (BootTrialAction × Option ℕ)
  attempt_after version none = pure (trial_none, none)
  attempt_after version (some text) = next_attempt version (read_attempts text)

  -- The action, and what `attempts_out` was set to.
  unfoldable pub begin_boot : List ℕ → M (BootTrialAction × Option ℕ)
  begin_boot version =
      if not (path_fits os root dir_name 0) || not (path_fits os state trial_name 0)
      then pure (trial_none, none)
      else do text ← read_small_file os state trial_name 64; attempt_after version text

  unfoldable pub confirm : M (Unit {0})
  confirm =
      if path_fits os root dir_name 0
      then (do
        _ ← clear_state_file trial_name
        _ ← clear_state_file events_name
        _ ← (if path_fits os state backup_name 0 then remove_flat_dir os backup else pure tt)
        _ ← fsync_dir os state
        pure tt)
      else pure tt
