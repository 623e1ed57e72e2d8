-- ===== src/Boot/Trial/Prepared/Outage.antt =====
-- `bootRecoveryPrepareUpdate` of include/boot_recovery.hpp as a whole, at all times.
use audiox.Prelude.{Bool-cases, ap, ◌⊎◌, ◌≡◌, ℕ, Option, List, none, true, false, refl}
use audiox.Boot.Disk.{is_some, file_in, path_fits, unlink, put_dir}
use audiox.Boot.Disk.{Name, Files, Disk, Os, World, state, backup}
use audiox.Boot.Kept.{pure-Keeps, if-Keeps, bind-Keeps, KeptByMove, KeptByRemove, KeptByPut, Keeps}
use audiox.Boot.Kept.Writes.{unlink-Keeps}
use audiox.Boot.Names.{trial_text, trial_name, events_name, version_name}
use audiox.Boot.Trial.{write_file_atomic, ℕ, exists, start_trial, has_backup, clear_state_file}
use audiox.Boot.Kept.Dirs.{write_file_atomic-Keeps}
use audiox.Boot.Trial.Prepared.{Bool-cases, ap, IsBackup}

-- The boot files are `b`. The backup is the old one; or that one is not marked, and the backup is
-- not marked, or a whole copy of the boot files.
unfoldable pub IsSafe : Os → Option Files → Option Files → Disk → Type 0
IsSafe os b old k =
    (k.boot_dir ≡ b)
    × ((k.backup_dir ≡ old)
        ⊎ ((file_in version_name old ≡ none)
            × ((file_in version_name k.backup_dir ≡ none) ⊎ IsBackup os b k.backup_dir)))

-- A property that the state directory does not matter to.
unfoldable pub OnState : (Disk → Type 0) → Type 0
OnState P = (f : Option Files) (k : Disk) → P k → P (put_dir state f k)

module _ {P : Disk → Type 0} (os : Os) (c : OnState P) where
  write_state-Keeps : (n : Name) (text : List ℕ) → Keeps P (write_file_atomic os state n text)
  unfolding OnState KeptByPut KeptByRemove KeptByMove
  write_state-Keeps n text =
      write_file_atomic-Keeps os state n text (λ t fs k e h. c _ k h) (λ fs k e h. c _ k h)
        (λ t fs k e f h. c _ k h)

  unlink_state-Keeps : (n : Name) → Keeps P (unlink os state n)
  unfolding OnState KeptByRemove
  unlink_state-Keeps n = unlink-Keeps os state n (λ fs k e h. c _ k h)

  pub clear_state_file-Keeps : (n : Name) → Keeps P (clear_state_file os n)
  unfolding clear_state_file
  clear_state_file-Keeps n = if-Keeps _ (unlink_state-Keeps n) (pure-Keeps false)

  pub start_trial-Keeps : Keeps P (start_trial os)
  unfolding start_trial
  start_trial-Keeps =
      bind-Keeps _ _ (clear_state_file-Keeps events_name)
        (λ x. write_state-Keeps trial_name (trial_text 0))

pub has_backup_reads :
    (os : Os) (w : World)
    → path_fits os backup version_name 0 ≡ true
    → has_backup os w ≡ (is_some (file_in version_name w.disk.backup_dir), w)
unfolding has_backup exists
has_backup_reads os w e = rw (has_backup, e) refl
