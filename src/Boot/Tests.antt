-- ===== src/Boot/Tests.antt =====
-- Examples for include/boot_recovery.hpp.
use audiox.Boot.Revert.Result.{revert_outcome, Outcome}
use audiox.Prelude.{◌≤◌, ◌≡◌, ℕ, codes, List, ◌∷◌, [], some, none, true, refl}
use audiox.Boot.Disk.{
  unlink, rename_dir, drop_file, rmdir, get_dir, mkdir, backup, boot, rename, create, change,
  set_file, remove_file, put_file, called, get_file, path_length, find_file, path_fits, file_in,
  Name, Files, Os, World, got, wrote,
}
use audiox.Boot.Trial.{
  start_trial, give_up, finish_backup, current_kernel, clear_state_file, back_up_file,
  back_up_files, fill_backup, back_up, has_backup, save_boot_files, save_and_start,
  ensure_state_dir, last_byte, event_line, exists, log_attempt, attempt_after, next_attempt,
  begin_boot, prepare_update,
}
use audiox.Boot.Files.{
  unlink_entries, remove_flat_dir, fsync_dir, rename_or_unlink, write_file_atomic, write_temporary,
  synced, write_now, keep_or_unlink, write_all, read_text, read_now, read_small_file, append_text,
  copy_loop, copy_now, copy_bytes, copy_file,
}
use audiox.Boot.Revert.{
  revert, moved_or_unlinked, move_into_place, restore_copy, restore_file, restore_files,
}
use audiox.Boot.Revert.Restore.{AllBoot}
use audiox.Boot.Trial.Attempts.{attempts_in_a_row, all_attempts, LeavesTrial}
use audiox.Boot.Names.{
  config_name, or_default, trial_text, saturated, number, unsigned, skip_space, signed,
  scan_attempts, read_attempts, has_name, is_boot_file,
}
use audiox.Prelude.Decimal.{decimal_digits, decimal}
use audiox.Update.Names.{
  skip_blanks, lines, kernel_value, kernel_or_default, first_kernel, config_kernel_name, until_nul,
  all_value_chars, valid_value, valid_kernel_name,
}
use audiox.Boot.Revert.Restored.{restore_files_complete}
use audiox.Boot.Exact.Copy.{copy_file_exact, IsCopied}
use audiox.Boot.Trial.Prepared.Success.{prepare_update-OnTrial, OnTrial}

-- Every call succeeds, and write() and read() take all they are given.
abbrev all_ok : Os
all_ok = record {
  ok = λ i. true;
  writes = λ i. wrote 20000 ∷ [];
  reads = λ i. got 20000 (wrote 20000 ∷ []) ∷ [];
  message = λ i. [];
  root_length = 5;
  boot_length = 5;
}

abbrev old_config : List ℕ
old_config = codes "kernel=kernel_a.img\n"

abbrev boot_files : Files
boot_files =
    (codes "config.txt", old_config)
    ∷ (codes "cmdline.txt", codes "rdinit=/init\n")
    ∷ (codes "kernel_a.img", 7 ∷ [])
    ∷ []

abbrev saved_files : Files
saved_files =
    (codes "version", codes "1\n")
    ∷ (codes "config.txt", old_config)
    ∷ (codes "cmdline.txt", codes "rdinit=/init\n")
    ∷ (codes "kernel_a.img", 7 ∷ [])
    ∷ []

-- An update that was never confirmed.
abbrev on_trial : World
on_trial = record {
  disk = record {
    root_dir = some [];
    boot_dir = some ((codes "config.txt", codes "new") ∷ []);
    state_dir = some ((codes "boot-trial", codes "attempts=0\n") ∷ []);
    backup_dir = some saved_files;
    backup_tmp_dir = none;
  };
  calls = 0;
  past = [];
}

abbrev fresh : World
fresh = record {
  disk = record {
    root_dir = some [];
    boot_dir = some boot_files;
    state_dir = none;
    backup_dir = none;
    backup_tmp_dir = none;
  };
  calls = 0;
  past = [];
}

three_attempts : all_attempts all_ok (codes "2\n") (λ n w. w) 3 on_trial ≡ true
unfolding all_attempts begin_boot next_attempt attempt_after log_attempt append_text path_fits
    path_length read_small_file read_now read_text get_file called file_in find_file put_file
    remove_file set_file change create rename write_all write_now write_temporary write_file_atomic
    keep_or_unlink synced rename_or_unlink fsync_dir read_attempts scan_attempts until_nul signed
    skip_space unsigned number saturated trial_text decimal decimal_digits event_line or_default
    last_byte
three_attempts = refl

attempts_example : 3 ≤ 3
unfolding LeavesTrial
attempts_example =
    attempts_in_a_row all_ok (codes "2\n") (λ n w. w) (λ n w. refl) 3 on_trial three_attempts

revert_example :
    Outcome on_trial.disk.boot_dir
      (some saved_files)
      (some (codes "attempts=0\n"))
      []
      (revert all_ok (codes "2\n") 3 on_trial).0
      (revert all_ok (codes "2\n") 3 on_trial).1
unfolding file_in find_file
revert_example = revert_outcome all_ok (codes "2\n") 3 on_trial

abbrev to_restore : List Name
to_restore = codes "cmdline.txt" ∷ codes "kernel_a.img" ∷ codes "config.txt" ∷ []

all_restored : (restore_files all_ok to_restore on_trial).0 ≡ true
unfolding restore_files restore_file restore_copy move_into_place moved_or_unlinked exists copy_file
    copy_bytes copy_now copy_loop path_fits path_length get_file called file_in find_file put_file
    remove_file set_file change create rename write_all keep_or_unlink synced
all_restored = refl

restore_example :
    file_in (codes "cmdline.txt") (restore_files all_ok to_restore on_trial).1.disk.boot_dir
    ≡ some (codes "rdinit=/init\n")
unfolding AllBoot is_boot_file has_name valid_kernel_name valid_value all_value_chars file_in
    find_file
restore_example =
    restore_files_complete all_ok to_restore on_trial (refl, (refl, (refl, tt))) all_restored
      (codes "cmdline.txt") _ refl refl

config_copied : (copy_file all_ok boot config_name backup config_name on_trial).0 ≡ true
unfolding copy_file copy_bytes copy_now copy_loop get_file called file_in find_file put_file
    set_file change create write_all keep_or_unlink synced
config_copied = refl

copy_example :
    IsCopied boot config_name backup config_name on_trial.disk
      (copy_file all_ok boot config_name backup config_name on_trial).1.disk
copy_example = copy_file_exact all_ok boot config_name backup config_name on_trial config_copied

update_prepared : (prepare_update all_ok (codes "1\n") fresh).0 ≡ true
unfolding prepare_update ensure_state_dir path_fits path_length mkdir called save_and_start
    save_boot_files has_backup exists file_in get_dir change back_up remove_flat_dir rmdir
    fill_backup back_up_files create drop_file find_file get_file put_file remove_file rename
    rename_dir set_file unlink copy_bytes copy_file copy_loop copy_now fsync_dir keep_or_unlink
    read_now read_small_file read_text rename_or_unlink synced unlink_entries write_all
    write_file_atomic write_now write_temporary decimal decimal_digits or_default trial_text
    back_up_file clear_state_file current_kernel finish_backup give_up start_trial all_value_chars
    config_kernel_name first_kernel kernel_or_default kernel_value lines skip_blanks until_nul
    valid_kernel_name valid_value
update_prepared = refl

ready_example : OnTrial (prepare_update all_ok (codes "1\n") fresh).1
unfolding path_fits path_length
ready_example = prepare_update-OnTrial all_ok (codes "1\n") fresh refl update_prepared
