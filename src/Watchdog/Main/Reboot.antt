-- ===== src/Watchdog/Main/Reboot.antt =====
-- A boot trial that the runtime does not confirm: src/init/watchdog.cpp over the disk of
-- include/boot_recovery.hpp.
use audiox.Boot.Kept.{AtAllTimes, KeptByPut}
use audiox.Boot.Disk.Laws.{find-put_ne}
use audiox.Boot.Disk.{Files, Disk, state, file_in, is_some}
use audiox.Boot.Names.{trial_name, events_name}
use audiox.Watchdog.Service.{Service}
use audiox.Boot.Kept
use audiox.Watchdog.Main.{Option, List, Main, Turn, Next}
use audiox.Watchdog.Main.Count.{starts}
use audiox.Watchdog.Main.Rules.{Outcome}
use audiox.Prelude.{◌⊎◌, refl, ◌≤◌, ◌+◌, none, ap, true, sym, some, ◌≡◌, ◌∙◌, ℕ, Option, List}

-- The config partition is not mounted: a device is unknown, or both are the same.
abbrev pub NotMounted : Option ℕ → Option ℕ → Type 0
NotMounted root config =
    (root ≡ none) ⊎ ((config ≡ none) ⊎ ((n : ℕ) × (root ≡ some n) × (config ≡ some n)))

-- The trial file, the boot directory and the backup are these.
pub record OnDisk (text : List ℕ) (boot backup : Option Files) (k : Disk) : Type 0 where
  pub trial : file_in trial_name k.state_dir ≡ some text
  pub boot_files : k.boot_dir ≡ boot
  pub backup_files : k.backup_dir ≡ backup

pub OnDisk-event :
    (text : List ℕ) (boot backup : Option Files)
    → KeptByPut (OnDisk text boot backup) state events_name
unfolding KeptByPut file_in
OnDisk-event text boot backup t fs k e h = record {
  trial = find-put_ne trial_name events_name t fs refl ∙ sym (ap (file_in trial_name) e) ∙ h.trial;
  boot_files = h.boot_files;
  backup_files = h.backup_files;
}

abbrev pub Never : Main → Type 0
Never m = ⊥

module _ (P : Disk → Type 0) (old : List Disk) (before : ℕ) where
  -- The runtime leaves the trial file, or the config partition is not mounted then; what it leaves is
  -- in `P`, and reboot() works.
  abbrev pub Unconfirmed : Turn → Type 0
  Unconfirmed t =
      ((is_some (file_in trial_name t.disk.state_dir) ≡ true)
        ⊎ NotMounted t.root_device t.config_device)
      × P t.disk
      × (t.rebooted ≡ true)

  abbrev pub Safe : Main → Type 0
  Safe m = AtAllTimes (P) old m.world

  abbrev pub NotStarted : Main → Type 0
  NotStarted m = (starts m.log ≡ before) × Safe m

  abbrev pub StartedOnce : Main → Type 0
  StartedOnce m = (starts m.log ≡ before + 1) × Safe m

  abbrev pub AtMostOnce : Main → Type 0
  AtMostOnce m = (starts m.log ≤ before + 1) × Safe m

  -- What holds after a run: never does `main` return.
  abbrev pub RebootsAfterOne : Next → Type 0
  RebootsAfterOne = Outcome NotStarted AtMostOnce Never StartedOnce
