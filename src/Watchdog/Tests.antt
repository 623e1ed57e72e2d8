-- ===== src/Watchdog/Tests.antt =====
-- The watchdog on a few rounds.
use audiox.Watchdog.Service.{
  sleep_supervising, next_backoff, reap_orphans, Service, Look, nothing, new, handle_service_exit,
  supervise_service,
}
use audiox.Watchdog.Service.Delays.{exit_waits}
use audiox.Watchdog.Runtime.{
  next_delay, gives_up, verdict, exited, Beat, Round, running, start_watch, after_round, drained,
  drain_heartbeats, supervised, wait_for_runtime,
}
use audiox.Watchdog.Runtime.Verdict.{is_stuck, mute_is_killed}
use audiox.Watchdog.Runtime.Live.{heard, live_is_kept}
use audiox.Prelude.{
  false, codes, Bool, refl, ◌∷◌, ℕ, inr, inl, arith, [], ◌≡◌, true, some, none, List,
}
use audiox.Boot.Disk.{World, find_file, file_in, wrote, Os, Disk}
use audiox.Watchdog.Main.{
  main, sleep_then, wait_to_restart, count_restart, boot_trial_still_pending, pending_now,
  after_end, end_group, after_runtime, watch_runtime, start_runtime, returned, pass, run_main,
  is_trial, start_main, Turn, Next,
}
use audiox.Watchdog.Main.Rules.{Outcome}
use audiox.Boot.Names.{trial_name}
use audiox.Watchdog.Main.Count.{main_starts, Exactly, AtMost, Counted}
use audiox.Watchdog.Main.Order.{main-IsOrdered, Living, IsOrdered}
use audiox.Watchdog.Main.Reboot.{OnDisk}

abbrev dnsmasq : Service
dnsmasq = record new { enabled = true; pid = some 12; started_ms = 1000; restart_delay_seconds = 4 }

waits_example :
    supervise_service 12999 nothing (some 13) (handle_service_exit 9000 dnsmasq)
    ≡ handle_service_exit 9000 dnsmasq
waits_example =
    exit_waits 9000 12999 nothing (some 13) dnsmasq (omega arith, omega arith) (omega arith)
      (omega arith) (omega arith)

abbrev glance : Look
glance = record { now = 0; waited = nothing; forked = none }

abbrev round_at : List Beat → ℕ → Round
round_at beats now = record { beats = beats; look = glance; child = running; now = now }

abbrev beating : List Round
beating =
    round_at (record { sequence = 1; at = 3000 } ∷ []) 3100
    ∷ round_at [] 9000
    ∷ round_at (record { sequence = 2; at = 14000 } ∷ []) 14010
    ∷ []

live_example : wait_for_runtime 0 beating (start_watch 0 new) ≡ none
unfolding heard
live_example = live_is_kept 0 beating new (
  refl,
  (omega arith, tt),
  omega arith,
  omega arith,
  omega arith,
  (
    refl,
    tt,
    omega arith,
    omega arith,
    omega arith,
    (refl, (omega arith, tt), omega arith, omega arith, omega arith, tt),
  ),
)

abbrev silent : List Round
silent = round_at [] 60000 ∷ round_at [] 120001 ∷ []

silent_example : is_stuck (wait_for_runtime 0 silent (start_watch 0 new)) ≡ true
silent_example =
    mute_is_killed 0 silent (start_watch 0 new) (refl, refl, (refl, refl, tt))
      (inr (inl (omega arith, omega arith)))

abbrev os : Os
os = record {
  ok = λ n. true;
  writes = λ n. wrote 200 ∷ [];
  reads = λ n. [];
  message = λ n. [];
  root_length = 5;
  boot_length = 5;
}

-- The first attempt of a boot trial.
abbrev trial_disk : Disk
trial_disk = record {
  root_dir = some [];
  boot_dir = some ((codes "kernel.img", 7 ∷ []) ∷ []);
  state_dir = some ((trial_name, codes "attempts=1\n") ∷ []);
  backup_dir = some [];
  backup_tmp_dir = none;
}

abbrev at_boot : World
at_boot = record { disk = trial_disk; calls = 0; past = [] }

-- A runtime that exits after four seconds.
abbrev crash : Turn
crash = record {
  launch = 1000;
  piped = true;
  forked = some 50;
  rounds = record { beats = []; look = glance; child = exited; now = 5000 } ∷ [];
  orphans = [];
  disk = trial_disk;
  root_device = some 1;
  config_device = some 2;
  rebooted = true;
  ended = 5001;
  slept_at = 5002;
  sleeps = (glance, 9002) ∷ [];
}

main_example :
    Outcome IsOrdered Living IsOrdered IsOrdered
      (main os none 2 [] true glance at_boot (crash ∷ crash ∷ []))
main_example = main-IsOrdered os none 2 [] true glance at_boot (crash ∷ crash ∷ [])

count_example :
    Outcome
      (Counted 2)
      (AtMost 2)
      (Exactly 2)
      (AtMost 2)
      (main os none 2 [] true glance at_boot (crash ∷ crash ∷ []))
count_example =
    main_starts os none 2 (omega arith) (omega arith) [] true glance at_boot (crash ∷ crash ∷ [])

has_returned : Next → Bool
has_returned (returned m) = true
has_returned _ = false

run_returns : has_returned (main os none 2 [] true glance at_boot (crash ∷ crash ∷ [])) ≡ true
unfolding main has_returned start_main run_main pass start_runtime watch_runtime wait_for_runtime
    after_round drained drain_heartbeats supervised supervise_service verdict after_runtime
    reap_orphans end_group after_end pending_now boot_trial_still_pending is_trial count_restart
    gives_up next_delay next_backoff wait_to_restart sleep_then sleep_supervising
run_returns = refl

abbrev IntactDisk : Disk → Type 0
IntactDisk = OnDisk (codes "attempts=1\n") trial_disk.boot_dir (some [])

abbrev intact : OnDisk (codes "attempts=1\n") trial_disk.boot_dir (some []) trial_disk
unfolding file_in find_file
intact = record { trial = refl; boot_files = refl; backup_files = refl }
