-- ===== src/Watchdog/Main.antt =====
-- The main loop of the watchdog: one runtime after the other, and the reboot of a failed boot trial.
-- `Turn` is what the system answers in one pass of the loop; `log` keeps what the watchdog did to the
-- runtimes, newest first, which the source has no variable for.
pub mod Rules
pub mod Order
pub mod Count
pub mod Reboot
use audiox.Boot.Disk.{
  boot, Dir, state, Disk, Os, World, M, pure, ◌>>=◌, ◌>>◌, change, get_dir, get_file, is_some,
}
use audiox.Boot.Names.{trial_name, events_name}
use audiox.Boot.Files.{append_text}
use audiox.Prelude.Words.{add64, sub64, add32}
use audiox.Watchdog.Service.{
  Service, Look, new, next_backoff, supervise_service, reap_orphans, stop_service,
  sleep_supervising,
}
use audiox.Watchdog.Runtime.{
  Round, Ended, gone, stuck, Reason, process_exited, process_signalled, waitpid_failed,
  heartbeat_timed_out, startup_timed_out, start_watch, wait_for_runtime, next_delay, gives_up,
}
use Prim.Native.Nat.{ℕ}
use audiox.Prelude.{
  true, ◌||◌, ◌==◌, ◌++◌, [], ◌∷◌, ◌*◌, take, some, not, none, false, codes, bytes_eq, ℕ,
  if◌then◌else◌, Option, List, Bool,
}

-- `started`, the kill of a runtime's group, the wait for a killed runtime, and the call of reboot().
pub data Event : Type 0 where
  started : ℕ → Event
  killed : ℕ → Event
  awaited : ℕ → Event
  reboot_asked : Event

-- The variables of `main`, the log, and the disk.
pub record Main : Type 0 where
  pub restart_delay_seconds : ℕ
  pub restart_count : ℕ
  pub service : Service
  pub log : List Event
  pub world : World

-- `disk` is what the runtime leaves when it ends, `rebooted` whether reboot() works; then the devices
-- that stat() gives for the root and the config partition, and the times at which the clock is read.
pub record Turn : Type 0 where
  pub launch : ℕ
  pub piped : Bool
  pub forked : Option ℕ
  pub rounds : List Round
  pub orphans : List (ℕ × ℕ)
  pub disk : Disk
  pub root_device : Option ℕ
  pub config_device : Option ℕ
  pub rebooted : Bool
  pub ended : ℕ
  pub slept_at : ℕ
  pub sleeps : List (Look × ℕ)

-- After a pass: the next one, the return of `main`, a reboot, or answers that end too soon.
pub data Next : Type 0 where
  again : Main → Next
  returned : Main → Next
  rebooting : Main → Next
  waiting : Main → Next

unfoldable pub start_runtime : Bool → Option ℕ → Option ℕ
start_runtime piped forked = if piped then forked else none

unfoldable pub reason_text : Reason → List ℕ
reason_text process_exited = codes "main process exited"
reason_text process_signalled = codes "main process terminated by signal"
reason_text waitpid_failed = codes "waitpid failed"
reason_text heartbeat_timed_out = codes "main-loop heartbeat timed out"
reason_text startup_timed_out = codes "main process startup timed out before first heartbeat"

abbrev pub why : Ended → Reason
why (gone r) = r
why (stuck r) = r

-- getenv() says that this boot is a trial.
unfoldable pub is_trial : Option (List ℕ) → Bool
is_trial none = false
is_trial (some text) = bytes_eq text (codes "1")

-- stat() fails, or the config partition is not mounted over the root.
unfoldable pub not_mounted : Option ℕ → Option ℕ → Bool
not_mounted (some root) (some config) = root == config
not_mounted (some root) none = true
not_mounted none config = true

unfoldable pub boot_trial_still_pending : Option (List ℕ) → Option ℕ → Option ℕ → M Bool
boot_trial_still_pending trial root config =
    if not (is_trial trial)
    then pure false
    else do text ← get_file state trial_name; pure (is_some text || not_mounted root config)

unfoldable pub failure_line : Reason → List ℕ
failure_line r = take 255 (codes "[WATCHDOG] trial boot failed: " ++ reason_text r ++ codes "\n")

module _ (os : Os) where
  unfoldable pub log_failure : Reason → M (Unit {0})
  log_failure r = do
    dir ← get_dir state
    if is_some dir then append_text os state events_name (failure_line r) else pure tt

  -- Whether the call does not return.
  unfoldable pub reboot_failed_trial : Reason → Bool → M Bool
  reboot_failed_trial r rebooted = do _ ← log_failure r; pure rebooted

-- What the loop does to the group of a runtime that ended, or must.
unfoldable pub end_group : ℕ → Ended → List Event → List Event
end_group child (stuck r) log = awaited child ∷ killed child ∷ log
end_group child (gone r) log = killed child ∷ log

unfoldable pub after_runtime : Turn → ℕ → Ended → Service → Main → Main
after_runtime t child e s m = record m {
  service = reap_orphans t.orphans s;
  log = end_group child e m.log;
  world = change t.disk m.world;
}

-- `sleepSupervising` for so many seconds, in a pass that then goes on.
unfoldable pub sleep_then : Turn → ℕ → Main → (Service → Main) → Next
sleep_then t seconds m next =
    elim (sleep_supervising (add64 t.slept_at (seconds * 1000)) t.sleeps m.service) [
      | none ↦ waiting m
      | some s ↦ again (next s)
    ]

unfoldable pub fork_failed : Turn → Main → Next
fork_failed t m =
    sleep_then t m.restart_delay_seconds m
      (λ s. record m { service = s; restart_delay_seconds = next_backoff m.restart_delay_seconds })

unfoldable pub wait_to_restart : Turn → Main → Next
wait_to_restart t m = sleep_then t m.restart_delay_seconds m (λ s. record m { service = s })

module _ (os : Os) (trial : Option (List ℕ)) (maximum : ℕ) where
  -- The end of a pass, from `++restartCount` on.
  unfoldable pub count_restart : Turn → Main → Next
  count_restart t m =
      if gives_up maximum m.restart_count
      then returned
          (record m { restart_count = add32 m.restart_count 1; service = stop_service m.service })
      else wait_to_restart t (record m {
        restart_count = add32 m.restart_count 1;
        restart_delay_seconds = next_delay (sub64 t.ended t.launch) m.restart_delay_seconds;
      })

  unfoldable pub pending_now : Turn → Main → Bool
  pending_now t m = (boot_trial_still_pending trial t.root_device t.config_device m.world).0

  unfoldable pub reboot_or_count : Turn → Reason → Main → Next
  reboot_or_count t r m =
      let (gone_down, w) = reboot_failed_trial os r t.rebooted m.world in
      let asked = record m { log = reboot_asked ∷ m.log; world = w } in
      if gone_down then rebooting asked else count_restart t asked

  unfoldable pub after_end : Turn → Reason → Main → Next
  after_end t r m = if pending_now t m then reboot_or_count t r m else count_restart t m

  unfoldable pub watch_runtime : Turn → ℕ → Main → Next
  watch_runtime t child m =
      let running = record m { log = started child ∷ m.log } in
      elim (wait_for_runtime t.launch t.rounds (start_watch t.launch m.service)) [
        | none ↦ waiting running
        | some (e, s) ↦ after_end t (why e) (after_runtime t child e s running)
      ]

  -- One pass of the loop.
  unfoldable pub pass : Turn → Main → Next
  pass t m = elim (start_runtime t.piped t.forked) [
    | none ↦ fork_failed t m
    | some child ↦ watch_runtime t child m
  ]

  unfoldable pub run_main : List Turn → Main → Next
  run_main [] m = waiting m
  run_main (t ∷ ts) m = elim (pass t m) [
    | again m' ↦ run_main ts m'
    | returned m' ↦ returned m'
    | rebooting m' ↦ rebooting m'
    | waiting m' ↦ waiting m'
  ]

-- `main` before the loop: the helper daemon is looked at once if its program and its configuration
-- can be used.
unfoldable pub start_main : List ℕ → Bool → Look → World → Main
start_main path usable look w = record {
  restart_delay_seconds = 1;
  restart_count = 0;
  service =
      if bytes_eq path [] || not usable
      then new
      else supervise_service look.now look.waited look.forked (record new { enabled = true });
  log = [];
  world = w;
}

-- The whole of `main`, with the answers to each pass of its loop.
unfoldable pub main : Os → Option (List ℕ) → ℕ → List ℕ → Bool → Look → World → List Turn → Next
main os trial maximum path usable look w ts =
    run_main os trial maximum ts (start_main path usable look w)
