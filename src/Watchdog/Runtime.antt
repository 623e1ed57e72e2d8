-- ===== src/Watchdog/Runtime.antt =====
-- The main process: its heartbeats, the verdict of `waitForRuntime`, and the restarts of `main`.
pub mod Verdict
pub mod Live
use audiox.Prelude.{
  ltb, ◌==◌, ◌&&◌, some, none, leb, ◌||◌, not, if◌then◌else◌, false, Option, ℕ, List, Bool, ◌∷◌, [],
}
use audiox.Prelude.Words.{sub64, add32}
use audiox.Watchdog.Service.{Service, Look, next_backoff, supervise_service}

abbrev pub startup_timeout_ms : ℕ
startup_timeout_ms = 120000

abbrev pub heartbeat_timeout_ms : ℕ
heartbeat_timeout_ms = 12000

-- A heartbeat that was read: its sequence number and the clock after the read.
pub record Beat : Type 0 where
  pub sequence : ℕ
  pub at : ℕ

pub record Progress : Type 0 where
  pub last_sequence : ℕ
  pub last_progress_ms : ℕ

unfoldable pub drain_heartbeats : List Beat → Progress → Progress
drain_heartbeats [] p = p
drain_heartbeats (b ∷ bs) p = drain_heartbeats bs (
    if b.sequence == p.last_sequence
    then p
    else record { last_sequence = b.sequence; last_progress_ms = b.at })

-- What waitpid answers for the runtime.
pub data Child : Type 0 where
  running : Child
  exited : Child
  signalled : Child
  wait_failed : Child

pub data Reason : Type 0 where
  process_exited : Reason
  process_signalled : Reason
  waitpid_failed : Reason
  heartbeat_timed_out : Reason
  startup_timed_out : Reason

-- The answers `true` (the child is gone) and `false` (it must be killed).
pub data Ended : Type 0 where
  gone : Reason → Ended
  stuck : Reason → Ended

-- One round of the loop: the heartbeats that poll announced, the look at the service, what
-- waitpid answers, and the clock at its end.
pub record Round : Type 0 where
  pub beats : List Beat
  pub look : Look
  pub child : Child
  pub now : ℕ

pub record Watch : Type 0 where
  pub progress : Progress
  pub received : Bool
  pub service : Service

unfoldable pub drained : List Beat → Watch → Watch
drained beats w =
    let p = drain_heartbeats beats w.progress in
    record w {
      progress = p;
      received = w.received || not (p.last_sequence == w.progress.last_sequence);
    }

unfoldable pub supervised : Look → Watch → Watch
supervised look w = record w {
  service = supervise_service look.now look.waited look.forked w.service;
}

unfoldable pub timed_out : ℕ → ℕ → Watch → Option Ended
timed_out launch now w =
    if w.received && ltb heartbeat_timeout_ms (sub64 now w.progress.last_progress_ms)
    then some (stuck heartbeat_timed_out)
    else if not w.received && ltb startup_timeout_ms (sub64 now launch)
    then some (stuck startup_timed_out)
    else none

-- The verdict of a round, if there is one.
unfoldable pub verdict : ℕ → Child → ℕ → Watch → Option Ended
verdict launch exited now w = some (gone process_exited)
verdict launch signalled now w = some (gone process_signalled)
verdict launch wait_failed now w = some (gone waitpid_failed)
verdict launch running now w = timed_out launch now w

abbrev pub start_watch : ℕ → Service → Watch
start_watch launch s = record {
  progress = record { last_sequence = 0; last_progress_ms = launch };
  received = false;
  service = s;
}

unfoldable pub after_round : Round → Watch → Watch
after_round r w = supervised r.look (drained r.beats w)

-- The verdict, and the service as the loop leaves it; `none`: no verdict in the rounds given.
unfoldable pub wait_for_runtime : ℕ → List Round → Watch → Option (Ended × Service)
wait_for_runtime launch [] w = none
wait_for_runtime launch (r ∷ rs) w =
    let t = after_round r w in
    let rest = wait_for_runtime launch rs t in
    elim (verdict launch r.child r.now t) [ none ↦ rest | some e ↦ some (e, t.service) ]

-- The delay after a run of the main process.
unfoldable pub next_delay : ℕ → ℕ → ℕ
next_delay run_time delay = if leb 60000 run_time then 1 else next_backoff delay

-- Whether `main` returns after this restart; 0 sets no limit.
unfoldable pub gives_up : ℕ → ℕ → Bool
gives_up maximum count = not (maximum == 0) && leb maximum (add32 count 1)
