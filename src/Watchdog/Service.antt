-- ===== src/Watchdog/Service.antt =====
-- The supervised helper daemon. A process identifier above 0 is `some pid`, any other `none`; the
-- clock, waitpid and fork are arguments, in the order of the calls. The name and the paths never change.
use audiox.Prelude.{◌∷◌, []}
pub mod Delays
use audiox.Prelude.Words.{add64, sub64}
use Prim.Native.Nat.{ℕ}
use audiox.Prelude.{
  ◌-◌, ◌==◌, not, ltb, leb, ◌*◌, some, if◌then◌else◌, ℕ, none, false, Option, List, Bool,
}

abbrev pub maximum_restart_delay_seconds : ℕ
maximum_restart_delay_seconds = 30

unfoldable pub next_backoff : ℕ → ℕ
next_backoff delay =
    if leb maximum_restart_delay_seconds delay
    then maximum_restart_delay_seconds
    else if ltb maximum_restart_delay_seconds (delay * 2)
    then maximum_restart_delay_seconds
    else delay * 2

pub record Service : Type 0 where
  pub enabled : Bool
  pub pid : Option ℕ
  pub started_ms : ℕ
  pub next_start_ms : ℕ
  pub restart_delay_seconds : ℕ

abbrev pub new : Service
new = record {
  enabled = false;
  pid = none;
  started_ms = 0;
  next_start_ms = 0;
  restart_delay_seconds = 1;
}

-- What waitpid answers for the service.
pub data Waited : Type 0 where
  reaped : Waited
  no_child : Waited
  nothing : Waited

-- Waits as long as the delay says, and doubles it for the next time.
unfoldable pub back_off : ℕ → Service → Service
back_off now s = record s {
  next_start_ms = add64 now (s.restart_delay_seconds * 1000);
  restart_delay_seconds = next_backoff s.restart_delay_seconds;
}

-- `none`: fork failed.
unfoldable pub start_service : ℕ → Option ℕ → Service → Service
start_service now none s = back_off now s
start_service now (some child) s = record s { pid = some child; started_ms = now }

unfoldable pub handle_service_exit : ℕ → Service → Service
handle_service_exit now s = back_off now (record s {
  pid = none;
  restart_delay_seconds = if leb 60000 (sub64 now s.started_ms) then 1 else s.restart_delay_seconds;
})

unfoldable pub after_wait : ℕ → Waited → Service → Service
after_wait now reaped s = handle_service_exit now s
after_wait now no_child s = record s { pid = none; next_start_ms = now }
after_wait now nothing s = s

unfoldable pub supervise_running : Option ℕ → ℕ → Waited → Option ℕ → Service → Service
supervise_running (some pid) now waited forked s = after_wait now waited s
supervise_running none now waited forked s =
    if leb s.next_start_ms now then start_service now forked s else s

unfoldable pub supervise_service : ℕ → Waited → Option ℕ → Service → Service
supervise_service now waited forked s =
    if not s.enabled then s else supervise_running s.pid now waited forked s

abbrev pub is_pid : ℕ → Option ℕ → Bool
is_pid p none = false
is_pid p (some q) = p == q

-- The orphans that waitpid hands over, with the time of the call.
unfoldable pub reap_orphans : List (ℕ × ℕ) → Service → Service
reap_orphans [] s = s
reap_orphans ((pid, now) ∷ rest) s =
    reap_orphans rest (if is_pid pid s.pid then handle_service_exit now s else s)

unfoldable pub stop_service : Service → Service
stop_service s = record s { pid = none }

-- One look at the service.
pub record Look : Type 0 where
  pub now : ℕ
  pub waited : Waited
  pub forked : Option ℕ

-- `sleepSupervising` until `deadline`: each round looks at the service, reads the clock again and
-- sleeps half a second at most. `none`: the rounds given are over before the deadline.
unfoldable pub sleep_supervising : ℕ → List (Look × ℕ) → Service → Option Service
sleep_supervising deadline [] s = none
sleep_supervising deadline ((look, after) ∷ rounds) s =
    let t = supervise_service look.now look.waited look.forked s in
    let rest = sleep_supervising deadline rounds t in if leb deadline after then some t else rest

-- The milliseconds of one sleep.
unfoldable pub sleep_step : ℕ → ℕ → ℕ
sleep_step deadline now = if ltb (deadline - now) 500 then deadline - now else 500
