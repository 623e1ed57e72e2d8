-- ===== src/Watchdog/Service/Delays.antt =====
-- The delays between two starts of the service.
use audiox.Watchdog.Service.{
  add64, ℕ, Option, Bool, Service, Waited, reaped, no_child, nothing, next_backoff, back_off,
  start_service, handle_service_exit, after_wait, supervise_running, supervise_service,
}
use audiox.Prelude.{
  refl, sym, subst, ◌≡◌, ◌*◌, leb, ◌^◌, ◌<◌, false, ◌+◌, true, none, ◌≤◌, some, not, if◌then◌else◌,
  arith, ℕ, Option, Bool,
}
use audiox.Prelude.Words.{sub64, add64}

abbrev pub DelayOk : ℕ → Type 0
DelayOk d = (1 ≤ d) × (d ≤ 30)

pub next_backoff-DelayOk : (d : ℕ) → DelayOk d → DelayOk (next_backoff d)
unfolding next_backoff
next_backoff-DelayOk d v = (ground arith, ground arith)

back_off-DelayOk :
    (now : ℕ) (s : Service)
    → DelayOk s.restart_delay_seconds
    → DelayOk (back_off now s).restart_delay_seconds
unfolding back_off
back_off-DelayOk now s v = next_backoff-DelayOk s.restart_delay_seconds v

pub reset-DelayOk : (b : Bool) (d : ℕ) → DelayOk d → DelayOk (if b then 1 else d)
reset-DelayOk true d v = (omega arith, omega arith)
reset-DelayOk false d v = v

pub exit-DelayOk :
    (now : ℕ) (s : Service)
    → DelayOk s.restart_delay_seconds
    → DelayOk (handle_service_exit now s).restart_delay_seconds
unfolding handle_service_exit
exit-DelayOk now s v = back_off-DelayOk now _ (reset-DelayOk _ _ v)

start-DelayOk :
    (now : ℕ) (forked : Option ℕ) (s : Service)
    → DelayOk s.restart_delay_seconds
    → DelayOk (start_service now forked s).restart_delay_seconds
unfolding start_service
start-DelayOk now none s v = back_off-DelayOk now s v
start-DelayOk now (some child) s v = v

after_wait-DelayOk :
    (now : ℕ) (waited : Waited) (s : Service)
    → DelayOk s.restart_delay_seconds
    → DelayOk (after_wait now waited s).restart_delay_seconds
unfolding after_wait
after_wait-DelayOk now reaped s v = exit-DelayOk now s v
after_wait-DelayOk now no_child s v = v
after_wait-DelayOk now nothing s v = v

pub pick-DelayOk :
    (b : Bool) (s t : Service)
    → DelayOk s.restart_delay_seconds
    → DelayOk t.restart_delay_seconds
    → DelayOk (if b then s else t).restart_delay_seconds
pick-DelayOk true s t v w = v
pick-DelayOk false s t v w = w

running-DelayOk :
    (pid : Option ℕ) (now : ℕ) (waited : Waited) (forked : Option ℕ) (s : Service)
    → DelayOk s.restart_delay_seconds
    → DelayOk (supervise_running pid now waited forked s).restart_delay_seconds
unfolding supervise_running
running-DelayOk (some pid) now waited forked s v = after_wait-DelayOk now waited s v
running-DelayOk none now waited forked s v =
    pick-DelayOk _ (start_service now forked s) s (start-DelayOk now forked s v) v

-- Whatever waitpid and fork answer, supervising keeps the delay between 1 and 30 seconds.
pub supervise_service-DelayOk :
    (now : ℕ) (waited : Waited) (forked : Option ℕ) (s : Service)
    → DelayOk s.restart_delay_seconds
    → DelayOk (supervise_service now waited forked s).restart_delay_seconds
unfolding supervise_service
supervise_service-DelayOk now waited forked s v =
    pick-DelayOk (not s.enabled) s _ v (running-DelayOk s.pid now waited forked s v)

lt→leb : (a b : ℕ) → b < a → leb a b ≡ false
lt→leb a b h = ground arith

keep : (b : Bool) (s : Service) → (if b then s else s) ≡ s
keep true s = refl
keep false s = refl

-- A service that is not running is left alone before its time.
pub waits :
    (later : ℕ) (waited : Waited) (forked : Option ℕ) (s : Service)
    → s.pid ≡ none
    → later < s.next_start_ms
    → supervise_service later waited forked s ≡ s
unfolding supervise_service supervise_running
waits later waited forked s off early =
    rw (off, lt→leb s.next_start_ms later early, supervise_running) (keep (not s.enabled) _)

next_start :
    (now started d : ℕ)
    → DelayOk d
    → started ≤ now
    → now + 30000 < 2 ^ 64
    → add64 now ((if leb 60000 (sub64 now started) then 1 else d) * 1000)
      ≡ now + (if leb (started + 60000) now then 1 else d) * 1000
next_start now started d v up small = ground arith

-- After the service exits it is left alone until its delay is over: one second if it had run for a
-- minute, its current delay otherwise.
pub exit_waits :
    (now later : ℕ) (waited : Waited) (forked : Option ℕ) (s : Service)
    → DelayOk s.restart_delay_seconds
    → s.started_ms ≤ now
    → now + 30000 < 2 ^ 64
    → later < now + (if leb (s.started_ms + 60000) now then 1 else s.restart_delay_seconds) * 1000
    → supervise_service later waited forked (handle_service_exit now s) ≡ handle_service_exit now s
unfolding handle_service_exit back_off
exit_waits now later waited forked s v up small early = waits later waited forked _ refl (
    subst (λ t. later < t) (sym (next_start now s.started_ms s.restart_delay_seconds v up small))
      early)
