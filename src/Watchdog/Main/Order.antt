-- ===== src/Watchdog/Main/Order.antt =====
-- The order of events in the main loop of src/init/watchdog.cpp, and its delays.
use audiox.Watchdog.Service.{
  new, Service, Look, supervise_service, reap_orphans, sleep_supervising, is_pid, stop_service,
}
use audiox.Watchdog.Service.Delays.{
  DelayOk, supervise_service-DelayOk, exit-DelayOk, pick-DelayOk, next_backoff-DelayOk,
  reset-DelayOk,
}
use audiox.Watchdog.Runtime.{
  Round, Watch, Ended, gone, stuck, wait_for_runtime, after_round, drained, supervised, verdict,
  next_delay,
}
use audiox.Watchdog.Main.{
  start_main, main, add64, ℕ, List, Event, started, killed, awaited, reboot_asked, Main, Turn,
  again, returned, waiting, end_group, after_runtime, sleep_then, fork_failed, wait_to_restart,
  count_restart, run_main,
}
use audiox.Watchdog.Main.Rules.{
  Outcome, Outcome-if, Rules, Any, AllTurns-Any, pass-Outcome, run_main-Outcome,
}
use audiox.Prelude.{
  true, not, ◌||◌, bytes_eq, arith, Bool, ◌*◌, refl, ==_refl, inr, subst, inl, leb, Bool-cases, ◌∷◌,
  if◌then◌else◌, [], some, none, Option, ◌≡◌, ℕ, List,
}
use audiox.Boot.Disk.{World, Os}
use audiox.Prelude.Words.{add64}

-- The runtime whose group lives: the last one started, until it is killed.
abbrev pub group : List Event → Option ℕ
group [] = none
group (started c ∷ log) = some c
group (killed c ∷ log) = if is_pid c (group log) then none else group log
group (awaited c ∷ log) = group log
group (reboot_asked ∷ log) = group log

-- No runtime is started, and no reboot asked for, while the group of an earlier one lives.
abbrev pub Tidy : List Event → Type 0
Tidy [] = Unit {0}
Tidy (started c ∷ log) = (group log ≡ none) × Tidy log
Tidy (killed c ∷ log) = Tidy log
Tidy (awaited c ∷ log) = Tidy log
Tidy (reboot_asked ∷ log) = (group log ≡ none) × Tidy log

abbrev pub DelaysOk : Main → Type 0
DelaysOk m = DelayOk m.restart_delay_seconds × DelayOk m.service.restart_delay_seconds

pub record IsOrdered (m : Main) : Type 0 where
  pub delays : DelaysOk m
  pub nothing_lives : group m.log ≡ none
  pub tidy : Tidy m.log

abbrev pub Living : Main → Type 0
Living m = DelaysOk m × Tidy m.log

reap-DelayOk :
    (orphans : List (ℕ × ℕ)) (s : Service)
    → DelayOk s.restart_delay_seconds
    → DelayOk (reap_orphans orphans s).restart_delay_seconds
unfolding reap_orphans
reap-DelayOk [] s v = v
reap-DelayOk ((pid, now) ∷ rest) s v =
    reap-DelayOk rest _ (pick-DelayOk (is_pid pid s.pid) _ s (exit-DelayOk now s v) v)

sleep-DelayOk :
    (deadline : ℕ) (rounds : List (Look × ℕ)) (s t : Service)
    → sleep_supervising deadline rounds s ≡ some t
    → DelayOk s.restart_delay_seconds
    → DelayOk t.restart_delay_seconds
unfolding sleep_supervising
sleep-DelayOk deadline [] s t e v = cc
sleep-DelayOk deadline ((look, after) ∷ rounds) s t e v =
    let u = supervise_service look.now look.waited look.forked s in
    let du : DelayOk u.restart_delay_seconds =
      supervise_service-DelayOk look.now look.waited look.forked s v in
    elim (Bool-cases (leb deadline after)) [
      | inl b ↦
          let same : u ≡ t = some_inj (rw b at e) in
          subst (λ (x : Service). DelayOk x.restart_delay_seconds) same du
      | inr b ↦ sleep-DelayOk deadline rounds u t (rw b at e) du
    ]
  where
    some_inj : {A : Type 0} {a b : A} → some a ≡ some b → a ≡ b
    some_inj h = cc

-- The service after the verdict on a runtime.
wait-DelayOk :
    (launch : ℕ) (rs : List Round) (w : Watch) (e : Ended) (s : Service)
    → wait_for_runtime launch rs w ≡ some (e, s)
    → DelayOk w.service.restart_delay_seconds
    → DelayOk s.restart_delay_seconds
unfolding wait_for_runtime after_round supervised drained
wait-DelayOk launch [] w e s h v = cc
wait-DelayOk launch (r ∷ rs) w e s h v =
    round (verdict launch r.child r.now t) h (λ k. wait-DelayOk launch rs t e s k dt)
  where
    t : Watch
    t = after_round r w

    dt : DelayOk t.service.restart_delay_seconds
    dt = supervise_service-DelayOk r.look.now r.look.waited r.look.forked w.service v

    round :
        (o : Option Ended)
        → (elim o [ none ↦ wait_for_runtime launch rs t | some d ↦ some (d, t.service) ])
          ≡ some (e, s)
        → (wait_for_runtime launch rs t ≡ some (e, s) → DelayOk s.restart_delay_seconds)
        → DelayOk s.restart_delay_seconds
    round none k later = later k
    round (some d) k later =
        let same : t.service ≡ s = cc in
        subst (λ (x : Service). DelayOk x.restart_delay_seconds) same dt

-- A sleep keeps what holds for every service that it may leave.
pub sleep_then-Outcome :
    (P Q D B : Main → Type 0) (t : Turn) (seconds : ℕ) (m : Main) (next : Service → Main)
    → DelayOk m.service.restart_delay_seconds
    → Q m
    → ((s : Service) → DelayOk s.restart_delay_seconds → P (next s))
    → Outcome P Q D B (sleep_then t seconds m next)
unfolding sleep_then
sleep_then-Outcome P Q D B t seconds m next v q each =
    slept (sleep_supervising (add64 t.slept_at (seconds * 1000)) t.sleeps m.service) refl
  where
    slept :
        (o : Option Service)
        → sleep_supervising (add64 t.slept_at (seconds * 1000)) t.sleeps m.service ≡ o
        → Outcome P Q D B (elim o [ none ↦ waiting m | some s ↦ again (next s) ])
    slept none e = q
    slept (some s) e = each s (sleep-DelayOk _ t.sleeps m.service s e v)

IsOrdered-Living : (m : Main) → IsOrdered m → Living m
IsOrdered-Living m v = (v.delays, v.tidy)

fork_failed-IsOrdered :
    (t : Turn) (m : Main)
    → IsOrdered m
    → Outcome IsOrdered Living IsOrdered IsOrdered (fork_failed t m)
unfolding fork_failed
fork_failed-IsOrdered t m v =
    sleep_then-Outcome IsOrdered Living IsOrdered IsOrdered t _ m _ v.delays.1
      (IsOrdered-Living m v)
      (λ s d. record {
        delays = (next_backoff-DelayOk m.restart_delay_seconds v.delays.0, d);
        nothing_lives = v.nothing_lives;
        tidy = v.tidy;
      })

wait_to_restart-IsOrdered :
    (t : Turn) (m : Main)
    → IsOrdered m
    → Outcome IsOrdered Living IsOrdered IsOrdered (wait_to_restart t m)
unfolding wait_to_restart
wait_to_restart-IsOrdered t m v =
    sleep_then-Outcome IsOrdered Living IsOrdered IsOrdered t _ m _ v.delays.1
      (IsOrdered-Living m v)
      (λ s d. record { delays = (v.delays.0, d); nothing_lives = v.nothing_lives; tidy = v.tidy })

group-end_group :
    (child : ℕ) (e : Ended) (log : List Event)
    → group (end_group child e (started child ∷ log)) ≡ none
unfolding end_group
group-end_group child (gone r) log = rw (==_refl child) refl
group-end_group child (stuck r) log = rw (==_refl child) refl

Tidy-end_group :
    (child : ℕ) (e : Ended) (log : List Event) → Tidy log → Tidy (end_group child e log)
unfolding end_group
Tidy-end_group child (gone r) log v = v
Tidy-end_group child (stuck r) log v = v

after_runtime-IsOrdered :
    (t : Turn) (child : ℕ) (e : Ended) (s : Service) (m : Main)
    → IsOrdered m
    → DelayOk s.restart_delay_seconds
    → IsOrdered (after_runtime t child e s (record m { log = started child ∷ m.log }))
unfolding after_runtime
after_runtime-IsOrdered t child e s m v d = record {
  delays = (v.delays.0, reap-DelayOk t.orphans s d);
  nothing_lives = group-end_group child e m.log;
  tidy = Tidy-end_group child e (started child ∷ m.log) (v.nothing_lives, v.tidy);
}

next_delay-DelayOk : (run_time delay : ℕ) → DelayOk delay → DelayOk (next_delay run_time delay)
unfolding next_delay
next_delay-DelayOk run_time delay v = reset-DelayOk _ _ (next_backoff-DelayOk delay v)

module _ (os : Os) (trial : Option (List ℕ)) (maximum : ℕ) where
  count_restart-IsOrdered :
      (t : Turn) (m : Main)
      → IsOrdered m
      → Outcome IsOrdered Living IsOrdered IsOrdered (count_restart os trial maximum t m)
  unfolding count_restart stop_service
  count_restart-IsOrdered t m v =
      Outcome-if IsOrdered Living IsOrdered IsOrdered _ (returned _) _
        (record { delays = v.delays; nothing_lives = v.nothing_lives; tidy = v.tidy })
        (wait_to_restart-IsOrdered t _ (record {
          delays = (next_delay-DelayOk _ m.restart_delay_seconds v.delays.0, v.delays.1);
          nothing_lives = v.nothing_lives;
          tidy = v.tidy;
        }))

  pass-Rules : Rules os trial maximum IsOrdered Living IsOrdered IsOrdered IsOrdered
  pass-Rules = record {
    starts = λ child m v. (v.delays, (v.nothing_lives, v.tidy));
    fails = fork_failed-IsOrdered;
    ends = λ t child e s m v h.
        after_runtime-IsOrdered t child e s m v (wait-DelayOk t.launch t.rounds _ e s h v.delays.1);
    asks = λ w m v. record {
      delays = v.delays;
      nothing_lives = v.nothing_lives;
      tidy = (v.nothing_lives, v.tidy);
    };
    goes_down = λ m v. v;
    counts = count_restart-IsOrdered;
  }

  run_main-IsOrdered :
      (ts : List Turn) (m : Main)
      → IsOrdered m
      → Outcome IsOrdered Living IsOrdered IsOrdered (run_main os trial maximum ts m)
  run_main-IsOrdered ts m v =
      run_main-Outcome os trial maximum IsOrdered Living IsOrdered IsOrdered Any IsOrdered-Living
        (λ t m' g. pass-Outcome pass-Rules t m') ts m (AllTurns-Any ts) v

start_main-IsOrdered :
    (path : List ℕ) (usable : Bool) (look : Look) (w : World)
    → IsOrdered (start_main path usable look w)
unfolding start_main
start_main-IsOrdered path usable look w = record {
  delays = (
    (omega arith, omega arith),
    pick-DelayOk (bytes_eq path [] || not usable) new _ (omega arith, omega arith)
        (supervise_service-DelayOk look.now look.waited look.forked (record new { enabled = true })
          (omega arith, omega arith)),
  );
  nothing_lives = refl;
  tidy = tt;
}

-- Whatever the system answers, in any passes of its loop `main` never starts a runtime and never asks
-- for a reboot while the group of an earlier runtime has not been killed, and both restart delays
-- stay between 1 and 30 seconds.
pub main-IsOrdered :
    (os : Os) (trial : Option (List ℕ)) (maximum : ℕ) (path : List ℕ) (usable : Bool) (look : Look)
    (w : World) (ts : List Turn)
    → Outcome IsOrdered Living IsOrdered IsOrdered (main os trial maximum path usable look w ts)
unfolding main
main-IsOrdered os trial maximum path usable look w ts =
    run_main-IsOrdered os trial maximum ts _ (start_main-IsOrdered path usable look w)
