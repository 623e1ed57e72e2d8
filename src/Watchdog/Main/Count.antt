-- ===== src/Watchdog/Main/Count.antt =====
-- How often the main loop of src/init/watchdog.cpp starts the runtime.
use audiox.Watchdog.Service.{Look, Service, sleep_supervising}
use audiox.Watchdog.Runtime.{Ended, gone, stuck, gives_up}
use audiox.Watchdog.Main.{
  start_main, main, add32, ℕ, Option, List, Event, started, killed, awaited, reboot_asked, Main,
  Turn, again, waiting, end_group, after_runtime, sleep_then, fork_failed, wait_to_restart,
  count_restart,
}
use audiox.Watchdog.Main.Rules.{Outcome, Rules, Any, AllTurns-Any, pass-Outcome, run_main-Outcome}
use audiox.Boot.Disk.{World, Os}
use audiox.Prelude.{
  Bool, true, false, leb, ◌&&◌, ◌==◌, not, ◌∷◌, dec_lt, ◌^◌, some, refl, [], ◌≤◌, ◌≡◌, ◌<◌, ◌+◌,
  none, arith, ℕ, Option, List,
}
use audiox.Prelude.Words.{add32}

abbrev pub starts : List Event → ℕ
starts [] = 0
starts (started c ∷ log) = starts log + 1
starts (killed c ∷ log) = starts log
starts (awaited c ∷ log) = starts log
starts (reboot_asked ∷ log) = starts log

pub starts-end_group :
    (child : ℕ) (e : Ended) (log : List Event) → starts (end_group child e log) ≡ starts log
unfolding end_group
starts-end_group child (gone r) log = refl
starts-end_group child (stuck r) log = refl

module _ (maximum : ℕ) where
  -- Between two passes: a restart for each start, and fewer than the maximum.
  abbrev pub Counted : Main → Type 0
  Counted m = (starts m.log ≡ m.restart_count) × (m.restart_count < maximum)

  abbrev Uncounted : Main → Type 0
  Uncounted m = (starts m.log ≡ m.restart_count + 1) × (m.restart_count < maximum)

  abbrev pub AtMost : Main → Type 0
  AtMost m = starts m.log ≤ maximum

  abbrev pub Exactly : Main → Type 0
  Exactly m = starts m.log ≡ maximum

  sleep_then-Counted :
      (t : Turn) (seconds : ℕ) (m : Main) (next : Service → Main)
      → AtMost m
      → ((s : Service) → Counted (next s))
      → Outcome Counted AtMost Exactly AtMost (sleep_then t seconds m next)
  unfolding sleep_then
  sleep_then-Counted t seconds m next q each = slept (sleep_supervising _ t.sleeps m.service)
    where
      slept :
          (o : Option Service)
          → Outcome Counted AtMost Exactly AtMost
              (elim o [ none ↦ waiting m | some s ↦ again (next s) ])
      slept none = q
      slept (some s) = each s

  Counted-AtMost : (m : Main) → Counted m → AtMost m
  Counted-AtMost m v = omega arith

module _ (os : Os) (trial : Option (List ℕ)) (maximum : ℕ) (some_limit : 0 < maximum)
    (limit : maximum < 2 ^ 32) where
  count_restart-Counted :
      (t : Turn) (m : Main)
      → Uncounted maximum m
      → Outcome
          (Counted maximum)
          (AtMost maximum)
          (Exactly maximum)
          (AtMost maximum)
          (count_restart os trial maximum t m)
  unfolding count_restart gives_up wait_to_restart
  count_restart-Counted t m v = elim (dec_lt (m.restart_count + 1) maximum) [
    | yes p ↦
        let c : (not (maximum == 0) && leb maximum (add32 m.restart_count 1)) ≡ false =
          ground arith in
        rw c (sleep_then-Counted maximum t _ _ _ (omega arith) (λ s. (omega arith, omega arith)))
    | no p ↦
        let c : (not (maximum == 0) && leb maximum (add32 m.restart_count 1)) ≡ true =
          ground arith in
        rw c (omega arith)
  ]

  pass-Rules :
      Rules os trial maximum
        (Counted maximum)
        (AtMost maximum)
        (Exactly maximum)
        (AtMost maximum)
        (Uncounted maximum)
  unfolding fork_failed after_runtime
  pass-Rules = record {
    starts = λ child m v. omega arith;
    fails = λ t m v. sleep_then-Counted maximum t _ m _ (omega arith) (λ s. v);
    ends =
        λ t child e s m v h. (omega (arith, starts-end_group child e (started child ∷ m.log)), v.1);
    asks = λ w m v. v;
    goes_down = λ m v. omega arith;
    counts = count_restart-Counted;
  }

  -- With a maximum of restarts from 1 to 2^32 - 1, whatever the system answers, `main` returns only after
  -- exactly that many starts of the runtime, and never starts it more often.
  pub main_starts :
      (path : List ℕ) (usable : Bool) (look : Look) (w : World) (ts : List Turn)
      → Outcome
          (Counted maximum)
          (AtMost maximum)
          (Exactly maximum)
          (AtMost maximum)
          (main os trial maximum path usable look w ts)
  unfolding main start_main
  main_starts path usable look w ts =
      run_main-Outcome os trial maximum (Counted maximum) (AtMost maximum) (Exactly maximum)
        (AtMost maximum) Any (Counted-AtMost maximum) (λ t m' g. pass-Outcome pass-Rules t m') ts
        (start_main path usable look w) (AllTurns-Any ts) (refl, some_limit)
