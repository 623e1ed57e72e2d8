-- ===== src/Watchdog/Main/Rules.antt =====
-- How a statement about every pass of the main loop of src/init/watchdog.cpp is put together.
use audiox.Watchdog.Service.{Service}
use audiox.Watchdog.Runtime.{Ended, Reason, wait_for_runtime, start_watch}
use audiox.Watchdog.Main.{
  Option, Bool, started, reboot_asked, Main, Turn, Next, again, returned, rebooting, waiting, why,
  after_runtime, fork_failed, count_restart, reboot_or_count, after_end, watch_runtime, pass,
  run_main, start_runtime, pending_now, reboot_failed_trial,
}
use audiox.Boot.Disk.{Os, World}
use audiox.Prelude.{
  refl, [], ◌≡◌, some, ◌∷◌, none, false, ℕ, true, if◌then◌else◌, List, Option, Bool,
}

-- What holds after a run: `P` if the loop goes on, `Q` where the answers end, `D` when `main`
-- returns, `B` at a reboot.
abbrev pub Outcome : (P Q D B : Main → Type 0) → Next → Type 0
Outcome P Q D B (again m) = P m
Outcome P Q D B (returned m) = D m
Outcome P Q D B (rebooting m) = B m
Outcome P Q D B (waiting m) = Q m

abbrev pub AllTurns : (Turn → Type 0) → List Turn → Type 0
AllTurns T [] = Unit {0}
AllTurns T (t ∷ ts) = T t × AllTurns T ts

abbrev pub Any : Turn → Type 0
Any t = Unit {0}

pub AllTurns-Any : (ts : List Turn) → AllTurns Any ts
AllTurns-Any [] = tt
AllTurns-Any (t ∷ ts) = (tt, AllTurns-Any ts)

pub Outcome-if :
    (P Q D B : Main → Type 0) (b : Bool) (x y : Next)
    → Outcome P Q D B x
    → Outcome P Q D B y
    → Outcome P Q D B (if b then x else y)
Outcome-if P Q D B true x y p q = p
Outcome-if P Q D B false x y p q = q

-- What is to be shown of the parts of a pass: `P` holds between two passes, `Q` while the answers
-- are awaited, and `R` from the end of a runtime on.
pub record Rules (os : Os) (trial : Option (List ℕ)) (maximum : ℕ) (P Q D B R : Main → Type 0)
    : Type 0 where
  pub starts : (child : ℕ) (m : Main) → P m → Q (record m { log = started child ∷ m.log })
  pub fails : (t : Turn) (m : Main) → P m → Outcome P Q D B (fork_failed t m)
  pub ends :
      (t : Turn) (child : ℕ) (e : Ended) (s : Service) (m : Main)
      → P m
      → wait_for_runtime t.launch t.rounds (start_watch t.launch m.service) ≡ some (e, s)
      → R (after_runtime t child e s (record m { log = started child ∷ m.log }))
  pub asks : (w : World) (m : Main) → R m → R (record m { log = reboot_asked ∷ m.log; world = w })
  pub goes_down : (m : Main) → R m → B m
  pub counts : (t : Turn) (m : Main) → R m → Outcome P Q D B (count_restart os trial maximum t m)

module _ {os : Os} {trial : Option (List ℕ)} {maximum : ℕ} {P Q D B R : Main → Type 0}
    (rules : Rules os trial maximum P Q D B R) where
  reboot_or_count-Outcome :
      (t : Turn) (r : Reason) (m : Main)
      → R m
      → Outcome P Q D B (reboot_or_count os trial maximum t r m)
  unfolding reboot_or_count
  reboot_or_count-Outcome t r m v =
      let down = reboot_failed_trial os r t.rebooted m.world in
      let asked = record m { log = reboot_asked ∷ m.log; world = down.1 } in
      Outcome-if P Q D B down.0 (rebooting asked) (count_restart os trial maximum t asked)
        (rules.goes_down asked (rules.asks down.1 m v))
        (rules.counts t asked (rules.asks down.1 m v))

  after_end-Outcome :
      (t : Turn) (r : Reason) (m : Main) → R m → Outcome P Q D B (after_end os trial maximum t r m)
  unfolding after_end
  after_end-Outcome t r m v =
      Outcome-if P Q D B (pending_now os trial maximum t m) (reboot_or_count os trial maximum t r m)
        (count_restart os trial maximum t m) (reboot_or_count-Outcome t r m v) (rules.counts t m v)

  watch_runtime-Outcome :
      (t : Turn) (child : ℕ) (m : Main)
      → P m
      → Outcome P Q D B (watch_runtime os trial maximum t child m)
  unfolding watch_runtime
  watch_runtime-Outcome t child m v = ended _ refl
    where
      running : Main
      running = record m { log = started child ∷ m.log }

      ended :
          (o : Option (Ended × Service))
          → wait_for_runtime t.launch t.rounds (start_watch t.launch m.service) ≡ o
          → Outcome P Q D B (elim o [
            | none ↦ waiting running
            | some (e, s) ↦ after_end os trial maximum t (why e) (after_runtime t child e s running)
          ])
      ended none h = rules.starts child m v
      ended (some (e, s)) h = after_end-Outcome t (why e) _ (rules.ends t child e s m v h)

  pub pass-Outcome : (t : Turn) (m : Main) → P m → Outcome P Q D B (pass os trial maximum t m)
  unfolding pass
  pass-Outcome t m v = forked (start_runtime t.piped t.forked)
    where
      forked :
          (o : Option ℕ)
          → Outcome P Q D B (elim o [
            | none ↦ fork_failed t m
            | some child ↦ watch_runtime os trial maximum t child m
          ])
      forked none = rules.fails t m v
      forked (some child) = watch_runtime-Outcome t child m v

module _ (os : Os) (trial : Option (List ℕ)) (maximum : ℕ) (P Q D B : Main → Type 0)
    (T : Turn → Type 0) (weaken : (m : Main) → P m → Q m)
    (each : (t : Turn) (m : Main) → T t → P m → Outcome P Q D B (pass os trial maximum t m)) where
  -- What each pass keeps holds after a run.
  pub run_main-Outcome :
      (ts : List Turn) (m : Main)
      → AllTurns T ts
      → P m
      → Outcome P Q D B (run_main os trial maximum ts m)
  unfolding run_main
  run_main-Outcome [] m g v = weaken m v
  run_main-Outcome (t ∷ ts) m g v =
      go (pass os trial maximum t m) (each t m g.0 v) (λ m' p. run_main-Outcome ts m' g.1 p)
    where
      go :
          (n : Next)
          → Outcome P Q D B n
          → ((m' : Main) → P m' → Outcome P Q D B (run_main os trial maximum ts m'))
          → Outcome P Q D B (elim n [
            | again m' ↦ run_main os trial maximum ts m'
            | returned m' ↦ returned m'
            | rebooting m' ↦ rebooting m'
            | waiting m' ↦ waiting m'
          ])
      go (again m') p later = later m' p
      go (returned m') p later = p
      go (rebooting m') p later = p
      go (waiting m') p later = p
