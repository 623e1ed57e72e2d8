-- ===== src/Watchdog/Runtime/Verdict.antt =====
-- `waitForRuntime` of src/init/watchdog.cpp: the silent runtime is killed.
use audiox.Watchdog.Runtime.{
  gone, ℕ, Option, List, running, Ended, stuck, Round, Watch, drain_heartbeats, drained, supervised,
  timed_out, verdict, after_round, wait_for_runtime,
}
use audiox.Prelude.{
  sym, ==_refl, ◌||◌, subst, inr, ◌⊎◌, refl, inl, false, arith, ◌^◌, ◌+◌, true, some, none, [], ◌≡◌,
  ◌∷◌, ◌<◌, if◌then◌else◌, Bool, ℕ, Option, List,
}
use audiox.Watchdog.Service.{Service}

abbrev pub Silent : List Round → Type 0
Silent [] = Unit {0}
Silent (r ∷ rs) = (r.beats ≡ []) × (r.child ≡ running) × Silent rs

-- The deadline of a runtime that sends nothing more.
abbrev pub deadline : ℕ → Watch → ℕ
deadline launch w = if w.received then w.progress.last_progress_ms + 12000 else launch + 120000

abbrev pub Reaches : ℕ → List Round → Type 0
Reaches d [] = ⊥
Reaches d (r ∷ rs) = ((d < r.now) × (r.now < 2 ^ 64)) ⊎ Reaches d rs

abbrev pub must_kill : Ended → Bool
must_kill (stuck r) = true
must_kill (gone r) = false

abbrev pub is_stuck : Option (Ended × Service) → Bool
is_stuck (some (e, s)) = must_kill e
is_stuck none = false

abbrev pub late : Option Ended → Bool
late (some e) = must_kill e
late none = false

deadline_kept :
    (launch : ℕ) (r : Round) (w : Watch)
    → r.beats ≡ []
    → deadline launch (after_round r w) ≡ deadline launch w
unfolding after_round drained supervised drain_heartbeats
deadline_kept launch r w e =
    rw (e, ==_refl w.progress.last_sequence, drain_heartbeats) (same_deadline w.received)
  where
    same_deadline :
        (b : Bool)
        → (if b || false then w.progress.last_progress_ms + 12000 else launch + 120000)
          ≡ (if b then w.progress.last_progress_ms + 12000 else launch + 120000)
    same_deadline true = refl
    same_deadline false = refl

late-verdict :
    (launch now : ℕ) (w : Watch)
    → deadline launch w < now
    → now < 2 ^ 64
    → late (timed_out launch now w) ≡ true
unfolding timed_out
late-verdict launch now w h b = ground arith

-- A runtime that runs gets no other verdict than that it must be killed.
timed_out-stuck :
    (launch now : ℕ) (w : Watch) (e : Ended) → timed_out launch now w ≡ some e → must_kill e ≡ true
unfolding timed_out
timed_out-stuck launch now w e h = ground arith

-- The rest of the loop, after a round of a runtime that runs.
mute_round :
    (launch : ℕ) (r : Round) (rs : List Round) (w : Watch)
    → r.child ≡ running
    → (timed_out launch r.now (after_round r w) ≡ none
        → is_stuck (wait_for_runtime launch rs (after_round r w)) ≡ true)
    → is_stuck (wait_for_runtime launch (r ∷ rs) w) ≡ true
unfolding wait_for_runtime verdict after_round
mute_round launch r rs w c later =
    rw (c, wait_for_runtime, verdict) (cases (timed_out launch r.now (after_round r w)) refl)
  where
    cases :
        (o : Option Ended)
        → timed_out launch r.now (after_round r w) ≡ o
        → is_stuck (elim o [
          | none ↦ wait_for_runtime launch rs (after_round r w)
          | some e ↦ some (e, (after_round r w).service)
        ])
          ≡ true
    cases none e = later e
    cases (some d) e = timed_out-stuck launch r.now (after_round r w) d e

none_stuck : (o : Option Ended) {P : Type 0} → o ≡ none → late o ≡ true → P
none_stuck none e h = cc
none_stuck (some d) e h = cc

-- A runtime that runs on but sends no heartbeat is found stuck once a round ends past its deadline:
-- 12 s after the last progress, or 120 s after the launch if it never sent one.
pub mute_is_killed :
    (launch : ℕ) (rs : List Round) (w : Watch)
    → Silent rs
    → Reaches (deadline launch w) rs
    → is_stuck (wait_for_runtime launch rs w) ≡ true
mute_is_killed launch [] w v h = absurd h
mute_is_killed launch (r ∷ rs) w v (inl h) = mute_round launch r rs w v.1 (λ e. none_stuck _ e (
    late-verdict launch r.now (after_round r w)
      (subst (λ d. d < r.now) (sym (deadline_kept launch r w v.0)) h.0) h.1))
mute_is_killed launch (r ∷ rs) w v (inr h) = mute_round launch r rs w v.1 (λ e.
    mute_is_killed launch rs (after_round r w) v.2
      (subst (λ d. Reaches d rs) (sym (deadline_kept launch r w v.0)) h))
