-- ===== src/History/Tests.antt =====
-- A history of a few samples.
use audiox.History.{
  some, ℕ, List, Float, Sample, SystemHistory, new, due, latest, sample_at, prune, prune_loop,
  take_sample, is_continuous, load, store, add,
}
use audiox.History.Samples.{contents, recent}
use audiox.History.Timeline.{IsTimeline}
use audiox.History.Run.{Call, add_call, sample_of, add_lem, run, run-IsTimeline}
use audiox.Prelude.{refl, ◌/◌, ◌++◌, [], ◌∷◌, ◌*◌, some, if◌then◌else◌, ◌≡◌, ℕ, List}

-- Whole per cent.
abbrev whole : Float
whole = record { Value = ℕ; zero_value = 0; quiet_nan = 101; percent = λ a b. 100 * a / b }

abbrev call_at : ℕ → ℕ → ℕ → Call ℕ
call_at now total xruns = record {
  now = now;
  temperature = 40;
  cpu = some (record { total = total; idle = total / 2 });
  xruns = xruns;
  audio_runtime = 1;
}

-- The second call is too early; the fourth finds the first sample ten minutes old.
abbrev calls : List (Call ℕ)
calls = call_at 1000 100 0 ∷ call_at 1500 200 1 ∷ call_at 2000 300 2 ∷ call_at 601000 400 5 ∷ []

history_example : IsTimeline whole (run whole calls (new whole 7))
history_example = run-IsTimeline whole calls 7

abbrev filled : SystemHistory ℕ
filled = run whole (call_at 1000 100 0 ∷ []) (new whole 7)

add_example : contents whole (add_call whole (call_at 2000 300 2) filled) ≡ (
    if due whole 2000 filled
    then recent whole 2000 (contents whole filled)
      ++ sample_of whole (call_at 2000 300 2) filled ∷ []
    else contents whole filled)
add_example =
    add_lem whole (call_at 2000 300 2) filled (run-IsTimeline whole (call_at 1000 100 0 ∷ []) 7)

ids : List (Sample ℕ) → List ℕ
ids [] = []
ids (s ∷ ss) = s.id ∷ ids ss

ids_kept : ids (contents whole (run whole calls (new whole 7))) ≡ 2 ∷ 3 ∷ []
unfolding ids new run add due latest sample_at prune prune_loop take_sample is_continuous load store
ids_kept = refl
