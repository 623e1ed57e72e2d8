-- ===== src/Health/Adaptive/Run.antt =====
-- Any calls on the `AdaptiveAudioBuffer` of include/audio/health.hpp, one after the other.
use audiox.Prelude.{◌<◌, List, [], ◌∷◌, ℕ, refl, arith}
use audiox.Health.Adaptive.{
  AdaptiveAudioBuffer, new, buffer_changed, record_xrun, tick, publish_observed,
}
use audiox.Health.Adaptive.Settling.{IsValid, record_xrun-IsValid, tick-IsValid}

pub data Call : Type 0 where
  xrun_at : ℕ → ℕ → Call
  tick_at : ℕ → Call
  change_at : ℕ → Call
  observed : ℕ → ℕ → ℕ → Call

unfoldable pub call : Call → AdaptiveAudioBuffer → AdaptiveAudioBuffer
call (xrun_at now base) a = (record_xrun now base a).0
call (tick_at now) a = (tick now a).0
call (change_at now) a = buffer_changed now a
call (observed streams period buffer) a = publish_observed streams period buffer a

unfoldable pub run : List Call → AdaptiveAudioBuffer → AdaptiveAudioBuffer
run [] a = a
run (c ∷ cs) a = run cs (call c a)

-- The base period of every xrun is positive.
unfoldable pub PositiveBases : List Call → Type 0
PositiveBases [] = Unit
PositiveBases (xrun_at now base ∷ cs) = (0 < base) × PositiveBases cs
PositiveBases (c ∷ cs) = PositiveBases cs

new-IsValid : (started : ℕ) → IsValid (new started)
unfolding new
new-IsValid started = record { failures = omega arith; levels = omega arith; five_times = refl }

buffer_changed-IsValid :
    (now : ℕ) (a : AdaptiveAudioBuffer) → IsValid a → IsValid (buffer_changed now a)
unfolding buffer_changed
buffer_changed-IsValid now a v = record {
  failures = v.failures;
  levels = v.levels;
  five_times = refl;
}

publish_observed-IsValid :
    (streams period buffer : ℕ) (a : AdaptiveAudioBuffer)
    → IsValid a
    → IsValid (publish_observed streams period buffer a)
unfolding publish_observed
publish_observed-IsValid streams period buffer a v = record {
  failures = v.failures;
  levels = v.levels;
  five_times = v.five_times;
}

kept :
    (cs : List Call) (a : AdaptiveAudioBuffer) → PositiveBases cs → IsValid a → IsValid (run cs a)
unfolding run call PositiveBases
kept [] a p v = v
kept (xrun_at now base ∷ cs) a (b, p) v = kept cs _ p (record_xrun-IsValid now base a b v)
kept (tick_at now ∷ cs) a p v = kept cs _ p (tick-IsValid now a v)
kept (change_at now ∷ cs) a p v = kept cs _ p (buffer_changed-IsValid now a v)
kept (observed streams period buffer ∷ cs) a p v =
    kept cs _ p (publish_observed-IsValid streams period buffer a v)

-- After any calls on a new object, with a positive base period at each xrun, at most 3 failures are
-- counted, the level is at most 10, and there are five times of xruns.
pub run-IsValid : (started : ℕ) (cs : List Call) → PositiveBases cs → IsValid (run cs (new started))
run-IsValid started cs p = kept cs (new started) p (new-IsValid started)
