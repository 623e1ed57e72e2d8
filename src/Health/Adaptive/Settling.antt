-- ===== src/Health/Adaptive/Settling.antt =====
-- Raising, lowering, and the time that passes between two changes of level.
use audiox.Prelude.{
  get_or, ◌∙◌, ap, ◌*◌, ◌%◌, ℕ, suc, ◌+◌, ◌-◌, ◌^◌, ◌≤◌, ◌<◌, ◌≡◌, true, false, List, [], ◌∷◌,
  arith, set, length, length-set, min,
}
use audiox.Health.Adaptive.{
  note_xrun, get_or, AdaptiveAudioBuffer, record_xrun, tick, recent_xruns, target_period_frames,
  xrun_window_ms, max_period_frames, shift_grace_ms,
}
use audiox.Health.Adaptive.Period.{target_period_frames-eq, mul_pow_suc, max_level_least}

record_xrun_raises :
    (now base : ℕ) (a : AdaptiveAudioBuffer)
    → a.level < 2 ^ 32 - 1
    → (record_xrun now base a).1 ≡ true
    → (record_xrun now base a).0.level ≡ a.level + 1
unfolding record_xrun
record_xrun_raises now base a small e = ground arith

suc_of : (n : ℕ) → n + 1 ≡ suc n
suc_of n = omega arith

-- A raise, below the largest level number, adds one to the level and doubles the period, up to the
-- largest one.
pub record_xrun_doubles :
    (now base : ℕ) (a : AdaptiveAudioBuffer)
    → a.level < 2 ^ 32 - 1
    → (record_xrun now base a).1 ≡ true
    → ((record_xrun now base a).0.level ≡ a.level + 1)
      × (target_period_frames base (record_xrun now base a).0
          ≡ min max_period_frames (2 * target_period_frames base a))
record_xrun_doubles now base a small e =
    let up = record_xrun_raises now base a small e in
    (
      up,
      omega (
        arith,
        target_period_frames-eq base a,
        target_period_frames-eq base (record_xrun now base a).0,
        ap (λ k. base * 2 ^ k) (up ∙ suc_of a.level),
        mul_pow_suc base a.level,
      ),
    )

-- What an object that has served any calls satisfies.
pub record IsValid (a : AdaptiveAudioBuffer) : Type 0 where
  pub failures : a.downshift_failures ≤ 3
  pub levels : a.level ≤ 10
  pub five_times : length a.xrun_times ≡ 5

-- With a positive base period an xrun keeps the failures within 3, the level within 10 and the five
-- slots for the times of xruns.
pub record_xrun-IsValid :
    (now base : ℕ) (a : AdaptiveAudioBuffer)
    → 0 < base
    → IsValid a
    → IsValid (record_xrun now base a).0
unfolding record_xrun
record_xrun-IsValid now base a h v =
    let (k, e, le, reach, short) = max_level_least base h in
    ground (arith, e, length-set a.xrun_times (a.xrun_index % 5) now)

-- A tick keeps the same bounds, for any time.
pub tick-IsValid : (now : ℕ) (a : AdaptiveAudioBuffer) → IsValid a → IsValid (tick now a).0
unfolding tick
tick-IsValid now a v = ground arith

grace_holds :
    (now base : ℕ) (a : AdaptiveAudioBuffer)
    → now < a.grace_until
    → (record_xrun now base a ≡ (a, false)) × (tick now a ≡ (a, false))
unfolding record_xrun tick
grace_holds now base a h = (ground arith, ground arith)

record_xrun_grace :
    (now base : ℕ) (a : AdaptiveAudioBuffer)
    → now + shift_grace_ms < 2 ^ 64
    → (record_xrun now base a).1 ≡ true
    → now + shift_grace_ms ≤ (record_xrun now base a).0.grace_until
unfolding record_xrun
record_xrun_grace now base a fits e = ground arith

-- For ten seconds after a raise, and while the time does not wrap, neither an xrun nor a tick changes
-- the buffer.
pub settles :
    (now later base base' : ℕ) (a : AdaptiveAudioBuffer)
    → later < now + shift_grace_ms
    → now + shift_grace_ms < 2 ^ 64
    → (record_xrun now base a).1 ≡ true
    → let b = (record_xrun now base a).0 in
      (record_xrun later base' b ≡ (b, false)) × (tick later b ≡ (b, false))
settles now later base base' a h fits e =
    grace_holds later base' (record_xrun now base a).0
      (omega (arith, record_xrun_grace now base a fits e))

recent_xruns-le : (now : ℕ) (times : List ℕ) → recent_xruns now times ≤ length times
unfolding recent_xruns
recent_xruns-le now [] = omega arith
recent_xruns-le now (t ∷ ts) = ground (arith, recent_xruns-le now ts)

-- A time that the window counts.
abbrev pub InWindow : ℕ → ℕ → Type 0
InWindow now time = (0 < time) × (time ≤ now) × (now ≤ time + xrun_window_ms)

abbrev pub AllInWindow : ℕ → List ℕ → Type 0
AllInWindow now [] = Unit {0}
AllInWindow now (t ∷ ts) = InWindow now t × AllInWindow now ts

recent_xruns-full :
    (now : ℕ) (times : List ℕ) → length times ≤ recent_xruns now times → AllInWindow now times
unfolding recent_xruns
recent_xruns-full now [] h = tt
recent_xruns-full now (t ∷ ts) h = (
  ground (arith, recent_xruns-le now ts),
  recent_xruns-full now ts (ground (arith, recent_xruns-le now ts)),
)

five_counted :
    (now base : ℕ) (a : AdaptiveAudioBuffer)
    → ¬ ((record_xrun now base a).0.level ≡ a.level)
    → 5 ≤ recent_xruns now (set a.xrun_times (a.xrun_index % 5) now)
unfolding record_xrun note_xrun
five_counted now base a e = ground arith

-- In a valid state an xrun changes the level only if it and the four stored with it all lie in the
-- last 30 seconds.
pub record_xrun_needs_burst :
    (now base : ℕ) (a : AdaptiveAudioBuffer)
    → IsValid a
    → ¬ ((record_xrun now base a).0.level ≡ a.level)
    → AllInWindow now (set a.xrun_times (a.xrun_index % 5) now)
record_xrun_needs_burst now base a v e = recent_xruns-full now _ (
    omega (
      arith,
      five_counted now base a e,
      length-set a.xrun_times (a.xrun_index % 5) now,
      v.five_times,
    ))
