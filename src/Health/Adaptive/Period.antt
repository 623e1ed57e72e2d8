-- ===== src/Health/Adaptive/Period.antt =====
-- The period size that a level stands for, and the level that reaches the largest period.
use audiox.Prelude.{
  refl, le→ltb, ap, lt→ltb, dec_lt, ◌+◌, ◌<◌, ℕ, zero, suc, ◌*◌, ◌^◌, ◌≤◌, ◌≡◌, min, arith,
}
use native.Mathlib.Nat.{pow-suc}
use audiox.Health.Adaptive.{
  max_level, some, double_frames, max_level_loop, AdaptiveAudioBuffer, target_loop,
  target_period_frames, max_period_frames,
}

one-le-pow : (n : ℕ) → 1 ≤ 2 ^ n
one-le-pow zero = omega arith
one-le-pow (suc n) = omega (arith, pow-suc 2 n, one-le-pow n)

le-mul_pow : (f n : ℕ) → f ≤ f * 2 ^ n
le-mul_pow f n = let p = one-le-pow n in grind arith

pub mul_pow_suc : (f n : ℕ) → f * 2 ^ suc n ≡ f * 2 * 2 ^ n
mul_pow_suc f n = rw pow-suc (omega arith)

target_loop-min : (n f : ℕ) → min 1024 (target_loop n f) ≡ min 1024 (f * 2 ^ n)
unfolding target_loop
target_loop-min zero f = omega arith
target_loop-min (suc n) f = rw mul_pow_suc (
    ground (
      arith,
      le-mul_pow (f * 2) n,
      le-mul_pow 1024 n,
      target_loop-min n (f * 2),
      target_loop-min n 1024,
    ))

-- At any level the period is the base period doubled that many times, and never more than 1024.
pub target_period_frames-eq :
    (base : ℕ) (a : AdaptiveAudioBuffer)
    → target_period_frames base a ≡ min max_period_frames (base * 2 ^ a.level)
unfolding target_period_frames
target_period_frames-eq base a = ground (arith, target_loop-min a.level base)

-- One round fewer than `k` does not reach 1024 frames.
abbrev pub Short : ℕ → ℕ → Type 0
Short f zero = Unit {0}
Short f (suc j) = f * 2 ^ j < max_period_frames

max_level_loop-full : (fuel f c : ℕ) → 1024 ≤ f → max_level_loop (suc fuel) f c ≡ some c
unfolding max_level_loop
max_level_loop-full fuel f c h = ground arith

max_level_loop-double :
    (fuel f c : ℕ)
    → f < 1024
    → max_level_loop (suc fuel) f c ≡ max_level_loop fuel (double_frames f) (c + 1)
unfolding max_level_loop
max_level_loop-double fuel f c h = ground arith

double-Short : (f k : ℕ) → f < 1024 → Short (f * 2) k → Short f (suc k)
double-Short f zero small s = omega arith
double-Short f (suc k) small s = omega (arith, mul_pow_suc f k, s)

-- The loop ends within `m` doublings of `f`, and counts the least number of them.
abbrev Counted : ℕ → ℕ → ℕ → Type 0
Counted m f c =
    (k : ℕ) × (max_level_loop (suc m) f c ≡ some (c + k)) × (k ≤ m) × (1024 ≤ f * 2 ^ k) × Short f k

Counted-full : (m f c : ℕ) → 1024 ≤ f → Counted m f c
Counted-full m f c h =
    (0, rw (max_level_loop-full m f c h) (ap some (omega arith)), omega arith, omega arith, tt)

Counted-last : (m f c : ℕ) → f < 1024 → 512 < f → Counted (suc m) f c
Counted-last m f c h big = (
  1,
  rw
      (
        max_level_loop-double (suc m) f c h,
        lt→ltb 512 f big,
        max_level_loop-full m 1024 (c + 1) (omega arith),
      )
      refl,
  omega arith,
  omega arith,
  omega arith,
)

Counted-double : (m f c : ℕ) → f < 1024 → f ≤ 512 → Counted m (f * 2) (c + 1) → Counted (suc m) f c
Counted-double m f c h low (k, e, le, reach, short) = (
  suc k,
  rw (max_level_loop-double (suc m) f c h, le→ltb 512 f low, e) (ap some (omega arith)),
  omega arith,
  rw mul_pow_suc reach,
  double-Short f k h short,
)

max_level_loop-Counted : (m f c : ℕ) → 1024 ≤ f * 2 ^ m → Counted m f c
max_level_loop-Counted zero f c h = Counted-full 0 f c (omega arith)
max_level_loop-Counted (suc m) f c h = elim (dec_lt f 1024) [
  | no big ↦ Counted-full (suc m) f c (omega arith)
  | yes small ↦ elim (dec_lt 512 f) [
    | yes big ↦ Counted-last m f c small big
    | no low ↦
        Counted-double m f c small (omega arith)
          (max_level_loop-Counted m (f * 2) (c + 1) (omega (arith, mul_pow_suc f m)))
  ]
]

-- For a positive base `maxLevel` returns a level of at most 10: the least one whose period is the
-- largest.
pub max_level_least :
    (base : ℕ)
    → 0 < base
    → (k : ℕ) × (max_level base ≡ some k) × (k ≤ 10) × (1024 ≤ base * 2 ^ k) × Short base k
unfolding max_level
max_level_least base h = elim (dec_lt base 1024) [
  | no big ↦ (0, ground arith, omega arith, omega arith, tt)
  | yes small ↦
      let (k, e, le, reach, short) = max_level_loop-Counted 10 base 0 (omega arith) in
      (k, ground (arith, e), le, reach, short)
]
