-- ===== src/Prelude/Bytes.antt =====
-- Facts about every byte by evaluation, and what the masks of the program select.
use Prim.Native.Nat.{ℕ, zero, suc, ◌<◌, bit_and}
use mathlib.Core.Path.{◌≡◌, refl}
use mathlib.Core.Bool.{Bool, true, false, ◌&&◌, not}
use native.Mathlib.Omega.{arith}
use audiox.Prelude.Tests.{◌==◌, ltb, leb}

abbrev pub IsByte : ℕ → Type 0
IsByte b = b < 256

unfoldable pub all_below : ℕ → (ℕ → Bool) → Bool
all_below zero test = true
all_below (suc bound) test = all_below bound test && test bound

pub all_below_sound :
    (bound : ℕ) (test : ℕ → Bool) (x : ℕ) → all_below bound test ≡ true → x < bound → test x ≡ true
unfolding all_below
all_below_sound zero test x e under = absurd (omega arith)
all_below_sound (suc bound) test x e under = ground (arith, all_below_sound bound test x)

abbrev pub same : Bool → Bool → Bool
same true b = b
same false b = not b

pub same-eq : (a b : Bool) → same a b ≡ true → a ≡ b
same-eq true true h = refl
same-eq true false h = cc
same-eq false true h = cc
same-eq false false h = refl

top_bit_table : all_below 256 (λ x. same (bit_and x 0x80 == 0) (ltb x 128)) ≡ true
unfolding all_below
top_bit_table = refl

-- `byte & 0x80` is clear exactly below 128.
pub top_bit : (x : ℕ) → x < 256 → (bit_and x 0x80 == 0) ≡ ltb x 128
top_bit x h = same-eq _ _ (all_below_sound 256 _ x top_bit_table h)

two_byte_table :
    all_below 256 (λ x. same (bit_and x 0xe0 == 0xc0) (leb 0xc0 x && ltb x 0xe0)) ≡ true
unfolding all_below
two_byte_table = refl

-- `(byte & 0xe0) == 0xc0` selects 0xc0 to 0xdf.
pub two_byte_mask : (x : ℕ) → x < 256 → (bit_and x 0xe0 == 0xc0) ≡ (leb 0xc0 x && ltb x 0xe0)
two_byte_mask x h = same-eq _ _ (all_below_sound 256 _ x two_byte_table h)
