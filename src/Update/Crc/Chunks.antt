-- ===== src/Update/Crc/Chunks.antt =====
-- A checksum may be computed piece by piece.
use native.Mathlib.Nat.{pow-suc}
use Prim.Native.Nat.{suc, bit_xor, bit_and, ℕ, digits, differ, bit_xor-bitwise}
use audiox.Prelude.Words.{sub32}
use audiox.Update.Crc.{List, complement, crc_round, crc_rounds, crc_byte, crc_bytes, crc32}
use audiox.Prelude.{
  zero, ◌/◌, refl, bit_xor, ◌≡◌, ◌^◌, bit_and, arith, [], ◌≤◌, ◌∷◌, ◌<◌, ◌++◌, ◌%◌, ℕ, List,
}

differ-le : (a b : ℕ) → differ (a % 2) (b % 2) ≤ 1
differ-le a b = bits (a % 2) (b % 2) (omega arith) (omega arith)
  where
    bits : (x y : ℕ) → x < 2 → y < 2 → differ x y ≤ 1
    bits zero y hx hy = omega arith
    bits (suc zero) zero hx hy = omega arith
    bits (suc zero) (suc zero) hx hy = omega arith
    bits (suc zero) (suc (suc y)) hx hy = absurd (omega arith)
    bits (suc (suc x)) y hx hy = absurd (omega arith)

xor_digits-lt : (k n a b : ℕ) → a ≤ n → a < 2 ^ k → b < 2 ^ k → digits (λ c. c) differ n a b < 2 ^ k
xor_digits-lt k zero a b h ha hb = hb
xor_digits-lt k (suc n) zero b h ha hb = hb
xor_digits-lt zero (suc n) (suc a) b h ha hb = absurd (omega arith)
xor_digits-lt (suc k) (suc n) (suc a) b h ha hb =
    let e = pow-suc 2 k in
    omega (
      arith,
      differ-le (suc a) b,
      xor_digits-lt k n (suc a / 2) (b / 2) (omega arith) (omega arith) (omega arith),
    )

bit_xor-lt : (k a b : ℕ) → a < 2 ^ k → b < 2 ^ k → bit_xor a b < 2 ^ k
bit_xor-lt k a b ha hb = rw (bit_xor-bitwise a b) (xor_digits-lt k a a b (omega arith) ha hb)

polynomial-lt : (r : ℕ) → r < 2 → bit_and 0xedb88320 (sub32 0 r) < 2 ^ 32
polynomial-lt zero h = omega arith
polynomial-lt (suc zero) h = omega arith
polynomial-lt (suc (suc r)) h = absurd (omega arith)

crc_round-lt : (crc : ℕ) → crc < 2 ^ 32 → crc_round crc < 2 ^ 32
unfolding crc_round
crc_round-lt crc h = bit_xor-lt 32 _ _ (omega arith) (polynomial-lt (crc % 2) (omega arith))

crc_rounds-lt : (n crc : ℕ) → crc < 2 ^ 32 → crc_rounds n crc < 2 ^ 32
unfolding crc_rounds
crc_rounds-lt zero crc h = h
crc_rounds-lt (suc n) crc h = crc_rounds-lt n (crc_round crc) (crc_round-lt crc h)

abbrev pub AllBytes : List ℕ → Type 0
AllBytes [] = Unit {0}
AllBytes (b ∷ bs) = (b < 256) × AllBytes bs

crc_bytes-lt : (bs : List ℕ) (crc : ℕ) → AllBytes bs → crc < 2 ^ 32 → crc_bytes crc bs < 2 ^ 32
unfolding crc_bytes crc_byte
crc_bytes-lt [] crc h c = c
crc_bytes-lt (b ∷ bs) crc h c =
    crc_bytes-lt bs _ h.1 (crc_rounds-lt 8 _ (bit_xor-lt 32 crc b c (omega arith)))

crc_bytes-append :
    (xs ys : List ℕ) (crc : ℕ) → crc_bytes crc (xs ++ ys) ≡ crc_bytes (crc_bytes crc xs) ys
unfolding crc_bytes
crc_bytes-append [] ys crc = refl
crc_bytes-append (x ∷ xs) ys crc = crc_bytes-append xs ys (crc_byte crc x)

-- The checksum is a 32-bit number, and going on from the checksum of a first piece gives that of
-- the whole.
pub crc32-append :
    (xs ys : List ℕ) (crc : ℕ)
    → AllBytes xs
    → (crc32 crc xs < 2 ^ 32) × (crc32 (crc32 crc xs) ys ≡ crc32 crc (xs ++ ys))
unfolding crc32
crc32-append xs ys crc h =
    let small = crc_bytes-lt xs (complement crc) h (omega arith) in
    let twice : complement (complement (crc_bytes (complement crc) xs))
        ≡ crc_bytes (complement crc) xs =
      omega arith in
    (omega arith, rw (twice, crc_bytes-append) refl)
