-- ===== src/Update/Codec.antt =====
-- `audioxUpdatePutU32`, `audioxUpdatePutU64`, `audioxUpdateGetU32` and `audioxUpdateGetU64` of
-- include/update_archive.hpp. The bytes of a word have no bit in common, so `|` is written `+`.
-- The loops of eight rounds are written out.
use Prim.Native.Nat.{ℕ}
use audiox.Prelude.{arith, ◌≡◌, [], ◌/◌, ◌++◌, ◌*◌, ◌∷◌, ◌^◌, ◌+◌, ◌<◌, ◌%◌, get_or, ℕ, List}

unfoldable pub put_u32 : ℕ → List ℕ
put_u32 v = (v % 256) ∷ (v / 2 ^ 8 % 256) ∷ (v / 2 ^ 16 % 256) ∷ (v / 2 ^ 24 % 256) ∷ []

unfoldable pub put_u64 : ℕ → List ℕ
put_u64 v =
    (v % 256)
    ∷ (v / 2 ^ 8 % 256)
    ∷ (v / 2 ^ 16 % 256)
    ∷ (v / 2 ^ 24 % 256)
    ∷ (v / 2 ^ 32 % 256)
    ∷ (v / 2 ^ 40 % 256)
    ∷ (v / 2 ^ 48 % 256)
    ∷ (v / 2 ^ 56 % 256)
    ∷ []

-- Reads at the offset `at`.
unfoldable pub get_u32 : List ℕ → ℕ → ℕ
get_u32 input at =
    get_or input at 0
    + get_or input (at + 1) 0 * 2 ^ 8
    + get_or input (at + 2) 0 * 2 ^ 16
    + get_or input (at + 3) 0 * 2 ^ 24

unfoldable pub get_u64 : List ℕ → ℕ → ℕ
get_u64 input at =
    get_or input at 0
    + get_or input (at + 1) 0 * 2 ^ 8
    + get_or input (at + 2) 0 * 2 ^ 16
    + get_or input (at + 3) 0 * 2 ^ 24
    + get_or input (at + 4) 0 * 2 ^ 32
    + get_or input (at + 5) 0 * 2 ^ 40
    + get_or input (at + 6) 0 * 2 ^ 48
    + get_or input (at + 7) 0 * 2 ^ 56

-- The fields of an entry header, as a writer lays them out, read back as they were.
pub entry_header_roundtrip :
    (type crc size : ℕ)
    → type < 2 ^ 32
    → crc < 2 ^ 32
    → size < 2 ^ 64
    → let header = put_u32 type ++ (put_u32 crc ++ put_u64 size) in
      (get_u32 header 0 ≡ type) × (get_u32 header 4 ≡ crc) × (get_u64 header 8 ≡ size)
unfolding put_u32 put_u64 get_u32 get_u64
entry_header_roundtrip type crc size ht hc hs = (omega arith, omega arith, omega arith)
