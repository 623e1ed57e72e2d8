-- ===== src/Update/Crc.antt =====
-- `audioxUpdateCrc32` of include/update_archive.hpp.
pub mod Chunks
use audiox.Prelude.Words.{sub32}
use Prim.Native.Nat.{bit_and, suc, bit_xor, ℕ}
use audiox.Prelude.{zero, ◌%◌, bit_and, [], ◌∷◌, ◌/◌, ◌-◌, ◌^◌, bit_xor, List, ℕ}

-- `~crc` on 32 bits.
abbrev pub complement : ℕ → ℕ
complement crc = 2 ^ 32 - 1 - crc

-- One round of the bit loop.
unfoldable pub crc_round : ℕ → ℕ
crc_round crc = bit_xor (crc / 2) (bit_and 0xedb88320 (sub32 0 (crc % 2)))

unfoldable pub crc_rounds : ℕ → ℕ → ℕ
crc_rounds zero crc = crc
crc_rounds (suc n) crc = crc_rounds n (crc_round crc)

unfoldable pub crc_byte : ℕ → ℕ → ℕ
crc_byte crc byte = crc_rounds 8 (bit_xor crc byte)

unfoldable pub crc_bytes : ℕ → List ℕ → ℕ
crc_bytes crc [] = crc
crc_bytes crc (b ∷ bs) = crc_bytes (crc_byte crc b) bs

unfoldable pub crc32 : ℕ → List ℕ → ℕ
crc32 crc input = complement (crc_bytes (complement crc) input)
