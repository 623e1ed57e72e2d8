-- ===== src/Keyboard/Hex.antt =====
-- `scriptHexEncode` and `scriptHexDecode`. A C string is the list of its bytes before the NUL; the
-- buffer is `none` where the decoder answers `false`, since no caller reads it then.
use Prim.Native.Nat.{ℕ}
use audiox.Prelude.{
  ==_iff, ap, true, refl, arith, ◌≡◌, ◌<◌, length, ◌-◌, ◌*◌, not, ◌||◌, ◌+◌, ◌&&◌, ◌%◌, [], ◌==◌,
  ◌/◌, none, ltb, leb, ◌∷◌, some, if◌then◌else◌, ℕ, Option, List,
}
use audiox.Prelude.Bytes.{all_below_sound, IsByte, all_below}

unfoldable pub hex_digit : ℕ → ℕ
hex_digit d = if ltb d 10 then b'0' + d else b'a' + (d - 10)

unfoldable pub hex_encode : List ℕ → List ℕ
hex_encode [] = []
hex_encode (c ∷ cs) = hex_digit (c / 16) ∷ hex_digit (c % 16) ∷ hex_encode cs

unfoldable pub hex_value : ℕ → Option ℕ
hex_value c =
    if leb b'0' c && leb c b'9'
    then some (c - b'0')
    else if leb b'a' c && leb c b'f'
    then some (c - b'a' + 10)
    else if leb b'A' c && leb c b'F'
    then some (c - b'A' + 10)
    else none

-- Two digits; `none` for a digit that is none, and for the NUL byte.
unfoldable pub hex_pair : Option ℕ → Option ℕ → Option ℕ
hex_pair (some h) (some l) = if h == 0 && l == 0 then none else some (h * 16 + l)
hex_pair (some h) none = none
hex_pair none l = none

unfoldable pub hex_join : Option ℕ → Option (List ℕ) → Option (List ℕ)
hex_join none rest = none
hex_join (some byte) none = none
hex_join (some byte) (some bytes) = some (byte ∷ bytes)

-- The loop: two digits for each byte.
unfoldable pub hex_bytes : List ℕ → Option (List ℕ)
hex_bytes [] = some []
hex_bytes (a ∷ []) = none
hex_bytes (a ∷ b ∷ cs) = hex_join (hex_pair (hex_value a) (hex_value b)) (hex_bytes cs)

unfoldable pub hex_decode : List ℕ → ℕ → Option (List ℕ)
hex_decode hex capacity =
    if capacity == 0 || (not (length hex % 2 == 0) || leb capacity (length hex / 2))
    then none
    else hex_bytes hex

abbrev pub IsText : List ℕ → Type 0
IsText [] = Unit {0}
IsText (c ∷ cs) = (0 < c) × IsByte c × IsText cs

pair_table :
    all_below 256 (λ c.
      (elim (hex_pair (hex_value (hex_digit (c / 16))) (hex_value (hex_digit (c % 16)))) [
        | none ↦ c == 0
        | some b ↦ b == c
      ]))
    ≡ true
unfolding all_below hex_pair hex_value hex_digit
pair_table = refl

pair_of_byte :
    (c : ℕ)
    → 0 < c
    → IsByte c
    → hex_pair (hex_value (hex_digit (c / 16))) (hex_value (hex_digit (c % 16))) ≡ some c
pair_of_byte c p h = decided _ (all_below_sound 256 _ c pair_table h)
  where
    decided : (o : Option ℕ) → (elim o [ none ↦ c == 0 | some b ↦ b == c ]) ≡ true → o ≡ some c
    decided none e = absurd (ground arith)
    decided (some b) e = ap some ((==_iff b c).0 e)

length-hex_encode : (text : List ℕ) → length (hex_encode text) ≡ length text * 2
unfolding hex_encode
length-hex_encode [] = refl
length-hex_encode (c ∷ cs) = omega (arith, length-hex_encode cs)

hex_bytes-hex_encode : (text : List ℕ) → IsText text → hex_bytes (hex_encode text) ≡ some text
unfolding hex_encode hex_bytes hex_join
hex_bytes-hex_encode [] t = refl
hex_bytes-hex_encode (c ∷ cs) t =
    rw (pair_of_byte c t.0 t.1, hex_bytes-hex_encode cs t.2, hex_join) refl

-- A text of nonzero bytes, encoded in hexadecimal, is decoded to itself into every buffer that
-- has room for it and its terminating NUL, and is refused by a smaller one.
pub hex_roundtrip :
    (text : List ℕ) (capacity : ℕ)
    → IsText text
    → hex_decode (hex_encode text) capacity
      ≡ (if ltb (length text) capacity then some text else none)
unfolding hex_decode
hex_roundtrip text capacity t = ground (arith, length-hex_encode text, hex_bytes-hex_encode text t)
