-- ===== src/Keyboard/Ascii.antt =====
-- `scriptAsciiReport`: the report that types one character; `none` for a character without a key.
use audiox.Prelude.Bytes.{same, same-eq}
use audiox.Keyboard.Chord.{ChordReport, in_range}
use Prim.Native.Nat.{ℕ}
use audiox.Prelude.{
  refl, ltb, length, ==_refl, ==_iff, true, leb, get_or, ◌≡◌, ◌<◌, not, bytes_eq, ◌&&◌, false, Bool,
  ◌||◌, ◌-◌, ◌==◌, ◌+◌, some, none, if◌then◌else◌, [], ◌∷◌, Option, ℕ, List,
}
use audiox.Prelude.Bytes.{all_below_sound, all_below}

abbrev pub ascii_keys : List (ℕ × ℕ × ℕ)
ascii_keys =
    (b'0', b')', 39)
    ∷ (b'1', b'!', 30)
    ∷ (b'2', b'@', 31)
    ∷ (b'3', b'#', 32)
    ∷ (b'4', b'$', 33)
    ∷ (b'5', b'%', 34)
    ∷ (b'6', b'^', 35)
    ∷ (b'7', b'&', 36)
    ∷ (b'8', b'*', 37)
    ∷ (b'9', b'(', 38)
    ∷ (b'-', b'_', 45)
    ∷ (b'=', b'+', 46)
    ∷ (b'[', b'{', 47)
    ∷ (b']', b'}', 48)
    ∷ (b'\\', b'|', 49)
    ∷ (b';', b':', 51)
    ∷ (b'\'', b'"', 52)
    ∷ (b'`', b'~', 53)
    ∷ (b',', b'<', 54)
    ∷ (b'.', b'>', 55)
    ∷ (b'/', b'?', 56)
    ∷ []

abbrev pub press : ℕ → ℕ → Option ChordReport
press modifiers usage = some (record { modifiers = modifiers; keys = usage ∷ [] })

-- The first entry of the table with the character, plain or shifted.
unfoldable pub find_ascii : List (ℕ × ℕ × ℕ) → ℕ → Option ChordReport
find_ascii [] c = none
find_ascii ((plain, shifted, usage) ∷ keys) c =
    let rest = find_ascii keys c in
    if c == plain || c == shifted then press (if c == shifted then 2 else 0) usage else rest

unfoldable pub ascii_report : ℕ → Option ChordReport
ascii_report c =
    if in_range b'a' b'z' c
    then press 0 (4 + c - b'a')
    else if in_range b'A' b'Z' c
    then press 2 (4 + c - b'A')
    else if in_range b'1' b'9' c
    then press 0 (30 + c - b'1')
    else if c == b' '
    then press 0 44
    else if c == b'\n'
    then press 0 40
    else if c == b'\t'
    then press 0 43
    else find_ascii ascii_keys c

same_report : Option ChordReport → Option ChordReport → Bool
same_report none b = false
same_report (some r) none = false
same_report (some r) (some s) = r.modifiers == s.modifiers && bytes_eq r.keys s.keys

bytes_eq_refl : (xs : List ℕ) → bytes_eq xs xs ≡ true
bytes_eq_refl [] = refl
bytes_eq_refl (x ∷ xs) = rw (==_refl x, bytes_eq_refl xs)

same_report_refl : (r : ChordReport) → same_report (some r) (some r) ≡ true
unfolding same_report
same_report_refl r = rw (==_refl r.modifiers, bytes_eq_refl r.keys)

pair_table :
    all_below 128
      (λ a. all_below 128 (λ b. not (same_report (ascii_report a) (ascii_report b)) || a == b))
    ≡ true
unfolding all_below ascii_report find_ascii same_report
pair_table = refl

-- Two ASCII characters that are typed by the same report are the same character.
pub ascii_report_injective :
    (a b : ℕ) (r : ChordReport)
    → a < 128
    → b < 128
    → ascii_report a ≡ some r
    → ascii_report b ≡ some r
    → a ≡ b
ascii_report_injective a b r ha hb ea eb =
    let t = all_below_sound 128 _ b (all_below_sound 128 _ a pair_table ha) hb in
    (==_iff a b).0 (rw (ea, eb, same_report_refl r) at t)

-- The printable characters, newline and tab.
unfoldable pub printable : ℕ → Bool
printable c = leb 32 c && ltb c 127 || (c == 9 || c == 10)

-- One key, under no modifier or under Shift.
unfoldable pub typed_by_one_key : Option ChordReport → Bool
typed_by_one_key none = false
typed_by_one_key (some r) =
    length r.keys == 1 && (not (get_or r.keys 0 0 == 0) && (r.modifiers == 0 || r.modifiers == 2))

printable_table : all_below 128 (λ c. same (typed_by_one_key (ascii_report c)) (printable c)) ≡ true
unfolding all_below ascii_report find_ascii typed_by_one_key printable
printable_table = refl

-- An ASCII character is typed by one key, under no modifier or under Shift, exactly if it is
-- printable, a newline or a tab.
pub ascii_report_complete : (c : ℕ) → c < 128 → typed_by_one_key (ascii_report c) ≡ printable c
ascii_report_complete c h = same-eq _ _ (all_below_sound 128 _ c printable_table h)
