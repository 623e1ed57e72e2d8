-- ===== src/Keyboard/Chord.antt =====
-- `scriptChordReport` and `scriptMediaUsage`. A chord is a C string: the list of its bytes. The
-- report's reserved second byte is always 0 and is left out; `none` is the answer `false`, after
-- which no caller reads the report.
use Prim.Native.Nat.{bit_or, ℕ}
use audiox.Prelude.{
  ◌++◌, not, ◌||◌, ◌*◌, map, bit_or, ◌==◌, ◌-◌, ◌+◌, ◌&&◌, some, ltb, length, bytes_eq, ◌∷◌, none,
  leb, if◌then◌else◌, false, Option, ℕ, codes, [], List, Bool,
}

pub record ChordReport : Type 0 where
  pub modifiers : ℕ
  pub keys : List ℕ

abbrev pub empty_report : ChordReport
empty_report = record { modifiers = 0; keys = [] }

abbrev pub cons_head : ℕ → List (List ℕ) → List (List ℕ)
cons_head c [] = (c ∷ []) ∷ []
cons_head c (l ∷ ls) = (c ∷ l) ∷ ls

-- The parts between the '+' signs; there is always one.
unfoldable pub split_plus : List ℕ → List (List ℕ)
split_plus [] = [] ∷ []
split_plus (c ∷ cs) = let rest = split_plus cs in if c == b'+' then [] ∷ rest else cons_head c rest

abbrev pub in_range : ℕ → ℕ → ℕ → Bool
in_range lo hi c = leb lo c && leb c hi

abbrev pub upper : ℕ → ℕ
upper c = if in_range b'a' b'z' c then c - 32 else c

-- The part in capitals; `none` if it holds anything but letters and digits.
unfoldable pub upper_part : List ℕ → Option (List ℕ)
upper_part [] = some []
upper_part (c ∷ cs) =
    let rest = upper_part cs in
    if in_range b'A' b'Z' (upper c) || in_range b'0' b'9' (upper c)
    then elim rest [ none ↦ none | some r ↦ some (upper c ∷ r) ]
    else none

-- `strtol` on digits alone; `none` if there is no digit or anything else.
unfoldable pub decimal_from : ℕ → List ℕ → Option ℕ
decimal_from acc [] = some acc
decimal_from acc (c ∷ cs) =
    let rest = decimal_from (acc * 10 + (c - b'0')) cs in
    if in_range b'0' b'9' c then rest else none

unfoldable pub decimal : List ℕ → Option ℕ
decimal [] = none
decimal (c ∷ cs) = decimal_from 0 (c ∷ cs)

-- F1 to F24.
unfoldable pub function_key : List ℕ → ℕ
function_key digits = elim (decimal digits) [
  | none ↦ 0
  | some f ↦ if leb 1 f && leb f 24 then if leb f 12 then 57 + f else 91 + f else 0
]

-- A letter, a digit or a function key; 0 for none.
unfoldable pub plain_key : List ℕ → ℕ
plain_key [] = 0
plain_key (c ∷ []) =
    if in_range b'A' b'Z' c
    then 4 + c - b'A'
    else if in_range b'1' b'9' c
    then 30 + c - b'1'
    else if c == b'0'
    then 39
    else 0
plain_key (c ∷ d ∷ cs) = if c == b'F' then function_key (d ∷ cs) else 0

abbrev pub Names : Type 0
Names = List (List ℕ × ℕ)

abbrev pub named_keys : Names
named_keys =
    (codes "ENTER", 40)
    ∷ (codes "ESC", 41)
    ∷ (codes "BACKSPACE", 42)
    ∷ (codes "TAB", 43)
    ∷ (codes "SPACE", 44)
    ∷ (codes "DELETE", 76)
    ∷ (codes "RIGHT", 79)
    ∷ (codes "LEFT", 80)
    ∷ (codes "DOWN", 81)
    ∷ (codes "UP", 82)
    ∷ (codes "HOME", 74)
    ∷ (codes "END", 77)
    ∷ (codes "PAGEUP", 75)
    ∷ (codes "PAGEDOWN", 78)
    ∷ []

-- The loop over a table, from the key found before; the last match counts.
unfoldable pub find_name : Names → List ℕ → ℕ → ℕ
find_name [] part key = key
find_name ((name, usage) ∷ names) part key =
    find_name names part (if bytes_eq part name then usage else key)

unfoldable pub key_of : List ℕ → ℕ
key_of part = find_name named_keys part (plain_key part)

abbrev pub contains : List ℕ → ℕ → Bool
contains [] key = false
contains (k ∷ ks) key = k == key || contains ks key

-- One key joins the report, if it is one, there is room and it is not yet there.
unfoldable pub add_key : ℕ → ChordReport → Option ChordReport
add_key key r =
    if key == 0 || length r.keys == 6
    then none
    else if contains r.keys key
    then none
    else some (record r { keys = r.keys ++ key ∷ [] })

unfoldable pub add_part : List ℕ → ChordReport → Option ChordReport
add_part part r =
    if bytes_eq part (codes "CTRL")
    then some (record r { modifiers = bit_or r.modifiers 1 })
    else if bytes_eq part (codes "SHIFT")
    then some (record r { modifiers = bit_or r.modifiers 2 })
    else if bytes_eq part (codes "ALT")
    then some (record r { modifiers = bit_or r.modifiers 4 })
    else if bytes_eq part (codes "GUI")
    then some (record r { modifiers = bit_or r.modifiers 8 })
    else add_key (key_of part) r

unfoldable pub add_parts : List (List ℕ) → ChordReport → Option ChordReport
add_parts [] r = some r
add_parts (p ∷ ps) r = elim (upper_part p) [
  | none ↦ none
  | some part ↦ elim (add_part part r) [ none ↦ none | some r' ↦ add_parts ps r' ]
]

unfoldable pub finish_chord : Bool → ChordReport → Option ChordReport
finish_chord allow_modifiers r =
    if ltb 0 (length r.keys) || (allow_modifiers && not (r.modifiers == 0)) then some r else none

unfoldable pub chord_report : List ℕ → Bool → Option ChordReport
chord_report keys allow_modifiers =
    if length keys == 0 || leb 64 (length keys)
    then none
    else elim (add_parts (split_plus keys) empty_report) [
      | none ↦ none
      | some r ↦ finish_chord allow_modifiers r
    ]

abbrev pub media_keys : Names
media_keys =
    (codes "MEDIA_PLAY", 0xb0)
    ∷ (codes "MEDIA_PAUSE", 0xb1)
    ∷ (codes "MEDIA_RECORD", 0xb2)
    ∷ (codes "MEDIA_FAST_FORWARD", 0xb3)
    ∷ (codes "MEDIA_REWIND", 0xb4)
    ∷ (codes "MEDIA_NEXT", 0xb5)
    ∷ (codes "MEDIA_PREVIOUS", 0xb6)
    ∷ (codes "MEDIA_STOP", 0xb7)
    ∷ (codes "MEDIA_EJECT", 0xb8)
    ∷ (codes "MEDIA_PLAY_PAUSE", 0xcd)
    ∷ (codes "MEDIA_MUTE", 0xe2)
    ∷ (codes "MEDIA_VOLUME_UP", 0xe9)
    ∷ (codes "MEDIA_VOLUME_DOWN", 0xea)
    ∷ []

-- The first entry that matches, whatever the case of the letters.
unfoldable pub find_first : Names → List ℕ → ℕ
find_first [] name = 0
find_first ((key, usage) ∷ keys) name =
    let rest = find_first keys name in if bytes_eq (map upper name) key then usage else rest

unfoldable pub media_usage : List ℕ → ℕ
media_usage name = find_first media_keys name
