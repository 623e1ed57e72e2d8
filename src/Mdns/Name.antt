-- ===== src/Mdns/Name.antt =====
-- `readName`: a name, perhaps compressed, at an offset of a packet. The packet is the list of its
-- bytes, and the name read so far stands in `out` without its NUL.
pub mod Ends
use audiox.Prelude.{
  ◌++◌, ◌&&◌, ◌||◌, ltb, not, length, ◌==◌, ◌*◌, zero, true, none, leb, drop, bit_and, ◌+◌, take,
  suc, some, if◌then◌else◌, get_or, bit_or, Bool, ℕ, Option, List, ◌∷◌, [],
}

abbrev pub max_name_length : ℕ
max_name_length = 255

-- The name and the offset behind it, the answer `false`, or the end of the fuel.
pub data Read : Type 0 where
  name : List ℕ → ℕ → Read
  refused : Read
  unfinished : Read

unfoldable pub all_plain : List ℕ → Bool
all_plain [] = true
all_plain (c ∷ cs) = not (c == b'.' || c == 0) && all_plain cs

abbrev pub dot_before : List ℕ → List ℕ
dot_before [] = []
dot_before (c ∷ cs) = b'.' ∷ []

abbrev pub offset_after : Option ℕ → ℕ → ℕ
offset_after none position = position + 1
offset_after (some resume_at) position = resume_at

abbrev pub first_jump : Option ℕ → ℕ → Option ℕ
first_jump none position = some (position + 2)
first_jump (some resume_at) position = some resume_at

-- What one round of the loop does: it goes on at a position, or ends.
pub data Turn : Type 0 where
  go_on : ℕ → Option ℕ → List ℕ → Turn
  end_with : Read → Turn

unfoldable pub follow : List ℕ → ℕ → ℕ → Option ℕ → List ℕ → Turn
follow packet label position resume out =
    let target = bit_or (bit_and label 0x3f * 256) (get_or packet (position + 1) 0) in
    if leb (length packet) (position + 1)
    then end_with refused
    else if leb position target
    then end_with refused
    else go_on target (first_jump resume position) out

unfoldable pub take_label : List ℕ → ℕ → ℕ → ℕ → Option ℕ → List ℕ → Turn
take_label packet capacity label position resume out =
    let bytes = take label (drop (position + 1) packet) in
    let longer = length out + (length (dot_before out) + label) in
    if ltb (length packet) (position + 1 + label)
    then end_with refused
    else if ltb capacity (longer + 1) || ltb max_name_length longer
    then end_with refused
    else if not (all_plain bytes)
    then end_with refused
    else go_on (position + 1 + label) resume (out ++ (dot_before out ++ bytes))

unfoldable pub turn : List ℕ → ℕ → ℕ → Option ℕ → List ℕ → Turn
turn packet capacity position resume out =
    let label = get_or packet position 0 in
    if leb (length packet) position
    then end_with refused
    else if bit_and label 0xc0 == 0xc0
    then follow packet label position resume out
    else if not (bit_and label 0xc0 == 0)
    then end_with refused
    else if label == 0
    then end_with (name out (offset_after resume position))
    else take_label packet capacity label position resume out

unfoldable pub read_loop : ℕ → List ℕ → ℕ → ℕ → Option ℕ → List ℕ → Read
read_loop zero packet capacity position resume out = unfinished
read_loop (suc fuel) packet capacity position resume out =
    elim (turn packet capacity position resume out) [
      | go_on p r o ↦ read_loop fuel packet capacity p r o
      | end_with a ↦ a
    ]

-- A label makes the name longer, and between two labels the position only falls.
unfoldable pub name_fuel : List ℕ → ℕ → ℕ
name_fuel packet offset = (max_name_length + 1) * (length packet + 1) + offset + 1

unfoldable pub read_name : List ℕ → ℕ → ℕ → Read
read_name packet offset capacity =
    if capacity == 0
    then refused
    else read_loop (name_fuel packet offset) packet capacity offset none []
