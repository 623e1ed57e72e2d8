-- ===== src/Keyboard/Tests.antt =====
-- Key names, characters and hexadecimal text.
use audiox.Keyboard.Chord.{
  ChordReport, chord_report, split_plus, upper_part, decimal_from, decimal, function_key, plain_key,
  find_name, key_of, add_key, add_part, add_parts, finish_chord,
}
use audiox.Keyboard.Report.{IsReport, chord_report_sound}
use audiox.Keyboard.Hex.{hex_encode, hex_decode, hex_roundtrip}
use audiox.Prelude.{ℕ, refl, true, false, ◌⊎◌, some, arith, [], ◌≡◌, ◌∷◌, ◌<◌, codes}

abbrev copy : ChordReport
copy = record { modifiers = 1; keys = 6 ∷ [] }

chord_example : IsReport copy × ((0 < 1) ⊎ ((false ≡ true) × (0 < 1)))
unfolding chord_report split_plus upper_part decimal_from decimal function_key plain_key find_name
    key_of add_key add_part add_parts finish_chord
chord_example = chord_report_sound (codes "ctrl+c") false copy refl

hex_example : hex_decode (hex_encode (codes "Hi!")) 4 ≡ some (codes "Hi!")
hex_example =
    hex_roundtrip (codes "Hi!") 4
      (omega arith, omega arith, (omega arith, omega arith, (omega arith, omega arith, tt)))

abbrev question : ℕ
question = b'?'
