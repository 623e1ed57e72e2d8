-- ===== src/Update/Metadata/Sound.antt =====
-- What accepted metadata holds.
use audiox.Prelude.Result.{ok, err, >>=-eq-ok}
use audiox.Update.Names.{valid_value, valid_kernel_name, valid_board, lines}
use audiox.Update.Metadata.{
  split_key, drop_cr, is_ignored, dest_of, malformed_line, List, AudioxUpdateMetadata, Dest,
  no_metadata, set_value, parse_line, parse_lines, check_metadata, parse_metadata,
}
use audiox.Prelude.{
  some, none, inr, refl, bytes_eq, inl, Bool-cases, ◌∷◌, codes, Option, true, ◌⊎◌, arith, [], ◌≡◌,
  ℕ, List,
}
use audiox.Prelude.Text.{bytes_eq→eq}

-- A field is absent or was checked.
abbrev pub Checked : List ℕ → Type 0
Checked v = (v ≡ []) ⊎ (valid_value v ≡ true)

pub record IsChecked (m : AudioxUpdateMetadata) : Type 0 where
  pub board_ok : Checked m.board
  pub kernel_ok : Checked m.kernel
  pub version_ok : Checked m.version
  pub kernel_version_ok : Checked m.kernel_version

set_value-IsChecked :
    (dest : Dest) (value : List ℕ) (m m' : AudioxUpdateMetadata)
    → IsChecked m
    → set_value dest value m ≡ ok m'
    → IsChecked m'
unfolding set_value
set_value-IsChecked dest value m m' c e = ground arith

parse_line-IsChecked :
    (l : List ℕ) (m m' : AudioxUpdateMetadata) → IsChecked m → parse_line l m ≡ ok m' → IsChecked m'
unfolding parse_line
parse_line-IsChecked l m m' c e = elim (Bool-cases (is_ignored (drop_cr l))) [
  | inl skip ↦ ground arith
  | inr used ↦ split (split_key (drop_cr l)) (rw used at e)
]
  where
    split :
        (s : Option (List ℕ × List ℕ))
        → (elim s [
          | none ↦ err malformed_line
          | some (key, value) ↦ set_value (dest_of key) value m
        ])
          ≡ ok m'
        → IsChecked m'
    split none h = cc
    split (some (key, value)) h = set_value-IsChecked (dest_of key) value m m' c h

parse_lines-IsChecked :
    (ls : List (List ℕ)) (m m' : AudioxUpdateMetadata)
    → IsChecked m
    → parse_lines ls m ≡ ok m'
    → IsChecked m'
unfolding parse_lines
parse_lines-IsChecked [] m m' c e = ground arith
parse_lines-IsChecked (l ∷ ls) m m' c e =
    let (n, first, rest) = >>=-eq-ok (parse_line l m) (λ k. parse_lines ls k) e in
    parse_lines-IsChecked ls n m' (parse_line-IsChecked l m n c first) rest

final_checks :
    (m m' : AudioxUpdateMetadata)
    → check_metadata m ≡ ok m'
    → (m ≡ m') × (valid_board m.board ≡ true) × (valid_kernel_name m.kernel ≡ true)
unfolding check_metadata
final_checks m m' e = ground arith

board_cases : (b : List ℕ) → valid_board b ≡ true → (b ≡ codes "pi4") ⊎ (b ≡ codes "pi5")
unfolding valid_board
board_cases b h = elim (Bool-cases (bytes_eq b (codes "pi4"))) [
  | inl four ↦ inl (bytes_eq→eq b (codes "pi4") four)
  | inr other ↦ inr (bytes_eq→eq b (codes "pi5") (rw other at h))
]

-- Metadata that is accepted names one of the two boards and a valid kernel file, and every other
-- value that it gives is a valid one.
pub parse_metadata_sound :
    (text : List ℕ) (m : AudioxUpdateMetadata)
    → parse_metadata text ≡ ok m
    → ((m.board ≡ codes "pi4") ⊎ (m.board ≡ codes "pi5"))
      × (valid_kernel_name m.kernel ≡ true)
      × Checked m.version
      × Checked m.kernel_version
unfolding parse_metadata
parse_metadata_sound text m e =
    let (n, read, checked) =
      >>=-eq-ok (parse_lines (lines text) no_metadata) (λ k. check_metadata k) e in
    let f = final_checks n m checked in
    let start : IsChecked no_metadata = record {
      board_ok = inl refl;
      kernel_ok = inl refl;
      version_ok = inl refl;
      kernel_version_ok = inl refl;
    } in
    let c = parse_lines-IsChecked (lines text) no_metadata n start read in
    rw (← f.0) (board_cases n.board f.1, f.2, c.version_ok, c.kernel_version_ok)
