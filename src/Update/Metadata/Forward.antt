-- ===== src/Update/Metadata/Forward.antt =====
-- Metadata from a newer writer: lines with keys that this reader does not know.
use audiox.Prelude.Result.{Result, ok, err, ◌>>=◌}
use audiox.Update.Metadata.{
  List, AudioxUpdateMetadata, MetadataError, unknown, dest_of, drop_cr, split_key, is_ignored,
  set_value, parse_line, parse_lines,
}
use audiox.Prelude.{some, refl, Bool-cases, ◌⊎◌, inr, [], ◌∷◌, true, inl, ◌≡◌, ◌++◌, ℕ, List}

-- A blank line, a comment, or `key=value` with an unknown key.
abbrev pub Skipped : List ℕ → Type 0
Skipped l =
    (is_ignored (drop_cr l) ≡ true)
    ⊎ ((key : List ℕ) × (value : List ℕ) × (split_key (drop_cr l) ≡ some (key, value))
        × (dest_of key ≡ unknown))

parse_line_skips : (l : List ℕ) (m : AudioxUpdateMetadata) → Skipped l → parse_line l m ≡ ok m
unfolding parse_line
parse_line_skips l m (inl h) = rw h
parse_line_skips l m (inr (key, value, split, dest)) = elim (Bool-cases (is_ignored (drop_cr l))) [
  | inl h ↦ rw h
  | inr h ↦ rw (h, split, dest) (unfold set_value in refl)
]

-- A blank line, a comment or a line with an unknown key, at any place, changes neither the result nor the error of the reader.
pub parse_lines_skips :
    (before after : List (List ℕ)) (l : List ℕ) (m : AudioxUpdateMetadata)
    → Skipped l
    → parse_lines (before ++ l ∷ after) m ≡ parse_lines (before ++ after) m
unfolding parse_lines
parse_lines_skips [] after l m h = rw (parse_line_skips l m h)
parse_lines_skips (b ∷ bs) after l m h =
    carry (parse_line b m) (λ m'. parse_lines_skips bs after l m' h)
  where
    carry :
        (r : Result MetadataError AudioxUpdateMetadata)
        → ((m' : AudioxUpdateMetadata)
            → parse_lines (bs ++ l ∷ after) m' ≡ parse_lines (bs ++ after) m')
        → (r >>= λ m'. parse_lines (bs ++ l ∷ after) m')
          ≡ (r >>= λ m'. parse_lines (bs ++ after) m')
    carry (ok m') ih = ih m'
    carry (err e) ih = refl
