-- ===== src/Update/Cmdline/Token.antt =====
-- What a command line that passes looks like.
use audiox.Prelude.Result.{ok}
use audiox.Update.Cmdline.{
  List, required, is_blank, strip_newline, check_bytes, find_required, ends_word, validate_cmdline,
  cmdline_max,
}
use audiox.Prelude.{
  ◌<◌, ◌↔◌, inr, inl, length, drop, starts_with, Bool-cases, ◌++◌, ◌&&◌, true, ap, Bool, refl,
  arith, [], ◌≤◌, none, ◌≡◌, ◌∷◌, ℕ, List,
}
use audiox.Prelude.Text.{or-true, starts_with-append, drop-append, starts_with_self, and_parts}

abbrev pub Printable : List ℕ → Type 0
Printable [] = Unit {0}
Printable (c ∷ cs) = (0x20 ≤ c) × (c ≤ 0x7e) × Printable cs

byte_ok :
    (c : ℕ) (cs : List ℕ)
    → check_bytes (c ∷ cs) ≡ none
    → (0x20 ≤ c) × (c ≤ 0x7e) × (check_bytes cs ≡ none)
unfolding check_bytes
byte_ok c cs h = ground arith

check_bytes-Printable : (line : List ℕ) → check_bytes line ≡ none → Printable line
unfolding check_bytes
check_bytes-Printable [] h = tt
check_bytes-Printable (c ∷ cs) h =
    let p = byte_ok c cs h in (p.0, p.1, check_bytes-Printable cs p.2)

Printable-check_bytes : (line : List ℕ) → Printable line → check_bytes line ≡ none
unfolding check_bytes
Printable-check_bytes [] h = refl
Printable-check_bytes (c ∷ cs) h = ground (arith, Printable-check_bytes cs h.2)

-- A word may begin after these bytes.
abbrev pub begins_word : Bool → List ℕ → Bool
begins_word start [] = start
begins_word start (c ∷ cs) = begins_word (is_blank c) cs

-- `rdinit=/init` stands in the line as a word.
abbrev pub HasRequired : Bool → List ℕ → Type 0
HasRequired start line =
    (before : List ℕ) × (after : List ℕ) × (line ≡ before ++ (required ++ after))
    × (begins_word start before ≡ true)
    × (ends_word after ≡ true)

found_here :
    (start : Bool) (line : List ℕ)
    → (start && (starts_with required line && ends_word (drop (length required) line))) ≡ true
    → HasRequired start line
found_here start line h =
    let (s, r) = and_parts start _ h in
    let (p, e) = and_parts (starts_with required line) _ r in
    ([], drop (length required) line, starts_with-append required line p, s, e)

found_later :
    (start : Bool) (c : ℕ) (cs : List ℕ) → HasRequired (is_blank c) cs → HasRequired start (c ∷ cs)
found_later start c cs (before, after, e, b, w) = (c ∷ before, after, ap (λ r. c ∷ r) e, b, w)

find_required-HasRequired :
    (start : Bool) (line : List ℕ) → find_required start line ≡ true → HasRequired start line
unfolding find_required
find_required-HasRequired start [] h = cc
find_required-HasRequired start (c ∷ cs) h =
    elim (Bool-cases
      (start && (starts_with required (c ∷ cs) && ends_word (drop (length required) (c ∷ cs))))) [
        | inl here ↦ found_here start (c ∷ cs) here
        | inr later ↦
            found_later start c cs (find_required-HasRequired (is_blank c) cs (rw later at h))
      ]

find_required_before :
    (before after : List ℕ) (start : Bool)
    → begins_word start before ≡ true
    → ends_word after ≡ true
    → find_required start (before ++ (required ++ after)) ≡ true
unfolding find_required
find_required_before [] after start b w =
    rw (b, starts_with_self required after, drop-append required after, w)
find_required_before (c ∷ cs) after start b w =
    rw (find_required_before cs after (is_blank c) b w) (or-true _)

passed :
    (text : List ℕ)
    → validate_cmdline text ≡ ok tt
    → let line = strip_newline text in
      (0 < length line)
      × (length line < cmdline_max)
      × (check_bytes line ≡ none)
      × (find_required true line ≡ true)
unfolding validate_cmdline
passed text h = ground arith

passes :
    (text : List ℕ)
    → let line = strip_newline text in
      0 < length line
      → length line < cmdline_max
      → check_bytes line ≡ none
      → find_required true line ≡ true
      → validate_cmdline text ≡ ok tt
unfolding validate_cmdline
passes text full short bytes word = ground arith

-- A command line is accepted exactly if, without its line ending, it is not empty, shorter than
-- 4096 bytes, all printable ASCII, and holds `rdinit=/init` as a word.
pub validate_cmdline_iff :
    (text : List ℕ)
    → let line = strip_newline text in
      (validate_cmdline text ≡ ok tt)
      ↔ ((0 < length line) × (length line < cmdline_max) × Printable line × HasRequired true line)
validate_cmdline_iff text = (
  λ e.
      let p = passed text e in
      (
        p.0,
        p.1,
        check_bytes-Printable (strip_newline text) p.2,
        find_required-HasRequired true (strip_newline text) p.3,
      ),
  λ (full, short, printable, (before, after, e, b, w)).
      passes text full short (Printable-check_bytes (strip_newline text) printable)
        (rw e (find_required_before before after true b w)),
)
