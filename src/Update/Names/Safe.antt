-- ===== src/Update/Names/Safe.antt =====
-- What a valid name is, and that the kernel name of config.txt is always one.
use audiox.Update.Names.{
  until_nul, skip_blanks, kernel_value, List, is_value_char, all_value_chars, valid_value,
  valid_kernel_name, kernel_or_default, first_kernel, config_kernel_name, default_kernel, lines,
  value_max,
}
use audiox.Prelude.{
  inr, ltb, inl, false, ◌&&◌, bytes_eq, Bool-cases, Bool, ◌≤◌, ◌-◌, refl, drop, length, codes, [],
  ◌<◌, starts_with, arith, ◌≢◌, true, ◌≡◌, ◌∷◌, ℕ, List,
}
use audiox.Prelude.Text.{bytes_eq→eq, and_parts}

-- No separator, no blank, no control byte.
abbrev pub SafeChars : List ℕ → Type 0
SafeChars [] = Unit {0}
SafeChars (c ∷ cs) = (c ≢ b'/') × (32 < c) × (c < 127) × SafeChars cs

all_value_chars-SafeChars : (v : List ℕ) → all_value_chars v ≡ true → SafeChars v
unfolding all_value_chars
all_value_chars-SafeChars [] h = tt
all_value_chars-SafeChars (c ∷ cs) h =
    let (e, r) = and_parts (is_value_char c) (all_value_chars cs) h in
    let p = char_safe c e in (p.0, p.1, p.2, all_value_chars-SafeChars cs r)
  where
    char_safe : (c : ℕ) → is_value_char c ≡ true → (c ≢ b'/') × (32 < c) × (c < 127)
    char_safe c e = (ground arith, ground arith, ground arith)

value_tests :
    (v : List ℕ)
    → valid_value v ≡ true
    → (0 < length v) × (length v < value_max) × (all_value_chars v ≡ true)
unfolding valid_value
value_tests v h = ground arith

pub valid_value-SafeChars :
    (v : List ℕ) → valid_value v ≡ true → (0 < length v) × (length v < value_max) × SafeChars v
valid_value-SafeChars v h = let p = value_tests v h in (p.0, p.1, all_value_chars-SafeChars v p.2)

kernel_tests :
    (name : List ℕ)
    → valid_kernel_name name ≡ true
    → (valid_value name ≡ true)
      × (10 ≤ length name)
      × (starts_with (codes "kernel") name ≡ true)
      × (bytes_eq (drop (length name - 4) name) (codes ".img") ≡ true)
unfolding valid_kernel_name
kernel_tests name h = ground arith

-- A kernel name that passes starts with "kernel", ends with ".img", and can only name a file in
-- the boot partition's root.
pub valid_kernel_name_sound :
    (name : List ℕ)
    → valid_kernel_name name ≡ true
    → (starts_with (codes "kernel") name ≡ true)
      × (drop (length name - 4) name ≡ codes ".img")
      × (10 ≤ length name)
      × (length name < value_max)
      × SafeChars name
valid_kernel_name_sound name h =
    let p = kernel_tests name h in
    let v = valid_value-SafeChars name p.0 in (p.2, bytes_eq→eq _ _ p.3, p.1, v.1, v.2)

default_valid : valid_kernel_name default_kernel ≡ true
unfolding valid_kernel_name valid_value all_value_chars
default_valid = refl

and-false : (b : Bool) → (b && false) ≡ false
and-false true = refl
and-false false = refl

kernel_or_default_valid : (v : List ℕ) → valid_kernel_name (kernel_or_default v) ≡ true
unfolding kernel_or_default
kernel_or_default_valid v = elim (Bool-cases (valid_kernel_name (until_nul v))) [
  | inl good ↦ elim (Bool-cases (ltb (length v) value_max)) [
    | inl short ↦ rw (short, good) good
    | inr long ↦ rw long default_valid
  ]
  | inr bad ↦ rw (bad, and-false) default_valid
]

first_kernel_valid : (ls : List (List ℕ)) → valid_kernel_name (first_kernel ls) ≡ true
unfolding first_kernel
first_kernel_valid [] = default_valid
first_kernel_valid (l ∷ ls) =
    ground (
      arith,
      first_kernel_valid ls,
      kernel_or_default_valid (kernel_value (drop 7 (skip_blanks l))),
    )

-- Whatever config.txt holds, the kernel name read from it is a valid one.
pub config_kernel_name_valid : (text : List ℕ) → valid_kernel_name (config_kernel_name text) ≡ true
unfolding config_kernel_name
config_kernel_name_valid text = first_kernel_valid (lines text)
