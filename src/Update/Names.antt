-- ===== src/Update/Names.antt =====
-- `audioxUpdateValidValue`, `audioxUpdateValidKernelName`, `audioxUpdateValidBoard` and
-- `audioxConfigKernelName` of include/update_archive.hpp. A C string is the list of its bytes.
pub mod Safe
use Prim.Native.Nat.{ℕ}
use audiox.Prelude.{
  ◌-◌, drop, starts_with, ◌||◌, length, ◌==◌, ◌&&◌, true, not, ltb, leb, bytes_eq, [], ◌∷◌,
  if◌then◌else◌, codes, Bool, ℕ, List,
}

abbrev pub value_max : ℕ
value_max = 64

abbrev pub is_value_char : ℕ → Bool
is_value_char c =
    (leb b'a' c && leb c b'z')
    || ((leb b'A' c && leb c b'Z')
        || ((leb b'0' c && leb c b'9') || (c == b'.' || (c == b'_' || (c == b'+' || c == b'-')))))

unfoldable pub all_value_chars : List ℕ → Bool
all_value_chars [] = true
all_value_chars (c ∷ cs) = is_value_char c && all_value_chars cs

unfoldable pub valid_value : List ℕ → Bool
valid_value value =
    not (length value == 0) && (ltb (length value) value_max && all_value_chars value)

unfoldable pub valid_kernel_name : List ℕ → Bool
valid_kernel_name name =
    valid_value name
    && (leb 10 (length name)
        && (starts_with (codes "kernel") name
            && bytes_eq (drop (length name - 4) name) (codes ".img")))

unfoldable pub valid_board : List ℕ → Bool
valid_board board = bytes_eq board (codes "pi4") || bytes_eq board (codes "pi5")

abbrev pub default_kernel : List ℕ
default_kernel = codes "kernel8.img"

abbrev pub cons_head : ℕ → List (List ℕ) → List (List ℕ)
cons_head c [] = (c ∷ []) ∷ []
cons_head c (l ∷ ls) = (c ∷ l) ∷ ls

-- The lines that the `pos`/`end` loops visit; the last one needs no line feed.
unfoldable pub lines : List ℕ → List (List ℕ)
lines [] = []
lines (c ∷ cs) = let rest = lines cs in if c == 10 then [] ∷ rest else cons_head c rest

unfoldable pub skip_blanks : List ℕ → List ℕ
skip_blanks [] = []
skip_blanks (c ∷ cs) = let rest = skip_blanks cs in if c == 32 || c == 9 then rest else c ∷ cs

-- The value of a `kernel=` line ends at a blank, a carriage return or a comment.
unfoldable pub kernel_value : List ℕ → List ℕ
kernel_value [] = []
kernel_value (c ∷ cs) =
    let rest = kernel_value cs in
    if c == 32 || (c == 9 || (c == 13 || c == b'#')) then [] else c ∷ rest

-- The bytes as a C string.
unfoldable pub until_nul : List ℕ → List ℕ
until_nul [] = []
until_nul (c ∷ cs) = let rest = until_nul cs in if c == 0 then [] else c ∷ rest

abbrev pub kernel_key : List ℕ
kernel_key = codes "kernel="

-- The name that a `kernel=` line with this value gives.
unfoldable pub kernel_or_default : List ℕ → List ℕ
kernel_or_default value =
    if ltb (length value) value_max && valid_kernel_name (until_nul value)
    then until_nul value
    else default_kernel

unfoldable pub first_kernel : List (List ℕ) → List ℕ
first_kernel [] = default_kernel
first_kernel (l ∷ ls) =
    let rest = first_kernel ls in
    let line = skip_blanks l in
    if ltb 7 (length line) && starts_with kernel_key line
    then kernel_or_default (kernel_value (drop 7 line))
    else rest

unfoldable pub config_kernel_name : List ℕ → List ℕ
config_kernel_name text = first_kernel (lines text)
