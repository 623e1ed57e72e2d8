-- ===== src/Update/Cmdline.antt =====
-- `audioxValidateCmdline` of include/update_archive.hpp.
pub mod Token
use audiox.Prelude.Result.{Result, ok, err}
use Prim.Native.Nat.{ℕ}
use audiox.Prelude.{
  take, ◌-◌, drop, starts_with, ltb, get_or, ◌&&◌, some, leb, [], ◌∷◌, ◌||◌, not, none, length,
  ◌==◌, true, if◌then◌else◌, false, codes, Option, ℕ, List, Bool,
}

abbrev pub cmdline_max : ℕ
cmdline_max = 4096

pub data CmdlineError : Type 0 where
  cmdline_empty : CmdlineError
  cmdline_too_long : CmdlineError
  not_single_line : CmdlineError
  non_printable : CmdlineError
  no_rdinit : CmdlineError

abbrev pub required : List ℕ
required = codes "rdinit=/init"

abbrev pub is_blank : ℕ → Bool
is_blank c = c == 32 || c == 9

-- The text without its last byte, if that is `c`.
unfoldable pub drop_last : ℕ → List ℕ → List ℕ
drop_last c text =
    if not (length text == 0) && get_or text (length text - 1) 0 == c
    then take (length text - 1) text
    else text

-- A trailing line feed, and a carriage return before it, are not part of the line.
unfoldable pub strip_newline : List ℕ → List ℕ
unfolding drop_last
strip_newline text =
    if not (length text == 0) && get_or text (length text - 1) 0 == 10
    then drop_last 13 (take (length text - 1) text)
    else text

-- The first byte that the line may not hold.
unfoldable pub check_bytes : List ℕ → Option CmdlineError
check_bytes [] = none
check_bytes (c ∷ cs) =
    let rest = check_bytes cs in
    if c == 10 || c == 13
    then some not_single_line
    else if ltb c 0x20 || ltb 0x7e c
    then some non_printable
    else rest

-- The word ends where the text does or at a blank.
abbrev pub ends_word : List ℕ → Bool
ends_word [] = true
ends_word (c ∷ cs) = is_blank c

-- The search loop at the suffixes of the line; `start` says that a word may begin here.
unfoldable pub find_required : Bool → List ℕ → Bool
find_required start [] = false
find_required start (c ∷ cs) =
    (start && (starts_with required (c ∷ cs) && ends_word (drop (length required) (c ∷ cs))))
    || find_required (is_blank c) cs

unfoldable pub validate_cmdline : List ℕ → Result CmdlineError (Unit {0})
validate_cmdline text =
    let line = strip_newline text in
    if length line == 0
    then err cmdline_empty
    else if leb cmdline_max (length line)
    then err cmdline_too_long
    else elim (check_bytes line) [
      | some e ↦ err e
      | none ↦ if find_required true line then ok tt else err no_rdinit
    ]
