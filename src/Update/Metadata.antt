-- ===== src/Update/Metadata.antt =====
-- `audioxUpdateParseMetadata` of include/update_archive.hpp, over the lines of Update.Names.
pub mod Sound
pub mod Forward
use audiox.Prelude.Result.{Result, ok, err, ◌>>=◌}
use audiox.Update.Names.{valid_value, valid_kernel_name, valid_board, lines}
use audiox.Prelude.{
  ◌∷◌, take, ◌-◌, some, ◌||◌, none, get_or, codes, ◌==◌, ◌&&◌, true, not, bytes_eq, Option, ℕ,
  length, false, if◌then◌else◌, [], List, Bool,
}

pub record AudioxUpdateMetadata : Type 0 where
  pub board : List ℕ
  pub kernel : List ℕ
  pub version : List ℕ
  pub kernel_version : List ℕ

pub data MetadataError : Type 0 where
  malformed_line : MetadataError
  invalid_value : MetadataError
  bad_board : MetadataError
  bad_kernel : MetadataError

abbrev pub no_metadata : AudioxUpdateMetadata
no_metadata = record { board = []; kernel = []; version = []; kernel_version = [] }

-- A carriage return at the end of the line is not part of it.
unfoldable pub drop_cr : List ℕ → List ℕ
drop_cr line =
    if not (length line == 0) && get_or line (length line - 1) 0 == 13
    then take (length line - 1) line
    else line

-- The key, and the value behind the first '='; `none` if the line has none.
unfoldable pub split_key : List ℕ → Option (List ℕ × List ℕ)
split_key [] = none
split_key (c ∷ cs) =
    let rest = split_key cs in
    if c == b'='
    then some ([], cs)
    else elim rest [ none ↦ none | some (key, value) ↦ some (c ∷ key, value) ]

-- The field that a key names.
pub data Dest : Type 0 where
  board_dest kernel_dest version_dest kernel_version_dest unknown : Dest

unfoldable pub dest_of : List ℕ → Dest
dest_of key =
    if bytes_eq key (codes "board")
    then board_dest
    else if bytes_eq key (codes "kernel")
    then kernel_dest
    else if bytes_eq key (codes "version")
    then version_dest
    else if bytes_eq key (codes "kernel_version")
    then kernel_version_dest
    else unknown

abbrev pub store : Dest → List ℕ → AudioxUpdateMetadata → AudioxUpdateMetadata
store board_dest value m = record m { board = value }
store kernel_dest value m = record m { kernel = value }
store version_dest value m = record m { version = value }
store kernel_version_dest value m = record m { kernel_version = value }
store unknown value m = m

abbrev pub known : Dest → Bool
known unknown = false
known _ = true

unfoldable pub set_value :
    Dest → List ℕ → AudioxUpdateMetadata → Result MetadataError AudioxUpdateMetadata
set_value dest value m =
    if known dest && not (valid_value value) then err invalid_value else ok (store dest value m)

-- Blank lines and comments are passed over.
abbrev pub is_ignored : List ℕ → Bool
is_ignored [] = true
is_ignored (c ∷ cs) = c == b'#'

unfoldable pub parse_line :
    List ℕ → AudioxUpdateMetadata → Result MetadataError AudioxUpdateMetadata
parse_line l m =
    let line = drop_cr l in
    if is_ignored line then ok m else elim (split_key line) [
      | none ↦ err malformed_line
      | some (key, value) ↦ set_value (dest_of key) value m
    ]

unfoldable pub parse_lines :
    List (List ℕ) → AudioxUpdateMetadata → Result MetadataError AudioxUpdateMetadata
parse_lines [] m = ok m
parse_lines (l ∷ ls) m = parse_line l m >>= λ m'. parse_lines ls m'

unfoldable pub check_metadata : AudioxUpdateMetadata → Result MetadataError AudioxUpdateMetadata
check_metadata m =
    if length m.board == 0 || not (valid_board m.board)
    then err bad_board
    else if length m.kernel == 0 || not (valid_kernel_name m.kernel)
    then err bad_kernel
    else ok m

unfoldable pub parse_metadata : List ℕ → Result MetadataError AudioxUpdateMetadata
parse_metadata text = parse_lines (lines text) no_metadata >>= λ m. check_metadata m
