-- ===== src/Update/Tests.antt =====
-- The update archive on small concrete files.
use audiox.Prelude.Result.{ok}
use audiox.Update.Cmdline.{strip_newline, validate_cmdline, cmdline_max, drop_last}
use audiox.Update.Cmdline.Token.{Printable, HasRequired, validate_cmdline_iff}
use audiox.Update.Names.{valid_kernel_name, all_value_chars, valid_value, valid_board, lines}
use audiox.Update.Metadata.{
  AudioxUpdateMetadata, parse_metadata, parse_line, parse_lines, drop_cr, split_key, dest_of,
  set_value, check_metadata,
}
use audiox.Update.Metadata.Sound.{Checked, parse_metadata_sound}
use audiox.Update.Crc.{crc32, crc_round, crc_rounds, crc_byte, crc_bytes}
use audiox.Update.Codec.{put_u32, put_u64, get_u32, get_u64}
use audiox.Update.Archive.{
  ReadAt, AudioxUpdateEntry, no_entry, Header, crc_loop, check_entry_crc, check_header, read_header,
  check_kind, store_entry, take_entry, parse_entry, parse_entries, check_end, parse_archive,
}
use audiox.Update.Archive.Walking.{Good}
use audiox.Update.Archive.Accepted.{parse_archive_required}
use audiox.Update.Archive.Payload.{Backed, verdict, check_entry_crc_exact}
use Prim.Native.Nat.{ℕ}
use audiox.Prelude.{
  none, take, some, length, ◌↔◌, ◌+◌, leb, drop, ◌⊎◌, ◌<◌, true, refl, le→leb, if◌then◌else◌, arith,
  [], ◌≡◌, ◌∷◌, ◌++◌, ℕ, codes, List,
}

cmdline_example :
    let line = codes "quiet rdinit=/init" in
    (validate_cmdline (line ++ 10 ∷ []) ≡ ok tt)
    ↔ ((0 < 18) × (18 < cmdline_max) × Printable line × HasRequired true line)
unfolding strip_newline drop_last
cmdline_example = validate_cmdline_iff (codes "quiet rdinit=/init" ++ 10 ∷ [])

abbrev kernel8 : List ℕ
kernel8 = codes "kernel8.img"

abbrev metadata_lines : List (List ℕ)
metadata_lines = codes "board=pi5" ∷ codes "kernel=kernel_2712.img" ∷ []

abbrev metadata_text : List ℕ
metadata_text = codes "board=pi5" ++ 10 ∷ codes "kernel=kernel_2712.img"

abbrev pi5 : AudioxUpdateMetadata
pi5 = record {
  board = codes "pi5";
  kernel = codes "kernel_2712.img";
  version = [];
  kernel_version = [];
}

metadata_example :
    ((codes "pi5" ≡ codes "pi4") ⊎ (codes "pi5" ≡ codes "pi5"))
    × (valid_kernel_name pi5.kernel ≡ true)
    × Checked []
    × Checked []
unfolding parse_metadata parse_lines parse_line lines drop_cr split_key dest_of set_value
    check_metadata valid_kernel_name valid_value all_value_chars valid_board
metadata_example = parse_metadata_sound metadata_text pi5 refl

abbrev comment : List ℕ
comment = codes "# built by CI"

-- A file in memory, read as pread would.
abbrev read_file : List ℕ → ReadAt
read_file content at count =
    if leb (at + count) (length content) then some (take count (drop at content)) else none

read_file-Backed : (content : List ℕ) → Backed (read_file content) content
read_file-Backed content at count h = rw (le→leb (at + count) (length content) h) refl

abbrev entry_of : ℕ → ℕ → List ℕ
entry_of type byte = put_u32 type ++ (put_u32 (crc32 0 (byte ∷ [])) ++ (put_u64 1 ++ byte ∷ []))

-- A version 1 archive whose four payloads are one byte each.
abbrev four_files : List ℕ
four_files =
    codes "AXUPDATE"
    ++ (put_u32 1
        ++ (put_u32 4 ++ (entry_of 1 65 ++ (entry_of 2 66 ++ (entry_of 3 67 ++ entry_of 4 68)))))

abbrev read_four : ReadAt
read_four = read_file four_files

abbrev header_1 : Header
header_1 = record { version = 1; entry_count = 4; required_mask = 15; max_type = 4 }

abbrev one_byte : ℕ → ℕ → AudioxUpdateEntry
one_byte crc offset = record { crc = crc; size = 1; offset = offset }

abbrev four_entries : List AudioxUpdateEntry
four_entries =
    one_byte (crc32 0 (65 ∷ [])) 32
    ∷ one_byte (crc32 0 (66 ∷ [])) 49
    ∷ one_byte (crc32 0 (67 ∷ [])) 66
    ∷ one_byte (crc32 0 (68 ∷ [])) 83
    ∷ no_entry
    ∷ no_entry
    ∷ []

four_header : read_header read_four 84 ≡ ok header_1
unfolding read_header check_header put_u32 put_u64 get_u32 get_u64 crc32 crc_bytes crc_byte
    crc_rounds crc_round
four_header = refl

four_accepted : parse_archive read_four 84 ≡ ok four_entries
unfolding parse_archive parse_entries parse_entry take_entry store_entry check_kind check_entry_crc
    crc_loop check_end read_header check_header put_u32 put_u64 get_u32 get_u64 crc32 crc_bytes
    crc_byte crc_rounds crc_round
four_accepted = refl

required_example : Good read_four 84 3 (one_byte (crc32 0 (67 ∷ [])) 66)
required_example =
    parse_archive_required read_four 84 header_1 four_entries 2 (omega arith) four_header
      four_accepted (omega arith)

payload_example :
    check_entry_crc (read_file (codes "abc")) (one_byte 77 1) ≡ verdict (crc32 0 (codes "b")) 77
payload_example =
    check_entry_crc_exact (read_file (codes "abc")) (codes "abc") (one_byte 77 1)
      (read_file-Backed (codes "abc")) (omega arith, (omega arith, (omega arith, tt))) (omega arith)
