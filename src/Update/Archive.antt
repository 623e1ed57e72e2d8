-- ===== src/Update/Archive.antt =====
-- `audioxUpdateParseArchive` and `audioxUpdateCheckEntryCrc` of include/update_archive.hpp. The
-- archive file is the parameter `read`: what a full read of so many bytes at an offset gives,
-- `none` if it fails or the file ends. Offsets stay below 2^63, so the casts to `off_t` are exact.
pub mod Masks
pub mod Walking
pub mod Accepted
pub mod Payload
use audiox.Prelude.Result.{Result, ok, err, ◌>>=◌}
use audiox.Prelude.Words.{add64, sub64}
use audiox.Update.Codec.{get_u32, get_u64}
use audiox.Update.Crc.{crc32}
use Prim.Native.Nat.{min, bit_or, bit_and, suc, ℕ}
use audiox.Prelude.{
  true, ◌||◌, some, min, codes, bit_or, ◌&&◌, starts_with, none, false, bit_and, ◌==◌, ◌-◌, zero,
  set, not, ltb, leb, [], ◌∷◌, ◌^◌, ◌+◌, ◌*◌, if◌then◌else◌, Option, Bool, ◌/◌, ℕ, List,
}

abbrev pub ReadAt : Type 0
ReadAt = ℕ → ℕ → Option (List ℕ)

pub record AudioxUpdateEntry : Type 0 where
  pub crc : ℕ
  pub size : ℕ
  pub offset : ℕ

abbrev pub no_entry : AudioxUpdateEntry
no_entry = record { crc = 0; size = 0; offset = 0 }

pub data ArchiveError : Type 0 where
  header_incomplete : ArchiveError
  bad_magic : ArchiveError
  wrong_entry_count : ArchiveError
  unsupported_version : ArchiveError
  entry_header_incomplete : ArchiveError
  bad_entry_size : ArchiveError
  unknown_entry : ArchiveError
  needs_newer_firmware : ArchiveError
  duplicate_entry : ArchiveError
  entry_too_large : ArchiveError
  entry_unreadable : ArchiveError
  checksum_mismatch : ArchiveError
  trailing_data : ArchiveError
  missing_entries : ArchiveError

abbrev pub header_size : ℕ
header_size = 16

abbrev pub entry_header_size : ℕ
entry_header_size = 16

abbrev pub entry_limit : ℕ
entry_limit = 64

abbrev pub known_types : ℕ
known_types = 6

abbrev pub config_max : ℕ
config_max = 1024 * 1024

abbrev pub metadata_max : ℕ
metadata_max = 4096

abbrev pub cmdline_max : ℕ
cmdline_max = 4096

-- The answers of `audioxUpdateCheckEntryCrc` (0, 1, -1); `crc_stuck` is the end of the fuel.
pub data CrcCheck : Type 0 where
  crc_match crc_differs crc_unread crc_stuck : CrcCheck

abbrev pub chunk : ℕ
chunk = 16384

unfoldable pub crc_loop : ReadAt → ℕ → AudioxUpdateEntry → ℕ → ℕ → CrcCheck
crc_loop read zero entry done crc = crc_stuck
crc_loop read (suc fuel) entry done crc = elim (ltb done entry.size) [
  | false ↦ if crc == entry.crc then crc_match else crc_differs
  | true ↦
      let want = min chunk (entry.size - done) in
      elim (read (entry.offset + done) want) [
        | none ↦ crc_unread
        | some buf ↦ crc_loop read fuel entry (done + want) (crc32 crc buf)
      ]
]

-- One round for each chunk, and one to leave the loop.
unfoldable pub check_entry_crc : ReadAt → AudioxUpdateEntry → CrcCheck
check_entry_crc read entry = crc_loop read (entry.size / chunk + 2) entry 0 0

pub record Header : Type 0 where
  pub version : ℕ
  pub entry_count : ℕ
  pub required_mask : ℕ
  pub max_type : ℕ

unfoldable pub check_header : List ℕ → Result ArchiveError Header
check_header bytes =
    let version = get_u32 bytes 8 in
    let count = get_u32 bytes 12 in
    if not (starts_with (codes "AXUPDATE") bytes)
    then err bad_magic
    else if version == 1
    then if count == 4
      then ok (record { version = 1; entry_count = 4; required_mask = 15; max_type = 4 })
      else err wrong_entry_count
    else if version == 2
    then if count == 0 || ltb entry_limit count
      then err wrong_entry_count
      else ok
          (record { version = 2; entry_count = count; required_mask = 31; max_type = known_types })
    else err unsupported_version

unfoldable pub read_header : ReadAt → ℕ → Result ArchiveError Header
read_header read size =
    if ltb size header_size then err header_incomplete else elim (read 0 header_size) [
      | none ↦ err header_incomplete
      | some bytes ↦ check_header bytes
    ]

-- What the loop over the entries keeps.
pub record Walk : Type 0 where
  pub seen : ℕ
  pub offset : ℕ
  pub entries : List AudioxUpdateEntry

abbrev pub is_known : Header → ℕ → Bool
is_known h type = leb 1 type && leb type h.max_type

abbrev pub too_large : ℕ → ℕ → Bool
too_large type size =
    (type == 1 && ltb config_max size)
    || ((type == 5 && ltb metadata_max size) || (type == 6 && ltb cmdline_max size))

-- The bit of a known type in `seen`.
abbrev pub type_bit : ℕ → ℕ
type_bit type = 2 ^ (type - 1)

-- The checks before the payload is read; the result is the new `seen`.
unfoldable pub check_kind : Header → ℕ → ℕ → ℕ → Result ArchiveError ℕ
check_kind h type size seen =
    if not (is_known h type)
    then if h.version == 1
      then err unknown_entry
      else if bit_and type 0x80000000 == 0
      then ok seen
      else err needs_newer_firmware
    else if not (bit_and seen (type_bit type) == 0)
    then err duplicate_entry
    else if size == 0
    then err bad_entry_size
    else if too_large type size
    then err entry_too_large
    else ok (bit_or seen (type_bit type))

-- The checksum, and the entry's place in `entries`.
unfoldable pub store_entry :
    ReadAt → Header → ℕ → AudioxUpdateEntry → Walk → ℕ → Result ArchiveError Walk
store_entry read h type entry w seen = elim (check_entry_crc read entry) [
  | crc_match ↦ ok (record {
    seen = seen;
    offset = add64 entry.offset entry.size;
    entries = if is_known h type then set w.entries (type - 1) entry else w.entries;
  })
  | crc_differs ↦ err checksum_mismatch
  | crc_unread ↦ err entry_unreadable
  | crc_stuck ↦ err entry_unreadable
]

unfoldable pub take_entry :
    ReadAt → ℕ → Header → ℕ → AudioxUpdateEntry → Walk → Result ArchiveError Walk
take_entry read size h type entry w =
    if ltb (sub64 size entry.offset) entry.size
    then err bad_entry_size
    else check_kind h type entry.size w.seen >>= λ seen. store_entry read h type entry w seen

-- One round of the loop.
unfoldable pub parse_entry : ReadAt → ℕ → Header → Walk → Result ArchiveError Walk
parse_entry read size h w =
    if ltb (sub64 size w.offset) entry_header_size
    then err entry_header_incomplete
    else elim (read w.offset entry_header_size) [
      | none ↦ err entry_header_incomplete
      | some bytes ↦
          take_entry read size h (get_u32 bytes 0)
            (record {
              crc = get_u32 bytes 4;
              size = get_u64 bytes 8;
              offset = add64 w.offset entry_header_size;
            })
            w
    ]

unfoldable pub parse_entries : ReadAt → ℕ → Header → ℕ → Walk → Result ArchiveError Walk
parse_entries read size h zero w = ok w
parse_entries read size h (suc n) w =
    parse_entry read size h w >>= λ w'. parse_entries read size h n w'

abbrev pub no_entries : List AudioxUpdateEntry
no_entries = no_entry ∷ no_entry ∷ no_entry ∷ no_entry ∷ no_entry ∷ no_entry ∷ []

abbrev pub start : Walk
start = record { seen = 0; offset = header_size; entries = no_entries }

unfoldable pub check_end : ℕ → Header → Walk → Result ArchiveError (List AudioxUpdateEntry)
check_end size h w =
    if not (w.offset == size)
    then err trailing_data
    else if bit_and w.seen h.required_mask == h.required_mask
    then ok w.entries
    else err missing_entries

unfoldable pub parse_archive : ReadAt → ℕ → Result ArchiveError (List AudioxUpdateEntry)
parse_archive read size = read_header read size >>= λ h.
    parse_entries read size h h.entry_count start >>= λ w. check_end size h w
