-- ===== src/Mdns/Writer.antt =====
-- The class `Writer` of src/http/mdns.cpp and the functions that write records with it. The bytes
-- written are the list `out`; the buffer behind it has `capacity` bytes.
pub mod Wire
use audiox.Prelude.{
  ◌%◌, set, ◌+◌, codes, ◌==◌, ◌-◌, ◌++◌, ltb, leb, ◌/◌, length, if◌then◌else◌, get_or, Bool, ℕ,
  List, ◌∷◌, [], true, false,
}
use audiox.Prelude.Decimal.{decimal}

pub record Writer : Type 0 where
  pub out : List ℕ
  pub capacity : ℕ
  pub is_ok : Bool

pub record Host : Type 0 where
  pub name : List ℕ
  pub address : List ℕ

abbrev pub new : ℕ → Writer
new capacity = record { out = []; capacity = capacity; is_ok = true }

abbrev pub type_a : ℕ
type_a = 1

abbrev pub type_ptr : ℕ
type_ptr = 12

abbrev pub type_nsec : ℕ
type_nsec = 47

abbrev pub type_any : ℕ
type_any = 255

abbrev pub fail : Writer → Writer
fail w = record w { is_ok = false }

unfoldable pub u8 : ℕ → Writer → Writer
u8 value w =
    if ltb w.capacity (length w.out + 1)
    then fail w
    else record w { out = w.out ++ ((value % 256) ∷ []) }

unfoldable pub u16 : ℕ → Writer → Writer
u16 value w = u8 value (u8 (value / 256) w)

unfoldable pub u32 : ℕ → Writer → Writer
u32 value w = u16 value (u16 (value / 65536) w)

unfoldable pub bytes : List ℕ → Writer → Writer
bytes [] w = w
bytes (b ∷ bs) w = bytes bs (u8 b w)

abbrev pub add_to_first : ℕ → List (List ℕ) → List (List ℕ)
add_to_first c [] = (c ∷ []) ∷ []
add_to_first c (l ∷ ls) = (c ∷ l) ∷ ls

-- The labels between the dots; behind the last dot an empty one.
unfoldable pub labels : List ℕ → List (List ℕ)
labels [] = [] ∷ []
labels (c ∷ cs) = let rest = labels cs in if c == b'.' then [] ∷ rest else add_to_first c rest

-- The loop of `Writer::name`, which ends at the end of the text.
unfoldable pub write_labels : List (List ℕ) → Writer → Writer
write_labels [] w = u8 0 w
write_labels ([] ∷ []) w = u8 0 w
write_labels ([] ∷ l ∷ ls) w = fail w
write_labels ((c ∷ cs) ∷ ls) w =
    let count = length (c ∷ cs) in
    let next = write_labels ls (bytes (c ∷ cs) (u8 count w)) in
    if ltb 63 count then fail w else next

unfoldable pub write_name : List ℕ → Writer → Writer
write_name dotted w = write_labels (labels dotted) w

unfoldable pub patch16 : ℕ → ℕ → Writer → Writer
patch16 at value w =
    if leb (at + 2) (length w.out)
    then record w { out = set (set w.out at (value / 256 % 256)) (at + 1) (value % 256) }
    else w

-- The four octets in reverse order, in a buffer of 64 bytes.
unfoldable pub reverse_name : List ℕ → List ℕ
reverse_name address =
    decimal (get_or address 3 0)
    ++ codes "."
    ++ decimal (get_or address 2 0)
    ++ codes "."
    ++ decimal (get_or address 1 0)
    ++ codes "."
    ++ decimal (get_or address 0 0)
    ++ codes ".in-addr.arpa"

unfoldable pub write_record_header : List ℕ → ℕ → ℕ → ℕ → Writer → Writer
write_record_header n type record_class ttl w =
    u32 ttl (u16 record_class (u16 type (write_name n w)))

unfoldable pub write_a : Host → ℕ → ℕ → Writer → Writer
write_a host record_class ttl w =
    bytes host.address (u16 4 (write_record_header host.name type_a record_class ttl w))

-- The two bytes at `at` become the number of bytes written behind them.
unfoldable pub patch_length : ℕ → Writer → Writer
patch_length at w = patch16 at ((length w.out - (at + 2)) % 65536) w

unfoldable pub write_nsec : Host → ℕ → ℕ → Writer → Writer
write_nsec host record_class ttl w =
    let headed = write_record_header host.name type_nsec record_class ttl w in
    patch_length (length headed.out) (u8 0x40 (u8 1 (u8 0 (write_name host.name (u16 0 headed)))))

unfoldable pub write_ptr : Host → List ℕ → ℕ → ℕ → Writer → Writer
write_ptr host reverse record_class ttl w =
    let headed = write_record_header reverse type_ptr record_class ttl w in
    patch_length (length headed.out) (write_name host.name (u16 0 headed))
