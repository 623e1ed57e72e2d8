-- ===== src/Mdns/Reply.antt =====
-- `buildReply` and `buildAnnouncement` of src/http/mdns.cpp. The pointers that the source tests for
-- null are there.
pub mod Questions
pub mod Exact
pub mod Announced
use audiox.Prelude.{
  min, ◌/◌, bit_and, ◌||◌, ◌*◌, ◌&&◌, not, ltb, length, leb, ◌==◌, ◌++◌, ◌%◌, if◌then◌else◌, get_or,
  ◌+◌, ℕ, List, Bool, ◌∷◌, [], true, false, zero, suc,
}
use audiox.Mdns.Name.{read_name, name, refused, unfinished}
use audiox.Mdns.Writer.{
  write_name, type_ptr, type_any, write_a, type_a, write_ptr, write_nsec, u16, reverse_name, new,
  Writer, Host,
}

abbrev pub class_in : ℕ
class_in = 1

abbrev pub class_any : ℕ
class_any = 255

abbrev pub cache_flush : ℕ
cache_flush = 0x8000

abbrev pub header_size : ℕ
header_size = 12

abbrev pub max_questions : ℕ
max_questions = 32

abbrev pub ttl_seconds : ℕ
ttl_seconds = 120

abbrev pub legacy_ttl_seconds : ℕ
legacy_ttl_seconds = 10

abbrev pub read16 : List ℕ → ℕ → ℕ
read16 p at = get_or p at 0 * 256 + get_or p (at + 1) 0

pub record Question : Type 0 where
  pub text : List ℕ
  pub type : ℕ
  pub record_class : ℕ

-- The variables of the loop over the questions.
pub record Wanted : Type 0 where
  pub answered : List Question
  pub want_a : Bool
  pub want_nsec : Bool
  pub want_ptr : Bool
  pub multicast_requested : Bool

abbrev pub nothing_wanted : Wanted
nothing_wanted = record {
  answered = [];
  want_a = false;
  want_nsec = false;
  want_ptr = false;
  multicast_requested = false;
}

abbrev pub lower : ℕ → ℕ
lower c = if leb b'A' c && leb c b'Z' then c + 32 else c

-- `strcasecmp(a, b) == 0`.
unfoldable pub same_name : List ℕ → List ℕ → Bool
same_name [] [] = true
same_name [] (b ∷ bs) = false
same_name (a ∷ xs) [] = false
same_name (a ∷ xs) (b ∷ bs) = (lower a == lower b) && same_name xs bs

abbrev pub add_question : Question → ℕ → Wanted → Wanted
add_question q raw_class a = record a {
  answered = a.answered ++ (q ∷ []);
  multicast_requested = a.multicast_requested || bit_and raw_class 0x8000 == 0;
}

-- A question that was read; `raw_class` still has the bit that asks for a unicast reply.
unfoldable pub note_question : Host → List ℕ → List ℕ → ℕ → ℕ → Wanted → Wanted
note_question host reverse text type raw_class a =
    let q : Question = record { text = text; type = type; record_class = raw_class % 0x8000 } in
    if not (q.record_class == class_in) && not (q.record_class == class_any)
    then a
    else if same_name text host.name
    then add_question q raw_class (
        if type == type_a || type == type_any
        then record a { want_a = true }
        else record a { want_nsec = true })
    else if same_name text reverse && (type == type_ptr || type == type_any)
    then add_question q raw_class record a { want_ptr = true }
    else a

unfoldable pub question_loop : ℕ → List ℕ → Host → List ℕ → ℕ → Wanted → Wanted
question_loop zero query host reverse offset a = a
question_loop (suc count) query host reverse offset a = elim (read_name query offset 256) [
  | refused ↦ a
  | unfinished ↦ a
  | name text behind ↦
      if ltb (length query) (behind + 4)
      then a
      else question_loop count query host reverse (behind + 4)
          (note_question host reverse text (read16 query behind) (read16 query (behind + 2)) a)
]

abbrev pub count_true : Bool → ℕ
count_true true = 1
count_true false = 0

unfoldable pub when : Bool → (Writer → Writer) → Writer → Writer
when true f w = f w
when false f w = w

unfoldable pub write_questions : List Question → Writer → Writer
write_questions [] w = w
write_questions (q ∷ qs) w =
    write_questions qs (u16 q.record_class (u16 q.type (write_name q.text w)))

unfoldable pub write_header : ℕ → ℕ → ℕ → ℕ → Writer → Writer
write_header id questions answers additional w =
    u16 additional (u16 0 (u16 answers (u16 questions (u16 0x8400 (u16 id w)))))

-- The packet with the answers and the additional records.
unfoldable pub write_reply : List ℕ → Host → List ℕ → Bool → Wanted → Writer → Writer
write_reply query host reverse legacy a w =
    let ttl = if legacy then legacy_ttl_seconds else ttl_seconds in
    let record_class = if legacy then class_in else class_in + cache_flush in
    let headed =
      write_header (if legacy then read16 query 0 else 0) (if legacy then length a.answered else 0)
        (count_true a.want_a + count_true a.want_nsec + count_true a.want_ptr)
        (count_true (not a.want_a) + count_true (not a.want_nsec)) w in
    when (not a.want_nsec) (write_nsec host record_class ttl) (
      when (not a.want_a) (write_a host record_class ttl) (
        when a.want_ptr (write_ptr host reverse record_class ttl) (
          when a.want_nsec (write_nsec host record_class ttl) (
            when a.want_a (write_a host record_class ttl)
              (when legacy (write_questions a.answered) headed)))))

pub record Reply : Type 0 where
  pub length : ℕ
  pub unicast : Bool

abbrev pub no_reply : Reply
no_reply = record { length = 0; unicast = false }

unfoldable pub reply_to : List ℕ → Host → List ℕ → Bool → ℕ → Wanted → Reply × List ℕ
reply_to query host reverse legacy capacity a =
    let w = write_reply query host reverse legacy a (new capacity) in
    if length a.answered == 0
    then (no_reply, [])
    else if not w.is_ok
    then (no_reply, w.out)
    else (record { length = length w.out; unicast = legacy || not a.multicast_requested }, w.out)

-- The reply, and the bytes in its buffer.
unfoldable pub build_reply : List ℕ → Host → Bool → ℕ → Reply × List ℕ
build_reply query host legacy capacity =
    let flags = read16 query 2 in
    let reverse = reverse_name host.address in
    if ltb (length query) header_size
    then (no_reply, [])
    else if not (bit_and flags 0x8000 == 0) || not (flags / 2048 % 16 == 0)
    then (no_reply, [])
    else reply_to query host reverse legacy capacity (
        question_loop (min (read16 query 4) max_questions) query host reverse header_size
          nothing_wanted)

unfoldable pub write_announcement : Host → Writer → Writer
write_announcement host w =
    let record_class = class_in + cache_flush in
    write_nsec host record_class ttl_seconds (
      write_ptr host (reverse_name host.address) record_class ttl_seconds
        (write_a host record_class ttl_seconds (write_header 0 0 2 1 w)))

-- The length, 0 if the packet did not fit, and the bytes in the buffer.
unfoldable pub build_announcement : Host → ℕ → ℕ × List ℕ
build_announcement host capacity =
    let w = write_announcement host (new capacity) in (if w.is_ok then length w.out else 0, w.out)
