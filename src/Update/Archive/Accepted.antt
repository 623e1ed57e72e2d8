-- ===== src/Update/Archive/Accepted.antt =====
-- What an accepted archive guarantees to the installer.
use audiox.Prelude.Result.{ok, err, >>=-eq-ok}
use audiox.Update.Archive.{
  header_incomplete, ℕ, List, ReadAt, Header, Walk, AudioxUpdateEntry, no_entry, check_header,
  read_header, parse_entries, check_end, parse_archive, start, header_size,
}
use audiox.Update.Archive.Masks.{required_bits}
use audiox.Update.Archive.Walking.{Good, Slot, IsWalk}
use audiox.Update.Archive.Walking.Loop.{parse_entries-IsWalk, start-IsWalk}
use audiox.Prelude.{
  ltb→le, false, Bool, inr, inl, ltb, Bool-cases, some, none, true, suc, get_or, arith, Option, ◌⊎◌,
  ◌^◌, ◌==◌, bit_and, ◌≤◌, ◌≡◌, ◌<◌, if◌then◌else◌, ℕ, List,
}

-- How many of the lowest types an archive of this version must hold.
abbrev pub required_types : ℕ → ℕ
required_types version = if version == 1 then 4 else 5

record IsHeader (size : ℕ) (h : Header) : Type 0 where
  long : 16 ≤ size
  types : h.max_type ≤ 6
  mask : ((h.version ≡ 1) × (h.required_mask ≡ 15)) ⊎ ((h.version ≡ 2) × (h.required_mask ≡ 31))

check_header_accepts :
    (bytes : List ℕ) (h : Header)
    → check_header bytes ≡ ok h
    → (h.max_type ≤ 6)
      × (((h.version ≡ 1) × (h.required_mask ≡ 15)) ⊎ ((h.version ≡ 2) × (h.required_mask ≡ 31)))
unfolding check_header
check_header_accepts bytes h e = ground arith

read_header-IsHeader :
    (read : ReadAt) (size : ℕ) (h : Header) → read_header read size ≡ ok h → IsHeader size h
unfolding read_header
read_header-IsHeader read size h e = elim (Bool-cases (ltb size header_size)) [
  | inl short ↦ absurd (refused (rw short at e))
  | inr fits ↦ after (read 0 header_size) (ltb→le _ _ fits) (rw fits at e)
]
  where
    refused : err header_incomplete ≡ ok h → ⊥
    refused p = cc

    after :
        (r : Option (List ℕ))
        → 16 ≤ size
        → (elim r [ none ↦ err header_incomplete | some bytes ↦ check_header bytes ]) ≡ ok h
        → IsHeader size h
    after none fits p = cc
    after (some bytes) fits p =
        let (types, mask) = check_header_accepts bytes h p in
        record { long = fits; types = types; mask = mask }

check_end_accepts :
    (size : ℕ) (h : Header) (w : Walk) (entries : List AudioxUpdateEntry)
    → check_end size h w ≡ ok entries
    → (w.offset ≡ size)
      × ((bit_and w.seen h.required_mask == h.required_mask) ≡ true)
      × (w.entries ≡ entries)
unfolding check_end
check_end_accepts size h w entries e = ground arith

-- The loop over the entries of an accepted archive, and its end.
walked :
    (read : ReadAt) (size : ℕ) (h : Header) (entries : List AudioxUpdateEntry)
    → size < 2 ^ 63
    → read_header read size ≡ ok h
    → parse_archive read size ≡ ok entries
    → IsHeader size h
      × (w : Walk) × IsWalk read size w
      × ((bit_and w.seen h.required_mask == h.required_mask) ≡ true)
      × (w.entries ≡ entries)
unfolding parse_archive
walked read size h entries hs eh e =
    let head = read_header-IsHeader read size h eh in
    let (w, run, end) =
      >>=-eq-ok (parse_entries read size h h.entry_count start) (λ w. check_end size h w)
        (rw eh at e) in
    let (o, m, s) = check_end_accepts size h w entries end in
    (
      head,
      w,
      parse_entries-IsWalk read size h h.entry_count start w head.types hs
          (start-IsWalk read size head.long) run,
      m,
      s,
    )

required_bit :
    (size : ℕ) (h : Header) (w : Walk) (t : ℕ)
    → IsHeader size h
    → w.seen < 64
    → (bit_and w.seen h.required_mask == h.required_mask) ≡ true
    → t < required_types h.version
    → (t < 6) × ((bit_and w.seen (2 ^ t) == 0) ≡ false)
required_bit size h w t head hs m ht = by_version head.mask
  where
    by_version :
        ((h.version ≡ 1) × (h.required_mask ≡ 15)) ⊎ ((h.version ≡ 2) × (h.required_mask ≡ 31))
        → (t < 6) × ((bit_and w.seen (2 ^ t) == 0) ≡ false)
    by_version (inl (v, e)) =
        let small : t < 4 = rw v at ht in
        (omega arith, required_bits w.seen t hs (inr (small, rw e at m)))
    by_version (inr (v, e)) =
        let small : t < 5 = rw v at ht in
        (omega arith, required_bits w.seen t hs (inl (small, rw e at m)))

-- In an accepted archive, each required entry of its version (config, bootloader, kernel and
-- program, and in version 2 metadata) is present, not empty, inside the file behind the headers,
-- within its size limit, and its payload passed the checksum.
pub parse_archive_required :
    (read : ReadAt) (size : ℕ) (h : Header) (entries : List AudioxUpdateEntry) (t : ℕ)
    → size < 2 ^ 63
    → read_header read size ≡ ok h
    → parse_archive read size ≡ ok entries
    → t < required_types h.version
    → Good read size (suc t) (get_or entries t no_entry)
parse_archive_required read size h entries t hs eh e ht =
    let (head, w, v, m, s) = walked read size h entries hs eh e in
    let (small, bit) = required_bit size h w t head v.bits m ht in
    rw (← s) (rw bit at (v.slots t small))

-- In an accepted archive, every entry of a known type is absent or passed the same checks.
pub parse_archive_slots :
    (read : ReadAt) (size : ℕ) (h : Header) (entries : List AudioxUpdateEntry) (t : ℕ)
    → size < 2 ^ 63
    → read_header read size ≡ ok h
    → parse_archive read size ≡ ok entries
    → t < 6
    → (get_or entries t no_entry ≡ no_entry) ⊎ Good read size (suc t) (get_or entries t no_entry)
parse_archive_slots read size h entries t hs eh e ht =
    let (head, w, v, m, s) = walked read size h entries hs eh e in
    rw (← s) (either (bit_and w.seen (2 ^ t) == 0) (v.slots t ht))
  where
    either :
        {x : AudioxUpdateEntry} (b : Bool)
        → Slot read size (suc t) b x
        → (x ≡ no_entry) ⊎ Good read size (suc t) x
    either true q = inl q
    either false q = inr q
