-- ===== src/Update/Archive/Walking/Loop.antt =====
-- The loop over the entries of an archive, in include/update_archive.hpp.
use audiox.Prelude.Result.{ok, err, >>=-eq-ok}
use audiox.Prelude.Words.{sub64, add64}
use audiox.Update.Archive.{
  get_u64, get_u32, entry_header_incomplete, ℕ, ReadAt, Header, Walk, AudioxUpdateEntry, crc_match,
  no_entry, is_known, check_entry_crc, take_entry, parse_entry, parse_entries, start, no_entries,
}
use audiox.Update.Archive.Masks.{bit_or_sets}
use audiox.Prelude.{
  refl, some, none, sym, Option, ◌∙◌, zero, subst, length-set, ltb→le, ltb, List, inr, get_or, ◌^◌,
  ◌==◌, ◌-◌, arith, suc, set, inl, bit_and, ◌+◌, if◌then◌else◌, Bool-cases, ◌≤◌, ◌≡◌, ◌<◌, ℕ,
}
use audiox.Update.Archive.Walking.{
  Good, Slot, IsWalk, Kind, check_kind_accepts, store_entry_accepts, take_entry_accepts, Slot-added,
  known_range,
}

-- What one accepted entry leaves: `w'` has it in its slot, or is `w` further on.
joins :
    (read : ReadAt) (size : ℕ) (h : Header) (type : ℕ) (entry : AudioxUpdateEntry) (w w' : Walk)
    (seen : ℕ)
    → h.max_type ≤ 6
    → IsWalk read size w
    → 32 ≤ entry.offset
    → entry.offset + entry.size ≤ size
    → Kind h type entry.size w.seen seen
    → check_entry_crc read entry ≡ crc_match
    → w'.seen ≡ seen
    → w'.offset ≡ entry.offset + entry.size
    → w'.entries ≡ (if is_known h type then set w.entries (type - 1) entry else w.entries)
    → IsWalk read size w'
joins read size h type entry w w' seen hm v low fits (inl (known, new, full, limit, bits)) crc s o
      es =
    let (small, back) = known_range h type hm known in
    let good : Good read size type entry = record {
      present = full;
      behind_header = low;
      inside = fits;
      within_limit = limit;
      checksum = crc;
    } in
    record {
      low = rw o (omega arith);
      high = rw o fits;
      six = rw (es, known) (length-set w.entries (type - 1) entry ∙ v.six);
      bits = rw (s, bits) (bit_or_sets w.seen (type - 1) 0 v.bits small (omega arith)).0;
      slots = λ u hu.
          rw (s, bits, es, known)
            (Slot-added read size w.seen (type - 1) u w.entries entry v.bits small hu v.six
              (subst (λ k. Good read size k entry) (sym back) good) (v.slots u hu));
    }
joins read size h type entry w w' seen hm v low fits (inr (unknown, same)) crc s o es = record {
  low = rw o (omega arith);
  high = rw o fits;
  six = rw (es, unknown) v.six;
  bits = rw (s, same) v.bits;
  slots = λ u hu. rw (s, same, es, unknown) (v.slots u hu);
}

-- The entry of one round joins the slots, or is passed over.
entry_joins :
    (read : ReadAt) (size : ℕ) (h : Header) (type : ℕ) (entry : AudioxUpdateEntry) (w w' : Walk)
    → h.max_type ≤ 6
    → size < 2 ^ 63
    → 32 ≤ entry.offset
    → entry.offset ≤ size
    → IsWalk read size w
    → take_entry read size h type entry w ≡ ok w'
    → IsWalk read size w'
entry_joins read size h type entry w w' hm hs low high v e =
    let (fits, seen, kind, stored) = take_entry_accepts read size h type entry w e in
    let (crc, s, o, es) = store_entry_accepts read h type entry w seen stored in
    joins read size h type entry w w' seen hm v low (omega arith)
      (check_kind_accepts h type entry.size w.seen kind) crc s (o ∙ omega arith) es

parse_entry-IsWalk :
    (read : ReadAt) (size : ℕ) (h : Header) (w w' : Walk)
    → h.max_type ≤ 6
    → size < 2 ^ 63
    → IsWalk read size w
    → parse_entry read size h w ≡ ok w'
    → IsWalk read size w'
unfolding parse_entry
parse_entry-IsWalk read size h w w' hm hs v e = elim (Bool-cases (ltb (sub64 size w.offset) 16)) [
  | inl short ↦ absurd (refused (rw short at e))
  | inr fits ↦ after (read w.offset 16) (ltb→le _ _ fits) (rw fits at e)
]
  where
    refused : err entry_header_incomplete ≡ ok w' → ⊥
    refused p = cc

    after :
        (r : Option (List ℕ))
        → 16 ≤ sub64 size w.offset
        → (elim r [
          | none ↦ err entry_header_incomplete
          | some bytes ↦
              take_entry read size h
                (get_u32 bytes 0)
                (record {
                  crc = get_u32 bytes 4;
                  size = get_u64 bytes 8;
                  offset = add64 w.offset 16;
                })
                w
        ])
          ≡ ok w'
        → IsWalk read size w'
    after none fits p = cc
    after (some bytes) fits p =
        entry_joins read size h (get_u32 bytes 0)
          (record { crc = get_u32 bytes 4; size = get_u64 bytes 8; offset = add64 w.offset 16 }) w
          w' hm hs (omega (arith, v.low, v.high)) (omega (arith, v.low, v.high)) v p

pub parse_entries-IsWalk :
    (read : ReadAt) (size : ℕ) (h : Header) (n : ℕ) (w w' : Walk)
    → h.max_type ≤ 6
    → size < 2 ^ 63
    → IsWalk read size w
    → parse_entries read size h n w ≡ ok w'
    → IsWalk read size w'
unfolding parse_entries
parse_entries-IsWalk read size h zero w w' hm hs v e =
    let same : w ≡ w' = cc in subst (λ k. IsWalk read size k) same v
parse_entries-IsWalk read size h (suc n) w w' hm hs v e =
    let (m, first, rest) =
      >>=-eq-ok (parse_entry read size h w) (λ w'. parse_entries read size h n w') e in
    parse_entries-IsWalk read size h n m w' hm hs (parse_entry-IsWalk read size h w m hm hs v first)
      rest

no_slots :
    (read : ReadAt) (size t : ℕ)
    → t < 6
    → Slot read size (suc t) (bit_and 0 (2 ^ t) == 0) (get_or no_entries t no_entry)
no_slots read size zero h = refl
no_slots read size (suc zero) h = refl
no_slots read size (suc (suc zero)) h = refl
no_slots read size (suc (suc (suc zero))) h = refl
no_slots read size (suc (suc (suc (suc zero)))) h = refl
no_slots read size (suc (suc (suc (suc (suc zero))))) h = refl
no_slots read size (suc (suc (suc (suc (suc (suc t)))))) h = absurd (omega arith)

pub start-IsWalk : (read : ReadAt) (size : ℕ) → 16 ≤ size → IsWalk read size start
start-IsWalk read size h = record {
  low = omega arith;
  high = h;
  six = refl;
  bits = omega arith;
  slots = λ t ht. no_slots read size t ht;
}
