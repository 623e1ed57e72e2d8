-- ===== src/Update/Archive/Walking.antt =====
-- The loop over the entries: what each accepted entry adds.
pub mod Loop
use audiox.Prelude.Result.{ok, err, >>=-eq-ok}
use audiox.Prelude.Words.{sub64, add64}
use audiox.Update.Archive.{
  get_u64, get_u32, entry_header_incomplete, bad_entry_size, ℕ, ReadAt, Header, Walk,
  AudioxUpdateEntry, crc_match, no_entry, is_known, too_large, type_bit, check_entry_crc,
  check_kind, store_entry, take_entry, parse_entry, parse_entries, start, no_entries,
}
use audiox.Update.Archive.Masks.{bit_or_sets}
use audiox.Prelude.{
  refl, some, none, sym, Option, ◌∙◌, zero, subst, length-set, get_or-set_self, ==_refl,
  get_or-set_ne, ℕ_discrete, ltb→le, ◌≢◌, ltb, List, ◌⊎◌, inr, get_or, bit_or, ◌^◌, ◌==◌, ◌-◌,
  arith, suc, set, inl, false, bit_and, ◌+◌, true, length, if◌then◌else◌, Bool-cases, ◌≤◌, ◌≡◌, ◌<◌,
  Bool, ℕ,
}

-- An entry of the known type `t` that can be installed.
pub record Good (read : ReadAt) (size t : ℕ) (e : AudioxUpdateEntry) : Type 0 where
  pub present : 0 < e.size
  pub behind_header : 32 ≤ e.offset
  pub inside : e.offset + e.size ≤ size
  pub within_limit : too_large t e.size ≡ false
  pub checksum : check_entry_crc read e ≡ crc_match

-- The slot of a type, by whether its bit is clear.
abbrev pub Slot : ReadAt → ℕ → ℕ → Bool → AudioxUpdateEntry → Type 0
Slot read size t true e = e ≡ no_entry
Slot read size t false e = Good read size t e

pub record IsWalk (read : ReadAt) (size : ℕ) (w : Walk) : Type 0 where
  pub low : 16 ≤ w.offset
  pub high : w.offset ≤ size
  pub six : length w.entries ≡ 6
  pub bits : w.seen < 64
  pub slots :
      (t : ℕ)
      → t < 6
      → Slot read size (suc t) (bit_and w.seen (2 ^ t) == 0) (get_or w.entries t no_entry)

-- An accepted type is known and new, or unknown and optional.
abbrev pub Kind : Header → ℕ → ℕ → ℕ → ℕ → Type 0
Kind h type size seen seen' =
    ((is_known h type ≡ true)
      × ((bit_and seen (type_bit type) == 0) ≡ true)
      × (0 < size)
      × (too_large type size ≡ false)
      × (seen' ≡ bit_or seen (type_bit type)))
    ⊎ ((is_known h type ≡ false) × (seen' ≡ seen))

pub check_kind_accepts :
    (h : Header) (type size seen : ℕ) {seen' : ℕ}
    → check_kind h type size seen ≡ ok seen'
    → Kind h type size seen seen'
unfolding check_kind
check_kind_accepts h type size seen e = elim (Bool-cases (is_known h type)) [
  | inl known ↦ inl (ground arith)
  | inr unknown ↦ inr (ground arith)
]

pub store_entry_accepts :
    (read : ReadAt) (h : Header) (type : ℕ) (entry : AudioxUpdateEntry) (w : Walk) (seen : ℕ)
    {w' : Walk}
    → store_entry read h type entry w seen ≡ ok w'
    → (check_entry_crc read entry ≡ crc_match)
      × (w'.seen ≡ seen)
      × (w'.offset ≡ add64 entry.offset entry.size)
      × (w'.entries ≡ (if is_known h type then set w.entries (type - 1) entry else w.entries))
unfolding store_entry
store_entry_accepts read h type entry w seen e = ground arith

pub take_entry_accepts :
    (read : ReadAt) (size : ℕ) (h : Header) (type : ℕ) (entry : AudioxUpdateEntry) (w : Walk)
    {w' : Walk}
    → take_entry read size h type entry w ≡ ok w'
    → (entry.size ≤ sub64 size entry.offset)
      × (seen : ℕ) × (check_kind h type entry.size w.seen ≡ ok seen)
      × (store_entry read h type entry w seen ≡ ok w')
unfolding take_entry
take_entry_accepts read size h type entry w e =
    elim (Bool-cases (ltb (sub64 size entry.offset) entry.size)) [
      | inl long ↦ absurd (refused (rw long at e))
      | inr fits ↦
          let (seen, kind, stored) =
            >>=-eq-ok (check_kind h type entry.size w.seen)
              (λ seen. store_entry read h type entry w seen) (rw fits at e) in
          (ltb→le _ _ fits, seen, kind, stored)
    ]
  where
    refused : {w' : Walk} → err bad_entry_size ≡ ok w' → ⊥
    refused p = cc

==_ne : (a b : ℕ) → a ≢ b → (a == b) ≡ false
==_ne a b h = ground arith

Slot-self :
    (read : ReadAt) (size seen t : ℕ) (entries : List AudioxUpdateEntry) (entry : AudioxUpdateEntry)
    → seen < 64
    → t < 6
    → length entries ≡ 6
    → Good read size (suc t) entry
    → Slot read size
        (suc t)
        (bit_and (bit_or seen (2 ^ t)) (2 ^ t) == 0)
        (get_or (set entries t entry) t no_entry)
Slot-self read size seen t entries entry hs ht six good =
    rw
      (
        (bit_or_sets seen t t hs ht ht).1,
        ==_refl t,
        get_or-set_self entries t entry no_entry (omega arith),
      )
      good

pub Slot-added :
    (read : ReadAt) (size seen t u : ℕ) (entries : List AudioxUpdateEntry)
    (entry : AudioxUpdateEntry)
    → seen < 64
    → t < 6
    → u < 6
    → length entries ≡ 6
    → Good read size (suc t) entry
    → Slot read size (suc u) (bit_and seen (2 ^ u) == 0) (get_or entries u no_entry)
    → Slot read size
        (suc u)
        (bit_and (bit_or seen (2 ^ t)) (2 ^ u) == 0)
        (get_or (set entries t entry) u no_entry)
Slot-added read size seen t u entries entry hs ht hu six good old = elim (ℕ_discrete t u) [
  | yes e ↦
      subst
        (λ k.
          Slot read size (suc k) (bit_and (bit_or seen (2 ^ t)) (2 ^ k) == 0)
            (get_or (set entries t entry) k no_entry))
        e (Slot-self read size seen t entries entry hs ht six good)
  | no ne ↦
      rw
        (
          (bit_or_sets seen t u hs ht hu).1,
          get_or-set_ne entries t u entry no_entry ne,
          ==_ne t u ne,
        )
        old
]

pub known_range :
    (h : Header) (type : ℕ)
    → h.max_type ≤ 6
    → is_known h type ≡ true
    → (type - 1 < 6) × (suc (type - 1) ≡ type)
known_range h type hm k = (ground arith, ground arith)
