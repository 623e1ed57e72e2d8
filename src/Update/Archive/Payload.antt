-- ===== src/Update/Archive/Payload.antt =====
-- The chunked checksum of an entry is the checksum of its payload, and its loop always ends.
use audiox.Update.Crc.{crc32, crc_bytes}
use audiox.Update.Crc.Chunks.{AllBytes, crc32-append}
use audiox.Update.Archive.{
  ℕ, List, ReadAt, AudioxUpdateEntry, CrcCheck, crc_match, crc_differs, crc_loop, check_entry_crc,
  chunk,
}
use audiox.Prelude.{
  ap₂, ◌/◌, refl, drop_add, sym, lt→ltb, take_add, min, le→ltb, dec_lt, ◌^◌, ◌==◌, ◌*◌, ◌<◌, ◌-◌,
  if◌then◌else◌, [], zero, ◌∷◌, ◌∙◌, suc, arith, some, ap, ◌++◌, length, ◌≤◌, ◌≡◌, ◌+◌, take, drop,
  ℕ, List,
}

-- A file whose full reads give its bytes.
abbrev pub Backed : ReadAt → List ℕ → Type 0
Backed read content =
    (at count : ℕ)
    → at + count ≤ length content
    → read at count ≡ some (take count (drop at content))

AllBytes-take : (n : ℕ) (xs : List ℕ) → AllBytes xs → AllBytes (take n xs)
AllBytes-take zero xs h = tt
AllBytes-take (suc n) [] h = tt
AllBytes-take (suc n) (x ∷ xs) h = (h.0, AllBytes-take n xs h.1)

AllBytes-drop : (n : ℕ) (xs : List ℕ) → AllBytes xs → AllBytes (drop n xs)
AllBytes-drop zero xs h = h
AllBytes-drop (suc n) [] h = tt
AllBytes-drop (suc n) (x ∷ xs) h = AllBytes-drop n xs h.1

-- The answer for a payload with this checksum.
abbrev pub verdict : ℕ → ℕ → CrcCheck
verdict crc expected = if crc == expected then crc_match else crc_differs

crc32-nil : (crc : ℕ) → crc < 2 ^ 32 → crc32 crc [] ≡ crc
unfolding crc32 crc_bytes
crc32-nil crc h = omega arith

module _ (read : ReadAt) (content : List ℕ) (backed : Backed read content)
    (bytes : AllBytes content) where
  -- What is left of the payload after `done` bytes.
  abbrev left : AudioxUpdateEntry → ℕ → List ℕ
  left e done = take (e.size - done) (drop (e.offset + done) content)

  left-step :
      (e : AudioxUpdateEntry) (done want : ℕ)
      → done + want ≤ e.size
      → left e done ≡ take want (drop (e.offset + done) content) ++ left e (done + want)
  left-step e done want h =
      take_add want (e.size - (done + want)) (e.size - done) (drop (e.offset + done) content)
        (omega arith)
      ∙ ap (λ r. take want (drop (e.offset + done) content) ++ take (e.size - (done + want)) r)
          (sym (drop_add (e.offset + done) want (e.offset + (done + want)) content (omega arith)))

  piece : (n at : ℕ) → AllBytes (take n (drop at content))
  piece n at = AllBytes-take n (drop at content) (AllBytes-drop at content bytes)

  crc_loop_over :
      (fuel : ℕ) (e : AudioxUpdateEntry) (done crc : ℕ)
      → e.size ≤ done
      → crc < 2 ^ 32
      → crc_loop read (suc fuel) e done crc ≡ verdict (crc32 crc (left e done)) e.crc
  unfolding crc_loop
  crc_loop_over fuel e done crc over small =
      let nothing : e.size - done ≡ 0 = omega arith in
      rw (le→ltb done e.size over, crc_loop, nothing, crc32-nil crc small) refl

  crc_loop_step :
      (fuel : ℕ) (e : AudioxUpdateEntry) (done crc want : ℕ)
      → done < e.size
      → want ≡ min chunk (e.size - done)
      → e.offset + e.size ≤ length content
      → crc_loop read (suc fuel) e done crc
        ≡ crc_loop read fuel e
            (done + want)
            (crc32 crc (take want (drop (e.offset + done) content)))
  unfolding crc_loop
  crc_loop_step fuel e done crc want more same inside =
      rw
        (
          same,
          lt→ltb done e.size more,
          crc_loop,
          backed (e.offset + done) (min chunk (e.size - done)) (omega arith),
        )
        refl

  crc_loop_exact :
      (fuel : ℕ) (e : AudioxUpdateEntry) (done crc : ℕ)
      → e.offset + e.size ≤ length content
      → done ≤ e.size
      → e.size - done ≤ chunk * fuel
      → crc < 2 ^ 32
      → crc_loop read (suc fuel) e done crc ≡ verdict (crc32 crc (left e done)) e.crc
  crc_loop_exact zero e done crc inside le enough small =
      crc_loop_over 0 e done crc (omega arith) small
  crc_loop_exact (suc fuel) e done crc inside le enough small = elim (dec_lt done e.size) [
    | no over ↦ crc_loop_over (suc fuel) e done crc (omega arith) small
    | yes more ↦
        let want = min chunk (e.size - done) in
        let buf = take want (drop (e.offset + done) content) in
        let (tight, joined) =
          crc32-append buf (left e (done + want)) crc (piece want (e.offset + done)) in
        crc_loop_step (suc fuel) e done crc want more refl inside
        ∙ crc_loop_exact fuel e (done + want) (crc32 crc buf) inside (omega arith) (omega arith)
            tight
        ∙ ap (λ c. verdict c e.crc)
            (joined ∙ ap (crc32 crc) (sym (left-step e done want (omega arith))))
  ]

-- On a file that is read back as it is, an entry's check compares its CRC with that of exactly its
-- payload: it never runs out of fuel and skips or repeats no byte.
pub check_entry_crc_exact :
    (read : ReadAt) (content : List ℕ) (e : AudioxUpdateEntry)
    → Backed read content
    → AllBytes content
    → e.offset + e.size ≤ length content
    → check_entry_crc read e ≡ verdict (crc32 0 (take e.size (drop e.offset content))) e.crc
unfolding check_entry_crc
check_entry_crc_exact read content e backed bytes inside =
    let start : e.size - 0 ≡ e.size = omega arith in
    let first : e.offset + 0 ≡ e.offset = omega arith in
    let fuel : e.size / chunk + 2 ≡ suc (e.size / chunk + 1) = omega arith in
    ap (λ k. crc_loop read k e 0 0) fuel
    ∙ crc_loop_exact read content backed bytes (e.size / chunk + 1) e 0 0 inside (omega arith)
        (omega arith) (omega arith)
    ∙ ap₂ (λ n m. verdict (crc32 0 (take n (drop m content))) e.crc) start first
