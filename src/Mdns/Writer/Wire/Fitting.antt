-- ===== src/Mdns/Writer/Wire/Fitting.antt =====
-- When the class `Writer` of src/http/mdns.cpp and the functions that write records do not fail.
use audiox.Prelude.{
  leb, if◌then◌else◌, ◌≤◌, length-append, ◌∙◌, ◌+◌, ◌/◌, ◌%◌, ◌++◌, ◌≡◌, ap, arith, map, length,
  ltb, le→ltb, Bool, ℕ, List, ◌∷◌, [], true, false, refl, Bool-cases, inl, inr,
}
use audiox.Mdns.Writer.{
  leb, patch_length, patch16, labels, write_record_header, write_name, write_labels, write_a,
  write_nsec, write_ptr, fail, u8, u16, u32, bytes, Writer, Host,
}
use audiox.Mdns.Writer.Wire.{
  be16, be32, wire_name, wire_labels, IsWriting, then-IsWriting, u8-IsWriting, nothing-IsWriting,
}
use audiox.Mdns.Writer.Wire.Records.{
  wire_header, wire_record, wire_a, wire_nsec, wire_ptr, patch16_well, write_nsec-IsWriting,
  write_ptr-IsWriting,
}

-- `f` appends `bs`, and does so wherever they have room.
pub record IsFitting (bs : List ℕ) (f : Writer → Writer) : Type 0 where
  pub writing : IsWriting bs f
  pub able :
      (w : Writer) → w.is_ok ≡ true → length w.out + length bs ≤ w.capacity → (f w).is_ok ≡ true
  pub same : (w : Writer) → (f w).capacity ≡ w.capacity

pub then-IsFitting :
    {xs bs : List ℕ} {f g : Writer → Writer}
    → IsFitting xs f
    → IsFitting bs g
    → IsFitting (xs ++ bs) (λ w. g (f w))
then-IsFitting {xs = xs} {bs = bs} {f = f} p q = record {
  writing = then-IsWriting p.writing q.writing;
  able = λ w ok room.
      let first = p.able w ok (omega (arith, length-append xs bs)) in
      let out = ap length (p.writing.appended w first) ∙ length-append w.out xs in
      q.able (f w) first (omega (arith, length-append xs bs, out, p.same w));
  same = λ w. q.same (f w) ∙ p.same w;
}

pub u8-IsFitting : (v : ℕ) → IsFitting ((v % 256) ∷ []) (u8 v)
unfolding u8
u8-IsFitting v = record {
  writing = u8-IsWriting v;
  able = λ w ok room.
      let e : ltb w.capacity (length w.out + 1) ≡ false = le→ltb _ _ (omega (arith, room)) in
      rw (u8, e) ok;
  same = λ w. elim (Bool-cases (ltb w.capacity (length w.out + 1))) [
    | inl e ↦ rw (u8, e) refl
    | inr e ↦ rw (u8, e) refl
  ];
}

pub u16-IsFitting : (v : ℕ) → IsFitting (be16 v) (u16 v)
unfolding u16
u16-IsFitting v = then-IsFitting (u8-IsFitting (v / 256)) (u8-IsFitting v)

u32-IsFitting : (v : ℕ) → IsFitting (be32 v) (u32 v)
unfolding u32
u32-IsFitting v = then-IsFitting (u16-IsFitting (v / 65536)) (u16-IsFitting v)

bytes-IsFitting : (bs : List ℕ) → IsFitting (map (λ b. b % 256) bs) (bytes bs)
unfolding bytes
bytes-IsFitting [] = record {
  writing = nothing-IsWriting;
  able = λ w ok room. ok;
  same = λ w. refl;
}
bytes-IsFitting (b ∷ bs) = then-IsFitting (u8-IsFitting b) (bytes-IsFitting bs)

-- Every label has 1 to 63 bytes; an empty one may stand at the end.
abbrev pub WellLabelled : List (List ℕ) → Type 0
WellLabelled [] = Unit {0}
WellLabelled ([] ∷ []) = Unit {0}
WellLabelled ([] ∷ l ∷ ls) = ⊥
WellLabelled ((c ∷ cs) ∷ ls) = (length (c ∷ cs) ≤ 63) × WellLabelled ls

abbrev pub WellNamed : List ℕ → Type 0
WellNamed dotted = WellLabelled (labels dotted)

unless-IsFitting :
    {bs : List ℕ} (c : Bool) {g : Writer → Writer}
    → c ≡ false
    → IsFitting bs g
    → IsFitting bs (λ w. if c then fail w else g w)
unless-IsFitting true e q = absurd cc
unless-IsFitting false e q = q

write_labels-IsFitting :
    (ls : List (List ℕ)) → WellLabelled ls → IsFitting (wire_labels ls) (write_labels ls)
unfolding write_labels wire_labels
write_labels-IsFitting [] h = u8-IsFitting 0
write_labels-IsFitting ([] ∷ []) h = u8-IsFitting 0
write_labels-IsFitting ([] ∷ l ∷ ls) h = absurd h
write_labels-IsFitting ((c ∷ cs) ∷ ls) (few, h) =
    unless-IsFitting (ltb 63 (length (c ∷ cs))) (le→ltb _ _ few) (
      then-IsFitting (then-IsFitting (u8-IsFitting (length (c ∷ cs))) (bytes-IsFitting (c ∷ cs)))
        (write_labels-IsFitting ls h))

write_name-IsFitting :
    (dotted : List ℕ) → WellNamed dotted → IsFitting (wire_name dotted) (write_name dotted)
unfolding write_name
write_name-IsFitting dotted h = write_labels-IsFitting (labels dotted) h

header-IsFitting :
    (n : List ℕ) (type record_class ttl : ℕ)
    → WellNamed n
    → IsFitting (wire_header n type record_class ttl) (write_record_header n type record_class ttl)
unfolding write_record_header
header-IsFitting n type record_class ttl h =
    then-IsFitting
      (then-IsFitting (then-IsFitting (write_name-IsFitting n h) (u16-IsFitting type))
        (u16-IsFitting record_class))
      (u32-IsFitting ttl)

patch16_same : (at v : ℕ) (w : Writer) → (patch16 at v w).capacity ≡ w.capacity
unfolding patch16
patch16_same at v w = elim (Bool-cases (leb (at + 2) (length w.out))) [
  | inl e ↦ rw (patch16, e) refl
  | inr e ↦ rw (patch16, e) refl
]

record-IsFitting :
    {header data_bytes : List ℕ} {f g : Writer → Writer}
    → IsFitting header f
    → IsFitting data_bytes g
    → IsWriting
        (wire_record header data_bytes)
        (λ w. patch_length (length (f w).out) (g (u16 0 (f w))))
    → IsFitting
        (wire_record header data_bytes)
        (λ w. patch_length (length (f w).out) (g (u16 0 (f w))))
unfolding patch_length
record-IsFitting {header = header} {data_bytes = ds} {f = f} {g = g} p q written = record {
  writing = written;
  able = λ w ok room.
      patch16_well _ _ _
      ∙ whole.able w ok (
          omega (
            arith,
            room,
            length-append header (be16 (length ds % 65536) ++ ds),
            length-append header (be16 0),
            length-append (header ++ be16 0) ds,
          ));
  same = λ w. patch16_same _ _ _ ∙ whole.same w;
}
  where
    whole : IsFitting ((header ++ be16 0) ++ ds) (λ w. g (u16 0 (f w)))
    whole = then-IsFitting (then-IsFitting p (u16-IsFitting 0)) q

module _ (host : Host) (record_class ttl : ℕ) where
  pub write_a-IsFitting :
      WellNamed host.name → IsFitting (wire_a host record_class ttl) (write_a host record_class ttl)
  unfolding write_a
  write_a-IsFitting h =
      then-IsFitting
        (then-IsFitting (header-IsFitting host.name 1 record_class ttl h) (u16-IsFitting 4))
        (bytes-IsFitting host.address)

  pub write_nsec-IsFitting :
      WellNamed host.name
      → IsFitting (wire_nsec host record_class ttl) (write_nsec host record_class ttl)
  unfolding write_nsec
  write_nsec-IsFitting h =
      record-IsFitting (header-IsFitting host.name 47 record_class ttl h)
        (then-IsFitting
          (then-IsFitting (then-IsFitting (write_name-IsFitting host.name h) (u8-IsFitting 0))
            (u8-IsFitting 1))
          (u8-IsFitting 0x40))
        (write_nsec-IsWriting host record_class ttl)

  pub write_ptr-IsFitting :
      (reverse : List ℕ)
      → WellNamed host.name
      → WellNamed reverse
      → IsFitting (wire_ptr host reverse record_class ttl) (write_ptr host reverse record_class ttl)
  unfolding write_ptr
  write_ptr-IsFitting reverse h r =
      record-IsFitting (header-IsFitting reverse 12 record_class ttl r)
        (write_name-IsFitting host.name h) (write_ptr-IsWriting host record_class ttl reverse)
