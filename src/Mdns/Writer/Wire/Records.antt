-- ===== src/Mdns/Writer/Wire/Records.antt =====
-- The wire format of records (RFC 1035), for the writers of src/http/mdns.cpp.
use audiox.Prelude.{
  length-set, ◌-◌, length-append, le→leb, leb, arith, inr, inl, append_assoc, ◌∙◌, ◌+◌, ap,
  Bool-cases, ◌≡◌, ◌/◌, ◌++◌, ◌%◌, set, map, length, ℕ, sym, List, ◌∷◌, [], true, refl, suc,
}
use audiox.Mdns.Writer.{
  write_ptr, write_nsec, write_a, type_ptr, type_nsec, type_a, leb, patch_length, patch16, set, ℕ,
  write_record_header, u16, List, Writer, Host,
}
use audiox.Mdns.Writer.Wire.{
  be16, be32, wire_name, IsBounded, IsWriting, then-IsWriting, u8-IsWriting, u16-IsWriting,
  u32-IsWriting, bytes-IsWriting, write_name-IsWriting,
}

-- The fields of a record before its length.
abbrev pub wire_header : List ℕ → ℕ → ℕ → ℕ → List ℕ
wire_header n type record_class ttl = ((wire_name n ++ be16 type) ++ be16 record_class) ++ be32 ttl

pub header-IsWriting :
    (n : List ℕ) (type record_class ttl : ℕ)
    → IsWriting (wire_header n type record_class ttl) (write_record_header n type record_class ttl)
unfolding write_record_header
header-IsWriting n type record_class ttl =
    then-IsWriting
      (then-IsWriting (then-IsWriting (write_name-IsWriting n) (u16-IsWriting type))
        (u16-IsWriting record_class))
      (u32-IsWriting ttl)

set-append : (xs ys : List ℕ) (y v : ℕ) → set (xs ++ (y ∷ ys)) (length xs) v ≡ xs ++ (v ∷ ys)
set-append [] ys y v = refl
set-append (x ∷ xs) ys y v = ap (λ l. x ∷ l) (set-append xs ys y v)

set-append_next :
    (xs ys : List ℕ) (x y v : ℕ) → set (xs ++ (x ∷ y ∷ ys)) (length xs + 1) v ≡ xs ++ (x ∷ v ∷ ys)
set-append_next [] ys x y v = refl
set-append_next (z ∷ xs) ys x y v =
    let e : suc (length xs) + 1 ≡ suc (length xs + 1) = omega arith in
    rw e (ap (λ l. z ∷ l) (set-append_next xs ys x y v))

-- A length is patched into two bytes that were written as zero.
patched :
    (front rest : List ℕ) (v : ℕ) (w : Writer)
    → w.out ≡ front ++ (0 ∷ 0 ∷ rest)
    → (patch16 (length front) v w).out ≡ front ++ ((v / 256 % 256) ∷ (v % 256) ∷ rest)
unfolding patch16
patched front rest v w e =
    let room : leb (length front + 2) (length w.out) ≡ true =
      le→leb _ _ (omega (arith, ap length e, length-append front (0 ∷ 0 ∷ rest))) in
    rw (patch16, room, e, set-append front (0 ∷ rest) 0 (v / 256 % 256))
      (set-append_next front rest (v / 256 % 256) 0 (v % 256))

pub patch16_well : (at v : ℕ) (w : Writer) → (patch16 at v w).is_ok ≡ w.is_ok
unfolding patch16
patch16_well at v w = elim (Bool-cases (leb (at + 2) (length w.out))) [
  | inl e ↦ rw (patch16, e) refl
  | inr e ↦ rw (patch16, e) refl
]

patch16-IsBounded : (c at v : ℕ) (w : Writer) → IsBounded c w → IsBounded c (patch16 at v w)
unfolding patch16
patch16-IsBounded c at v w h = elim (Bool-cases (leb (at + 2) (length w.out))) [
  | inl e ↦
      rw (patch16, e)
        record {
          same_capacity = h.same_capacity;
          room = omega (
            arith,
            length-set (set w.out at (v / 256 % 256)) (at + 1) (v % 256),
            length-set w.out at (v / 256 % 256),
            h.room,
          );
        }
  | inr e ↦ rw (patch16, e) h
]

-- A record: its header, the length of its data, and the data.
abbrev pub wire_record : List ℕ → List ℕ → List ℕ
wire_record header data_bytes = header ++ (be16 (length data_bytes % 65536) ++ data_bytes)

record-IsWriting :
    {header data_bytes : List ℕ} {f g : Writer → Writer}
    → IsWriting header f
    → IsWriting data_bytes g
    → IsWriting
        (wire_record header data_bytes)
        (λ w. patch_length (length (f w).out) (g (u16 0 (f w))))
unfolding patch_length
record-IsWriting {header = header} {data_bytes = ds} {f = f} {g = g} p q = record {
  well = λ w h. whole.well w (sym (patch16_well _ _ _) ∙ h);
  appended = λ w h.
      let ok = sym (patch16_well _ _ _) ∙ h in
      let front : (f w).out ≡ w.out ++ header =
        p.appended w ((u16-IsWriting 0).well (f w) (q.well _ ok)) in
      let after : (g (u16 0 (f w))).out ≡ (f w).out ++ (0 ∷ 0 ∷ ds) =
        (then-IsWriting (u16-IsWriting 0) q).appended (f w) ok in
      let size : length (g (u16 0 (f w))).out - (length (f w).out + 2) ≡ length ds =
        omega (arith, ap length after, length-append (f w).out (0 ∷ 0 ∷ ds)) in
      patched (f w).out ds _ (g (u16 0 (f w))) after
      ∙ ap (λ n. (f w).out ++ (be16 (n % 65536) ++ ds)) size
      ∙ ap (λ l. l ++ (be16 (length ds % 65536) ++ ds)) front
      ∙ append_assoc w.out header _;
  bounded = λ c w h. patch16-IsBounded c _ _ _ (whole.bounded c w h);
}
  where
    whole : IsWriting ((header ++ be16 0) ++ ds) (λ w. g (u16 0 (f w)))
    whole = then-IsWriting (then-IsWriting p (u16-IsWriting 0)) q

abbrev pub wire_a : Host → ℕ → ℕ → List ℕ
wire_a host record_class ttl =
    (wire_header host.name type_a record_class ttl ++ be16 4) ++ map (λ b. b % 256) host.address

abbrev pub wire_nsec : Host → ℕ → ℕ → List ℕ
wire_nsec host record_class ttl =
    wire_record (wire_header host.name type_nsec record_class ttl)
      (((wire_name host.name ++ (0 ∷ [])) ++ (1 ∷ [])) ++ (0x40 ∷ []))

abbrev pub wire_ptr : Host → List ℕ → ℕ → ℕ → List ℕ
wire_ptr host reverse record_class ttl =
    wire_record (wire_header reverse type_ptr record_class ttl) (wire_name host.name)

module _ (host : Host) (record_class ttl : ℕ) where
  pub write_a-IsWriting : IsWriting (wire_a host record_class ttl) (write_a host record_class ttl)
  unfolding write_a
  write_a-IsWriting =
      then-IsWriting
        (then-IsWriting (header-IsWriting host.name type_a record_class ttl) (u16-IsWriting 4))
        (bytes-IsWriting host.address)

  pub write_nsec-IsWriting :
      IsWriting (wire_nsec host record_class ttl) (write_nsec host record_class ttl)
  unfolding write_nsec
  write_nsec-IsWriting = record-IsWriting (header-IsWriting host.name type_nsec record_class ttl) (
      then-IsWriting
        (then-IsWriting (then-IsWriting (write_name-IsWriting host.name) (u8-IsWriting 0))
          (u8-IsWriting 1))
        (u8-IsWriting 0x40))

  pub write_ptr-IsWriting :
      (reverse : List ℕ)
      → IsWriting (wire_ptr host reverse record_class ttl) (write_ptr host reverse record_class ttl)
  unfolding write_ptr
  write_ptr-IsWriting reverse =
      record-IsWriting (header-IsWriting reverse type_ptr record_class ttl)
        (write_name-IsWriting host.name)
