-- ===== src/Mdns/Writer/Wire.antt =====
-- The wire format of names and records (RFC 1035), for the class `Writer` of src/http/mdns.cpp.
pub mod Records
pub mod Fitting
use audiox.Prelude.{
  ◌≤◌, ltb→le, length-set, ◌-◌, length-append, le→leb, leb, arith, inr, inl, append_assoc, ◌∙◌, ◌+◌,
  if◌then◌else◌, ap, Bool-cases, ◌≡◌, ◌/◌, ◌++◌, ◌%◌, set, map, ltb, length, append-nil, Bool, ℕ,
  sym, List, ◌∷◌, [], true, false, refl, suc,
}
use audiox.Mdns.Writer.{
  write_ptr, write_nsec, write_a, type_ptr, type_nsec, type_a, leb, patch_length, patch16, set, ltb,
  labels, fail, Bool, ℕ, write_record_header, write_name, write_labels, u8, u32, u16, bytes, List,
  Writer, Host,
}

abbrev pub be16 : ℕ → List ℕ
be16 v = (v / 256 % 256) ∷ (v % 256) ∷ []

abbrev pub be32 : ℕ → List ℕ
be32 v = be16 (v / 65536) ++ be16 v

unfoldable pub wire_labels : List (List ℕ) → List ℕ
wire_labels [] = 0 ∷ []
wire_labels ([] ∷ ls) = 0 ∷ []
wire_labels ((c ∷ cs) ∷ ls) =
    ((length (c ∷ cs) % 256) ∷ map (λ b. b % 256) (c ∷ cs)) ++ wire_labels ls

abbrev pub wire_name : List ℕ → List ℕ
wire_name dotted = wire_labels (labels dotted)

-- The bytes fit the buffer.
pub record IsBounded (c : ℕ) (w : Writer) : Type 0 where
  pub same_capacity : w.capacity ≡ c
  pub room : length w.out ≤ c

-- If the writer is still well after `f`, it was before, and `f` appended `bs`; in any case
-- the bytes fit.
pub record IsWriting (bs : List ℕ) (f : Writer → Writer) : Type 0 where
  pub well : (w : Writer) → (f w).is_ok ≡ true → w.is_ok ≡ true
  pub appended : (w : Writer) → (f w).is_ok ≡ true → (f w).out ≡ w.out ++ bs
  pub bounded : (c : ℕ) (w : Writer) → IsBounded c w → IsBounded c (f w)

pub then-IsWriting :
    {xs bs : List ℕ} {f g : Writer → Writer}
    → IsWriting xs f
    → IsWriting bs g
    → IsWriting (xs ++ bs) (λ w. g (f w))
then-IsWriting {xs = xs} {bs = bs} {f = f} p q = record {
  well = λ w h. p.well w (q.well (f w) h);
  appended = λ w h.
      q.appended (f w) h
      ∙ ap (λ l. l ++ bs) (p.appended w (q.well (f w) h))
      ∙ append_assoc w.out xs bs;
  bounded = λ c w h. q.bounded c (f w) (p.bounded c w h);
}

pub nothing-IsWriting : IsWriting [] (λ w. w)
nothing-IsWriting = record {
  well = λ w h. h;
  appended = λ w h. sym (append-nil w.out);
  bounded = λ c w h. h;
}

fail-IsWriting : {bs : List ℕ} → IsWriting bs fail
fail-IsWriting = record {
  well = λ w h. absurd cc;
  appended = λ w h. absurd cc;
  bounded = λ c w h. record { same_capacity = h.same_capacity; room = h.room };
}

pub u8-IsWriting : (v : ℕ) → IsWriting ((v % 256) ∷ []) (u8 v)
unfolding u8
u8-IsWriting v = record {
  well = λ w h. elim (Bool-cases (ltb w.capacity (length w.out + 1))) [
    | inl e ↦ let f : (u8 v w).is_ok ≡ false = rw (u8, e) refl in absurd cc
    | inr e ↦ let f : (u8 v w).is_ok ≡ w.is_ok = rw (u8, e) refl in sym f ∙ h
  ];
  appended = λ w h. elim (Bool-cases (ltb w.capacity (length w.out + 1))) [
    | inl e ↦ let f : (u8 v w).is_ok ≡ false = rw (u8, e) refl in absurd cc
    | inr e ↦ rw (u8, e) refl
  ];
  bounded = λ c w h. elim (Bool-cases (ltb w.capacity (length w.out + 1))) [
    | inl e ↦ rw (u8, e) record { same_capacity = h.same_capacity; room = h.room }
    | inr e ↦
        rw (u8, e)
          record {
            same_capacity = h.same_capacity;
            room =
                omega (arith, length-append w.out ((v % 256) ∷ []), ltb→le _ _ e, h.same_capacity);
          }
  ];
}

pub u16-IsWriting : (v : ℕ) → IsWriting (be16 v) (u16 v)
unfolding u16
u16-IsWriting v = then-IsWriting (u8-IsWriting (v / 256)) (u8-IsWriting v)

pub u32-IsWriting : (v : ℕ) → IsWriting (be32 v) (u32 v)
unfolding u32
u32-IsWriting v = then-IsWriting (u16-IsWriting (v / 65536)) (u16-IsWriting v)

pub bytes-IsWriting : (bs : List ℕ) → IsWriting (map (λ b. b % 256) bs) (bytes bs)
unfolding bytes
bytes-IsWriting [] = nothing-IsWriting
bytes-IsWriting (b ∷ bs) = then-IsWriting (u8-IsWriting b) (bytes-IsWriting bs)

if-IsWriting :
    {bs : List ℕ} (c : Bool) {f g : Writer → Writer}
    → IsWriting bs f
    → IsWriting bs g
    → IsWriting bs (λ w. if c then f w else g w)
if-IsWriting true p q = p
if-IsWriting false p q = q

write_labels-IsWriting : (ls : List (List ℕ)) → IsWriting (wire_labels ls) (write_labels ls)
unfolding write_labels wire_labels
write_labels-IsWriting [] = u8-IsWriting 0
write_labels-IsWriting ([] ∷ []) = u8-IsWriting 0
write_labels-IsWriting ([] ∷ l ∷ ls) = fail-IsWriting
write_labels-IsWriting ((c ∷ cs) ∷ ls) = if-IsWriting (ltb 63 (length (c ∷ cs))) fail-IsWriting (
    then-IsWriting (then-IsWriting (u8-IsWriting (length (c ∷ cs))) (bytes-IsWriting (c ∷ cs)))
      (write_labels-IsWriting ls))

pub write_name-IsWriting : (dotted : List ℕ) → IsWriting (wire_name dotted) (write_name dotted)
unfolding write_name
write_name-IsWriting dotted = write_labels-IsWriting (labels dotted)
