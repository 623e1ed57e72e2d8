-- ===== src/Keyboard/Report.antt =====
-- What an accepted chord looks like.
use audiox.Prelude.Bytes.{all_below, all_below_sound}
use audiox.Keyboard.Chord.{
  ChordReport, empty_report, contains, add_key, add_part, add_parts, finish_chord, chord_report,
  split_plus, upper_part, key_of,
}
use Prim.Native.Nat.{suc, bit_or, ℕ}
use audiox.Prelude.{
  suc, length-append, leb, Option, sym, none, inr, Bool-cases, ◌⊎◌, subst, inl, Bool, ◌==◌, refl,
  ◌||◌, true, ltb→lt, arith, ◌&&◌, some, false, [], ◌≤◌, ◌≡◌, ◌∷◌, ◌<◌, ◌++◌, bit_or, ℕ, ltb,
  length, List,
}
use audiox.Prelude.Text.{and_parts}

-- Six keys at most, none of them 0, none twice, and four modifier bits.
abbrev pub Distinct : List ℕ → Type 0
Distinct [] = Unit {0}
Distinct (k ∷ ks) = (contains ks k ≡ false) × Distinct ks

abbrev pub Pressed : List ℕ → Type 0
Pressed [] = Unit {0}
Pressed (k ∷ ks) = (0 < k) × Pressed ks

pub record IsReport (r : ChordReport) : Type 0 where
  pub room : length r.keys ≤ 6
  pub distinct : Distinct r.keys
  pub pressed : Pressed r.keys
  pub bits : r.modifiers < 16

bit_table :
    all_below 16 (λ m.
      ltb (bit_or m 1) 16 && (ltb (bit_or m 2) 16 && (ltb (bit_or m 4) 16 && ltb (bit_or m 8) 16)))
    ≡ true
unfolding all_below
bit_table = refl

modifier_bits :
    (m : ℕ) → m < 16 → (bit_or m 1 < 16) × (bit_or m 2 < 16) × (bit_or m 4 < 16) × (bit_or m 8 < 16)
modifier_bits m h =
    let (a, r) = and_parts _ _ (all_below_sound 16 _ m bit_table h) in
    let (b, s) = and_parts _ _ r in
    let (c, d) = and_parts _ _ s in (ltb→lt _ _ a, ltb→lt _ _ b, ltb→lt _ _ c, ltb→lt _ _ d)

contains-snoc : (ks : List ℕ) (k x : ℕ) → contains (ks ++ k ∷ []) x ≡ (contains ks x || k == x)
contains-snoc [] k x = ground arith
contains-snoc (j ∷ js) k x = ground (arith, contains-snoc js k x)

Distinct-snoc :
    (ks : List ℕ) (k : ℕ) → Distinct ks → contains ks k ≡ false → Distinct (ks ++ k ∷ [])
Distinct-snoc [] k d n = (refl, tt)
Distinct-snoc (j ∷ js) k d n =
    (ground (arith, contains-snoc js k j), Distinct-snoc js k d.1 (ground arith))

Pressed-snoc : (ks : List ℕ) (k : ℕ) → Pressed ks → 0 < k → Pressed (ks ++ k ∷ [])
Pressed-snoc [] k p h = (h, tt)
Pressed-snoc (j ∷ js) k p h = (p.0, Pressed-snoc js k p.1 h)

le6 : (n : ℕ) → n ≤ 6 → (n == 6) ≡ false → suc n ≤ 6
le6 n h e = ground arith

-- The tests that a key passed, and the report with it.
add_key_accepts :
    (key : ℕ) (r r' : ChordReport)
    → add_key key r ≡ some r'
    → ((key == 0) ≡ false)
      × ((length r.keys == 6) ≡ false)
      × (contains r.keys key ≡ false)
      × (r' ≡ record r { keys = r.keys ++ key ∷ [] })
unfolding add_key
add_key_accepts key r r' e = ground arith

add_key-IsReport :
    (key : ℕ) (r r' : ChordReport) → IsReport r → add_key key r ≡ some r' → IsReport r'
add_key-IsReport key r r' v e =
    let (z, n, c, u) = add_key_accepts key r r' e in
    subst IsReport (sym u) record {
      room = omega (arith, length-append r.keys (key ∷ []), le6 (length r.keys) v.room n);
      distinct = Distinct-snoc r.keys key v.distinct c;
      pressed = Pressed-snoc r.keys key v.pressed (ground arith);
      bits = v.bits;
    }

add_part_accepts :
    (part : List ℕ) (r r' : ChordReport)
    → add_part part r ≡ some r'
    → (add_key (key_of part) r ≡ some r')
      ⊎ (r' ≡ record r { modifiers = bit_or r.modifiers 1 })
      ⊎ (r' ≡ record r { modifiers = bit_or r.modifiers 2 })
      ⊎ (r' ≡ record r { modifiers = bit_or r.modifiers 4 })
      ⊎ (r' ≡ record r { modifiers = bit_or r.modifiers 8 })
unfolding add_part
add_part_accepts part r r' e = ground arith

with_modifiers :
    (r r' : ChordReport) (m : ℕ)
    → IsReport r
    → m < 16
    → r' ≡ record r { modifiers = m }
    → IsReport r'
with_modifiers r r' m v h u =
    subst IsReport (sym u)
      record { room = v.room; distinct = v.distinct; pressed = v.pressed; bits = h }

add_part-IsReport :
    (part : List ℕ) (r r' : ChordReport) → IsReport r → add_part part r ≡ some r' → IsReport r'
add_part-IsReport part r r' v e =
    let (a, b, c, d) = modifier_bits r.modifiers v.bits in
    elim (add_part_accepts part r r' e) [
      | inl k ↦ add_key-IsReport (key_of part) r r' v k
      | inr (inl u) ↦ with_modifiers r r' _ v a u
      | inr (inr (inl u)) ↦ with_modifiers r r' _ v b u
      | inr (inr (inr (inl u))) ↦ with_modifiers r r' _ v c u
      | inr (inr (inr (inr u))) ↦ with_modifiers r r' _ v d u
    ]

add_parts-IsReport :
    (ps : List (List ℕ)) (r r' : ChordReport) → IsReport r → add_parts ps r ≡ some r' → IsReport r'
unfolding add_parts
add_parts-IsReport [] r r' v e = let same : r ≡ r' = cc in subst IsReport same v
add_parts-IsReport (p ∷ ps) r r' v e = upper (upper_part p) (λ q. add_parts-IsReport ps q r') e
  where
    next :
        (o : Option ChordReport)
        → ((q : ChordReport) → o ≡ some q → IsReport q)
        → ((q : ChordReport) → IsReport q → add_parts ps q ≡ some r' → IsReport r')
        → (elim o [ none ↦ none | some q ↦ add_parts ps q ]) ≡ some r'
        → IsReport r'
    next none h ih d = cc
    next (some q) h ih d = ih q (h q refl) d

    upper :
        (o : Option (List ℕ))
        → ((q : ChordReport) → IsReport q → add_parts ps q ≡ some r' → IsReport r')
        → (elim o [
          | none ↦ none
          | some part ↦ elim (add_part part r) [ none ↦ none | some q ↦ add_parts ps q ]
        ])
          ≡ some r'
        → IsReport r'
    upper none ih d = cc
    upper (some part) ih d = next (add_part part r) (λ q. add_part-IsReport part r q v) ih d

empty_report-IsReport : IsReport empty_report
empty_report-IsReport = record {
  room = omega arith;
  distinct = tt;
  pressed = tt;
  bits = omega arith;
}

finish_accepts :
    (allow : Bool) (q r : ChordReport)
    → finish_chord allow q ≡ some r
    → (q ≡ r) × ((0 < length r.keys) ⊎ ((allow ≡ true) × (0 < r.modifiers)))
unfolding finish_chord
finish_accepts allow q r e = ground arith

-- A chord that is accepted gives a report of at most six keys, each of them a nonzero usage and
-- none twice, under four modifier bits; it has a key, unless modifiers alone are allowed and there
-- is one.
pub chord_report_sound :
    (keys : List ℕ) (allow : Bool) (r : ChordReport)
    → chord_report keys allow ≡ some r
    → IsReport r × ((0 < length r.keys) ⊎ ((allow ≡ true) × (0 < r.modifiers)))
unfolding chord_report
chord_report_sound keys allow r e = elim (Bool-cases (length keys == 0 || leb 64 (length keys))) [
  | inl t ↦ absurd (refused (rw t at e))
  | inr t ↦
      after (add_parts (split_plus keys) empty_report)
        (λ q. add_parts-IsReport (split_plus keys) empty_report q empty_report-IsReport) (rw t at e)
]
  where
    refused : none ≡ some r → ⊥
    refused p = cc

    after :
        (o : Option ChordReport)
        → ((q : ChordReport) → o ≡ some q → IsReport q)
        → (elim o [ none ↦ none | some q ↦ finish_chord allow q ]) ≡ some r
        → IsReport r × ((0 < length r.keys) ⊎ ((allow ≡ true) × (0 < r.modifiers)))
    after none h d = cc
    after (some q) h d = let (u, k) = finish_accepts allow q r d in (subst IsReport u (h q refl), k)
