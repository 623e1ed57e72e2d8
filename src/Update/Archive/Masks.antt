-- ===== src/Update/Archive/Masks.antt =====
-- The bits of `seen`, by tables over its 64 values.
use audiox.Prelude.Bytes.{all_below, all_below_sound}
use Prim.Native.Nat.{bit_or, bit_and, ℕ}
use audiox.Prelude.{
  ltb→lt, inr, inl, ◌⊎◌, ◌&&◌, refl, ◌^◌, ◌==◌, false, ◌≡◌, ◌||◌, ◌<◌, true, bit_or, bit_and, ℕ,
  not, ltb, Bool,
}
use audiox.Prelude.Text.{and_parts}

abbrev same : Bool → Bool → Bool
same true b = b
same false b = not b

same-eq : (a b : Bool) → same a b ≡ true → a ≡ b
same-eq true true h = refl
same-eq true false h = cc
same-eq false true h = cc
same-eq false false h = refl

set_table :
    all_below 64 (λ seen. all_below 6 (λ t.
      ltb (bit_or seen (2 ^ t)) 64
      && all_below 6 (λ u.
        same
          (bit_and (bit_or seen (2 ^ t)) (2 ^ u) == 0)
          (not (t == u) && (bit_and seen (2 ^ u) == 0)))))
    ≡ true
unfolding all_below
set_table = refl

-- Setting the bit `t` clears no bit, and sets no other.
pub bit_or_sets :
    (seen t u : ℕ)
    → seen < 64
    → t < 6
    → u < 6
    → (bit_or seen (2 ^ t) < 64)
      × ((bit_and (bit_or seen (2 ^ t)) (2 ^ u) == 0)
          ≡ (not (t == u) && (bit_and seen (2 ^ u) == 0)))
bit_or_sets seen t u hs ht hu =
    let row = all_below_sound 6 _ t (all_below_sound 64 _ seen set_table hs) ht in
    let (small, rest) = and_parts _ _ row in
    (ltb→lt _ _ small, same-eq _ _ (all_below_sound 6 _ u rest hu))

required_table :
    all_below 64 (λ seen.
      all_below 5 (λ t. not (bit_and seen 31 == 31) || not (bit_and seen (2 ^ t) == 0))
      && all_below 4 (λ t. not (bit_and seen 15 == 15) || not (bit_and seen (2 ^ t) == 0)))
    ≡ true
unfolding all_below
required_table = refl

implied : (a b : Bool) → (not a || not b) ≡ true → a ≡ true → b ≡ false
implied true true h e = cc
implied true false h e = refl
implied false b h e = cc

-- A covered mask of five or four types has each of their bits.
pub required_bits :
    (seen t : ℕ)
    → seen < 64
    → ((t < 5) × ((bit_and seen 31 == 31) ≡ true)) ⊎ ((t < 4) × ((bit_and seen 15 == 15) ≡ true))
    → (bit_and seen (2 ^ t) == 0) ≡ false
required_bits seen t hs c =
    let (five, four) = and_parts _ _ (all_below_sound 64 _ seen required_table hs) in
    pick five four c
  where
    pick :
        all_below 5 (λ t. not (bit_and seen 31 == 31) || not (bit_and seen (2 ^ t) == 0)) ≡ true
        → all_below 4 (λ t. not (bit_and seen 15 == 15) || not (bit_and seen (2 ^ t) == 0)) ≡ true
        → ((t < 5) × ((bit_and seen 31 == 31) ≡ true))
          ⊎ ((t < 4) × ((bit_and seen 15 == 15) ≡ true))
        → (bit_and seen (2 ^ t) == 0) ≡ false
    pick five four (inl (ht, e)) = implied _ _ (all_below_sound 5 _ t five ht) e
    pick five four (inr (ht, e)) = implied _ _ (all_below_sound 4 _ t four ht) e
