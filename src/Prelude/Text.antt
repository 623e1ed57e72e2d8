-- ===== src/Prelude/Text.antt =====
-- The laws of the byte comparisons.
use Prim.Native.Nat.{ℕ}
use mathlib.Core.Path.{◌≡◌, refl, sym, ap₂}
use mathlib.Core.Bool.{Bool, true, false, ◌&&◌, ◌||◌}
use mathlib.Core.List.{List, [], ◌∷◌, ◌++◌}
use audiox.Prelude.Tests.{◌==◌, ==_iff, ==_refl}
use audiox.Prelude.Lists.{length, drop, bytes_eq, starts_with}

pub and_parts : (a b : Bool) → (a && b) ≡ true → (a ≡ true) × (b ≡ true)
and_parts true true h = (refl, refl)
and_parts true false h = cc
and_parts false b h = cc

pub starts_with-append :
    (p text : List ℕ) → starts_with p text ≡ true → text ≡ p ++ drop (length p) text
starts_with-append [] text h = refl
starts_with-append (p ∷ ps) [] h = cc
starts_with-append (p ∷ ps) (c ∷ cs) h =
    let (e, r) = and_parts (p == c) (starts_with ps cs) h in
    ap₂ (λ x xs. x ∷ xs) (sym ((==_iff p c).0 e)) (starts_with-append ps cs r)

pub starts_with_self : (p rest : List ℕ) → starts_with p (p ++ rest) ≡ true
starts_with_self [] rest = refl
starts_with_self (p ∷ ps) rest = rw (==_refl p) (starts_with_self ps rest)

pub drop-append : (p rest : List ℕ) → drop (length p) (p ++ rest) ≡ rest
drop-append [] rest = refl
drop-append (p ∷ ps) rest = drop-append ps rest

pub bytes_eq→eq : (a b : List ℕ) → bytes_eq a b ≡ true → a ≡ b
bytes_eq→eq [] [] h = refl
bytes_eq→eq [] (b ∷ bs) h = cc
bytes_eq→eq (a ∷ xs) [] h = cc
bytes_eq→eq (a ∷ xs) (b ∷ ys) h =
    let (e, r) = and_parts (a == b) (bytes_eq xs ys) h in
    ap₂ (λ x l. x ∷ l) ((==_iff a b).0 e) (bytes_eq→eq xs ys r)

pub bytes_eq_refl : (a : List ℕ) → bytes_eq a a ≡ true
bytes_eq_refl [] = refl
bytes_eq_refl (a ∷ xs) = rw (==_refl a) (bytes_eq_refl xs)

pub or-true : (a : Bool) → (a || true) ≡ true
or-true true = refl
or-true false = refl
