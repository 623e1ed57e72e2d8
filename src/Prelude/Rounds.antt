-- ===== src/Prelude/Rounds.antt =====
-- Lists whose oldest items are dropped, and the arrays that hold them going round their end.
use native.Mathlib.Nat.{mod-add-mod, mod-eq_of_lt, mod-eq-sub-mod}
use Prim.Native.Nat.{ℕ, zero, suc, ◌+◌, ◌-◌, ◌%◌, ◌≤◌, ◌<◌}
use mathlib.Core.Path.{◌≡◌, refl, sym, ap, ap₂, ◌∙◌}
use mathlib.Core.Logic.{◌≢◌}
use mathlib.Core.List.{List, [], ◌∷◌, ◌++◌}
use native.Mathlib.Omega.{arith}
use native.Mathlib.Decide.{dec_lt}
use audiox.Prelude.Lists.{
  length, get_or, set, drop, length-append, get_or-set_self, get_or-set_ne, drop_add,
}

-- The newest items that fit.
unfoldable pub newest {ℓ} : {A : Type ℓ} → ℕ → List A → List A
newest capacity xs = drop (length xs - capacity) xs

module _ {ℓ} {A : Type ℓ} where
  pub drop-append_le :
      (n : ℕ) (xs ys : List A) → n ≤ length xs → drop n (xs ++ ys) ≡ drop n xs ++ ys
  drop-append_le zero xs ys h = refl
  drop-append_le (suc n) [] ys h = elim h [ ]
  drop-append_le (suc n) (x ∷ xs) ys h = drop-append_le n xs ys (omega arith)

  pub length-drop : (n : ℕ) (xs : List A) → length (drop n xs) ≡ length xs - n
  length-drop zero xs = omega arith
  length-drop (suc n) [] = omega arith
  length-drop (suc n) (x ∷ xs) = omega (arith, length-drop n xs)

  -- Items that are dropped early are dropped in the end.
  pub newest-append :
      (capacity : ℕ) (xs ys : List A)
      → newest capacity (newest capacity xs ++ ys) ≡ newest capacity (xs ++ ys)
  unfolding newest
  newest-append capacity xs ys =
      let k = length xs - capacity in
      let kept = length (drop k xs ++ ys) - capacity in
      ap (drop kept) (sym (drop-append_le k xs ys (omega arith)))
      ∙ sym (
          drop_add k kept (length (xs ++ ys) - capacity) (xs ++ ys)
            (omega (arith, length-append xs ys, length-append (drop k xs) ys, length-drop k xs)))

  pub newest_all : (capacity : ℕ) (xs : List A) → length xs ≤ capacity → newest capacity xs ≡ xs
  unfolding newest
  newest_all capacity xs h = let fits : length xs - capacity ≡ 0 = omega arith in rw fits refl

module _ (capacity : ℕ) where
  -- Fewer steps than the capacity do not lead back.
  pub no_return : (i k : ℕ) → i < capacity → suc k < capacity → (i + suc k) % capacity ≢ i
  no_return i k h room = elim (dec_lt (i + suc k) capacity) [
    | yes p ↦ omega (arith, mod-eq_of_lt p)
    | no p ↦ omega (
      arith,
      mod-eq-sub-mod {n = i + suc k} {m = capacity} (omega arith),
      mod-eq_of_lt {n = i + suc k - capacity} {m = capacity} (omega arith),
    )
  ]

  pub next_of : (i n : ℕ) → (i + suc n) % capacity ≡ ((i + 1) % capacity + n) % capacity
  next_of i n = rw mod-add-mod (ap (λ k. k % capacity) (omega arith))

module _ {ℓ} {A : Type ℓ} (capacity : ℕ) (default : A) where
  -- So many items, from one index on and round the end of the array.
  abbrev pub turn : List A → ℕ → ℕ → List A
  turn fs i zero = []
  turn fs i (suc n) = get_or fs i default ∷ turn fs ((i + 1) % capacity) n

  pub length-turn : (fs : List A) (i n : ℕ) → length (turn fs i n) ≡ n
  length-turn fs i zero = refl
  length-turn fs i (suc n) = ap suc (length-turn fs ((i + 1) % capacity) n)

  -- An item that is written behind the others is the last one.
  pub turn-set :
      (fs : List A) (f : A) (n i at : ℕ)
      → length fs ≡ capacity
      → i < capacity
      → n < capacity
      → at ≡ (i + n) % capacity
      → turn (set fs at f) i (suc n) ≡ turn fs i n ++ f ∷ []
  turn-set fs f zero i at l h room e =
      let here : at ≡ i = e ∙ ap (λ k. k % capacity) (omega arith) ∙ mod-eq_of_lt h in
      rw here (ap (λ x. x ∷ []) (get_or-set_self fs i f default (omega arith)))
  turn-set fs f (suc n) i at l h room e =
      ap₂ ◌∷◌ (get_or-set_ne fs at i f default (rw e (no_return capacity i n h room))) (
        turn-set fs f n ((i + 1) % capacity) at l (omega arith) (omega arith)
          (e ∙ next_of capacity i n))

  pub get_or-turn :
      (xs : List A) (i k n : ℕ)
      → i < capacity
      → k < n
      → get_or (turn xs i n) k default ≡ get_or xs ((i + k) % capacity) default
  get_or-turn xs i k zero h l = absurd (omega arith)
  get_or-turn xs i zero (suc n) h l =
      ap (λ j. get_or xs j default) (sym (mod-eq_of_lt h) ∙ ap (λ j. j % capacity) (omega arith))
  get_or-turn xs i (suc k) (suc n) h l =
      get_or-turn xs ((i + 1) % capacity) k n (omega arith) (omega arith)
      ∙ ap (λ j. get_or xs j default) (sym (next_of capacity i k))
