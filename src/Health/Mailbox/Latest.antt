-- ===== src/Health/Mailbox/Latest.antt =====
-- The reader gets the snapshot that was published last, whole.
use audiox.Health.Mailbox.{
  bit_or, get_or, suc, bit_and, ℕ, set, List, Mailbox, new, publish_write, publish_exchange,
  take_fresh, read,
}
use audiox.Prelude.{
  refl, get_or-set_self, get_or-set_ne, bit_or, arith, ◌∙◌, ◌<◌, ◌+◌, zero, get_or, ◌≢◌, ◌∷◌,
  length-set, length, bit_and, [], ◌≡◌, ℕ, set, List,
}

-- A publication with so many reads between its two steps, or a read.
pub data Event (A : Type 0) : Type 0 where
  publish : A → ℕ → Event A
  look : Event A

unfoldable pub looks : {A : Type 0} → ℕ → Mailbox A → Mailbox A
looks zero m = m
looks (suc n) m = looks n (take_fresh m)

unfoldable pub step : {A : Type 0} → Event A → Mailbox A → Mailbox A
step (publish a n) m = publish_exchange (looks n (publish_write a m))
step look m = take_fresh m

unfoldable pub run : {A : Type 0} → List (Event A) → Mailbox A → Mailbox A
run [] m = m
run (e ∷ es) m = run es (step e m)

unfoldable pub last_published : {A : Type 0} → A → List (Event A) → A
last_published v [] = v
last_published v (publish a n ∷ es) = last_published a es
last_published v (look ∷ es) = last_published v es

data Places : ℕ → ℕ → ℕ → Type 0 where
  p012 : Places 0 1 2
  p021 : Places 0 2 1
  p102 : Places 1 0 2
  p120 : Places 1 2 0
  p201 : Places 2 0 1
  p210 : Places 2 1 0

take_middle : {f k b : ℕ} → Places f k b → Places k f b
take_middle p012 = p102
take_middle p021 = p201
take_middle p102 = p012
take_middle p120 = p210
take_middle p201 = p021
take_middle p210 = p120

give_back : {f k b : ℕ} → Places f k b → Places f b k
give_back p012 = p021
give_back p021 = p012
give_back p102 = p120
give_back p120 = p102
give_back p201 = p210
give_back p210 = p201

masks :
    {f k b : ℕ}
    → Places f k b
    → (bit_and k 3 ≡ k)
      × (bit_and (k + 4) 3 ≡ k)
      × (bit_or b 4 ≡ b + 4)
      × (bit_and k 4 ≡ 0)
      × (bit_and (k + 4) 4 ≡ 4)
masks p012 = (refl, refl, refl, refl, refl)
masks p021 = (refl, refl, refl, refl, refl)
masks p102 = (refl, refl, refl, refl, refl)
masks p120 = (refl, refl, refl, refl, refl)
masks p201 = (refl, refl, refl, refl, refl)
masks p210 = (refl, refl, refl, refl, refl)

apart : {f k b : ℕ} → Places f k b → (b ≢ f) × (b ≢ k) × (b < 3)
apart p012 = ((λ e. absurd (omega (arith, e))), (λ e. absurd (omega (arith, e))), omega arith)
apart p021 = ((λ e. absurd (omega (arith, e))), (λ e. absurd (omega (arith, e))), omega arith)
apart p102 = ((λ e. absurd (omega (arith, e))), (λ e. absurd (omega (arith, e))), omega arith)
apart p120 = ((λ e. absurd (omega (arith, e))), (λ e. absurd (omega (arith, e))), omega arith)
apart p201 = ((λ e. absurd (omega (arith, e))), (λ e. absurd (omega (arith, e))), omega arith)
apart p210 = ((λ e. absurd (omega (arith, e))), (λ e. absurd (omega (arith, e))), omega arith)

module _ {A : Type 0} (empty : A) where
  -- The mailbox holds `v` as its newest snapshot, and `d` in the publisher's slot.
  data Cells (v d : A) : Mailbox A → Type 0 where
    stale :
        (f k b : ℕ) (s : List A)
        → Places f k b
        → length s ≡ 3
        → get_or s f empty ≡ v
        → get_or s b empty ≡ d
        → Cells v d (record { slots = s; middle = k; back = b; front = f })
    fresh :
        (f k b : ℕ) (s : List A)
        → Places f k b
        → length s ≡ 3
        → get_or s k empty ≡ v
        → get_or s b empty ≡ d
        → Cells v d (record { slots = s; middle = k + 4; back = b; front = f })

  written : (v d a : A) (m : Mailbox A) → Cells v d m → Cells v a (publish_write a m)
  unfolding publish_write
  written v d a _ (stale f k b s p l e g) =
      stale f k b (set s b a) p (length-set s b a ∙ l) (get_or-set_ne s b f a empty (apart p).0 ∙ e)
        (get_or-set_self s b a empty (omega (arith, l, (apart p).2)))
  written v d a _ (fresh f k b s p l e g) =
      fresh f k b (set s b a) p (length-set s b a ∙ l) (get_or-set_ne s b k a empty (apart p).1 ∙ e)
        (get_or-set_self s b a empty (omega (arith, l, (apart p).2)))

  taken : (v d : A) (m : Mailbox A) → Cells v d m → Cells v d (take_fresh m)
  unfolding take_fresh
  taken v d _ (stale f k b s p l e g) = rw (masks p).3 (stale f k b s p l e g)
  taken v d _ (fresh f k b s p l e g) =
      rw ((masks p).4, (masks p).1) (stale k f b s (take_middle p) l e g)

  looked : (n : ℕ) (v d : A) (m : Mailbox A) → Cells v d m → Cells v d (looks n m)
  unfolding looks
  looked zero v d m c = c
  looked (suc n) v d m c = looked n v d (take_fresh m) (taken v d m c)

  exchanged : (v d : A) (m : Mailbox A) → Cells v d m → (d' : A) × Cells d d' (publish_exchange m)
  unfolding publish_exchange
  exchanged v d _ (stale f k b s p l e g) =
      (get_or s k empty, rw ((masks p).0, (masks p).2) (fresh f b k s (give_back p) l g refl))
  exchanged v d _ (fresh f k b s p l e g) =
      (get_or s k empty, rw ((masks p).1, (masks p).2) (fresh f b k s (give_back p) l g refl))

  seen : (v d : A) (m : Mailbox A) → Cells v d m → read empty m ≡ v
  unfolding read take_fresh
  seen v d _ (stale f k b s p l e g) = rw (masks p).3 e
  seen v d _ (fresh f k b s p l e g) = rw ((masks p).4, (masks p).1) e

  run-Cells :
      (es : List (Event A)) (v d : A) (m : Mailbox A)
      → Cells v d m
      → (d' : A) × Cells (last_published v es) d' (run es m)
  unfolding run step last_published
  run-Cells [] v d m c = (d, c)
  run-Cells (publish a n ∷ es) v d m c =
      let (d', c') = exchanged v a _ (looked n v a _ (written v d a m c)) in run-Cells es a d' _ c'
  run-Cells (look ∷ es) v d m c = run-Cells es v d _ (taken v d m c)

-- After any publications and reads, with reads between the two steps of a publication too, the
-- reader gets exactly the snapshot that was published last, or the empty one before the first.
pub read-last_published :
    {A : Type 0} (empty : A) (es : List (Event A))
    → read empty (run es (new empty)) ≡ last_published empty es
unfolding new
read-last_published empty es =
    let (d, c) = run-Cells empty es empty empty _ (stale 0 1 2 _ p012 refl refl refl) in
    seen empty _ d _ c
