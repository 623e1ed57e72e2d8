-- ===== src/Mdns/Name/Ends.antt =====
-- The loop of `readName` in src/http/mdns.cpp.
use audiox.Mdns.Name.{
  none, get_or, take, drop, Option, suc, length, ℕ, List, Read, name, refused, unfinished, Turn,
  go_on, end_with, follow, take_label, turn, read_loop, name_fuel, read_name, dot_before,
  max_name_length,
}
use audiox.Prelude.{
  none, length-append, ◌∙◌, sym, inr, [], ◌∷◌, ◌++◌, subst, refl, length-take, inl, get_or, ap, ◌≡◌,
  ◌==◌, take, drop, Option, Bool-cases, zero, arith, ◌≤◌, length, ◌-◌, ◌*◌, ◌<◌, ◌+◌, ℕ, List,
}

-- What is left to do: labels that still fit, and bytes before the position.
abbrev pub to_do : List ℕ → ℕ → List ℕ → ℕ
to_do packet position out = (max_name_length + 1 - length out) * (length packet + 1) + position

mul_step : (k j s : ℕ) → k < j → k * s + s ≤ j * s
mul_step k zero s h = absurd (omega arith)
mul_step k (suc j) s h = grind arith

length-drop : (n : ℕ) (xs : List ℕ) → length (drop n xs) ≡ length xs - n
length-drop zero xs = omega arith
length-drop (suc n) [] = omega arith
length-drop (suc n) (x ∷ xs) = omega (arith, length-drop n xs)

label_length :
    (n p : ℕ) (xs : List ℕ) → p + 1 + n ≤ length xs → length (take n (drop (p + 1) xs)) ≡ n
label_length n p xs h = omega (arith, length-take n (drop (p + 1) xs), length-drop (p + 1) xs)

follow_back :
    (packet : List ℕ) (label position : ℕ) (resume : Option ℕ) (out : List ℕ) (p : ℕ) (r : Option ℕ)
    (o : List ℕ)
    → follow packet label position resume out ≡ go_on p r o
    → (p < position) × (o ≡ out)
unfolding follow
follow_back packet label position resume out p r o e = ground arith

take_label_accepts :
    (packet : List ℕ) (capacity label position : ℕ) (resume : Option ℕ) (out : List ℕ) (p : ℕ)
    (r : Option ℕ) (o : List ℕ)
    → take_label packet capacity label position resume out ≡ go_on p r o
    → (position + 1 + label ≤ length packet)
      × (length out + (length (dot_before out) + label) < capacity)
      × (length out + (length (dot_before out) + label) ≤ 255)
      × (p ≡ position + 1 + label)
      × (o ≡ out ++ (dot_before out ++ take label (drop (position + 1) packet)))
unfolding take_label
take_label_accepts packet capacity label position resume out p r o e = ground arith

-- One round that goes on: the name still fits, and less is left to do.
record Falls (packet : List ℕ) (capacity position : ℕ) (out : List ℕ) (p : ℕ) (o : List ℕ)
    : Type 0 where
  fits : length o < capacity
  short : length o ≤ 255
  less : to_do packet p o < to_do packet position out

follow-Falls :
    (packet : List ℕ) (capacity label position : ℕ) (resume : Option ℕ) (out : List ℕ) (p : ℕ)
    (r : Option ℕ) (o : List ℕ)
    → length out < capacity
    → length out ≤ 255
    → follow packet label position resume out ≡ go_on p r o
    → Falls packet capacity position out p o
follow-Falls packet capacity label position resume out p r o h k e =
    let (back, same) = follow_back packet label position resume out p r o e in
    subst (λ q. Falls packet capacity position out p q) (sym same)
      record { fits = h; short = k; less = omega (arith, back) }

take_label-Falls :
    (packet : List ℕ) (capacity label position : ℕ) (resume : Option ℕ) (out : List ℕ) (p : ℕ)
    (r : Option ℕ) (o : List ℕ)
    → length out ≤ 255
    → 0 < label
    → take_label packet capacity label position resume out ≡ go_on p r o
    → Falls packet capacity position out p o
take_label-Falls packet capacity label position resume out p r o k pos e =
    let (inside, fit, small, at, grown) =
      take_label_accepts packet capacity label position resume out p r o e in
    let bytes = take label (drop (position + 1) packet) in
    let long : length o ≡ length out + (length (dot_before out) + label) =
      ap length grown
      ∙ length-append out (dot_before out ++ bytes)
      ∙ ap (λ n. length out + n)
          (length-append (dot_before out) bytes
            ∙ ap (λ n. length (dot_before out) + n) (label_length label position packet inside)) in
    let step =
      mul_step (max_name_length + 1 - length o) (max_name_length + 1 - length out)
        (length packet + 1) (omega (arith, long, k, pos, small)) in
    record {
      fits = omega (arith, long, fit);
      short = omega (arith, long, small);
      less = omega (arith, step, at, inside);
    }

turn-Falls :
    (packet : List ℕ) (capacity position : ℕ) (resume : Option ℕ) (out : List ℕ) (p : ℕ)
    (r : Option ℕ) (o : List ℕ)
    → length out < capacity
    → length out ≤ 255
    → turn packet capacity position resume out ≡ go_on p r o
    → Falls packet capacity position out p o
unfolding turn
turn-Falls packet capacity position resume out p r o h k e = ground (
  arith,
  follow-Falls packet capacity (get_or packet position 0) position resume out p r o,
  take_label-Falls packet capacity (get_or packet position 0) position resume out p r o,
)

-- The answer is a name that fits or a refusal.
abbrev pub Answered : ℕ → Read → Type 0
Answered capacity (name out offset) = (length out < capacity) × (length out ≤ 255)
Answered capacity refused = Unit {0}
Answered capacity unfinished = ⊥

turn-Answered :
    (packet : List ℕ) (capacity position : ℕ) (resume : Option ℕ) (out : List ℕ) (a : Read)
    → length out < capacity
    → length out ≤ 255
    → turn packet capacity position resume out ≡ end_with a
    → Answered capacity a
unfolding turn follow take_label
turn-Answered packet capacity position resume out (name o f) h k e = ground arith
turn-Answered packet capacity position resume out refused h k e = tt
turn-Answered packet capacity position resume out unfinished h k e = ground arith

read_loop-Answered :
    (fuel : ℕ) (packet : List ℕ) (capacity position : ℕ) (resume : Option ℕ) (out : List ℕ)
    → to_do packet position out < fuel
    → length out < capacity
    → length out ≤ 255
    → Answered capacity (read_loop fuel packet capacity position resume out)
unfolding read_loop
read_loop-Answered zero packet capacity position resume out f h k = absurd (omega arith)
read_loop-Answered (suc fuel) packet capacity position resume out f h k =
    cases (turn packet capacity position resume out) refl (λ p r o v.
      read_loop-Answered fuel packet capacity p r o (omega (arith, v.less)) v.fits v.short)
  where
    cases :
        (t : Turn)
        → turn packet capacity position resume out ≡ t
        → ((p : ℕ) (r : Option ℕ) (o : List ℕ)
            → Falls packet capacity position out p o
            → Answered capacity (read_loop fuel packet capacity p r o))
        → Answered capacity
            (elim t [ go_on p r o ↦ read_loop fuel packet capacity p r o | end_with a ↦ a ])
    cases (go_on p r o) e ih = ih p r o (turn-Falls packet capacity position resume out p r o h k e)
    cases (end_with a) e ih = turn-Answered packet capacity position resume out a h k e

-- On every packet, compressed in whatever way, `readName` ends, and a name that it gives has room
-- in the buffer with its NUL and at most 255 bytes.
pub read_name-Answered :
    (packet : List ℕ) (offset capacity : ℕ) → Answered capacity (read_name packet offset capacity)
unfolding read_name name_fuel
read_name-Answered packet offset capacity = elim (Bool-cases (capacity == 0)) [
  | inl z ↦ rw z tt
  | inr p ↦ rw p (
      read_loop-Answered _ packet capacity offset none [] (omega arith) (ground arith)
        (omega arith))
]
