-- ===== src/Capture/Refine/Consume.antt =====
-- What leaves the ring of include/audio/capture_ring.hpp.
use audiox.Prelude.Words.{add32}
use audiox.Capture.Ring.{Float, Ring, consume_loop, consume}
use audiox.Capture.Queue.{Queue, leave}
use audiox.Prelude.Rounds.{turn, next_of}
use audiox.Capture.Refine.{
  false, sym, ap, true, arith, suc, ℕ, IsValid, contents, Holding, add32_next,
}
use audiox.Prelude.{
  zero, inr, inl, Bool-cases, false, lt→ltb, ◌+◌, sym, ltb, ◌∷◌, ap, ◌∙◌, [], true, get_or, arith,
  ◌==◌, ◌-◌, suc, refl, ◌≡◌, ◌%◌, if◌then◌else◌, ◌^◌, ◌<◌, ℕ,
}

module _ (fl : Float) (capacity max_channels : ℕ) (some_room : 0 < capacity)
    (small : capacity < 2 ^ 32) where
  -- The end of `consume`: an empty ring forgets the fraction.
  abbrev settled : Ring fl.Value → Ring fl.Value
  settled r = if r.count == 0 then record r { read_fraction = fl.zero_value } else r

  abbrev stepped : Ring fl.Value → Ring fl.Value
  stepped r = record r {
    tail = add32 r.tail 1 % capacity;
    count = r.count - 1;
    read_fraction = fl.minus_one r.read_fraction;
  }

  stepped-IsValid :
      (r : Ring fl.Value) (n : ℕ)
      → r.count ≡ suc n
      → IsValid fl capacity max_channels r
      → IsValid fl capacity max_channels (stepped r)
  stepped-IsValid r n e v = record {
    whole = v.whole;
    inside = omega arith;
    bounded = omega (arith, v.bounded);
    behind =
        v.behind
        ∙ ap (λ k. (r.tail + k) % capacity) e
        ∙ next_of capacity r.tail n
        ∙ ap (λ k. (k + n) % capacity)
            (sym (add32_next fl capacity max_channels some_room small r.tail v.inside))
        ∙ ap (λ k. (add32 r.tail 1 % capacity + k) % capacity) (omega arith);
  }

  contents-stepped :
      (r : Ring fl.Value) (n : ℕ)
      → r.count ≡ suc n
      → IsValid fl capacity max_channels r
      → contents fl capacity max_channels r
        ≡ get_or r.frames r.tail [] ∷ contents fl capacity max_channels (stepped r)
  contents-stepped r n e v =
      let less : n ≡ r.count - 1 = omega arith in
      ap (turn capacity [] r.frames r.tail) e
      ∙ ap (λ i. get_or r.frames r.tail [] ∷ turn capacity [] r.frames i n)
          (sym (add32_next fl capacity max_channels some_room small r.tail v.inside))
      ∙ ap
          (λ k. get_or r.frames r.tail [] ∷ turn capacity [] r.frames (add32 r.tail 1 % capacity) k)
          less

  -- What a queue that is left in this way holds.
  abbrev pub Left : Queue fl.Value → Ring fl.Value → Type 0
  Left q r = Holding fl capacity max_channels some_room small q.frames q.fraction r

  consume_loop-Left :
      (n : ℕ) (r : Ring fl.Value)
      → r.count ≡ n
      → IsValid fl capacity max_channels r
      → Left
          (leave fl (contents fl capacity max_channels r) r.read_fraction)
          (settled (consume_loop fl capacity max_channels n r))
  unfolding consume_loop leave
  consume_loop-Left zero r e v =
      let empty : (r.count == 0) ≡ true = rw e refl in
      let nothing : contents fl capacity max_channels r ≡ [] =
        ap (turn capacity [] r.frames r.tail) e in
      rw (empty, nothing)
        (record {
          valid = record {
            whole = v.whole;
            inside = v.inside;
            bounded = v.bounded;
            behind = v.behind;
          };
          frames = nothing;
          fraction = refl;
        })
  consume_loop-Left (suc n) r e v =
      let some_left : ltb 0 r.count ≡ true = lt→ltb 0 r.count (omega arith) in
      let not_empty : (r.count == 0) ≡ false = ground arith in
      let queue = contents-stepped r n e v in
      let later = consume_loop-Left n (stepped r) (omega arith) (stepped-IsValid r n e v) in
      elim (Bool-cases (fl.at_least_one r.read_fraction)) [
        | inl whole ↦ rw (queue, whole, some_left) later
        | inr part ↦
            rw (queue, part, not_empty) (record { valid = v; frames = queue; fraction = refl })
      ]

  pub consume-Left :
      (s : fl.Value) (r : Ring fl.Value)
      → IsValid fl capacity max_channels r
      → Left
          (leave fl (contents fl capacity max_channels r) (fl.add r.read_fraction s))
          (consume fl capacity max_channels s r)
  unfolding consume
  consume-Left s r v =
      consume_loop-Left r.count (record r { read_fraction = fl.add r.read_fraction s }) refl
        (record { whole = v.whole; inside = v.inside; bounded = v.bounded; behind = v.behind })
