-- ===== src/Capture/Refine.antt =====
-- The ring of include/audio/capture_ring.hpp holds a queue of frames; what a push makes of it.
pub mod Consume
pub mod Run
use native.Mathlib.Nat.{mod-add-mod}
use audiox.Prelude.Words.{add32}
use audiox.Capture.Ring.{Float, Frame, Ring, padded, make_room, wrote_frame, push_frame, push_loop}
use audiox.Capture.Queue.{Queue, frames_of}
use audiox.Prelude.Rounds.{
  newest, drop-append_le, newest-append, newest_all, turn, length-turn, next_of, turn-set,
}
use Prim.Native.Nat.{suc, ℕ}
use audiox.Prelude.{
  zero, length-append, set, refl, append_assoc, ◌∙◌, true, length-set, suc, arith, append-nil, ◌-◌,
  false, ap, [], ◌∷◌, ◌+◌, sym, leb, ◌≤◌, ◌++◌, ◌%◌, drop, dec_lt, ◌≡◌, ◌^◌, ◌<◌, length, List, ℕ,
}

module _ (fl : Float) (capacity max_channels : ℕ) where
  pub record IsValid (r : Ring fl.Value) : Type 0 where
    pub whole : length r.frames ≡ capacity
    pub inside : r.tail < capacity
    pub bounded : r.count ≤ capacity
    pub behind : r.head ≡ (r.tail + r.count) % capacity

  -- The frames that wait, oldest first.
  abbrev pub contents : Ring fl.Value → List Frame
  contents r = turn capacity [] r.frames r.tail r.count

  abbrev pub as_queue : Ring fl.Value → Queue fl.Value
  as_queue r = record { frames = contents r; fraction = r.read_fraction }

module _ (fl : Float) (capacity max_channels : ℕ) (some_room : 0 < capacity)
    (small : capacity < 2 ^ 32) where
  pub add32_next : (i : ℕ) → i < capacity → add32 i 1 % capacity ≡ (i + 1) % capacity
  add32_next i h = ap (λ k. k % capacity) (omega arith)

  record Room (r s : Ring fl.Value) : Type 0 where
    valid : IsValid fl capacity max_channels s
    room : s.count < capacity
    same_head : s.head ≡ r.head
    same_fraction : s.read_fraction ≡ r.read_fraction
    left :
        contents fl capacity max_channels s
        ≡ drop (r.count + 1 - capacity) (contents fl capacity max_channels r)

  make_room-Room :
      (r : Ring fl.Value)
      → IsValid fl capacity max_channels r
      → Room r (make_room fl capacity max_channels r)
  unfolding make_room
  make_room-Room r v = elim (dec_lt r.count capacity) [
    | yes p ↦
        let test : leb capacity r.count ≡ false = ground arith in
        let none_leaves : r.count + 1 - capacity ≡ 0 = omega arith in
        rw test (record {
          valid = v;
          room = p;
          same_head = refl;
          same_fraction = refl;
          left = rw none_leaves refl;
        })
    | no p ↦
        let full : r.count ≡ suc (capacity - 1) = omega (arith, v.bounded) in
        let test : leb capacity r.count ≡ true = ground arith in
        let one_leaves : r.count + 1 - capacity ≡ 1 = omega (arith, v.bounded) in
        let next = add32_next r.tail v.inside in
        rw test (record {
          valid = record {
            whole = v.whole;
            inside = omega arith;
            bounded = omega arith;
            behind =
                v.behind
                ∙ ap (λ k. (r.tail + k) % capacity) full
                ∙ next_of capacity r.tail (capacity - 1)
                ∙ ap (λ k. (k + (capacity - 1)) % capacity) (sym next);
          };
          room = omega arith;
          same_head = refl;
          same_fraction = refl;
          left =
              ap (λ i. turn capacity [] r.frames i (capacity - 1)) next
              ∙ rw (one_leaves, full) refl;
        })
  ]

  -- A valid ring that holds these frames, with this fraction.
  pub record Holding (fs : List Frame) (x : fl.Value) (r : Ring fl.Value) : Type 0 where
    pub valid : IsValid fl capacity max_channels r
    pub frames : contents fl capacity max_channels r ≡ fs
    pub fraction : r.read_fraction ≡ x

  push_frame-Holding :
      (f : Frame) (r : Ring fl.Value)
      → IsValid fl capacity max_channels r
      → Holding
          (newest capacity (contents fl capacity max_channels r ++ f ∷ []))
          r.read_fraction
          (push_frame fl capacity max_channels f r)
  unfolding push_frame wrote_frame newest
  push_frame-Holding f r v =
      let s = make_room fl capacity max_channels r in
      let m = make_room-Room r v in
      let c = contents fl capacity max_channels r in
      let counted : add32 s.count 1 ≡ suc s.count = omega (arith, m.room) in
      let at_head : s.head < capacity = rw (m.valid.behind) (omega arith) in
      let written =
        turn-set capacity [] s.frames f s.count s.tail s.head m.valid.whole m.valid.inside m.room
          m.valid.behind in
      record {
        valid = record {
          whole = length-set s.frames s.head f ∙ m.valid.whole;
          inside = m.valid.inside;
          bounded = omega (arith, m.room);
          behind =
              add32_next s.head at_head
              ∙ ap (λ k. (k + 1) % capacity) m.valid.behind
              ∙ after s.tail s.count
              ∙ ap (λ k. (s.tail + k) % capacity) (sym counted);
        };
        frames =
            ap (turn capacity [] (set s.frames s.head f) s.tail) counted
            ∙ written
            ∙ ap (λ l. l ++ f ∷ []) m.left
            ∙ sym (
                drop-append_le _ c (f ∷ [])
                  (omega (arith, length-turn capacity [] r.frames r.tail r.count, v.bounded)))
            ∙ ap (λ n. drop n (c ++ f ∷ []))
                (omega (
                  arith,
                  length-append c (f ∷ []),
                  length-turn capacity [] r.frames r.tail r.count,
                ));
        fraction = m.same_fraction;
      }
    where
      after : (t n : ℕ) → ((t + n) % capacity + 1) % capacity ≡ (t + suc n) % capacity
      after t n = rw mod-add-mod (ap (λ k. k % capacity) (omega arith))

  pub push_loop-Holding :
      (channels n : ℕ) (input : List ℕ) (r : Ring fl.Value)
      → IsValid fl capacity max_channels r
      → Holding
          (newest capacity
            (contents fl capacity max_channels r ++ frames_of max_channels channels n input))
          r.read_fraction
          (push_loop fl capacity max_channels channels n input r)
  unfolding push_loop frames_of
  push_loop-Holding channels zero input r v =
      let c = contents fl capacity max_channels r in
      record {
        valid = v;
        frames = sym (
            newest_all capacity (c ++ []) (
              rw (append-nil c)
                (omega (arith, length-turn capacity [] r.frames r.tail r.count, v.bounded)))
            ∙ append-nil c);
        fraction = refl;
      }
  push_loop-Holding channels (suc n) input r v =
      let f = padded max_channels channels input in
      let c = contents fl capacity max_channels r in
      let rest = frames_of max_channels channels n (drop channels input) in
      let one = push_frame-Holding f r v in
      let more =
        push_loop-Holding channels n (drop channels input) (push_frame fl capacity max_channels f r)
          one.valid in
      record {
        valid = more.valid;
        frames =
            more.frames
            ∙ ap (λ l. newest capacity (l ++ rest)) one.frames
            ∙ newest-append capacity (c ++ f ∷ []) rest
            ∙ ap (newest capacity) (append_assoc c (f ∷ []) rest);
        fraction = more.fraction ∙ one.fraction;
      }
