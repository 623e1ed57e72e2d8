-- ===== src/Capture/Refine/Run.antt =====
-- Any calls of the ring of include/audio/capture_ring.hpp.
use native.Mathlib.Nat.{mod-eq_of_lt}
use audiox.Capture.Ring.{Float, Ring, reset, push, consume}
use audiox.Capture.Queue
use audiox.Capture.Queue.{Queue, Op, pushed, consumed, was_reset}
use audiox.Capture.Refine.{sym, ap, arith, List, ℕ, IsValid, contents, as_queue, push_loop-Holding}
use audiox.Capture.Refine.Consume.{Left, consume-Left}
use audiox.Prelude.{
  none, sym, inr, inl, ltb, ◌||◌, ap, ◌∙◌, ◌==◌, arith, Bool-cases, ◌≡◌, some, refl, [], ◌∷◌, ◌^◌,
  ◌<◌, List, ℕ,
}

module _ (fl : Float) (capacity max_channels : ℕ) where
  -- A call on the ring.
  unfoldable pub call : Op fl.Value → Ring fl.Value → Ring fl.Value
  call (pushed input channels n) r = push fl capacity max_channels input channels n r
  call (consumed s) r = consume fl capacity max_channels s r
  call was_reset r = reset fl capacity max_channels r

  unfoldable pub run : List (Op fl.Value) → Ring fl.Value → Ring fl.Value
  run [] r = r
  run (op ∷ ops) r = run ops (call op r)

module _ (fl : Float) (capacity max_channels : ℕ) (some_room : 0 < capacity)
    (small : capacity < 2 ^ 32) where
  as_is :
      (r : Ring fl.Value)
      → IsValid fl capacity max_channels r
      → Left fl capacity max_channels some_room small (as_queue fl capacity max_channels r) r
  as_is r v = record { valid = v; frames = refl; fraction = refl }

  call-Left :
      (op : Op fl.Value) (r : Ring fl.Value)
      → IsValid fl capacity max_channels r
      → Left fl capacity max_channels some_room small
          (Queue.step fl capacity max_channels op (as_queue fl capacity max_channels r))
          (call fl capacity max_channels op r)
  unfolding call push Queue.push Queue.step reset
  call-Left (pushed none channels n) r v = as_is r v
  call-Left (pushed (some input) channels n) r v =
      elim (Bool-cases ((channels == 0) || ltb max_channels channels)) [
        | inl bad ↦ rw bad (as_is r v)
        | inr good ↦
            rw good
              (push_loop-Holding fl capacity max_channels some_room small channels n input r v)
      ]
  call-Left (consumed s) r v = consume-Left fl capacity max_channels some_room small s r v
  call-Left was_reset r v = record {
    valid = record {
      whole = v.whole;
      inside = some_room;
      bounded = omega arith;
      behind = sym (mod-eq_of_lt some_room);
    };
    frames = refl;
    fraction = refl;
  }

  -- After any pushes, consumptions and resets, a valid ring of a capacity from 1 to 2^32 - 1 holds
  -- what the queue of its frames would, with the same fraction: each pushed frame, padded with
  -- silence, once and in order, until it is consumed or is no longer among the newest that fit.
  pub run-eq :
      (ops : List (Op fl.Value)) (r : Ring fl.Value)
      → IsValid fl capacity max_channels r
      → as_queue fl capacity max_channels (run fl capacity max_channels ops r)
        ≡ Queue.run fl capacity max_channels ops (as_queue fl capacity max_channels r)
  unfolding run Queue.run
  run-eq [] r v = refl
  run-eq (op ∷ ops) r v =
      let one = call-Left op r v in
      run-eq ops (call fl capacity max_channels op r) one.valid
      ∙ ap (Queue.run fl capacity max_channels ops)
          (same_queue (call fl capacity max_channels op r) _ one.frames one.fraction)
    where
      same_queue :
          (s : Ring fl.Value) (q : Queue fl.Value)
          → contents fl capacity max_channels s ≡ q.frames
          → s.read_fraction ≡ q.fraction
          → as_queue fl capacity max_channels s ≡ q
      same_queue s q f x = ground arith
