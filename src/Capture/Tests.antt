-- ===== src/Capture/Tests.antt =====
-- A ring of three frames of two samples.
use audiox.Capture.Ring.{
  Float, new, push, push_loop, push_frame, make_room, wrote_frame, padded, consume, consume_loop,
}
use audiox.Capture.Queue
use audiox.Capture.Queue.{Op, pushed, consumed, was_reset}
use audiox.Capture.Refine.{IsValid, contents, as_queue}
use audiox.Capture.Refine.Run.{run, call, run-eq}
use Prim.Native.Nat.{ℕ}
use audiox.Prelude.{leb, ◌-◌, [], ◌∷◌, ◌+◌, some, refl, ◌≡◌, ℕ, arith, List}

-- Fractions in hundredths.
abbrev hundredths : Float
hundredths = record {
  Value = ℕ;
  zero_value = 0;
  add = λ a b. a + b;
  minus_one = λ a. a - 100;
  at_least_one = λ a. leb 100 a;
}

-- Four mono frames, the first of which is dropped, and a step of one frame and a half.
abbrev ops : List (Op ℕ)
ops = pushed (some (7 ∷ 8 ∷ 9 ∷ 10 ∷ [])) 1 4 ∷ consumed 150 ∷ []

new-IsValid : IsValid hundredths 3 2 (new hundredths 3 2)
unfolding new
new-IsValid = record { whole = refl; inside = omega arith; bounded = omega arith; behind = refl }

left_over :
    contents hundredths 3 2 (run hundredths 3 2 ops (new hundredths 3 2))
    ≡ (9 ∷ 0 ∷ []) ∷ (10 ∷ 0 ∷ []) ∷ []
unfolding new run call push push_loop push_frame make_room wrote_frame padded consume consume_loop
left_over = refl

ring_example :
    as_queue hundredths 3 2 (run hundredths 3 2 ops (new hundredths 3 2))
    ≡ Queue.run hundredths 3 2 ops (as_queue hundredths 3 2 (new hundredths 3 2))
ring_example =
    run-eq hundredths 3 2 (omega arith) (omega arith) ops (new hundredths 3 2) new-IsValid
