-- ===== src/Capture/Queue.antt =====
-- What a capture ring promises: a queue of frames that drops the oldest ones when it is full.
use audiox.Prelude.Rounds.{newest}
use audiox.Capture.Ring.{Float, Frame, padded}
use Prim.Native.Nat.{suc, ℕ}
use audiox.Prelude.{
  none, ◌++◌, ltb, ◌||◌, ◌==◌, some, Option, zero, if◌then◌else◌, ◌∷◌, drop, [], ℕ, List,
}

pub record Queue (X : Type 0) : Type 0 where
  pub frames : List Frame
  pub fraction : X

-- The frames of a block.
unfoldable pub frames_of : ℕ → ℕ → ℕ → List ℕ → List Frame
frames_of max_channels channels zero input = []
frames_of max_channels channels (suc n) input =
    padded max_channels channels input ∷ frames_of max_channels channels n (drop channels input)

module _ (fl : Float) where
  -- The oldest frames leave, one for each whole step; an empty queue forgets the fraction.
  unfoldable pub leave : List Frame → fl.Value → Queue fl.Value
  leave [] x = record { frames = []; fraction = fl.zero_value }
  leave (f ∷ fs) x =
      let rest = leave fs (fl.minus_one x) in
      if fl.at_least_one x then rest else record { frames = f ∷ fs; fraction = x }

-- The calls that move frames.
pub data Op (X : Type 0) : Type 0 where
  pushed : Option (List ℕ) → ℕ → ℕ → Op X
  consumed : X → Op X
  was_reset : Op X

module _ (fl : Float) (capacity max_channels : ℕ) where
  unfoldable pub push : Option (List ℕ) → ℕ → ℕ → Queue fl.Value → Queue fl.Value
  push none channels n q = q
  push (some input) channels n q =
      if (channels == 0) || ltb max_channels channels then q else record q {
        frames = newest capacity (q.frames ++ frames_of max_channels channels n input);
      }

  unfoldable pub step : Op fl.Value → Queue fl.Value → Queue fl.Value
  step (pushed input channels n) q = push input channels n q
  step (consumed s) q = leave fl q.frames (fl.add q.fraction s)
  step was_reset q = record { frames = []; fraction = fl.zero_value }

  unfoldable pub run : List (Op fl.Value) → Queue fl.Value → Queue fl.Value
  run [] q = q
  run (op ∷ ops) q = run ops (step op q)
