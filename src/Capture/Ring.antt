-- ===== src/Capture/Ring.antt =====
-- `PcmCaptureRing`. The array of samples is the list of its frames, each of `max_channels` samples:
-- the source's index is `frame * MaxChannels + channel` everywhere. Samples are 16-bit patterns.
-- Floating-point numbers are a parameter.
use audiox.Prelude.Words.{add32}
use Prim.Native.Nat.{suc, ℕ}
use audiox.Prelude.{
  none, ltb, ◌||◌, ◌&&◌, ◌==◌, ◌-◌, ◌++◌, zero, some, leb, drop, [], ◌%◌, take, set, replicate,
  if◌then◌else◌, get_or, Option, ℕ, List, Bool,
}

pub record Float : Type 1 where
  pub Value : Type 0
  pub zero_value : Value
  pub add : Value → Value → Value
  pub minus_one : Value → Value
  pub at_least_one : Value → Bool

abbrev pub Frame : Type 0
Frame = List ℕ

pub record Ring (X : Type 0) : Type 0 where
  pub head : ℕ
  pub tail : ℕ
  pub count : ℕ
  pub read_fraction : X
  pub last_samples : List X
  pub frames : List Frame

-- The frame of a block of interleaved samples, with silence on the channels that it lacks.
unfoldable pub padded : ℕ → ℕ → List ℕ → Frame
padded max_channels channels input = take channels input ++ replicate (max_channels - channels) 0

module _ (fl : Float) (capacity max_channels : ℕ) where
  unfoldable pub new : Ring fl.Value
  new = record {
    head = 0;
    tail = 0;
    count = 0;
    read_fraction = fl.zero_value;
    last_samples = replicate max_channels fl.zero_value;
    frames = replicate capacity (replicate max_channels 0);
  }

  unfoldable pub reset : Ring fl.Value → Ring fl.Value
  reset r = record r {
    head = 0;
    tail = 0;
    count = 0;
    read_fraction = fl.zero_value;
    last_samples = replicate max_channels fl.zero_value;
  }

  unfoldable pub set_read_fraction : fl.Value → Ring fl.Value → Ring fl.Value
  set_read_fraction value r = record r { read_fraction = value }

  unfoldable pub frame_index : ℕ → Ring fl.Value → ℕ
  frame_index offset r = add32 r.head offset % capacity

  unfoldable pub read_frame_index : ℕ → Ring fl.Value → ℕ
  read_frame_index offset r = add32 r.tail offset % capacity

  unfoldable pub sample : ℕ → ℕ → Ring fl.Value → ℕ
  sample frame channel r = get_or (get_or r.frames frame []) channel 0

  unfoldable pub set_last_sample : ℕ → fl.Value → Ring fl.Value → Ring fl.Value
  set_last_sample channel value r = record r { last_samples = set r.last_samples channel value }

  -- The oldest frame makes room.
  unfoldable pub make_room : Ring fl.Value → Ring fl.Value
  make_room r =
      if leb capacity r.count
      then record r { tail = add32 r.tail 1 % capacity; count = capacity - 1 }
      else r

  unfoldable pub wrote_frame : Ring fl.Value → Ring fl.Value
  wrote_frame r = record r { head = add32 r.head 1 % capacity; count = add32 r.count 1 }

  -- Frames that were written in place, from `writableFrame` on.
  unfoldable pub advance_written : ℕ → Ring fl.Value → Ring fl.Value
  advance_written zero r = r
  advance_written (suc n) r = advance_written n (wrote_frame (make_room r))

  unfoldable pub push_frame : Frame → Ring fl.Value → Ring fl.Value
  push_frame f r =
      let room = make_room r in wrote_frame (record room { frames = set room.frames room.head f })

  unfoldable pub push_loop : ℕ → ℕ → List ℕ → Ring fl.Value → Ring fl.Value
  push_loop channels zero input r = r
  push_loop channels (suc n) input r =
      push_loop channels n (drop channels input) (push_frame (padded max_channels channels input) r)

  -- `none` is the null pointer.
  unfoldable pub push : Option (List ℕ) → ℕ → ℕ → Ring fl.Value → Ring fl.Value
  push none channels n r = r
  push (some input) channels n r =
      if (channels == 0) || ltb max_channels channels then r else push_loop channels n input r

  -- With a round for each frame: no more frames can leave.
  unfoldable pub consume_loop : ℕ → Ring fl.Value → Ring fl.Value
  consume_loop zero r = r
  consume_loop (suc n) r =
      let more = consume_loop n (record r {
        tail = add32 r.tail 1 % capacity;
        count = r.count - 1;
        read_fraction = fl.minus_one r.read_fraction;
      }) in
      if fl.at_least_one r.read_fraction && ltb 0 r.count then more else r

  unfoldable pub consume : fl.Value → Ring fl.Value → Ring fl.Value
  consume step r =
      let stepped =
        consume_loop r.count (record r { read_fraction = fl.add r.read_fraction step }) in
      if stepped.count == 0 then record stepped { read_fraction = fl.zero_value } else stepped
