-- ===== src/Midi/Stream/Tests.antt =====
-- The stream on a few bytes.
use audiox.Midi.Stream.{ℕ, List, new, feed, feed_all}
use audiox.Midi.Stream.Buffer.{IsValid, Bounded, feed-IsValid}
use audiox.Midi.Stream.Parts.{ChannelMessage, Between}
use audiox.Midi.Stream.Messages.{ChannelMessages, encode, feed_all-encode}
use audiox.Midi.Stream.Sysex.{joined, feed_all_sysex}
use audiox.Prelude.{ℕ, inl, [], ◌≡◌, ◌∷◌, refl, arith, List}

new-IsValid : IsValid new
unfolding new
new-IsValid = record {
  storage = refl;
  room = omega arith;
  waiting = λ e. refl;
  partial = λ e. inl (refl, refl);
  status = inl refl;
}

new-Between : Between 0 new
unfolding new
new-Between = record { valid = new-IsValid; plain = refl; empty = refl; last = refl }

abbrev two_notes : List (List ℕ)
two_notes = (0x90 ∷ 60 ∷ 100 ∷ []) ∷ (0x90 ∷ 60 ∷ 0 ∷ []) ∷ (0xc1 ∷ 5 ∷ []) ∷ []

two_notes-ChannelMessages : ChannelMessages two_notes
two_notes-ChannelMessages = (
  ChannelMessage.three 0x90 60 100 (omega arith) (omega arith) (inl (omega arith)) (omega arith)
      (omega arith),
  (
    ChannelMessage.three 0x90 60 0 (omega arith) (omega arith) (inl (omega arith)) (omega arith)
        (omega arith),
    (ChannelMessage.two 0xc1 5 (omega arith) (omega arith) (omega arith), tt),
  ),
)

feed_example : IsValid (feed 0x90 new).0 × Bounded (feed 0x90 new).1
feed_example = feed-IsValid 0x90 new (omega arith) new-IsValid

encode_example : (feed_all (encode 0 two_notes) new).1 ≡ two_notes
encode_example = feed_all-encode two_notes 0 new two_notes-ChannelMessages new-Between

sysex_example :
    joined (feed_all (0xf0 ∷ 1 ∷ 2 ∷ 3 ∷ 0xf7 ∷ []) new).1 ≡ 0xf0 ∷ 1 ∷ 2 ∷ 3 ∷ 0xf7 ∷ []
sysex_example =
    feed_all_sysex (1 ∷ 2 ∷ 3 ∷ []) new (omega arith, (omega arith, (omega arith, tt))) new-IsValid
