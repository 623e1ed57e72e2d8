-- ===== src/Midi/Stream/Buffer.antt =====
-- The stream never writes outside its array, and what it emits is never empty.
use audiox.Prelude.Bytes.{IsByte, top_bit, two_byte_mask}
use audiox.Midi.Stream.{
  Bool, take, set, List, true, false, ◌∷◌, ℕ, MidiStream, Emitted, feed_status, feed_data,
  feed_plain, feed_sysex, feed, capacity, write_at,
}
use audiox.Prelude.{
  refl, inr, inl, ◌==◌, Bool-cases, lt→ltb, le→ltb, dec_lt, Bool, ap, ◌∙◌, length-take, min, ◌+◌,
  take, set, List, length-set, arith, [], ◌⊎◌, true, false, ◌≤◌, ◌≡◌, ◌<◌, ℕ, length,
}

pub record IsValid (s : MidiStream) : Type 0 where
  pub storage : length s.bytes ≡ capacity
  pub room : s.count < capacity
  pub waiting : s.sysex ≡ true → s.needed ≡ 0
  pub partial :
      s.sysex ≡ false
      → ((s.count ≡ 0) × (s.needed ≡ 0)) ⊎ ((0 < s.count) × (s.count < s.needed) × (s.needed ≤ 3))
  pub status : (s.running ≡ 0) ⊎ ((128 ≤ s.running) × (s.running < 0xf0))

-- Each chunk is a range of the array with at least one byte.
abbrev pub Bounded : Emitted → Type 0
Bounded [] = Unit {0}
Bounded (chunk ∷ chunks) = (0 < length chunk) × (length chunk ≤ capacity) × Bounded chunks

feed_status-IsValid :
    (byte : ℕ) (s : MidiStream)
    → IsByte byte
    → 128 ≤ byte
    → length s.bytes ≡ capacity
    → s.sysex ≡ false
    → ((s.running ≡ 0) ⊎ ((128 ≤ s.running) × (s.running < 0xf0)))
    → IsValid (feed_status byte s).0 × Bounded (feed_status byte s).1
unfolding feed_status
feed_status-IsValid byte s hb hi l e r =
    ground (arith, length-set s.bytes 0 byte, two_byte_mask byte hb)

-- A write inside the array.
pub write_at-set :
    (bytes : List ℕ) (at byte : ℕ) → at < length bytes → write_at bytes at byte ≡ set bytes at byte
write_at-set bytes at byte h = ground arith

length-take-set : (n i : ℕ) (xs : List ℕ) (v : ℕ) → length (take n (set xs i v)) ≡ min n (length xs)
length-take-set n i xs v = length-take n (set xs i v) ∙ ap (min n) (length-set xs i v)

-- With a message begun, or with no running status, the byte is stored or dropped.
feed_data-IsValid :
    (byte : ℕ) (s : MidiStream)
    → IsByte byte
    → byte < 128
    → IsValid s
    → s.sysex ≡ false
    → IsValid (feed_data byte s).0 × Bounded (feed_data byte s).1
unfolding feed_data
feed_data-IsValid byte s hb lo v e = ground (
  arith,
  v.partial e,
  length-set s.bytes s.count byte,
  length-set s.bytes s.count s.running,
  length-set (set s.bytes s.count s.running) (s.count + 1) byte,
  length-take-set (s.count + 1) s.count s.bytes byte,
  length-take-set (s.count + 1 + 1) (s.count + 1) (set s.bytes s.count s.running) byte,
)

feed_plain-IsValid :
    (byte : ℕ) (s : MidiStream)
    → IsByte byte
    → IsValid s
    → s.sysex ≡ false
    → IsValid (feed_plain byte s).0 × Bounded (feed_plain byte s).1
unfolding feed_plain
feed_plain-IsValid byte s hb v e = elim (dec_lt byte 128) [
  | yes lo ↦ rw (top_bit byte hb, lt→ltb byte 128 lo) (feed_data-IsValid byte s hb lo v e)
  | no hi ↦
      rw (top_bit byte hb, le→ltb byte 128 (omega arith))
        (feed_status-IsValid byte s hb (omega arith) v.storage e v.status)
]

pub feed_plain_status :
    (byte : ℕ) (s : MidiStream) → IsByte byte → 128 ≤ byte → feed_plain byte s ≡ feed_status byte s
unfolding feed_plain
feed_plain_status byte s hb hi = rw (top_bit byte hb, le→ltb byte 128 hi)

pub feed_plain_data :
    (byte : ℕ) (s : MidiStream) → byte < 128 → feed_plain byte s ≡ feed_data byte s
unfolding feed_plain
feed_plain_data byte s lo = rw (top_bit byte (omega arith), lt→ltb byte 128 lo)

feed_sysex-IsValid :
    (byte : ℕ) (s : MidiStream)
    → IsByte byte
    → IsValid s
    → s.sysex ≡ true
    → IsValid (feed_sysex byte s).0 × Bounded (feed_sysex byte s).1
unfolding feed_sysex
feed_sysex-IsValid byte s hb v e = elim (dec_lt byte 128) [
  | yes lo ↦ ground (
    arith,
    top_bit byte hb,
    length-set s.bytes s.count byte,
    length-take-set (s.count + 1) s.count s.bytes byte,
  )
  | no hi ↦ elim (Bool-cases (byte == 0xf7)) [
    | inl last ↦
        ground (
          arith,
          length-set s.bytes s.count byte,
          length-take-set (s.count + 1) s.count s.bytes byte,
        )
    | inr other ↦
        rw (other, top_bit byte hb, le→ltb byte 128 (omega arith))
          (rw (feed_plain_status byte (record s { sysex = false }) hb (omega arith)) (
            feed_status-IsValid byte (record s { sysex = false }) hb (omega arith) v.storage refl
              v.status))
  ]
]

pub feed-sysex :
    (byte : ℕ) (s : MidiStream) → byte < 0xf8 → s.sysex ≡ true → feed byte s ≡ feed_sysex byte s
unfolding feed
feed-sysex byte s lo e = ground arith

pub feed-plain :
    (byte : ℕ) (s : MidiStream) → byte < 0xf8 → s.sysex ≡ false → feed byte s ≡ feed_plain byte s
unfolding feed
feed-plain byte s lo e = ground arith

pub feed_real_time : (byte : ℕ) (s : MidiStream) → 0xf8 ≤ byte → feed byte s ≡ (s, (byte ∷ []) ∷ [])
unfolding feed
feed_real_time byte s hi = ground arith

-- Every byte keeps the parser valid, its writes inside the array, and its chunks within 1 to 1024
-- bytes.
pub feed-IsValid :
    (byte : ℕ) (s : MidiStream)
    → IsByte byte
    → IsValid s
    → IsValid (feed byte s).0 × Bounded (feed byte s).1
feed-IsValid byte s hb v = elim (dec_lt byte 0xf8) [
  | no real_time ↦ rw (feed_real_time byte s (omega arith)) (v, omega arith)
  | yes lo ↦ mode s.sysex lo refl
]
  where
    mode :
        (b : Bool) → byte < 0xf8 → s.sysex ≡ b → IsValid (feed byte s).0 × Bounded (feed byte s).1
    mode true lo e = rw (feed-sysex byte s lo e) (feed_sysex-IsValid byte s hb v e)
    mode false lo e = rw (feed-plain byte s lo e) (feed_plain-IsValid byte s hb v e)
