-- ===== src/Midi/Stream/Parts.antt =====
-- One byte of a channel message: its status byte, a data byte inside it, its last data byte.
use audiox.Prelude.Bytes.{top_bit}
use audiox.Midi.Stream.{
  feed_plain, feed_sysex, Bool, set, take, [], false, ℕ, List, MidiStream, feed_status, feed_data,
  feed, message_length,
}
use audiox.Midi.Stream.Buffer.{
  IsValid, feed-IsValid, feed-plain, feed-sysex, feed_plain_status, feed_plain_data,
}
use audiox.Prelude.{
  length-append, refl, ◌∙◌, ◌++◌, take-set, sym, ap, Bool, arith, ◌+◌, set, length, ◌⊎◌, ◌∷◌, take,
  [], true, ◌<◌, false, ◌≤◌, ◌≡◌, ℕ, List,
}

-- A channel message: a status byte with its one or two data bytes.
pub data ChannelMessage : List ℕ → Type 0 where
  two : (status a : ℕ) → 0xc0 ≤ status → status < 0xe0 → a < 128 → ChannelMessage (status ∷ a ∷ [])
  three :
      (status a b : ℕ)
      → 128 ≤ status
      → status < 0xf0
      → ((status < 0xc0) ⊎ (0xe0 ≤ status))
      → a < 128
      → b < 128
      → ChannelMessage (status ∷ a ∷ b ∷ [])

-- Where a stream stands after a whole message with this status.
pub record Between (status : ℕ) (s : MidiStream) : Type 0 where
  pub valid : IsValid s
  pub plain : s.sysex ≡ false
  pub empty : s.count ≡ 0
  pub last : s.running ≡ status

-- Part of a message with this status is stored.
pub record Pending (status : ℕ) (part : List ℕ) (s : MidiStream) : Type 0 where
  pub valid : IsValid s
  pub plain : s.sysex ≡ false
  pub counted : s.count ≡ length part
  pub some_stored : 0 < length part
  pub stored : take s.count s.bytes ≡ part
  pub length_known : s.needed ≡ message_length status
  pub last : s.running ≡ status

abbrev pub Started : (status : ℕ) → MidiStream → Type 0
Started status s = Pending status (status ∷ []) s

feed_status_kept :
    (status : ℕ) (s : MidiStream)
    → 128 ≤ status
    → status < 0xf0
    → IsValid s
    → let r = feed_status status (record s { sysex = false }) in
      (r.1 ≡ [])
      × (r.0.sysex ≡ false)
      × (r.0.count ≡ 1)
      × (r.0.bytes ≡ set s.bytes 0 status)
      × (r.0.needed ≡ message_length status)
      × (r.0.running ≡ status)
unfolding feed_status
feed_status_kept status s hi lo v = ground (arith, v.storage)

-- The part that a data byte leaves stored, or the message that it completes.
feed_data_more :
    (byte : ℕ) (s : MidiStream)
    → s.count < length s.bytes
    → 0 < s.count
    → s.count + 1 < s.needed
    → feed_data byte s ≡ (record s { bytes = set s.bytes s.count byte; count = s.count + 1 }, [])
unfolding feed_data
feed_data_more byte s r h n = ground arith

feed_data_last :
    (byte : ℕ) (s : MidiStream)
    → s.count < length s.bytes
    → 0 < s.count
    → s.count + 1 ≡ s.needed
    → feed_data byte s ≡ (
      record s { bytes = set s.bytes s.count byte; count = 0; needed = 0 },
      take (s.count + 1) (set s.bytes s.count byte) ∷ [],
    )
unfolding feed_data
feed_data_last byte s r h n = ground arith

plain_again : (s : MidiStream) → s.sysex ≡ false → record s { sysex = false } ≡ s
plain_again s e = λ i. record s { sysex = sym e i }

feed_sysex_status :
    (status : ℕ) (s : MidiStream)
    → 128 ≤ status
    → status < 0xf7
    → feed_sysex status s ≡ feed_plain status (record s { sysex = false })
unfolding feed_sysex
feed_sysex_status status s hi lo = ground (arith, top_bit status)

pub feed-channel :
    (status : ℕ) (s : MidiStream)
    → 128 ≤ status
    → status < 0xf7
    → feed status s ≡ feed_status status (record s { sysex = false })
feed-channel status s hi lo = go s.sysex refl
  where
    go : (b : Bool) → s.sysex ≡ b → feed status s ≡ feed_status status (record s { sysex = false })
    go true e =
        feed-sysex status s (omega arith) e
        ∙ feed_sysex_status status s hi lo
        ∙ feed_plain_status status (record s { sysex = false }) (omega arith) hi
    go false e =
        feed-plain status s (omega arith) e
        ∙ feed_plain_status status s (omega arith) hi
        ∙ ap (feed_status status) (sym (plain_again s e))

pub take-one : (n : ℕ) (xs : List ℕ) (v : ℕ) → n ≡ 1 → 0 < length xs → take n (set xs 0 v) ≡ v ∷ []
take-one n xs v e h = take-set 0 n xs v e h

pub start :
    (status : ℕ) (s : MidiStream)
    → 128 ≤ status
    → status < 0xf0
    → IsValid s
    → ((feed status s).1 ≡ []) × Started status (feed status s).0
start status s hi lo v =
    let t = record s { sysex = false } in
    let e = feed-channel status s hi (omega arith) in
    let kept = feed_status_kept status s hi lo v in
    let after : IsValid (feed status s).0 = (feed-IsValid status s (omega arith) v).0 in
    (
      ap (λ r. r.1) e ∙ kept.0,
      record {
        valid = after;
        plain = ap (λ r. r.0.sysex) e ∙ kept.1;
        counted = ap (λ r. r.0.count) e ∙ kept.2;
        some_stored = omega arith;
        stored =
            rw e (rw (kept.2, kept.3) (take-one 1 s.bytes status refl (omega (arith, v.storage))));
        length_known = ap (λ r. r.0.needed) e ∙ kept.4;
        last = ap (λ r. r.0.running) e ∙ kept.5;
      },
    )

pub feed-data :
    (byte : ℕ) (s : MidiStream) → byte < 128 → s.sysex ≡ false → feed byte s ≡ feed_data byte s
feed-data byte s lo e = feed-plain byte s (omega arith) e ∙ feed_plain_data byte s lo

extended :
    (byte : ℕ) (part : List ℕ) (s : MidiStream)
    → IsValid s
    → take s.count s.bytes ≡ part
    → take (s.count + 1) (set s.bytes s.count byte) ≡ part ++ byte ∷ []
extended byte part s v e =
    take-set s.count (s.count + 1) s.bytes byte (omega arith) (omega (arith, v.storage, v.room))
    ∙ ap (λ xs. xs ++ byte ∷ []) e

-- A data byte inside a message.
pub more :
    (byte status : ℕ) (part : List ℕ) (s : MidiStream)
    → byte < 128
    → Pending status part s
    → length part + 1 < message_length status
    → ((feed byte s).1 ≡ []) × Pending status (part ++ byte ∷ []) (feed byte s).0
more byte status part s lo p short =
    let room : s.count < length s.bytes = omega (arith, p.valid.storage, p.valid.room) in
    let e =
      feed-data byte s lo p.plain
      ∙ feed_data_more byte s room (rw p.counted p.some_stored)
          (rw (p.counted, p.length_known) short) in
    (
      ap (λ r. r.1) e,
      record {
        valid = (feed-IsValid byte s (omega arith) p.valid).0;
        plain = ap (λ r. r.0.sysex) e ∙ p.plain;
        counted = ap (λ r. r.0.count) e ∙ omega (arith, p.counted, length-append part (byte ∷ []));
        some_stored = omega (arith, length-append part (byte ∷ []));
        stored = rw e (extended byte part s p.valid p.stored);
        length_known = ap (λ r. r.0.needed) e ∙ p.length_known;
        last = ap (λ r. r.0.running) e ∙ p.last;
      },
    )

-- The last data byte of a message.
pub finish :
    (byte status : ℕ) (part : List ℕ) (s : MidiStream)
    → byte < 128
    → Pending status part s
    → length part + 1 ≡ message_length status
    → ((feed byte s).1 ≡ (part ++ byte ∷ []) ∷ []) × Between status (feed byte s).0
finish byte status part s lo p full =
    let room : s.count < length s.bytes = omega (arith, p.valid.storage, p.valid.room) in
    let e =
      feed-data byte s lo p.plain
      ∙ feed_data_last byte s room (rw p.counted p.some_stored)
          (rw (p.counted, p.length_known) full) in
    (
      ap (λ r. r.1) e ∙ ap (λ xs. xs ∷ []) (extended byte part s p.valid p.stored),
      record {
        valid = (feed-IsValid byte s (omega arith) p.valid).0;
        plain = ap (λ r. r.0.sysex) e ∙ p.plain;
        empty = ap (λ r. r.0.count) e;
        last = ap (λ r. r.0.running) e ∙ p.last;
      },
    )
