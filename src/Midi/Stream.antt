-- ===== src/Midi/Stream.antt =====
-- `MidiStream` of include/midi/usb.hpp: bytes in, whole messages out.
pub mod Buffer
pub mod Parts
pub mod Messages
pub mod Sysex
mod Tests
use audiox.Prelude.{
  length, ℕ, ◌+◌, Bool, true, false, not, ◌&&◌, ◌||◌, List, [], ◌∷◌, ◌++◌, ltb, leb, ◌==◌,
  if◌then◌else◌, set, take, replicate, bit_and,
}

abbrev pub capacity : ℕ
capacity = 1024

pub record MidiStream : Type 0 where
  pub bytes : List ℕ
  pub count : ℕ
  pub needed : ℕ
  pub running : ℕ
  pub sysex : Bool

unfoldable pub new : MidiStream
new = record { bytes = replicate capacity 0; count = 0; needed = 0; running = 0; sysex = false }

-- What a call hands to `emit`, in order.
abbrev pub Emitted : Type 0
Emitted = List (List ℕ)

-- `bytes[at] = byte`. A write past the array leaves more bytes than the array has, so that it is seen.
abbrev pub write_at : List ℕ → ℕ → ℕ → List ℕ
write_at bytes at byte = if ltb at (length bytes) then set bytes at byte else bytes ++ byte ∷ []

-- `bytes[count++] = byte`.
abbrev pub put : ℕ → MidiStream → MidiStream
put byte s = record s { bytes = write_at s.bytes s.count byte; count = s.count + 1 }

-- `emit(bytes, count)`.
abbrev pub emit : MidiStream → Emitted
emit s = take s.count s.bytes ∷ []

abbrev pub has_top_bit : ℕ → Bool
has_top_bit byte = not (bit_and byte 0x80 == 0)

abbrev pub message_length : ℕ → ℕ
message_length status = if bit_and status 0xe0 == 0xc0 then 2 else 3

unfoldable pub feed_status : ℕ → MidiStream → MidiStream × Emitted
feed_status byte s =
    let t = record s { count = 0; needed = 0; running = if leb 0xf0 byte then 0 else s.running } in
    if byte == 0xf0
    then (put byte (record t { sysex = true }), [])
    else if ltb byte 0xf0
    then (put byte (record t { running = byte; needed = message_length byte }), [])
    else if byte == 0xf1 || byte == 0xf3
    then (put byte (record t { needed = 2 }), [])
    else if byte == 0xf2
    then (put byte (record t { needed = 3 }), [])
    else (t, if byte == 0xf6 || byte == 0xf7 then (byte ∷ []) ∷ [] else [])

-- A data byte after a whole message takes up the running status.
abbrev pub resume : MidiStream → MidiStream
resume s =
    if s.count == 0 && not (s.running == 0)
    then record (put s.running s) { needed = message_length s.running }
    else s

unfoldable pub feed_data : ℕ → MidiStream → MidiStream × Emitted
feed_data byte s =
    let t = resume s in
    if t.needed == 0
    then (t, [])
    else let u = put byte t in
      if u.count == u.needed then (record u { count = 0; needed = 0 }, emit u) else (u, [])

unfoldable pub feed_plain : ℕ → MidiStream → MidiStream × Emitted
feed_plain byte s = if has_top_bit byte then feed_status byte s else feed_data byte s

unfoldable pub feed_sysex : ℕ → MidiStream → MidiStream × Emitted
feed_sysex byte s =
    let u = put byte s in
    if byte == 0xf7
    then (record u { sysex = false; count = 0 }, emit u)
    else if has_top_bit byte
    then feed_plain byte (record s { sysex = false })
    else if u.count == capacity
    then (record u { count = 0 }, emit u)
    else (u, [])

unfoldable pub feed : ℕ → MidiStream → MidiStream × Emitted
feed byte s =
    if leb 0xf8 byte
    then (s, (byte ∷ []) ∷ [])
    else if s.sysex
    then feed_sysex byte s
    else feed_plain byte s

-- A read of several bytes.
unfoldable pub feed_all : List ℕ → MidiStream → MidiStream × Emitted
feed_all [] s = (s, [])
feed_all (b ∷ bs) s = let (t, out) = feed b s in let (u, more) = feed_all bs t in (u, out ++ more)
