-- ===== src/Midi/Stream/Messages.antt =====
-- Channel messages come out as they were sent, with or without running status.
use audiox.Prelude.Bytes.{two_byte_mask}
use audiox.Midi.Stream.{
  length, take, feed_data, false, [], ◌∷◌, ℕ, List, MidiStream, feed, feed_all, message_length, put,
  resume,
}
use audiox.Midi.Stream.Buffer.{write_at-set, IsValid}
use audiox.Midi.Stream.Parts.{feed-data, ChannelMessage, Between, Pending, start, more, finish}
use audiox.Prelude.{
  length, inr, ==_iff, refl, inl, ◌+◌, ap₂, Bool-cases, ◌==◌, take-set, append_assoc, ◌++◌, take,
  if◌then◌else◌, ◌∙◌, length-set, ◌≢◌, false, ap, sym, ◌⊎◌, arith, [], ◌≤◌, ◌≡◌, ◌∷◌, ◌<◌, ℕ, List,
}

-- The data bytes of a message, after its status byte.
abbrev pub data_bytes : List ℕ → List ℕ
data_bytes [] = []
data_bytes (status ∷ rest) = rest

abbrev pub status_of : List ℕ → ℕ
status_of [] = 0
status_of (status ∷ rest) = status

message_length_two : (status : ℕ) → 0xc0 ≤ status → status < 0xe0 → message_length status ≡ 2
message_length_two status hi lo = ground (arith, two_byte_mask status)

message_length_three :
    (status : ℕ) → status < 0xf0 → ((status < 0xc0) ⊎ (0xe0 ≤ status)) → message_length status ≡ 3
message_length_three status lo kind = ground (arith, two_byte_mask status)

abbrev Read : List ℕ → List ℕ → MidiStream → Type 0
Read bytes m s = ((feed_all bytes s).1 ≡ m ∷ []) × Between (status_of m) (feed_all bytes s).0

-- From a stored status byte, the data bytes of a message complete it.
complete :
    (m : List ℕ) (s : MidiStream)
    → ChannelMessage m
    → Pending (status_of m) (status_of m ∷ []) s
    → Read (data_bytes m) m s
unfolding feed_all
complete _ s (ChannelMessage.two status a hi lo ha) p =
    let r = finish a status (status ∷ []) s ha p (sym (message_length_two status hi lo)) in
    (rw r.0, r.1)
complete _ s (ChannelMessage.three status a b hi lo kind ha hb) p =
    let n = message_length_three status lo kind in
    let q = more a status (status ∷ []) s ha p (omega (arith, n)) in
    let r = finish b status (status ∷ a ∷ []) (feed a s).0 hb q.1 (sym n) in (rw (q.0, r.0), r.1)

started :
    (status : ℕ) (rest : List ℕ) (s : MidiStream)
    → 128 ≤ status
    → status < 0xf0
    → IsValid s
    → ChannelMessage (status ∷ rest)
    → Read (status ∷ rest) (status ∷ rest) s
unfolding feed_all
started status rest s hi lo v c =
    let b = start status s hi lo v in
    let r = complete (status ∷ rest) (feed status s).0 c b.1 in (rw b.0 r.0, r.1)

feed_all-message : (m : List ℕ) (s : MidiStream) → ChannelMessage m → IsValid s → Read m m s
feed_all-message _ s (ChannelMessage.two status a hi lo ha) v =
    started status (a ∷ []) s (omega arith) (omega arith) v (ChannelMessage.two status a hi lo ha)
feed_all-message _ s (ChannelMessage.three status a b hi lo kind ha hb) v =
    started status (a ∷ b ∷ []) s hi lo v (ChannelMessage.three status a b hi lo kind ha hb)

feed_data-resume : (byte : ℕ) (s : MidiStream) → feed_data byte (resume s) ≡ feed_data byte s
unfolding feed_data
feed_data-resume byte s = ground arith

-- The state that a data byte finds after it took up the running status.
resumed :
    (s : MidiStream)
    → s.count ≡ 0
    → s.running ≢ 0
    → resume s ≡ record (put s.running s) { needed = message_length s.running }
resumed s e r = ground arith

resume-IsValid :
    (s : MidiStream)
    → IsValid s
    → s.sysex ≡ false
    → 128 ≤ s.running
    → s.count ≡ 0
    → IsValid (resume s)
resume-IsValid s v p hi e =
    rw (resumed s e (omega arith))
      (ground (arith, two_byte_mask s.running, length-set s.bytes s.count s.running))

resume-Pending :
    (status : ℕ) (s : MidiStream)
    → 128 ≤ status
    → Between status s
    → Pending status (status ∷ []) (resume s)
resume-Pending status s hi b =
    let r = resumed s b.empty (omega (arith, b.last, hi)) in
    let room : s.count < length s.bytes = omega (arith, b.valid.storage, b.valid.room) in
    record {
      valid = resume-IsValid s b.valid b.plain (omega (arith, b.last, hi)) b.empty;
      plain = ap (λ t. t.sysex) r ∙ b.plain;
      counted = ap (λ t. t.count) r ∙ omega (arith, b.empty);
      some_stored = omega arith;
      stored =
          ap (λ t. take t.count t.bytes) r
          ∙ ap (take (s.count + 1)) (write_at-set s.bytes s.count s.running room)
          ∙ take-set s.count (s.count + 1) s.bytes s.running (omega arith) room
          ∙ ap₂ (λ n k. take n s.bytes ++ k ∷ []) b.empty b.last;
      length_known = ap (λ t. t.needed) r ∙ ap (λ k. message_length k) b.last;
      last = ap (λ t. t.running) r ∙ b.last;
    }

feed_all_resumed :
    (byte status : ℕ) (rest : List ℕ) (s : MidiStream)
    → byte < 128
    → 128 ≤ status
    → Between status s
    → feed_all (byte ∷ rest) s ≡ feed_all (byte ∷ rest) (resume s)
unfolding feed_all
feed_all_resumed byte status rest s lo hi b =
    let p = resume-Pending status s hi b in
    let e : feed byte s ≡ feed byte (resume s) =
      feed-data byte s lo b.plain
      ∙ sym (feed_data-resume byte s)
      ∙ sym (feed-data byte (resume s) lo p.plain) in
    ap (λ r. (((feed_all rest r.0).0, r.1 ++ (feed_all rest r.0).1))) e

-- After a message, the data bytes of another with the same status are a message.
complete_running :
    (m : List ℕ) (s : MidiStream)
    → ChannelMessage m
    → Between (status_of m) s
    → Read (data_bytes m) m s
complete_running _ s (ChannelMessage.two status a hi lo ha) b =
    rw (feed_all_resumed a status [] s ha (omega arith) b) (
      complete (status ∷ a ∷ []) (resume s) (ChannelMessage.two status a hi lo ha)
        (resume-Pending status s (omega arith) b))
complete_running _ s (ChannelMessage.three status a d hi lo kind ha hd) b =
    rw (feed_all_resumed a status (d ∷ []) s ha hi b) (
      complete (status ∷ a ∷ d ∷ []) (resume s) (ChannelMessage.three status a d hi lo kind ha hd)
        (resume-Pending status s hi b))

-- What a sender with running status writes after a message with the status `last`.
unfoldable pub encode : ℕ → List (List ℕ) → List ℕ
encode last [] = []
encode last (m ∷ ms) = (if status_of m == last then data_bytes m else m) ++ encode (status_of m) ms

abbrev pub ChannelMessages : List (List ℕ) → Type 0
ChannelMessages [] = Unit {0}
ChannelMessages (m ∷ ms) = ChannelMessage m × ChannelMessages ms

pub feed_all-append :
    (xs ys : List ℕ) (s : MidiStream)
    → feed_all (xs ++ ys) s
      ≡ ((feed_all ys (feed_all xs s).0).0, (feed_all xs s).1 ++ (feed_all ys (feed_all xs s).0).1)
unfolding feed_all
feed_all-append [] ys s = refl
feed_all-append (x ∷ xs) ys s =
    let ih = feed_all-append xs ys (feed x s).0 in
    rw ih (
      ap (λ out. ((feed_all ys (feed_all xs (feed x s).0).0).0, out))
        (sym (append_assoc (feed x s).1 (feed_all xs (feed x s).0).1 _)))

encoded_message :
    (last : ℕ) (m : List ℕ) (s : MidiStream)
    → ChannelMessage m
    → Between last s
    → Read (if status_of m == last then data_bytes m else m) m s
encoded_message last m s c b = elim (Bool-cases (status_of m == last)) [
  | inl same ↦ rw same (complete_running m s c (rw ((==_iff (status_of m) last).0 same) b))
  | inr other ↦ rw other (feed_all-message m s c b.valid)
]

-- A parser between two messages with status `last` (0: none) reads a sequence of channel messages,
-- sent with running status, back one by one.
pub feed_all-encode :
    (ms : List (List ℕ)) (last : ℕ) (s : MidiStream)
    → ChannelMessages ms
    → Between last s
    → (feed_all (encode last ms) s).1 ≡ ms
unfolding encode
feed_all-encode [] last s c b = unfold feed_all in refl
feed_all-encode (m ∷ ms) last s c b =
    let r = encoded_message last m s c.0 b in
    let bytes = if status_of m == last then data_bytes m else m in
    ap (λ x. x.1) (feed_all-append bytes (encode (status_of m) ms) s)
    ∙ ap₂ (λ x y. x ++ y) r.0 (feed_all-encode ms (status_of m) _ c.1 r.1)
