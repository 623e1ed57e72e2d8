-- ===== src/Midi/Stream/Sysex.antt =====
-- System-exclusive data comes out in chunks that make up the whole message, and a real-time byte
-- may stand anywhere.
use audiox.Prelude.Bytes.{top_bit}
use audiox.Midi.Stream.{
  length, write_at, false, set, true, [], ◌∷◌, take, ◌++◌, ℕ, List, MidiStream, Emitted, put, emit,
  feed, feed_all, feed_status, feed_sysex, capacity,
}
use audiox.Midi.Stream.Buffer.{write_at-set, IsValid, feed-IsValid, feed-sysex, feed_real_time}
use audiox.Midi.Stream.Parts.{take-one, feed-channel}
use audiox.Midi.Stream.Messages.{feed_all-append}
use audiox.Prelude.{
  length, append-nil, Bool-cases, inr, refl, inl, false, arith, append_assoc, ◌==◌, take-set, sym,
  ◌⊎◌, ◌∙◌, set, ◌+◌, true, ap, [], ◌≤◌, ◌≡◌, ◌<◌, take, ◌++◌, ℕ, List,
}

-- A real-time byte (0xf8 to 0xff) is handed on at once, wherever it stands, and changes nothing
-- for the bytes around it.
pub feed_all_real_time :
    (xs ys : List ℕ) (byte : ℕ) (s : MidiStream)
    → 0xf8 ≤ byte
    → feed_all (xs ++ byte ∷ ys) s ≡ (
      (feed_all (xs ++ ys) s).0,
      (feed_all xs s).1 ++ (byte ∷ []) ∷ (feed_all ys (feed_all xs s).0).1,
    )
unfolding feed_all
feed_all_real_time xs ys byte s hi =
    rw
      (
        feed_all-append xs (byte ∷ ys) s,
        feed_all-append xs ys s,
        feed_real_time byte (feed_all xs s).0 hi,
      )
      refl

abbrev pub AllData : List ℕ → Type 0
AllData [] = Unit {0}
AllData (b ∷ bs) = (b < 128) × AllData bs

-- The bytes of the chunks, one after the other.
abbrev pub joined : Emitted → List ℕ
joined [] = []
joined (chunk ∷ chunks) = chunk ++ joined chunks

pub joined-append : (xs ys : Emitted) → joined (xs ++ ys) ≡ joined xs ++ joined ys
joined-append [] ys = refl
joined-append (x ∷ xs) ys =
    ap (λ r. x ++ r) (joined-append xs ys) ∙ sym (append_assoc x (joined xs) (joined ys))

record Inside (held : List ℕ) (s : MidiStream) : Type 0 where
  valid : IsValid s
  mode : s.sysex ≡ true
  stored : take s.count s.bytes ≡ held

stored_next :
    (byte : ℕ) (s : MidiStream)
    → IsValid s
    → take (s.count + 1) (write_at s.bytes s.count byte) ≡ take s.count s.bytes ++ byte ∷ []
stored_next byte s v =
    let room : s.count < length s.bytes = omega (arith, v.storage, v.room) in
    ap (take (s.count + 1)) (write_at-set s.bytes s.count byte room)
    ∙ take-set s.count (s.count + 1) s.bytes byte (omega arith) room

feed_sysex_data :
    (byte : ℕ) (s : MidiStream)
    → byte < 128
    → s.sysex ≡ true
    → (feed byte s ≡ (put byte s, []))
      ⊎ (feed byte s ≡ (record (put byte s) { count = 0 }, emit (put byte s)))
feed_sysex_data byte s lo e =
    rw (feed-sysex byte s (omega arith) e) (stored_or_sent (Bool-cases (s.count + 1 == capacity)))
  where
    stored_or_sent :
        ((s.count + 1 == capacity) ≡ true) ⊎ ((s.count + 1 == capacity) ≡ false)
        → (feed_sysex byte s ≡ (put byte s, []))
          ⊎ (feed_sysex byte s ≡ (record (put byte s) { count = 0 }, emit (put byte s)))
    stored_or_sent (inl full) = inr (unfold feed_sysex in ground (arith, top_bit byte))
    stored_or_sent (inr space) = inl (unfold feed_sysex in ground (arith, top_bit byte))

-- What the parser holds after a data byte, with what it handed on before.
data_step :
    (byte : ℕ) (held : List ℕ) (s : MidiStream)
    → byte < 128
    → Inside held s
    → (held' : List ℕ) × Inside held' (feed byte s).0
      × (joined (feed byte s).1 ++ held' ≡ held ++ byte ∷ [])
data_step byte held s lo i = elim (feed_sysex_data byte s lo i.mode) [
  | inl e ↦ (
    held ++ byte ∷ [],
    record { valid = after; mode = ap (λ r. r.0.sysex) e ∙ i.mode; stored = rw e whole },
    rw e,
  )
  | inr e ↦ (
    [],
    record { valid = after; mode = ap (λ r. r.0.sysex) e ∙ i.mode; stored = rw e },
    rw e (append-nil _ ∙ append-nil _ ∙ whole),
  )
]
  where
    after : IsValid (feed byte s).0
    after = (feed-IsValid byte s (omega arith) i.valid).0

    whole : take (s.count + 1) (write_at s.bytes s.count byte) ≡ held ++ byte ∷ []
    whole = stored_next byte s i.valid ∙ ap (λ r. r ++ byte ∷ []) i.stored

data_steps :
    (bytes held : List ℕ) (s : MidiStream)
    → AllData bytes
    → Inside held s
    → (held' : List ℕ) × Inside held' (feed_all bytes s).0
      × (joined (feed_all bytes s).1 ++ held' ≡ held ++ bytes)
unfolding feed_all
data_steps [] held s h i = (held, i, sym (append-nil held))
data_steps (b ∷ bs) held s h i =
    let (held₁, i₁, e₁) = data_step b held s h.0 i in
    let (held₂, i₂, e₂) = data_steps bs held₁ (feed b s).0 h.1 i₁ in
    (held₂, i₂, chained _ _ _ _ _ (joined-append (feed b s).1 (feed_all bs (feed b s).0).1) e₁ e₂)
  where
    chained :
        (out first rest held₁ held₂ : List ℕ)
        → out ≡ first ++ rest
        → first ++ held₁ ≡ held ++ b ∷ []
        → rest ++ held₂ ≡ held₁ ++ bs
        → out ++ held₂ ≡ held ++ b ∷ bs
    chained out first rest held₁ held₂ e₀ e₁ e₂ =
        ap (λ r. r ++ held₂) e₀
        ∙ append_assoc first rest held₂
        ∙ ap (λ r. first ++ r) e₂
        ∙ sym (append_assoc first held₁ bs)
        ∙ ap (λ r. r ++ bs) e₁
        ∙ append_assoc held (b ∷ []) bs

feed_status_sysex :
    (s : MidiStream)
    → 0 < length s.bytes
    → feed_status 0xf0 (record s { sysex = false }) ≡ (
      record s { bytes = set s.bytes 0 0xf0; count = 1; needed = 0; running = 0; sysex = true },
      [],
    )
unfolding feed_status
feed_status_sysex s h = ground (arith, h)

opened : (s : MidiStream) → IsValid s → ((feed 0xf0 s).1 ≡ []) × Inside (0xf0 ∷ []) (feed 0xf0 s).0
opened s v =
    let e =
      feed-channel 0xf0 s (omega arith) (omega arith)
      ∙ feed_status_sysex s (omega (arith, v.storage)) in
    (
      ap (λ r. r.1) e,
      record {
        valid = (feed-IsValid 0xf0 s (omega arith) v).0;
        mode = ap (λ r. r.0.sysex) e;
        stored = rw e (take-one 1 s.bytes 0xf0 refl (omega (arith, v.storage)));
      },
    )

feed_sysex_end :
    (s : MidiStream)
    → feed_sysex 0xf7 s ≡ (record (put 0xf7 s) { sysex = false; count = 0 }, emit (put 0xf7 s))
unfolding feed_sysex
feed_sysex_end s = refl

closed :
    (held : List ℕ) (s : MidiStream) → Inside held s → (feed 0xf7 s).1 ≡ (held ++ 0xf7 ∷ []) ∷ []
closed held s i =
    ap (λ r. r.1) (feed-sysex 0xf7 s (omega arith) i.mode ∙ feed_sysex_end s)
    ∙ ap (λ r. r ∷ []) (stored_next 0xf7 s i.valid ∙ ap (λ r. r ++ 0xf7 ∷ []) i.stored)

feed_all_opened :
    (bytes : List ℕ) (s : MidiStream)
    → (feed 0xf0 s).1 ≡ []
    → joined (feed_all (0xf0 ∷ (bytes ++ 0xf7 ∷ [])) s).1
      ≡ joined (
          (feed_all bytes (feed 0xf0 s).0).1
          ++ (feed_all (0xf7 ∷ []) (feed_all bytes (feed 0xf0 s).0).0).1)
unfolding feed_all
feed_all_opened bytes s e = ap joined (
    ap (λ r. r ++ (feed_all (bytes ++ 0xf7 ∷ []) (feed 0xf0 s).0).1) e
    ∙ ap (λ r. r.1) (feed_all-append bytes (0xf7 ∷ []) (feed 0xf0 s).0))

last_chunk :
    (held : List ℕ) (s : MidiStream)
    → Inside held s
    → joined (feed_all (0xf7 ∷ []) s).1 ≡ held ++ 0xf7 ∷ []
unfolding feed_all
last_chunk held s i = rw (closed held s i) (append-nil _)

-- From any state of the parser, a system-exclusive message comes out in chunks that joined give
-- the message.
pub feed_all_sysex :
    (bytes : List ℕ) (s : MidiStream)
    → AllData bytes
    → IsValid s
    → joined (feed_all (0xf0 ∷ (bytes ++ 0xf7 ∷ [])) s).1 ≡ 0xf0 ∷ (bytes ++ 0xf7 ∷ [])
feed_all_sysex bytes s h v =
    let first = opened s v in
    let (held, i, e) = data_steps bytes (0xf0 ∷ []) (feed 0xf0 s).0 h first.1 in
    feed_all_opened bytes s first.0
    ∙ joined-append (feed_all bytes (feed 0xf0 s).0).1 _
    ∙ ap (λ r. joined (feed_all bytes (feed 0xf0 s).0).1 ++ r) (last_chunk held _ i)
    ∙ sym (append_assoc _ held (0xf7 ∷ []))
    ∙ ap (λ r. r ++ 0xf7 ∷ []) e
