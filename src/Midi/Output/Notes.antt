-- ===== src/Midi/Output/Notes.antt =====
-- The policy that a note's start leaves for its end.
use audiox.Midi.Output.{
  not, bit_and, false, true, ltb, length, Bool, ℕ, List, MidiUsbOutput, is_open, append_pending,
  set_policy, forward_note, forward_bytes, forward,
}
use audiox.Prelude.{
  inr, ◌⊎◌, inl, ◌∙◌, length-append, ap, not, ◌||◌, [], ◌∷◌, bit_and, arith, ◌==◌, le→ltb, ◌-◌,
  false, ◌<◌, true, ltb, ◌≤◌, ◌++◌, refl, ◌+◌, if◌then◌else◌, ==_refl, ◌≡◌, length, Bool, ℕ, List,
}

append_pending-fits :
    (bytes : List ℕ) (s : MidiUsbOutput)
    → length s.pending + length bytes ≤ 4096
    → append_pending bytes s ≡ record s { pending = s.pending ++ bytes }
unfolding append_pending
append_pending-fits bytes s h =
    let t : ltb (4096 - length s.pending) (length bytes) ≡ false = le→ltb _ _ (omega arith) in
    rw t refl

set_policy-same : (p : ℕ → ℕ → ℕ) (c n v : ℕ) → set_policy p c n v c n ≡ v
unfolding set_policy
set_policy-same p c n v = rw (==_refl c, ==_refl n) refl

-- What a forwarded note does: its own test, the policy it leaves and the bytes it queues.
abbrev pub noted : ℕ → ℕ → ℕ → Bool → List ℕ → MidiUsbOutput → MidiUsbOutput
noted c n policy passes bytes s = record s {
  note_policy = set_policy s.note_policy c n policy;
  pending = if passes then s.pending ++ bytes else s.pending;
}

forward_on :
    (c n : ℕ) (pass : Bool) (bytes : List ℕ) (s : MidiUsbOutput)
    → length s.pending + length bytes ≤ 4096
    → forward_note c n true pass bytes s ≡ noted c n (if pass then 2 else 1) pass bytes s
unfolding forward_note
forward_on c n true bytes s h = append_pending-fits bytes _ h
forward_on c n false bytes s h = refl

-- The policy that a start with `passed` leaves.
forward_off :
    (c n : ℕ) (passed pass : Bool) (bytes : List ℕ) (s : MidiUsbOutput)
    → length s.pending + length bytes ≤ 4096
    → s.note_policy c n ≡ (if passed then 2 else 1)
    → forward_note c n false pass bytes s ≡ noted c n 0 passed bytes s
unfolding forward_note
forward_off c n true pass bytes s h e = rw e (append_pending-fits bytes _ h)
forward_off c n false pass bytes s h e = rw e refl

nonzero : (n : ℕ) → 0 < n → (n == 0) ≡ false
nonzero n h = ground arith

abbrev pub IsStart : ℕ → ℕ → Type 0
IsStart status velocity = (bit_and status 0xf0 ≡ 0x90) × (0 < velocity)

forward-start :
    (status n velocity : ℕ) (mapped : Bool) (s : MidiUsbOutput)
    → 0 < s.mode
    → is_open s.midi_fd ≡ true
    → IsStart status velocity
    → forward (status ∷ n ∷ velocity ∷ []) mapped s
      ≡ forward_note
          (bit_and status 15)
          n
          true
          (s.mode == 2 || not mapped)
          (status ∷ n ∷ velocity ∷ [])
          s
unfolding forward forward_bytes
forward-start status n velocity mapped s m o (k, v) =
    rw (nonzero s.mode m, o, k, nonzero velocity v, forward_bytes) refl

abbrev pub IsEnd : ℕ → ℕ → Type 0
IsEnd status velocity =
    (bit_and status 0xf0 ≡ 0x80) ⊎ ((bit_and status 0xf0 ≡ 0x90) × (velocity ≡ 0))

forward-end :
    (status n velocity : ℕ) (mapped : Bool) (s : MidiUsbOutput)
    → 0 < s.mode
    → is_open s.midi_fd ≡ true
    → IsEnd status velocity
    → forward (status ∷ n ∷ velocity ∷ []) mapped s
      ≡ forward_note
          (bit_and status 15)
          n
          false
          (s.mode == 2 || not mapped)
          (status ∷ n ∷ velocity ∷ [])
          s
unfolding forward forward_bytes
forward-end status n velocity mapped s m o (inl k) = rw (nonzero s.mode m, o, k, forward_bytes) refl
forward-end status n velocity mapped s m o (inr (k, v)) =
    rw (nonzero s.mode m, o, k, v, forward_bytes) refl

-- The end of a note, after a start that was queued if `b`.
after_start :
    (s : MidiUsbOutput) (b : Bool) (channel stop n release : ℕ) (bytes : List ℕ) (mapped : Bool)
    → 0 < s.mode
    → is_open s.midi_fd ≡ true
    → length s.pending + (length bytes + 3) ≤ 4096
    → IsEnd stop release
    → bit_and stop 15 ≡ channel
    → (forward
        (stop ∷ n ∷ release ∷ [])
        mapped
        (noted channel n (if b then 2 else 1) b bytes s)).pending
      ≡ (if b then (s.pending ++ bytes) ++ stop ∷ n ∷ release ∷ [] else s.pending)
after_start s b channel stop n release bytes mapped m o h e c =
    let t = noted channel n (if b then 2 else 1) b bytes s in
    let policy : t.note_policy (bit_and stop 15) n ≡ (if b then 2 else 1) =
      rw c (set_policy-same s.note_policy channel n (if b then 2 else 1)) in
    let room : length t.pending + 3 ≤ 4096 = fits b in
    ap (λ u. u.pending)
      (forward-end stop n release mapped t m o e
        ∙ forward_off (bit_and stop 15) n b _ (stop ∷ n ∷ release ∷ []) t room policy)
    ∙ queued b
  where
    fits : (d : Bool) → length (if d then s.pending ++ bytes else s.pending) + 3 ≤ 4096
    fits true = omega (arith, length-append s.pending bytes)
    fits false = omega arith

    queued :
        (d : Bool)
        → (if d
            then (if d then s.pending ++ bytes else s.pending) ++ stop ∷ n ∷ release ∷ []
            else if d
            then s.pending ++ bytes
            else s.pending)
          ≡ (if d then (s.pending ++ bytes) ++ stop ∷ n ∷ release ∷ [] else s.pending)
    queued true = refl
    queued false = refl

-- With the USB device open and room for six bytes: a note's end goes the way of its start,
-- whether it is a note-off message or a start with the velocity 0. Both are queued if forwarding passes every message or the start was not mapped, and neither is
-- otherwise, whether or not the end is mapped.
pub note_end_follows_start :
    (s : MidiUsbOutput) (start stop n velocity release : ℕ) (mapped mapped' : Bool)
    → 0 < s.mode
    → is_open s.midi_fd ≡ true
    → length s.pending + 6 ≤ 4096
    → IsStart start velocity
    → IsEnd stop release
    → bit_and stop 15 ≡ bit_and start 15
    → (forward
        (stop ∷ n ∷ release ∷ [])
        mapped'
        (forward (start ∷ n ∷ velocity ∷ []) mapped s)).pending
      ≡ (if s.mode == 2 || not mapped
          then (s.pending ++ start ∷ n ∷ velocity ∷ []) ++ stop ∷ n ∷ release ∷ []
          else s.pending)
note_end_follows_start s start stop n velocity release mapped mapped' m o h k e c =
    ap (λ t. (forward (stop ∷ n ∷ release ∷ []) mapped' t).pending)
      (forward-start start n velocity mapped s m o k
        ∙ forward_on (bit_and start 15) n (s.mode == 2 || not mapped) _ s (omega (arith, h)))
    ∙ after_start s _ _ stop n release _ mapped' m o h e c
