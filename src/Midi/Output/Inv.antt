-- ===== src/Midi/Output/Inv.antt =====
-- What holds of the output between its operations: bounded queues, and nothing queued or held down
-- for a device that is closed.
pub mod Queue
use audiox.Prelude.{
  replicate, none, suc, Option, subst, ◌==◌, some, if◌then◌else◌, ◌∙◌, sym, inr, inl, Bool-cases,
  ltb→le, length-append, ◌++◌, ◌-◌, refl, [], ◌||◌, ◌&&◌, ltb, not, false, ◌≡◌, ◌∷◌, ◌≤◌, ℕ, true,
  length, arith, List, Bool,
}
use audiox.Keyboard.Chord.{ChordReport, chord_report, media_usage}
use audiox.Midi.Output.{
  replicate, suc, Option, report_bytes, MidiUsbOutput, Chord, new, is_open, close_devices, queue,
  append_pending, forward_note, forward_bytes, forward, cancel_chords, queue_keyboard_report,
  queue_media_report, trigger_or_press, release,
}

unfoldable pub routed : Bool → List Chord → Bool
routed opened [] = true
routed opened (c ∷ cs) = (not c.media || opened) && routed opened cs

pub record IsValid (s : MidiUsbOutput) : Type 0 where
  pub pending_room : length s.pending ≤ 4096
  pub chords_room : length s.chords ≤ 16
  pub pending_open : is_open s.midi_fd ≡ false → length s.pending ≡ 0
  pub chords_open : is_open s.keyboard_fd ≡ false → length s.chords ≡ 0
  pub media_open : is_open s.keyboard_fd ≡ false → is_open s.media_fd ≡ false
  pub chords_routed : routed (is_open s.media_fd) s.chords ≡ true
  pub key_open : is_open s.keyboard_fd ≡ false → s.key_down ≡ false
  pub key_media : is_open s.media_fd ≡ false → s.key_down && s.current_media ≡ false

pub new-IsValid : IsValid new
unfolding routed
new-IsValid = record {
  pending_room = omega arith;
  chords_room = omega arith;
  pending_open = λ e. refl;
  chords_open = λ e. refl;
  media_open = λ e. refl;
  chords_routed = refl;
  key_open = λ e. refl;
  key_media = λ e. refl;
}

pub close_devices-IsValid : (s : MidiUsbOutput) → IsValid (close_devices s)
unfolding close_devices routed
close_devices-IsValid s = record {
  pending_room = omega arith;
  chords_room = omega arith;
  pending_open = λ e. refl;
  chords_open = λ e. refl;
  media_open = λ e. refl;
  chords_routed = refl;
  key_open = λ e. refl;
  key_media = λ e. refl;
}

pub cancel_chords-IsValid : (s : MidiUsbOutput) → IsValid s → IsValid (cancel_chords s)
unfolding cancel_chords routed
cancel_chords-IsValid s v = record {
  pending_room = v.pending_room;
  chords_room = omega arith;
  pending_open = v.pending_open;
  chords_open = λ e. refl;
  media_open = v.media_open;
  chords_routed = refl;
  key_open = v.key_open;
  key_media = v.key_media;
}

append_pending-IsValid :
    (bytes : List ℕ) (s : MidiUsbOutput)
    → IsValid s
    → is_open s.midi_fd ≡ true
    → IsValid (append_pending bytes s)
unfolding append_pending
append_pending-IsValid bytes s v o =
    elim (Bool-cases (ltb (4096 - length s.pending) (length bytes))) [
      | inl t ↦ rw t (close_devices-IsValid s)
      | inr t ↦ rw t record {
        pending_room = room t;
        chords_room = v.chords_room;
        pending_open = λ e. absurd (clash (sym o ∙ e));
        chords_open = v.chords_open;
        media_open = v.media_open;
        chords_routed = v.chords_routed;
        key_open = v.key_open;
        key_media = v.key_media;
      }
    ]
  where
    clash : true ≡ false → ⊥
    clash p = cc

    room : ltb (4096 - length s.pending) (length bytes) ≡ false → length (s.pending ++ bytes) ≤ 4096
    room t = let h = ltb→le _ _ t in omega (arith, length-append s.pending bytes, h, v.pending_room)

-- The notes' policies are no part of the invariant.
with_policy-IsValid :
    (s : MidiUsbOutput) (p : ℕ → ℕ → ℕ) → IsValid s → IsValid (record s { note_policy = p })
with_policy-IsValid s p v = record {
  pending_room = v.pending_room;
  chords_room = v.chords_room;
  pending_open = v.pending_open;
  chords_open = v.chords_open;
  media_open = v.media_open;
  chords_routed = v.chords_routed;
  key_open = v.key_open;
  key_media = v.key_media;
}

append_if-IsValid :
    (b : Bool) (bytes : List ℕ) (s : MidiUsbOutput)
    → IsValid s
    → is_open s.midi_fd ≡ true
    → IsValid (if b then append_pending bytes s else s)
append_if-IsValid true bytes s v o = append_pending-IsValid bytes s v o
append_if-IsValid false bytes s v o = v

forward_note-IsValid :
    (channel note : ℕ) (on pass : Bool) (bytes : List ℕ) (s : MidiUsbOutput)
    → IsValid s
    → is_open s.midi_fd ≡ true
    → IsValid (forward_note channel note on pass bytes s)
unfolding forward_note
forward_note-IsValid channel note on pass bytes s v o =
    append_if-IsValid _ bytes _ (with_policy-IsValid s _ v) o

pub if-IsValid :
    (b : Bool) (s t : MidiUsbOutput) → IsValid s → IsValid t → IsValid (if b then s else t)
if-IsValid true s t v w = v
if-IsValid false s t v w = w

forward_bytes-IsValid :
    (pass : Bool) (bytes : List ℕ) (s : MidiUsbOutput)
    → IsValid s
    → is_open s.midi_fd ≡ true
    → IsValid (forward_bytes pass bytes s)
unfolding forward_bytes
forward_bytes-IsValid pass [] s v o = append_if-IsValid pass _ s v o
forward_bytes-IsValid pass (a ∷ []) s v o = append_if-IsValid pass _ s v o
forward_bytes-IsValid pass (a ∷ b ∷ []) s v o = append_if-IsValid pass _ s v o
forward_bytes-IsValid pass (a ∷ b ∷ c ∷ []) s v o =
    if-IsValid _ _ _ (forward_note-IsValid _ _ _ _ _ s v o) (append_if-IsValid pass _ s v o)
forward_bytes-IsValid pass (a ∷ b ∷ c ∷ d ∷ cs) s v o = append_if-IsValid pass _ s v o

-- A message that is forwarded leaves the output well formed, also if the queue was full.
pub forward-IsValid :
    (bytes : List ℕ) (mapped : Bool) (s : MidiUsbOutput)
    → IsValid s
    → IsValid (forward bytes mapped s)
unfolding forward
forward-IsValid bytes mapped s v =
    elim (Bool-cases (s.mode == 0 || (not (is_open s.midi_fd) || length bytes == 0))) [
      | inl t ↦ rw t v
      | inr t ↦ rw t (forward_bytes-IsValid _ bytes s v (ground arith))
    ]
