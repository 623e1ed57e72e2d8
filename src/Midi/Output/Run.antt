-- ===== src/Midi/Output/Run.antt =====
-- Any calls on the `MidiUsbOutput` of include/midi/usb.hpp, one after the other.
use audiox.Prelude.{
  true, replicate, ◌/◌, ◌%◌, false, ◌≡◌, List, [], ◌∷◌, ℕ, Bool, Option, some, none, refl,
}
use audiox.Midi.Output.{
  true, replicate, is_open, false, Chord, MidiUsbOutput, Kernel, new, forward, trigger_or_press,
  release, cancel_chords, queue_keyboard_report, queue_media_report, close_devices,
}
use audiox.Midi.Output.Inv.{
  IsValid, close_devices-IsValid, new-IsValid, forward-IsValid, cancel_chords-IsValid,
}
use audiox.Midi.Output.Inv.Queue.{trigger_or_press-IsValid, release-IsValid, queue-IsValid}
use audiox.Midi.Output.Poll.{poll}
use audiox.Midi.Output.Stages.Sending.{poll-IsValid}

pub data Call : Type 0 where
  forwarded : List ℕ → Bool → Call
  chord : Bool → List ℕ → Call
  keyboard_report : List ℕ → Bool → Call
  media_report : ℕ → Bool → Call
  released : Call
  cancelled : Call
  closed : Call
  polled : ℕ → ℕ → Bool → Kernel → Call

-- A call that is refused leaves the state as it was.
abbrev pub or_same : Option MidiUsbOutput → MidiUsbOutput → MidiUsbOutput
or_same none s = s
or_same (some t) s = t

unfoldable pub call : Call → MidiUsbOutput → MidiUsbOutput
call (forwarded bytes mapped) s = forward bytes mapped s
call (chord hold keys) s = or_same (trigger_or_press hold keys s) s
call (keyboard_report report hold) s = or_same (queue_keyboard_report report hold s) s
call (media_report usage hold) s = or_same (queue_media_report usage hold s) s
call released s = or_same (release s) s
call cancelled s = cancel_chords s
call closed s = close_devices s
call (polled now passthrough keyboard k) s = poll now passthrough keyboard k s

unfoldable pub serve : List Call → MidiUsbOutput → MidiUsbOutput
serve [] s = s
serve (c ∷ cs) s = serve cs (call c s)

or_same-IsValid :
    (o : Option MidiUsbOutput) (s : MidiUsbOutput)
    → IsValid s
    → ((t : MidiUsbOutput) → o ≡ some t → IsValid t)
    → IsValid (or_same o s)
or_same-IsValid none s v f = v
or_same-IsValid (some t) s v f = f t refl

call-IsValid : (c : Call) (s : MidiUsbOutput) → IsValid s → IsValid (call c s)
unfolding call
call-IsValid (forwarded bytes mapped) s v = forward-IsValid bytes mapped s v
call-IsValid (chord hold keys) s v =
    or_same-IsValid (trigger_or_press hold keys s) s v
      (λ t. trigger_or_press-IsValid hold keys s t v)
call-IsValid (keyboard_report report hold) s v =
    let c : Chord = record { report = report; media = false; hold = hold } in
    or_same-IsValid (queue_keyboard_report report hold s) s v
      (λ t. queue-IsValid (is_open s.keyboard_fd) c s t v refl)
call-IsValid (media_report usage hold) s v =
    let report = usage % 256 ∷ (usage / 256) % 256 ∷ replicate 6 0 in
    let c : Chord = record { report = report; media = true; hold = hold } in
    or_same-IsValid (queue_media_report usage hold s) s v
      (λ t. queue-IsValid (is_open s.media_fd) c s t v refl)
call-IsValid released s v = or_same-IsValid (release s) s v (λ t. release-IsValid s t v)
call-IsValid cancelled s v = cancel_chords-IsValid s v
call-IsValid closed s v = close_devices-IsValid s
call-IsValid (polled now passthrough keyboard k) s v = poll-IsValid now passthrough keyboard k s v

kept : (cs : List Call) (s : MidiUsbOutput) → IsValid s → IsValid (serve cs s)
unfolding serve
kept [] s v = v
kept (c ∷ cs) s v = kept cs (call c s) (call-IsValid c s v)

-- After any calls on a new output, whatever the kernel answers in each poll, at most 4096 bytes and
-- 16 chords are queued, and nothing is queued or held down for a device that is closed.
pub serve-IsValid : (cs : List Call) → IsValid (serve cs new)
serve-IsValid cs = kept cs new new-IsValid
