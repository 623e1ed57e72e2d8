-- ===== src/Midi/Output/Tests.antt =====
-- The USB output with both devices open.
use audiox.Midi.Output.Run.{serve, serve-IsValid, polled, forwarded, chord, released, closed}
use audiox.Midi.Output.{false, none, true, some, MidiUsbOutput, Kernel, wrote, again, new, forward}
use audiox.Midi.Output.Inv.{IsValid, routed}
use audiox.Midi.Output.Notes.{note_end_follows_start}
use audiox.Prelude.{inr, arith, refl, false, ◌≡◌, none, codes, [], ◌∷◌, true, some}

abbrev connected : MidiUsbOutput
connected = record new {
  midi_fd = some 5;
  keyboard_fd = some 6;
  media_fd = some 7;
  mode = 1;
  keyboard_enabled = true;
  next_probe_ms = 1000;
}

connected-IsValid : IsValid connected
unfolding routed
connected-IsValid = record {
  pending_room = omega arith;
  chords_room = omega arith;
  pending_open = λ e. refl;
  chords_open = λ e. refl;
  media_open = λ e. absurd (clash e);
  chords_routed = refl;
  key_open = λ e. refl;
  key_media = λ e. refl;
}
  where
    clash : true ≡ false → ⊥
    clash e = cc

abbrev answers : Kernel
answers = record {
  configured = true;
  open_midi = some 5;
  open_keyboard = some 6;
  dup_keyboard = none;
  keyboard_init = wrote 9;
  media_init = again;
  midi_write = wrote 3;
  report_write = wrote 9;
}

abbrev with_f1 : MidiUsbOutput
with_f1 = record connected {
  chords = record { report = 1 ∷ 0 ∷ 58 ∷ 0 ∷ 0 ∷ 0 ∷ 0 ∷ 0 ∷ []; media = false; hold = true } ∷ [];
}

note_example :
    (forward (0x90 ∷ 60 ∷ 0 ∷ []) true (forward (0x90 ∷ 60 ∷ 100 ∷ []) false connected)).pending
    ≡ 0x90 ∷ 60 ∷ 100 ∷ 0x90 ∷ 60 ∷ 0 ∷ []
note_example =
    note_end_follows_start connected 0x90 0x90 60 100 0 false true (omega arith) refl (omega arith)
      (refl, omega arith) (inr (refl, refl)) refl

serve_example : IsValid (
    serve
      (polled 2000 2 true answers
        ∷ forwarded (0x90 ∷ 60 ∷ 100 ∷ []) true
        ∷ chord true (codes "ctrl+F1")
        ∷ released
        ∷ closed
        ∷ polled 2100 2 true answers
        ∷ [])
      new)
serve_example = serve-IsValid (
    polled 2000 2 true answers
    ∷ forwarded (0x90 ∷ 60 ∷ 100 ∷ []) true
    ∷ chord true (codes "ctrl+F1")
    ∷ released
    ∷ closed
    ∷ polled 2100 2 true answers
    ∷ [])
