-- ===== src/Midi/Output/Stages.antt =====
-- Every stage of `poll` keeps the output well formed.
pub mod Sending
use audiox.Midi.Output.Inv.{routed, IsValid, close_devices-IsValid, if-IsValid}
use audiox.Midi.Output.Inv.Queue.{shut_clash}
use audiox.Midi.Output.Poll.{
  Stage, go, stop, ◌>>◌, stage_state, reconfigure, open_midi_device, open_keyboard_device,
  open_media_device, probe, log, after_init, init_keyboard, init_media, flushed, flush, send_report,
  key_released, key_pressed, release_key, next_report, send_keys, poll, complete,
}
use audiox.Midi.Output.{
  suc, take, length, List, not, ℕ, Bool, MidiUsbOutput, Kernel, Chord, Written, wrote, again,
  failed, Output, hid, is_open, close_devices, hid_report,
}
use audiox.Prelude.{
  zero, ◌≤◌, ap, ◌^◌, suc, drop, [], ◌∷◌, ◌%◌, take, subst, length, ◌+◌, arith, List, refl, differs,
  ◌||◌, ◌&&◌, false, ◌==◌, true, ◌≡◌, not, if◌then◌else◌, ℕ, Bool,
}

pub Holds : Stage → Type 0
Holds g = IsValid (stage_state g)

pub go-Holds : {s : MidiUsbOutput} → IsValid s → Holds (go s)
unfolding Holds
go-Holds v = v

pub stop-Holds : {s : MidiUsbOutput} → IsValid s → Holds (stop s)
unfolding Holds
stop-Holds v = v

pub then-Holds :
    (g : Stage) (f : MidiUsbOutput → Stage)
    → Holds g
    → ((s : MidiUsbOutput) → IsValid s → Holds (f s))
    → Holds (g >> f)
unfolding Holds
then-Holds (go s) f h k = k s h
then-Holds (stop s) f h k = h

pub if-Holds : (b : Bool) (g h : Stage) → Holds g → Holds h → Holds (if b then g else h)
if-Holds true g h v w = v
if-Holds false g h v w = w

pub log-IsValid : (o : Output) (s : MidiUsbOutput) → IsValid s → IsValid (log o s)
unfolding log
log-IsValid o s v = record {
  pending_room = v.pending_room;
  chords_room = v.chords_room;
  pending_open = v.pending_open;
  chords_open = v.chords_open;
  media_open = v.media_open;
  chords_routed = v.chords_routed;
  key_open = v.key_open;
  key_media = v.key_media;
}

configured-IsValid :
    (s : MidiUsbOutput) (m n : ℕ) (e : Bool)
    → IsValid s
    → IsValid (record s { mode = m; keyboard_enabled = e; next_probe_ms = n })
configured-IsValid s m n e v = record {
  pending_room = v.pending_room;
  chords_room = v.chords_room;
  pending_open = v.pending_open;
  chords_open = v.chords_open;
  media_open = v.media_open;
  chords_routed = v.chords_routed;
  key_open = v.key_open;
  key_media = v.key_media;
}

pub reconfigure-Holds :
    (p : ℕ) (k : Bool) (s : MidiUsbOutput) → IsValid s → Holds (reconfigure p k s)
unfolding reconfigure
reconfigure-Holds p k s v =
    let w =
      if-IsValid (not (s.mode == p) || differs s.keyboard_enabled k) _ s
        (configured-IsValid (close_devices s) p 0 k (close_devices-IsValid s)) v in
    if-Holds _ (stop _) (go _) (stop-Holds w) (go-Holds w)

guarded-IsValid :
    (b : Bool) (s t : MidiUsbOutput)
    → IsValid s
    → (b ≡ true → IsValid t)
    → IsValid (if b then t else s)
guarded-IsValid true s t v w = w refl
guarded-IsValid false s t v w = v

open_midi_device-IsValid :
    (k : Kernel) (s : MidiUsbOutput) → IsValid s → IsValid (open_midi_device k s)
unfolding open_midi_device
open_midi_device-IsValid k s v = guarded-IsValid _ s _ v (λ e. record {
  pending_room = v.pending_room;
  chords_room = v.chords_room;
  pending_open = λ d. v.pending_open (closed e);
  chords_open = v.chords_open;
  media_open = v.media_open;
  chords_routed = v.chords_routed;
  key_open = v.key_open;
  key_media = v.key_media;
})
  where
    closed : not (s.mode == 0) && not (is_open s.midi_fd) ≡ true → is_open s.midi_fd ≡ false
    closed e = ground arith

open_keyboard_device-IsValid :
    (k : Kernel) (s : MidiUsbOutput) → IsValid s → IsValid (open_keyboard_device k s)
unfolding open_keyboard_device
open_keyboard_device-IsValid k s v = guarded-IsValid _ s _ v (λ e. record {
  pending_room = v.pending_room;
  chords_room = v.chords_room;
  pending_open = v.pending_open;
  chords_open = λ d. v.chords_open (closed e);
  media_open = λ d. v.media_open (closed e);
  chords_routed = v.chords_routed;
  key_open = λ d. v.key_open (closed e);
  key_media = v.key_media;
})
  where
    closed :
        s.keyboard_enabled && not (is_open s.keyboard_fd) ≡ true → is_open s.keyboard_fd ≡ false
    closed e = ground arith

routed_mono : (b : Bool) (cs : List Chord) → routed false cs ≡ true → routed b cs ≡ true
unfolding routed
routed_mono b [] h = refl
routed_mono b (c ∷ cs) h = ground (arith, routed_mono b cs)

open_media_device-IsValid :
    (k : Kernel) (s : MidiUsbOutput) → IsValid s → IsValid (open_media_device k s)
unfolding open_media_device
open_media_device-IsValid k s v = guarded-IsValid _ s _ v (λ e. record {
  pending_room = v.pending_room;
  chords_room = v.chords_room;
  pending_open = v.pending_open;
  chords_open = v.chords_open;
  media_open = λ d. shut_clash (keyboard e) d;
  chords_routed =
      routed_mono _ s.chords (subst (λ b. routed b s.chords ≡ true) (closed e) v.chords_routed);
  key_open = v.key_open;
  key_media = λ d. v.key_media (closed e);
})
  where
    closed :
        s.keyboard_enabled && (is_open s.keyboard_fd && not (is_open s.media_fd)) ≡ true
        → is_open s.media_fd ≡ false
    closed e = ground arith

    keyboard :
        s.keyboard_enabled && (is_open s.keyboard_fd && not (is_open s.media_fd)) ≡ true
        → is_open s.keyboard_fd ≡ true
    keyboard e = ground arith

pub probe-Holds : (now : ℕ) (k : Kernel) (s : MidiUsbOutput) → IsValid s → Holds (probe now k s)
unfolding probe
probe-Holds now k s v =
    let t = configured-IsValid s s.mode ((now + 500) % 2 ^ 64) s.keyboard_enabled v in
    if-Holds _ (go s) _ (go-Holds v) (
      if-Holds _ (stop _) (go _) (stop-Holds (if-IsValid _ _ _ (close_devices-IsValid _) t)) (
        go-Holds (
          open_media_device-IsValid k _
            (open_keyboard_device-IsValid k _ (open_midi_device-IsValid k _ t)))))
