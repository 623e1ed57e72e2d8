-- ===== src/Midi/Output/Stages/Sending.antt =====
-- The stages of `poll` of src/midi/usb.cpp that send, and the whole of it.
use audiox.Midi.Output.Inv.{routed, IsValid, close_devices-IsValid, if-IsValid}
use audiox.Midi.Output.Poll.{
  go, stop, ◌>>◌, reconfigure, probe, log, after_init, init_keyboard, init_media, flushed, flush,
  send_report, key_released, key_pressed, release_key, next_report, send_keys, poll, complete,
}
use audiox.Midi.Output.{
  suc, take, length, List, not, ℕ, Bool, MidiUsbOutput, Kernel, Chord, Written, wrote, again,
  failed, Output, hid, is_open, close_devices, hid_report,
}
use audiox.Prelude.{
  zero, ◌≤◌, ap, suc, drop, [], ◌∷◌, take, subst, length, arith, List, refl, ◌||◌, ◌&&◌, false,
  true, ◌≡◌, not, if◌then◌else◌, ℕ, Bool,
}
use audiox.Midi.Output.Stages.{
  Holds, go-Holds, stop-Holds, then-Holds, if-Holds, log-IsValid, reconfigure-Holds, probe-Holds,
}

released-IsValid :
    (s : MidiUsbOutput) (k m : Bool)
    → IsValid s
    → IsValid (record s { keyboard_needs_release = k; media_needs_release = m })
released-IsValid s k m v = record {
  pending_room = v.pending_room;
  chords_room = v.chords_room;
  pending_open = v.pending_open;
  chords_open = v.chords_open;
  media_open = v.media_open;
  chords_routed = v.chords_routed;
  key_open = v.key_open;
  key_media = v.key_media;
}

after_init-Holds :
    (size : ℕ) (w : Written) (ready : MidiUsbOutput → MidiUsbOutput) (s : MidiUsbOutput)
    → IsValid s
    → IsValid (ready s)
    → Holds (after_init size w ready s)
unfolding after_init
after_init-Holds size (wrote n) ready s v r =
    if-Holds _ (go _) (stop _) (go-Holds r) (stop-Holds (close_devices-IsValid s))
after_init-Holds size again ready s v r = stop-Holds v
after_init-Holds size failed ready s v r = stop-Holds (close_devices-IsValid s)

init_keyboard-Holds : (k : Kernel) (s : MidiUsbOutput) → IsValid s → Holds (init_keyboard k s)
unfolding init_keyboard
init_keyboard-Holds k s v =
    let l = log-IsValid _ s v in
    if-Holds _ _ (go s) (after_init-Holds 8 k.keyboard_init _ _ l (released-IsValid _ false _ l))
      (go-Holds v)

init_media-Holds : (k : Kernel) (s : MidiUsbOutput) → IsValid s → Holds (init_media k s)
unfolding init_media
init_media-Holds k s v =
    let l = log-IsValid _ s v in
    if-Holds _ _ (go s) (after_init-Holds 2 k.media_init _ _ l (released-IsValid _ _ false l))
      (go-Holds v)

length-drop_le : (n : ℕ) (xs : List ℕ) → length (drop n xs) ≤ length xs
length-drop_le zero xs = omega arith
length-drop_le (suc n) [] = omega arith
length-drop_le (suc n) (x ∷ xs) = omega (arith, length-drop_le n xs)

flushed-IsValid : (w : Written) (s : MidiUsbOutput) → IsValid s → IsValid (flushed w s)
unfolding flushed
flushed-IsValid again s v = v
flushed-IsValid failed s v = close_devices-IsValid s
flushed-IsValid (wrote n) s v =
    if-IsValid _ _ (record s { pending = drop n s.pending }) (close_devices-IsValid s)
      record {
        pending_room = omega (arith, length-drop_le n s.pending, v.pending_room);
        chords_room = v.chords_room;
        pending_open = λ e. omega (arith, length-drop_le n s.pending, v.pending_open e);
        chords_open = v.chords_open;
        media_open = v.media_open;
        chords_routed = v.chords_routed;
        key_open = v.key_open;
        key_media = v.key_media;
      }

flush-Holds : (k : Kernel) (s : MidiUsbOutput) → IsValid s → Holds (flush k s)
unfolding flush
flush-Holds k s v =
    if-Holds _ (go _) (go s) (go-Holds (flushed-IsValid k.midi_write _ (log-IsValid _ s v)))
      (go-Holds v)

send_report-IsValid :
    (media : Bool) (size : ℕ) (report : List ℕ) (k : Kernel) (done : MidiUsbOutput → MidiUsbOutput)
    (s : MidiUsbOutput)
    → IsValid s
    → ((o : Output) → IsValid (done (log o s)))
    → IsValid (send_report media size report k done s)
unfolding send_report
send_report-IsValid media size report k done s v d =
    if-IsValid _ _ _ (close_devices-IsValid s) (answered k.report_write)
  where
    answered :
        (w : Written)
        → IsValid (elim w [
          | again ↦ log (hid (hid_report media (take size report))) s
          | failed ↦ close_devices (log (hid (hid_report media (take size report))) s)
          | wrote n ↦
              if complete size (wrote n)
              then done (log (hid (hid_report media (take size report))) s)
              else close_devices (log (hid (hid_report media (take size report))) s)
        ])
    answered (wrote n) = if-IsValid _ _ _ (d _) (close_devices-IsValid _)
    answered again = log-IsValid _ s v
    answered failed = close_devices-IsValid _

key_released-IsValid : (s : MidiUsbOutput) → IsValid s → IsValid (key_released s)
unfolding key_released
key_released-IsValid s v = record {
  pending_room = v.pending_room;
  chords_room = v.chords_room;
  pending_open = v.pending_open;
  chords_open = v.chords_open;
  media_open = v.media_open;
  chords_routed = v.chords_routed;
  key_open = λ e. refl;
  key_media = λ e. refl;
}

release_key-IsValid : (k : Kernel) (s : MidiUsbOutput) → IsValid s → IsValid (release_key k s)
unfolding release_key
release_key-IsValid k s v =
    send_report-IsValid _ _ _ k _ s v (λ o. key_released-IsValid _ (log-IsValid o s v))

unrouted : (m o : Bool) (rest d : Bool) → (not m || o) && rest ≡ true → o ≡ false → d && m ≡ false
unrouted m o rest d h e = ground arith

routed_rest : (m o : Bool) (rest : Bool) → (not m || o) && rest ≡ true → rest ≡ true
routed_rest m o rest h = ground arith

key_pressed-IsValid :
    (now : ℕ) (c : Chord) (cs : List Chord) (s : MidiUsbOutput)
    → IsValid s
    → s.chords ≡ c ∷ cs
    → IsValid (key_pressed now c cs s)
unfolding key_pressed routed
key_pressed-IsValid now c cs s v e =
    let full : length s.chords ≡ suc (length cs) = ap length e in
    let way : routed (is_open s.media_fd) (c ∷ cs) ≡ true =
      subst (λ l. routed (is_open s.media_fd) l ≡ true) e v.chords_routed in
    record {
      pending_room = v.pending_room;
      chords_room = omega (arith, full, v.chords_room);
      pending_open = v.pending_open;
      chords_open = λ d. absurd (omega (arith, full, v.chords_open d));
      media_open = v.media_open;
      chords_routed = routed_rest c.media (is_open s.media_fd) _ way;
      key_open = λ d. absurd (omega (arith, full, v.chords_open d));
      key_media = λ d. unrouted c.media (is_open s.media_fd) _ _ way d;
    }

kept : (s : MidiUsbOutput) (o : Output) {cs : List Chord} → s.chords ≡ cs → (log o s).chords ≡ cs
unfolding log
kept s o e = e

next_report-IsValid :
    (now : ℕ) (k : Kernel) (cs : List Chord) (s : MidiUsbOutput)
    → IsValid s
    → s.chords ≡ cs
    → IsValid (next_report now k cs s)
unfolding next_report
next_report-IsValid now k [] s v e = if-IsValid _ _ _ (release_key-IsValid k s v) v
next_report-IsValid now k (c ∷ cs) s v e = if-IsValid _ _ _ (release_key-IsValid k s v) (
    send_report-IsValid _ _ _ k _ s v
      (λ o. key_pressed-IsValid now c cs _ (log-IsValid o s v) (kept s o e)))

send_keys-Holds : (now : ℕ) (k : Kernel) (s : MidiUsbOutput) → IsValid s → Holds (send_keys now k s)
unfolding send_keys
send_keys-Holds now k s v =
    if-Holds _ (stop s) (go _) (stop-Holds v)
      (go-Holds (next_report-IsValid now k s.chords s v refl))

-- Whatever the kernel answers, a poll leaves the output well formed: at most 4096 bytes and 16
-- chords are queued, and nothing is queued or held down for a device that is closed.
pub poll-IsValid :
    (now passthrough : ℕ) (keyboard : Bool) (k : Kernel) (s : MidiUsbOutput)
    → IsValid s
    → IsValid (poll now passthrough keyboard k s)
unfolding poll Holds
poll-IsValid now passthrough keyboard k s v =
    let configured = reconfigure passthrough keyboard s in
    let probed = configured >> probe now k in
    let keyed = probed >> init_keyboard k in
    let ready = keyed >> init_media k in
    let sounded = ready >> flush k in
    let a =
      then-Holds configured (probe now k) (reconfigure-Holds passthrough keyboard s v)
        (probe-Holds now k) in
    let b = then-Holds probed (init_keyboard k) a (init_keyboard-Holds k) in
    let c = then-Holds keyed (init_media k) b (init_media-Holds k) in
    let d = then-Holds ready (flush k) c (flush-Holds k) in
    then-Holds sounded (send_keys now k) d (send_keys-Holds now k)
