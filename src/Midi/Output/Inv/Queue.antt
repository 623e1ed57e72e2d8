-- ===== src/Midi/Output/Inv/Queue.antt =====
-- Chords that are queued or released in src/midi/usb.cpp keep the output well formed.
use audiox.Prelude.{
  replicate, none, suc, Option, subst, ◌==◌, some, if◌then◌else◌, ◌∙◌, sym, inr, inl, Bool-cases,
  length-append, ◌++◌, refl, [], ◌||◌, not, false, ◌≡◌, ◌∷◌, ◌≤◌, ℕ, true, length, arith, List,
  Bool,
}
use audiox.Keyboard.Chord.{ChordReport, chord_report, media_usage}
use audiox.Midi.Output.{
  replicate, suc, Option, report_bytes, MidiUsbOutput, Chord, is_open, queue, queue_keyboard_report,
  queue_media_report, trigger_or_press, release,
}
use audiox.Midi.Output.Inv.{routed, IsValid}

routed-snoc :
    (opened : Bool) (cs : List Chord) (c : Chord)
    → routed opened cs ≡ true
    → not c.media || opened ≡ true
    → routed opened (cs ++ c ∷ []) ≡ true
unfolding routed
routed-snoc opened [] c h k = ground arith
routed-snoc opened (d ∷ ds) c h k = ground (arith, routed-snoc opened ds c)

queue_accepts :
    (device : Bool) (c : Chord) (s t : MidiUsbOutput)
    → queue device c s ≡ some t
    → (device ≡ true)
      × ((length s.chords == 16) ≡ false)
      × (t ≡ record s { chords = s.chords ++ c ∷ [] })
unfolding queue
queue_accepts device c s t e = ground arith

pub shut_clash : {b : Bool} {P : Type 0} → b ≡ true → b ≡ false → P
shut_clash t f = cc

-- An open device of either kind has the keyboard open.
device_opens :
    (b : Bool) (m k : Option ℕ)
    → (is_open k ≡ false → is_open m ≡ false)
    → is_open (if b then m else k) ≡ true
    → (is_open k ≡ true) × (not b || is_open m ≡ true)
device_opens true m none h o = shut_clash o (h refl)
device_opens true m (some x) h o = (refl, o)
device_opens false m none h o = shut_clash o refl
device_opens false m (some x) h o = (refl, refl)

below_16 : (n : ℕ) → n ≤ 16 → (n == 16) ≡ false → suc n ≤ 16
below_16 n h e = ground arith

pub queue-IsValid :
    (device : Bool) (c : Chord) (s t : MidiUsbOutput)
    → IsValid s
    → device ≡ is_open (if c.media then s.media_fd else s.keyboard_fd)
    → queue device c s ≡ some t
    → IsValid t
queue-IsValid device c s t v d e =
    let (o, n, u) = queue_accepts device c s t e in
    let (keyboard, media) =
      device_opens c.media s.media_fd s.keyboard_fd v.media_open (sym d ∙ o) in
    subst IsValid (sym u) record {
      pending_room = v.pending_room;
      chords_room = omega (arith, length-append s.chords (c ∷ []), below_16 _ v.chords_room n);
      pending_open = v.pending_open;
      chords_open = λ e. shut_clash keyboard e;
      media_open = v.media_open;
      chords_routed = routed-snoc _ s.chords c v.chords_routed media;
      key_open = v.key_open;
      key_media = v.key_media;
    }

pub release-IsValid : (s t : MidiUsbOutput) → IsValid s → release s ≡ some t → IsValid t
unfolding release
release-IsValid s t v e = either s.current_media e
  where
    either :
        (b : Bool)
        → (if b
            then queue_media_report 0 false s
            else queue_keyboard_report (replicate 8 0) false s)
          ≡ some t
        → IsValid t
    either true d = queue-IsValid (is_open s.media_fd) _ s t v refl d
    either false d = queue-IsValid (is_open s.keyboard_fd) _ s t v refl d

-- A chord that `trigger` or `press` accepts is queued for an open device, and the queue stays
-- bounded.
pub trigger_or_press-IsValid :
    (hold : Bool) (keys : List ℕ) (s t : MidiUsbOutput)
    → IsValid s
    → trigger_or_press hold keys s ≡ some t
    → IsValid t
unfolding trigger_or_press
trigger_or_press-IsValid hold keys s t v e = elim (Bool-cases (not (media_usage keys == 0))) [
  | inl m ↦ queue-IsValid (is_open s.media_fd) _ s t v refl (rw m at e)
  | inr m ↦ chord (chord_report keys hold) (rw m at e)
]
  where
    chord :
        (o : Option ChordReport)
        → (elim o [ none ↦ none | some r ↦ queue_keyboard_report (report_bytes r) hold s ]) ≡ some t
        → IsValid t
    chord none d = cc
    chord (some r) d = queue-IsValid (is_open s.keyboard_fd) _ s t v refl d
