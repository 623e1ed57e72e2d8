-- ===== src/Midi/Output.antt =====
-- `MidiUsbOutput`. An open descriptor is `some fd`; `pending` and `chords` are the used parts of
-- the arrays. `sent` is no field of the struct: it records every write() made, oldest first. What
-- the kernel answers during one poll is the argument `Kernel`; times are reduced modulo 2 ^ 64.
pub mod Inv
pub mod Poll
pub mod Stages
pub mod Run
pub mod Notes
mod Tests
use audiox.Keyboard.Chord.{ChordReport, chord_report, media_usage}
use Prim.Native.Nat.{bit_or, bit_and, suc, ℕ}
use audiox.Prelude.{
  ◌++◌, zero, ◌^◌, ◌/◌, ◌-◌, ◌&&◌, take, some, replicate, length, bit_or, bit_and, ◌∷◌, ◌||◌, ◌==◌,
  ◌+◌, ◌%◌, true, not, ltb, false, ℕ, none, if◌then◌else◌, [], Option, List, Bool,
}

-- What write() answered: a count, a temporary error, or any other error.
pub data Written : Type 0 where
  wrote : ℕ → Written
  again : Written
  failed : Written

pub record Kernel : Type 0 where
  pub configured : Bool
  pub open_midi : Option ℕ
  pub open_keyboard : Option ℕ
  pub dup_keyboard : Option ℕ
  pub keyboard_init : Written
  pub media_init : Written
  pub midi_write : Written
  pub report_write : Written

pub data Output : Type 0 where
  midi : List ℕ → Output
  hid : List ℕ → Output

pub record Chord : Type 0 where
  pub report : List ℕ
  pub media : Bool
  pub hold : Bool

pub record MidiUsbOutput : Type 0 where
  pub midi_fd : Option ℕ
  pub keyboard_fd : Option ℕ
  pub media_fd : Option ℕ
  pub next_probe_ms : ℕ
  pub release_ms : ℕ
  pub pending : List ℕ
  pub chords : List Chord
  pub key_down : Bool
  pub key_held : Bool
  pub current_media : Bool
  pub media_needs_release : Bool
  pub keyboard_needs_release : Bool
  pub session_generation : ℕ
  pub keyboard_press_ms : ℕ
  pub mode : ℕ
  pub keyboard_enabled : Bool
  pub note_policy : ℕ → ℕ → ℕ
  pub sent : List Output

abbrev pub new : MidiUsbOutput
new = record {
  midi_fd = none;
  keyboard_fd = none;
  media_fd = none;
  next_probe_ms = 0;
  release_ms = 0;
  pending = [];
  chords = [];
  key_down = false;
  key_held = false;
  current_media = false;
  media_needs_release = false;
  keyboard_needs_release = false;
  session_generation = 0;
  keyboard_press_ms = 0;
  mode = 0;
  keyboard_enabled = false;
  note_policy = λ c n. 0;
  sent = [];
}

abbrev pub pending_max : ℕ
pending_max = 4096

abbrev pub scripts_max : ℕ
scripts_max = 16

abbrev pub poll_interval_ms : ℕ
poll_interval_ms = 500

abbrev pub is_open : Option ℕ → Bool
is_open none = false
is_open (some fd) = true

abbrev pub any_open : MidiUsbOutput → Bool
any_open s = is_open s.midi_fd || (is_open s.keyboard_fd || is_open s.media_fd)

unfoldable pub hid_report : Bool → List ℕ → List ℕ
hid_report media payload = (if media then 2 else 1) ∷ payload

-- Sustain off, all notes off and all sound off, on `n` channels from `ch`.
unfoldable pub silence : ℕ → ℕ → List ℕ
silence zero ch = []
silence (suc n) ch =
    let status = bit_or 0xb0 ch in
    status ∷ 64 ∷ 0 ∷ status ∷ 123 ∷ 0 ∷ status ∷ 120 ∷ 0 ∷ silence n (ch + 1)

abbrev pub sent_if : Bool → Output → List Output
sent_if true o = o ∷ []
sent_if false o = []

unfoldable pub close_devices : MidiUsbOutput → MidiUsbOutput
close_devices s = record s {
  session_generation =
      if any_open s then (s.session_generation + 1) % 2 ^ 64 else s.session_generation;
  midi_fd = none;
  keyboard_fd = none;
  media_fd = none;
  pending = [];
  chords = [];
  key_down = false;
  key_held = false;
  current_media = false;
  media_needs_release = false;
  keyboard_needs_release = false;
  note_policy = λ c n. 0;
  sent =
      s.sent
      ++ sent_if (is_open s.media_fd) (hid (hid_report true (replicate 2 0)))
      ++ sent_if (is_open s.keyboard_fd) (hid (hid_report false (replicate 8 0)))
      ++ sent_if (is_open s.midi_fd) (midi (silence 16 0));
}

unfoldable pub cancel_chords : MidiUsbOutput → MidiUsbOutput
cancel_chords s = record s { chords = []; key_held = false; release_ms = 0 }

unfoldable pub set_policy : (ℕ → ℕ → ℕ) → ℕ → ℕ → ℕ → ℕ → ℕ → ℕ
set_policy p channel note v c n = if c == channel && n == note then v else p c n

-- The queueing at the end of `forward`.
unfoldable pub append_pending : List ℕ → MidiUsbOutput → MidiUsbOutput
append_pending bytes s =
    if ltb (pending_max - length s.pending) (length bytes)
    then close_devices s
    else record s { pending = s.pending ++ bytes }

-- `on`: a note starts, with a velocity. Its policy, 2 if it passed and 1 if not, decides on the
-- note's end.
unfoldable pub forward_note : ℕ → ℕ → Bool → Bool → List ℕ → MidiUsbOutput → MidiUsbOutput
forward_note channel note on pass bytes s =
    let policy = s.note_policy channel note in
    let passes = if not on && not (policy == 0) then policy == 2 else pass in
    let noted = record s {
      note_policy =
          set_policy s.note_policy channel note (if on then if passes then 2 else 1 else 0);
    } in
    if passes then append_pending bytes noted else noted

unfoldable pub forward_bytes : Bool → List ℕ → MidiUsbOutput → MidiUsbOutput
forward_bytes pass (status ∷ note ∷ velocity ∷ []) s =
    let kind = bit_and status 0xf0 in
    if kind == 0x80 || kind == 0x90
    then forward_note (bit_and status 15) note (kind == 0x90 && not (velocity == 0)) pass
        (status ∷ note ∷ velocity ∷ []) s
    else if pass
    then append_pending (status ∷ note ∷ velocity ∷ []) s
    else s
forward_bytes pass bytes s = if pass then append_pending bytes s else s

unfoldable pub forward : List ℕ → Bool → MidiUsbOutput → MidiUsbOutput
forward bytes mapped s =
    if s.mode == 0 || (not (is_open s.midi_fd) || length bytes == 0)
    then s
    else forward_bytes (s.mode == 2 || not mapped) bytes s

unfoldable pub queue : Bool → Chord → MidiUsbOutput → Option MidiUsbOutput
queue device chord s =
    if not s.keyboard_enabled || not device
    then none
    else if length s.chords == scripts_max
    then none
    else some (record s { chords = s.chords ++ chord ∷ [] })

-- `none` is the answer `false`, which leaves the state as it was.
abbrev pub queue_keyboard_report : List ℕ → Bool → MidiUsbOutput → Option MidiUsbOutput
queue_keyboard_report report hold s =
    queue (is_open s.keyboard_fd) (record { report = report; media = false; hold = hold }) s

abbrev pub queue_media_report : ℕ → Bool → MidiUsbOutput → Option MidiUsbOutput
queue_media_report usage hold s =
    queue (is_open s.media_fd)
      (record {
        report = usage % 256 ∷ (usage / 256) % 256 ∷ replicate 6 0;
        media = true;
        hold = hold;
      })
      s

unfoldable pub report_bytes : ChordReport → List ℕ
report_bytes r = r.modifiers ∷ 0 ∷ take 6 (r.keys ++ replicate 6 0)

-- `trigger` and `press`: the second holds the keys and allows modifiers alone.
unfoldable pub trigger_or_press : Bool → List ℕ → MidiUsbOutput → Option MidiUsbOutput
trigger_or_press hold keys s =
    let usage = media_usage keys in
    if not (usage == 0) then queue_media_report usage hold s else elim (chord_report keys hold) [
      | none ↦ none
      | some r ↦ queue_keyboard_report (report_bytes r) hold s
    ]

abbrev pub trigger : List ℕ → MidiUsbOutput → Option MidiUsbOutput
trigger = trigger_or_press false

abbrev pub press : List ℕ → MidiUsbOutput → Option MidiUsbOutput
press = trigger_or_press true

unfoldable pub release : MidiUsbOutput → Option MidiUsbOutput
release s =
    if s.current_media
    then queue_media_report 0 false s
    else queue_keyboard_report (replicate 8 0) false s
