-- ===== src/Midi/Output/Poll.antt =====
-- `MidiUsbOutput::poll`, in its stages: an early `return` is `stop`.
use audiox.Midi.Output.{
  true, length, take, not, ltb, ◌++◌, ℕ, replicate, if◌then◌else◌, false, List, Bool, MidiUsbOutput,
  Kernel, Chord, Written, wrote, again, failed, Output, midi, hid, is_open, any_open, close_devices,
  hid_report, poll_interval_ms,
}
use audiox.Prelude.{
  ◌^◌, ◌%◌, differs, ◌||◌, ◌+◌, true, length, drop, [], ◌∷◌, ◌==◌, ◌&&◌, take, not, ltb, ◌++◌, ℕ,
  replicate, if◌then◌else◌, false, List, Bool,
}

pub data Stage : Type 0 where
  go : MidiUsbOutput → Stage
  stop : MidiUsbOutput → Stage

infixl 5 ◌>>◌
abbrev pub ◌>>◌ : Stage → (MidiUsbOutput → Stage) → Stage
go s >> f = f s
stop s >> f = stop s

abbrev pub stage_state : Stage → MidiUsbOutput
stage_state (go s) = s
stage_state (stop s) = s

unfoldable pub reconfigure : ℕ → Bool → MidiUsbOutput → Stage
reconfigure passthrough keyboard s =
    let t =
      if not (s.mode == passthrough) || differs s.keyboard_enabled keyboard
      then record (close_devices s) {
        mode = passthrough;
        keyboard_enabled = keyboard;
        next_probe_ms = 0;
      }
      else s in
    if t.mode == 0 && not t.keyboard_enabled then stop t else go t

unfoldable pub open_midi_device : Kernel → MidiUsbOutput → MidiUsbOutput
open_midi_device k s =
    if not (s.mode == 0) && not (is_open s.midi_fd) then record s { midi_fd = k.open_midi } else s

unfoldable pub open_keyboard_device : Kernel → MidiUsbOutput → MidiUsbOutput
open_keyboard_device k s =
    if s.keyboard_enabled && not (is_open s.keyboard_fd)
    then record s {
      keyboard_fd = k.open_keyboard;
      keyboard_needs_release = s.keyboard_needs_release || is_open k.open_keyboard;
    }
    else s

unfoldable pub open_media_device : Kernel → MidiUsbOutput → MidiUsbOutput
open_media_device k s =
    if s.keyboard_enabled && (is_open s.keyboard_fd && not (is_open s.media_fd))
    then record s {
      media_fd = k.dup_keyboard;
      media_needs_release = s.media_needs_release || is_open k.dup_keyboard;
    }
    else s

unfoldable pub probe : ℕ → Kernel → MidiUsbOutput → Stage
probe now k s =
    if ltb now s.next_probe_ms
    then go s
    else let t = record s { next_probe_ms = (now + poll_interval_ms) % 2 ^ 64 } in
      if not k.configured
      then stop (if any_open t then close_devices t else t)
      else go (open_media_device k (open_keyboard_device k (open_midi_device k t)))

abbrev pub complete : ℕ → Written → Bool
complete size (wrote n) = n == size + 1
complete size again = false
complete size failed = false

unfoldable pub log : Output → MidiUsbOutput → MidiUsbOutput
log o s = record s { sent = s.sent ++ o ∷ [] }

-- A first write that releases every key, or the reason why the poll ends.
unfoldable pub after_init : ℕ → Written → (MidiUsbOutput → MidiUsbOutput) → MidiUsbOutput → Stage
after_init size again ready s = stop s
after_init size failed ready s = stop (close_devices s)
after_init size (wrote n) ready s =
    if complete size (wrote n) then go (ready s) else stop (close_devices s)

abbrev pub keyboard_ready : MidiUsbOutput → MidiUsbOutput
keyboard_ready s = record s { keyboard_needs_release = false }

abbrev pub media_ready : MidiUsbOutput → MidiUsbOutput
media_ready s = record s { media_needs_release = false }

unfoldable pub init_keyboard : Kernel → MidiUsbOutput → Stage
init_keyboard k s =
    if is_open s.keyboard_fd && s.keyboard_needs_release
    then after_init 8 k.keyboard_init keyboard_ready
        (log (hid (hid_report false (replicate 8 0))) s)
    else go s

unfoldable pub init_media : Kernel → MidiUsbOutput → Stage
init_media k s =
    if is_open s.media_fd && s.media_needs_release
    then after_init 2 k.media_init media_ready (log (hid (hid_report true (replicate 2 0))) s)
    else go s

-- write() takes at most the bytes it was given.
unfoldable pub flushed : Written → MidiUsbOutput → MidiUsbOutput
flushed again s = s
flushed failed s = close_devices s
flushed (wrote n) s = if n == 0 then close_devices s else record s { pending = drop n s.pending }

unfoldable pub flush : Kernel → MidiUsbOutput → Stage
flush k s =
    if is_open s.midi_fd && not (length s.pending == 0)
    then go (flushed k.midi_write (log (midi s.pending) s))
    else go s

unfoldable pub any_nonzero : List ℕ → Bool
any_nonzero [] = false
any_nonzero (b ∷ bs) = not (b == 0) || any_nonzero bs

-- Whether a report holds a key down; its second byte is reserved on the keyboard.
unfoldable pub presses : Bool → List ℕ → Bool
presses true report = any_nonzero (take 2 report)
presses false report = any_nonzero (take 1 report) || any_nonzero (drop 2 report)

-- A report of `size` bytes to the device of `media`, and `done` if all of it was written.
unfoldable pub send_report :
    Bool → ℕ → List ℕ → Kernel → (MidiUsbOutput → MidiUsbOutput) → MidiUsbOutput → MidiUsbOutput
send_report media size report k done s =
    if not (is_open (if media then s.media_fd else s.keyboard_fd))
    then close_devices s
    else let t = log (hid (hid_report media (take size report))) s in
      elim k.report_write [
        | again ↦ t
        | failed ↦ close_devices t
        | wrote n ↦ if complete size (wrote n) then done t else close_devices t
      ]

abbrev pub report_size : Bool → ℕ
report_size media = if media then 2 else 8

unfoldable pub key_released : MidiUsbOutput → MidiUsbOutput
key_released s = record s { key_down = false; key_held = false }

unfoldable pub key_pressed : ℕ → Chord → List Chord → MidiUsbOutput → MidiUsbOutput
key_pressed now c cs s =
    let down = presses c.media c.report in
    record s {
      current_media = c.media;
      key_down = down;
      key_held = down && c.hold;
      keyboard_press_ms = if down then now else s.keyboard_press_ms;
      release_ms = (now + 30) % 2 ^ 64;
      chords = cs;
    }

unfoldable pub release_key : Kernel → MidiUsbOutput → MidiUsbOutput
release_key k s =
    send_report s.current_media (report_size s.current_media) (replicate 8 0) k key_released s

unfoldable pub next_report : ℕ → Kernel → List Chord → MidiUsbOutput → MidiUsbOutput
next_report now k [] s = if s.key_down && not s.key_held then release_key k s else s
next_report now k (c ∷ cs) s =
    if s.key_down && (not s.key_held || differs s.current_media c.media)
    then release_key k s
    else send_report c.media (report_size c.media) c.report k (key_pressed now c cs) s

unfoldable pub send_keys : ℕ → Kernel → MidiUsbOutput → Stage
send_keys now k s =
    if s.key_down && (not s.key_held && ltb now s.release_ms)
    then stop s
    else go (next_report now k s.chords s)

unfoldable pub poll : ℕ → ℕ → Bool → Kernel → MidiUsbOutput → MidiUsbOutput
poll now passthrough keyboard k s = stage_state (
    reconfigure passthrough keyboard s
    >> probe now k
    >> init_keyboard k
    >> init_media k
    >> flush k
    >> send_keys now k)
