-- ===== src/Lib.antt =====
-- A model of core parts of audiox, an audio appliance for the Raspberry Pi.
--
-- The program's parts that are modelled, each with its file:
--   * Health: include/audio/health.hpp. `AudioHealth` turns dropouts of the audio thread (xruns)
--     into warnings; `AdaptiveAudioBuffer` lengthens the period after bursts of xruns and shortens
--     it in quiet times. Health/Xrun and Health/Adaptive hold the states and their operations
--     under the source's names; the clock that the source reads is an argument. The atomics are
--     taken one call after the other: only the audio thread writes most of them. Health/Mailbox is
--     the `DeviceHealthMailbox` of include/audio/device_health.hpp, whose publication keeps its
--     two steps.
--   * Midi: include/midi/usb.hpp and src/midi/usb.cpp. Midi/Stream is `MidiStream::feed`, which
--     cuts a byte stream into messages; the callback's calls are the list of chunks, and a
--     write past the array would leave more bytes than the array has. Midi/Output is
--     `MidiUsbOutput`, which queues MIDI bytes and key reports for the USB host; Midi/Output/Poll is
--     its `poll`, stage by stage. What open, dup and write answer in one poll is the argument
--     `Kernel`; the bytes handed to write() are kept in the field `sent`, which the source lacks.
--   * Keyboard: src/scripting/keyboard.cpp and include/scripting/keyboard.hpp. Names of chords and
--     media keys to HID reports, characters to reports, and the hexadecimal form of script text.
--     Midi/Output calls Keyboard/Chord as the source does.
--   * Update: include/update_archive.hpp. Validation of cmdline.txt, kernel names and metadata, the
--     CRC, the integer codec and the archive parser. The file is the parameter `read`, a full read
--     at an offset; proofs about file contents suppose that it gives back what the file holds.
--   * Watchdog: src/init/watchdog.cpp. Watchdog/Service supervises the helper daemon and
--     Watchdog/Runtime judges the main process by its heartbeats; Watchdog/Main is `main`, which calls
--     both, and reboots a boot trial that failed: its disk is that of Boot. The clock and the answers
--     of waitpid, fork and reboot are arguments, one record for each round of a loop.
--   * Boot: include/boot_recovery.hpp, with which a new boot set is tried and the last good one
--     restored. Boot/Disk is the disk it works on: the directories root, boot, system,
--     system/boot-backup and system/boot-backup.tmp, the system calls, whose answers are the
--     parameter `Os` (indexed by the number of the call), and every earlier state of the disk.
--     Boot/Files has the helpers, Boot/Names the file names and the counter's text, Boot/Trial
--     `prepare_update`, `begin_boot` and `confirm`, Boot/Revert `revert` with its report. Boot/Kept
--     and Boot/Exact hold the rules for what an operation keeps at all times and what it leaves
--     when it succeeds. A backup is marked by its version file; a state of the disk between two
--     changes is what a loss of power leaves, since each call is taken as done at once. access()
--     alone cannot fail: it answers what the disk holds.
--   * Mdns: src/http/mdns.cpp. Mdns/Name is `readName`, which reads a compressed name from a packet;
--     one round of its loop is `turn`. Mdns/Writer is the class `Writer` and the functions that
--     write records, Mdns/Reply `buildReply` and `buildAnnouncement`, which call both. Mdns/Writer/Wire
--     describes the wire format on its own. Mdns/Responder is the class `Responder`, whose polls
--     follow the interface, announce the host and answer; what the system answers in a poll is an
--     argument, and the field `log` keeps what was opened, closed and sent.
--   * Routing: the routes of the audio graph. Routing/Edge reads and writes one line of the routing
--     file as src/audio/graph.cpp does; Routing/Helper is `expandRoutingHelper` of
--     include/audio/routing_compile.hpp. Lists stand for the arrays with their counts.
--   * Capture: include/audio/capture_ring.hpp. Capture/Ring is `PcmCaptureRing`, over a parameter for
--     floating-point numbers; Capture/Queue is the queue that it stands for.
--   * History: include/system_history.hpp, `SystemHistory`: the samples of the last ten minutes.
--
-- Prelude holds what the parts share: tests on numbers, lists and arrays, bytes, machine words
-- and results with errors. Strings and buffers are lists of bytes; unsigned words keep their
-- wrap-around where they can pass their width.
--
-- Fuel: `max_level_loop` gets 11 rounds, and `max_level_least` shows that a positive base ends
-- within them; `crc_loop` gets a round for each chunk of 16384 bytes and two more, and
-- `check_entry_crc_exact` shows that it ends; `read_name` gets as many rounds as labels and bytes can
-- ask for, and `read_name-Answered` shows that they are enough. All other loops are structural.
--
-- Not modelled: threads and device I/O, floating-point audio, the web server, Bluetooth, the
-- display, the Lua engine, and the boot programs beside the archive parser, the boot recovery and
-- the watchdog.
pub mod Prelude
pub mod Health
pub mod Midi
pub mod Update
pub mod Keyboard
pub mod Watchdog
pub mod Boot
pub mod Mdns
pub mod Routing
pub mod Capture
pub mod History
