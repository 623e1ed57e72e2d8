-- ===== src/Midi.antt =====
-- include/midi/usb.hpp and src/midi/usb.cpp: MIDI framing, and the USB MIDI and keyboard output.
pub mod Stream
pub mod Output
