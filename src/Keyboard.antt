-- ===== src/Keyboard.antt =====
-- src/scripting/keyboard.cpp and include/scripting/keyboard.hpp: key names to HID reports, and the
-- hexadecimal form of script text.
pub mod Chord
pub mod Report
pub mod Ascii
pub mod Hex
mod Tests
