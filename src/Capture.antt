-- ===== src/Capture.antt =====
-- include/audio/capture_ring.hpp: the frames that a capture device has delivered and the audio thread
-- has not read.
pub mod Ring
pub mod Queue
pub mod Refine
mod Tests
