-- ===== src/Health.antt =====
-- include/audio/health.hpp: the xrun warning of the audio engine (`AudioHealth`) and the adaptive
-- period size (`AdaptiveAudioBuffer`). Both are driven by the audio thread, one call at a time;
-- an atomic is a plain field here. include/audio/device_health.hpp: the mailbox for device snapshots.
pub mod Xrun
pub mod Adaptive
pub mod Mailbox
mod Tests
