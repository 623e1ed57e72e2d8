-- ===== src/Boot.antt =====
-- include/boot_recovery.hpp: the trial of an updated boot set, and the way back to the last good one.
pub mod Disk
pub mod Files
pub mod Exact
pub mod Kept
pub mod Names
pub mod Trial
pub mod Revert
mod Tests
