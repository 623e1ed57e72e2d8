-- ===== src/Update.antt =====
-- include/update_archive.hpp: the AXU update archive, its metadata and the boot command line.
pub mod Cmdline
pub mod Names
pub mod Metadata
pub mod Crc
pub mod Codec
pub mod Archive
mod Tests
