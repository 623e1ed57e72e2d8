-- ===== src/Watchdog.antt =====
-- src/init/watchdog.cpp: the supervisor that runs as the first process.
pub mod Service
pub mod Runtime
pub mod Main
mod Tests
