-- ===== src/Mdns.antt =====
-- src/http/mdns.cpp: the names and packets of multicast DNS, and the responder.
pub mod Name
pub mod Writer
pub mod Reply
pub mod Responder
mod Tests
