-- ===== src/Routing.antt =====
-- src/audio/graph.cpp and include/audio/routing_compile.hpp: the routes of the audio graph.
pub mod Edge
pub mod Helper
mod Tests
