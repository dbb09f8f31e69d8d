-- ===== src/Http.antt =====
-- The HTTP protocol layer: include/protocol and src/protocol.
pub mod Request
pub mod Response
pub mod Router
mod Tests
