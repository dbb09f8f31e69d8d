-- ===== src/Handler.antt =====
-- include/handler: the handlers of requests, each with a module of its own.
pub mod SqlHandler
pub mod StaticFile
pub mod Tests
