-- ===== src/App.antt =====
-- src/app: the programs.
pub mod Echo
pub mod Main
mod Tests
