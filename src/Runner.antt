-- ===== src/Runner.antt =====
-- hanami.go: the settings of a run, and the run itself.
pub mod Settings
pub mod Phases
mod Tests
