-- ===== src/Http.antt =====
-- The HTTP server: its configuration, the gate of a generation, and the manager that replaces one
-- generation by the next.
pub mod Config
pub mod Gate
pub mod Manager
pub mod Fixed
mod Tests
