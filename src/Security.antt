-- ===== src/Security.antt =====
-- security/linux: the process security integration.
pub mod Paths
pub mod Policy
pub mod Compare
pub mod Seccomp
pub mod Handoff
pub mod Landlock
pub mod Platform
pub mod Reexec
pub mod Apply
mod Tests
