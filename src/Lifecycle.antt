-- ===== src/Lifecycle.antt =====
-- internal/lifecycle: the worker that expires objects by prefix and age.
pub mod Rules
pub mod World
pub mod Options
pub mod Parse
pub mod Delete
pub mod Scan
pub mod Run
mod Tests
