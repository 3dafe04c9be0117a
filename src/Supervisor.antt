-- ===== src/Supervisor.antt =====
-- native/forcola_shim/src/supervisor.rs: the supervision of a child.
pub mod Input
pub mod Reader
pub mod Wait
pub mod Kill
pub mod Drain
pub mod Loop
mod Tests
