-- ===== src/System.antt =====
-- The parts of the program together: the engine with the contacts window, and two engines.
pub mod Screen
pub mod Peers
pub mod Typing
mod Tests
