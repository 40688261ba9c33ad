-- ===== src/Contacts.antt =====
-- The contacts window and its handler (contacts/src): states and messages, the handler inside the
-- engine, and the window process.
pub mod State
pub mod Message
pub mod Handler
pub mod Window
pub mod View
pub mod Invariant
pub mod Operations
pub mod Creation
pub mod Success
pub mod Starting
pub mod Selection
mod Tests
