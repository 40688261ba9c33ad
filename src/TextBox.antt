-- ===== src/TextBox.antt =====
-- The text box and its handler (textbox/src): messages, the input process, and the receiver inside
-- the engine.
pub mod Message
pub mod Input
pub mod Handler
pub mod Lines
pub mod Commands
mod Tests
