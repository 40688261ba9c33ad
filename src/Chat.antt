-- ===== src/Chat.antt =====
-- The chat window and its handler (chat/src): messages, the handler inside the engine, the window
-- process and the layout of a printed message.
pub mod Message
pub mod Handler
pub mod Layout
pub mod Window
pub mod Delivery
pub mod Conversation
pub mod Success
pub mod Consume
pub mod Faithful
pub mod Operations
pub mod Pipeline
pub mod Heartbeat
mod Tests
