-- ===== src/Settings.antt =====
-- The command lines of the engine and of its windows (TTChatSettings, TTContactsSettings and
-- TTTextBoxSettings of chat/src, contacts/src and textbox/src, and engine/src/TTEngineSettings.cpp).
pub mod Parsing
pub mod Windows
pub mod Engine
pub mod Channels
pub mod Checked
mod Tests
