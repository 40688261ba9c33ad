-- ===== src/Engine.antt =====
-- The engine (engine/src): it joins the three handlers with the neighbors on the network.
pub mod Message
pub mod Timer
pub mod Node
pub mod Chat
pub mod Pending
pub mod Delivery
pub mod Round
pub mod Ready
pub mod Running
pub mod Sending
pub mod Activating
pub mod Joining
pub mod Start
pub mod Narration
pub mod Stub
pub mod Wire
pub mod Resolve
pub mod Discovery
pub mod Services
pub mod Control
pub mod Threads
pub mod Tests
