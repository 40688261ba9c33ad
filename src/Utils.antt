-- ===== src/Utils.antt =====
-- The channels between the processes (utils/src), over a parameter for the operating system.
pub mod Syscall
pub mod MessageQueue
pub mod SharedMem
pub mod NamedPipe
mod Tests
