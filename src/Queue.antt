-- ===== src/Queue.antt =====
-- src/systems/msg_queue.c: the wrapper of System V message queues.
pub mod SysV
pub mod Wrapper
pub mod Fifo
pub mod Lines
pub mod Memory
pub mod Reliable
mod Tests
