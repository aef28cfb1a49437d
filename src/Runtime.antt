-- ===== src/Runtime.antt =====
-- processor/src/runtime and processor/include/worker: the thread pools of the second worker.
pub mod Types
pub mod Stubs
pub mod Threads
pub mod Schedule
pub mod Callbacks
pub mod Counting
pub mod Service
pub mod Shutdown
