-- ===== src/Queue.antt =====
-- The event queues of the interpreter.
pub mod Basic
pub mod Delayed
