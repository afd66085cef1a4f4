-- ===== src/Signal.antt =====
-- kernel/src/signal.rs: pending signals, job control, the kill of a process with its threads, and
-- the delivery on the way back to user space.
pub mod Defs
pub mod Members
pub mod InSlot
pub mod Kill
pub mod Cleanup
pub mod Stop
pub mod Deliver
pub mod First
pub mod Delivered
mod Tests
