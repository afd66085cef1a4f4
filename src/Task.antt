-- ===== src/Task.antt =====
-- kernel/src/multitasking/task.rs: the task table, its operations and the scheduler, with the slot
-- on each CPU of kernel/src/smp.rs. A slot or a CPU in an `i8` is `none` for -1; pids are signed.
pub mod Defs
pub mod Claim
pub mod Turns
pub mod Owners
pub mod Table
pub mod Count
pub mod Reaping
pub mod Family
pub mod Schedule
pub mod Exclusive
pub mod Switch
pub mod Lookups
pub mod Fairness
mod Tests
