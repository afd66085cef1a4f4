-- ===== src/Memory.antt =====
-- kernel/src/memory/resources.rs: who owns which physical range, and which part of the kernel's
-- MMIO window is handed out; `Defs` has what the two tables share. `Shared` is
-- kernel/src/memory/shared.rs, and `Refcounts` the page counts of kernel/src/multitasking/task.rs.
pub mod Defs
pub mod Order
pub mod Phys
pub mod Virt
pub mod Shared
pub mod Refcounts
