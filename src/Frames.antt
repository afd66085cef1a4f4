-- ===== src/Frames.antt =====
-- kernel/src/memory/paging.rs: the allocator of physical frames, single ones and contiguous runs, and
-- the detected size of the memory.
pub mod Defs
pub mod Runs
pub mod Partition
pub mod Contiguous
mod Tests
