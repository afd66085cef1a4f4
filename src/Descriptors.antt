-- ===== src/Descriptors.antt =====
-- kernel/src/filesystem/file.rs: the descriptor table of a process, and the open file descriptions
-- that descriptors share.
pub mod Defs
pub mod Slots
pub mod Inv
pub mod Sharing
pub mod Closing
mod Tests
