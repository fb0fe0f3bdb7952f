-- ===== src/Vfs.antt =====
-- The file system in memory, kernel/core/vfs.c.
pub mod File
pub mod Dir
pub mod Mount
pub mod Path
pub mod Table
mod Tests
