-- ===== src/Unix.antt =====
-- Local sockets, kernel/core/unix.c and unix.h.
pub mod State
pub mod Calls
pub mod Data
pub mod Cell
pub mod Ids
mod Tests
