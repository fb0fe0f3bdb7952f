-- ===== src/Net/Tcp.antt =====
-- net/tcp.c and net/tcp.h: sockets, output, input, the timer and the calls of a process.
pub mod State
pub mod Output
pub mod Input
pub mod Timer
pub mod Calls
mod Tests
pub mod Ring
pub mod Keep
pub mod Run
pub mod Span
pub mod Fifo
pub mod Diagram
pub mod Sequence
pub mod Retries
