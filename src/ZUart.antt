-- ===== src/ZUart.antt =====
-- lib/zuart: the UART port, by polling or by interrupts.
pub mod Types
pub mod Kernel
pub mod Port
pub mod Transfer
pub mod Setup
pub mod Runs
pub mod Wait
pub mod Reads
pub mod ReadIrq
pub mod Writes
pub mod PollReads
pub mod Polls
pub mod Served
pub mod Handed
pub mod Line
