-- ===== src/AtUart.antt =====
-- lib/at_uart: AT commands and their responses over a serial port.
pub mod Types
pub mod Code
pub mod Parse
pub mod Command
pub mod Basic
