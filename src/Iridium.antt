-- ===== src/Iridium.antt =====
-- lib/iridium: the Iridium transceiver (the ISU) behind its data terminal equipment, and the short
-- burst data service.
pub mod Checksum
pub mod Dte
pub mod Numbers
pub mod Evt
pub mod Isu
