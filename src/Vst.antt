-- ===== src/Vst.antt =====
-- vst/src: the simulator that the firmware runs on. Pages of sectors, the flash with its checks,
-- and the host side of the DRAM.
pub mod Page
pub mod Flash
pub mod Ram
pub mod Trace
