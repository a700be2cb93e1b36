-- ===== src/Ips.antt =====
-- The smaller IPs of lib/ips: the interrupt controller, the flash memory controller, the FIFO, the
-- timer and what the HLS cores share. The hardware and its drivers are parameters.
pub mod Intc
pub mod Interrupts
pub mod Emc
pub mod Fifo
pub mod Timer
pub mod Hls
pub mod RtdsGpu
pub mod Frames
pub mod Aurora
mod Examples
