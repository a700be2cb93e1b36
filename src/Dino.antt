-- ===== src/Dino.antt =====
-- lib/ips/dino.cpp and include/villas/fpga/ips/dino.hpp: the analogue boards behind the I2C switch.
pub mod Ports
pub mod Board
mod Examples
