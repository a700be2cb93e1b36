-- ===== src/Programs.antt =====
-- The command line programs src/villas-fpga-ctrl.cpp and src/villas-fpga-pipe.cpp, and the formatters of
-- include/villas/fpga/utils.hpp that they print with.
pub mod Formatter
pub mod Printed
pub mod Transfers
pub mod Stored
pub mod InOrder
pub mod Main
pub mod Pipe
pub mod Streams
pub mod Exits
pub mod PrintedLong
pub mod Sample
pub mod Buffer
pub mod Bounds
mod Examples
