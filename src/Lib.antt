-- ===== src/Lib.antt =====
-- A model of VILLASfpga, the library that drives IP cores on an FPGA card from user space.
--
-- The program. A card (lib/card.cpp) carries IP cores (lib/core.cpp), which are made from a JSON file by the
-- factory whose VLNV tag (lib/vlnv.cpp) fits, put in an initialization order, configured, started and checked.
-- An AXI stream switch (lib/ips/switch.cpp) routes streams between the cores' ports; a DMA controller
-- (lib/ips/dma.cpp) moves buffers in and out of streams; an I2C controller (lib/ips/i2c.cpp) reaches the
-- Dino boards (lib/ips/dino.cpp) behind a bus switch; a connection string (lib/utils.cpp) tells which cores
-- the crossbar connects.
--
-- The modules.
-- Prelude: texts as lists of codes, std::stoi, maps with keys, and the monad M S A of methods over
--   a state: a method returns, throws one of the exceptions the code throws, or does not come back (a mutex
--   that its holder locks again, a wait that never ends, an access with no defined behaviour). `Spec` is a
--   triple of a precondition, a method and what holds after each of its ends.
-- Vlnv: lib/vlnv.cpp, include/villas/fpga/vlnv.hpp.
-- Core: IpIdentifier of include/villas/fpga/core.hpp, the lookups of lib/card.cpp and lib/core.cpp, and of
--   CoreFactory::make the ordering loop (an Option, `none` being an iterator that is advanced past the end)
--   and, in Core.Config and Core.Start, the configuring and the starting loop; Core.Make is all of it.
-- Switch: lib/ips/switch.cpp, with portMapping as a map in the order of its keys.
-- Dma: lib/ips/dma.cpp. `Dma` holds the members; Dma.Setup is init, Dma.ScatterGather and Dma.Simple are the
--   two modes, Dma.Transfer is write, read, memcpy, reset and makeAccesibleFromVA, and
--   Dma.Config the factory's parse and the destructor. The two static error
--   counters are fields of the state. The set-up of the two rings and the two directions of the simple mode
--   are the same text in the source and one definition with a direction here.
-- I2c: lib/ips/i2c.cpp; I2c.Driver has the retry loops, I2c.Access the transfers, I2c.BusSwitch the channels.
-- Dino: lib/ips/dino.cpp over I2c, and the expander's byte.
-- Crossbar: ConnectString and configCrossBar of lib/utils.cpp.
-- CInterface: lib/dma.cpp, the C interface, which sets the crossbar up by Crossbar.
-- Registers: lib/ips/register.cpp.
-- Card: lib/card.cpp, the blocks that a card maps through the IOMMU, and its end.
-- Node: lib/node.cpp and include/villas/fpga/node.hpp: the vertices of the stream graph, the parsing of
--   ports, and connecting along a path; a node is named by its instance name.
-- Pcie: lib/pcie_card.cpp, how a card is made, its paths connected by Node; Pcie.Bridge is lib/ips/pcie.cpp, and
--   Pcie.Cards is createCard, createCards and setupFpgaCard of lib/utils.cpp.
-- Gpu: gpu/src/gpu.cpp; Gpu.Allocator is GpuAllocator, and Gpu.Startup how GPUs are made. registerIoMemory
--   is modelled behind its first test, whose else has no if, so that the file as it is cannot be compiled.
-- Programs: src/villas-fpga-ctrl.cpp (Programs.Transfers, Programs.Main) and src/villas-fpga-pipe.cpp
--   (Programs.Pipe), and the formatters of include/villas/fpga/utils.hpp (Programs.Formatter). A write or a
--   store outside of a buffer sets a flag, and what it does to other memory is left out.
-- Ips: the smaller cores, lib/ips/intc.cpp, emc.cpp, fifo.cpp and timer.cpp, and hls.hpp of
--   include/villas/fpga/ips; Ips.RtdsGpu is lib/ips/rtds2gpu/rtds2gpu.cpp and gpu2rtds.cpp, and Ips.Aurora
--   is aurora.cpp and bram.cpp.
--
-- Parameters. The Xilinx drivers, the memory manager, VFIO and the graph library are records of calls over a
-- hardware state of any type, as is the interrupt controller for the cores that call it. Nothing is assumed of
-- them but where a theorem has a record of laws: Switch.Routes.SwitchLaws says how the switch driver's calls act
-- on routes, Dma.Bounds.KeepsInside what the DMA driver's calls keep, and Registers.Memory.Quiet that
-- reading a register changes none. Card.Memory.DriverLaws says how windows and translations come
-- and go, Card.End.IpLaws that IPs can be stopped and released, Node.Vertices.GraphLaws where a new vertex
-- stands, Node.Paths.Onward that the graph finds the rest of a path from the vertices on it, Pcie.Make.OwnPorts
-- whose the default ports of a node are, Ips.Emc.FlashLaws and Ips.Fifo.FifoLaws what a read gives,
-- Gpu.Mappings.MappingLaws that only createMapping makes mappings, Gpu.Chunks.LinearLaws how much memory a new
-- linear allocator has, Pcie.BridgeMaps.BridgeLaws that
-- createMapping alone makes mappings, Programs.Sample.Fits, Programs.Printed.Whole and
-- Programs.PrintedLong.LongText how long the texts of snprintf are for the values at hand, and
-- Programs.InOrder.QueueLaws that the DMA controller completes its reads in order.
--
-- Bounds and fuel. Numbers are native naturals; sums of size_t are taken modulo 2 ^ 64, products of uint32_t
-- modulo 2 ^ 32. The code's retry counters are the structural arguments of the loops. The waits of the
-- DMA controller's simple completions, of the interrupt controller, of the FIFO and of the cores between RTDS
-- and GPU have fuel, since the code waits without a bound; any fuel above the number of the status read that shows
-- the event is enough. The calls from node to node along a path have fuel too; more than the path has edges is enough. So have the calls of
-- allocateBlock to itself; two are enough. The programs' loops, which have no end, run as many rounds as a number
-- tells, and then go on.
--
-- Not modelled: the parsing of the single factories but for the ports of a node, the bridge, the DMA
-- controller and the block RAM, logging, VFIO, makeAccessibleFromPCIeOrHostRam, the remaining cores (GPIO and RTDS), the kernels that run on the
-- GPU, and the parsing of the programs' arguments.
pub mod Prelude
pub mod Vlnv
pub mod Card
pub mod Core
pub mod Node
pub mod Ips
pub mod Pcie
pub mod Switch
pub mod Dma
pub mod I2c
pub mod Dino
pub mod Crossbar
pub mod CInterface
pub mod Registers
pub mod Gpu
pub mod Programs
