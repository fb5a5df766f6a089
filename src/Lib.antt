-- ===== src/Lib.antt =====
-- The PA6T Ethernet driver for AmigaOS 4 (src, src/hw, include) and its diagnostic tool (tools), as
-- functions over an explicit state, with theorems about them.
--
-- The parts, and how they interact. A caller opens the device (src/Open.c), gives it requests by
-- BeginIO and takes them back by AbortIO (src/BeginIO.c). BeginIO answers a request at once, sends
-- it to the unit task's port, or puts it into a read list or the event list. The unit task
-- (src/unit_task.c) serves its port, and runs PA6TEth_ProcessRX (src/hw/rx.c) over the receive ring,
-- which the hardware fills; a frame is copied to a waiting reader by the hook of its opener. A write
-- is put on the TX ring by PA6TEth_TransmitPacket (src/hw/tx.c) in the caller's context. The
-- interrupt handler (src/hw/irq.c) signals the unit task. src/hw/hw_init.c and src/hw/pci.c find and
-- set up the hardware, src/Init.c, src/Close.c and src/Expunge.c are the ends of the device's life.
--
-- The files. Base: lists, Boolean tests, laws of masks. Regs: include/pa6t_eth_regs.h, a constant or
-- a macro each. Machine: the state `World`, the monad `M`, the structures of include/pa6t_eth.h
-- (Machine/Structs), what the code calls outside of the repository (Machine/Calls), and rules for
-- statements about code (Machine/Triples). Requests: find_opener and the flushes of src/hw/rx.c.
-- Rx: PA6TEth_ProcessRX (Rx/Process, Rx/Deliver) and PA6TEth_PostRxBuffers (Rx/Post). Hw: src/hw/tx.c
-- (Hw/Tx), src/hw/irq.c (Hw/Irq), src/hw/pci.c (Hw/Pci), src/hw/hw_init.c (Hw/Channels, Hw/Init,
-- Hw/Cleanup). Io: src/BeginIO.c. Task: src/unit_task.c. Device: src/Init.c and src/device.c
-- (Device/Start), src/Open.c, src/Close.c and src/Expunge.c (Device/Close). Tool:
-- tools/dma_interfaces.c. A function of the source is a function of its name, without a prefix such
-- as PA6TEth_ or _manager_; its inner blocks are functions of their own, in the source's order.
-- Proofs: Ledger (what becomes of each request), Memory (what becomes of each block of memory: each
-- of its files is about the code that it names), Handles (what becomes of each library, interface and
-- PCI device), Rx/Words and Rx/Rounds (the receive loop and its end), Rx/Window, Rx/Queue, Rx/Turning and Rx/Batch
-- (the ring of receive buffers as a queue), Rx/Starting, Rx/Allocated, Rx/Short and Rx/Again
-- (PA6TEth_PostRxBuffers), Rx/Delivery, Rx/Header, Hw/Frames and Hw/Slots (transmission),
-- Hw/Descriptors, Hw/Stopping, Hw/Interrupts, Hw/Address, Hw/Table, Hw/Scan, Task/Rounds, Task/Status,
-- Task/Transitions, Task/Events, Io/Query, Device/Openers, Device/Opening, Device/Closing. What code keeps whatever it
-- does is stated once for a class of assertions: Machine/Quiet, Hw/Quiet and Hw/Stopped for code that
-- sends no message and takes none of the handles, Machine/Plain for code that allocates nothing,
-- Rx/Words and Rx/Safe for the
-- receiver, Machine/OnUnit for assertions about the unit. Fixture and Tests: runs at concrete inputs.
--
-- The state. A pointer is a number, and NULL is 0; a uint32 wraps where the source's does. The
-- request at an address, the structures that it points to and the memory are functions. Each list of
-- nodes is a List. Calls of Exec, of the PCI, utility and MMU interfaces, of the copy hooks, and
-- each register access are recorded in the trace, and `env` answers each by what went before. The
-- receive ring is in the unit, where the hardware's writes are events of their own; a read of the TX
-- ring is a call, since the code polls a word that the hardware clears.
--
-- Bounds. The receive loop has fuel for rx_ring_size + 1 rounds; Rx/Rounds shows that it needs 512
-- at most, one for each descriptor of four words. The polling loops have the source's own bounds:
-- 50000 for a TX word (tx_tries) and for the stop of a channel (stop_tries), 100000 for the receive
-- section (rx_section_tries) and for the task's end (shutdown_patience). All other loops run over a
-- list or to a constant.
--
-- Not modelled: debug output, the loader's tables in src/device.c, the tool's printing, and
-- linux_ref, which is a copy of another driver. Code runs in sequence: the semaphores, Forbid and
-- Permit are calls in the trace and not more. What a copy hook writes into its own buffers is not
-- seen. Of the library node only the open count and the delayed expunge are kept.
pub mod Base
pub mod Regs
pub mod Machine
pub mod Requests
pub mod Rx
pub mod Hw
pub mod Io
pub mod Task
pub mod Device
pub mod Tool
pub mod Ledger
pub mod Memory
pub mod Handles
pub mod Fixture
pub mod Tests
