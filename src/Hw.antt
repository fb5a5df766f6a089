-- ===== src/Hw.antt =====
-- src/hw: transmission, the interrupt handler, PCI discovery and the setting up of the hardware.
pub mod Tx
pub mod Irq
pub mod Pci
pub mod Channels
pub mod Init
pub mod Cleanup
pub mod Frames
pub mod Address
pub mod Slots
pub mod Descriptors
pub mod Interrupts
pub mod Table
pub mod Scan
pub mod Quiet
pub mod Stopping
pub mod Stopped
