-- ===== src/Regs.antt =====
-- include/pa6t_eth_regs.h: the register map, by device. A macro is a constant or a function.
pub mod Shift
pub mod Xct
pub mod Mac
pub mod Dma
pub mod Iob
