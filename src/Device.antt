-- ===== src/Device.antt =====
-- src/device.c, src/Init.c, src/Open.c, src/Close.c, src/Expunge.c: the life of the device.
pub mod Start
pub mod Open
pub mod Close
pub mod Openers
pub mod Closing
pub mod Opening
