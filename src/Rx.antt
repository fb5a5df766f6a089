-- ===== src/Rx.antt =====
-- src/hw/rx.c: what PA6TEth_ProcessRX does with one completed descriptor and with a batch.
-- Delivery to a waiting request is in Deliver, the posting of buffers in Post.
pub mod Deliver
pub mod Post
pub mod Process
pub mod Words
pub mod Safe
pub mod Window
pub mod Queue
pub mod Rounds
pub mod Turning
pub mod Starting
pub mod Allocated
pub mod Short
pub mod Header
pub mod Batch
pub mod Again
pub mod Delivery
