-- ===== src/Guest/Transfer.antt =====
-- internal/init/init.go: the replies and the states of the three chunked transfers.
pub mod Update
pub mod Upload
pub mod Image
pub mod Swap
pub mod Install
pub mod Delivery
pub mod Sending
