-- ===== src/Dispatchd.antt =====
-- cmail-dispatchd: the daemon that delivers the outbox to other servers.
pub mod Types
pub mod Protocol
pub mod Smtp
pub mod Outbox
pub mod Transaction
pub mod Bounce
pub mod Remote
pub mod Logic
