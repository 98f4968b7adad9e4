-- ===== src/Smtpd.antt =====
-- cmail-smtpd: the SMTP server.
pub mod Types
pub mod Path
pub mod PathPool
pub mod Mail
pub mod Resolve
pub mod Session
pub mod Delivery
pub mod Inbound
pub mod Database
pub mod State
pub mod Relay
pub mod Client
pub mod Accept
pub mod Server
