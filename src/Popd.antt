-- ===== src/Popd.antt =====
-- cmail-popd: the POP3 server.
pub mod Types
pub mod Maildrop
pub mod Functions
pub mod State
pub mod Marks
pub mod Login
pub mod Client
pub mod Accept
