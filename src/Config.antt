-- ===== src/Config.antt =====
-- The configuration files: lib/config.c and the config.c of the three daemons.
pub mod File
pub mod Daemon
pub mod Listen
pub mod Smtpd
pub mod Popd
pub mod Dispatchd
