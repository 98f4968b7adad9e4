-- ===== src/Admin.antt =====
-- cmail-admin: the administration tools.
pub mod Statement
pub mod Permissions
pub mod Address
pub mod User
pub mod Password
pub mod Popd
pub mod Smtpd
