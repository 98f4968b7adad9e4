-- ===== src/Tests.antt =====
-- Concrete inputs for the theorems about the code.
pub mod Data
pub mod Auth
pub mod Smtp
pub mod Pop
pub mod Server
pub mod Inbound
pub mod Admin
pub mod Config
pub mod Loop
pub mod Dispatch
