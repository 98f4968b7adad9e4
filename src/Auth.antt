-- ===== src/Auth.antt =====
-- lib/auth.c: base64 (Base64) and the check of a user's credentials (Credentials).
pub mod Base64
pub mod Credentials
