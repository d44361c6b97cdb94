-- ===== src/Auth.antt =====
-- crates/rgit-core/src/auth and crates/rgit-http/src/middleware/auth.rs.
pub mod Authorize
pub mod Token
pub mod Password
pub mod Identity
