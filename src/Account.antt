-- ===== src/Account.antt =====
-- The handlers of a user's own account: crates/rgit-http/src/handlers/api/keys.rs, tokens.rs, user.rs and session.rs.
pub mod Keys
pub mod Tokens
pub mod Profile
pub mod Login
