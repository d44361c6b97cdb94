-- ===== src/Tables.antt =====
-- The SQL statements that change the tables of users, namespaces, groups and projects, with the
-- constraints and triggers of crates/rgit-core/migrations. Each belongs to the handlers that issue
-- it; a statement that is refused changes nothing.
pub mod Groups
pub mod Keys
pub mod Users
pub mod Invariant
pub mod Projects
