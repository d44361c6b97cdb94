-- ===== src/Repo.antt =====
-- crates/rgit-git/src/repo.rs: one run of the git program, as its pipes and its end show it, and HEAD after a push.
pub mod Run
pub mod Head
