-- ===== src/Tests.antt =====
-- The theorems applied at concrete inputs.
pub mod Data
pub mod Policy
pub mod Tables
pub mod Callers
pub mod ProjectRows
pub mod Serving
pub mod Runs
pub mod Forced
pub mod Transfer
pub mod Texts
pub mod Own
pub mod Browsing
