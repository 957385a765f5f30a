-- ===== src/Config.antt =====
-- The configuration: src/config.rs. Every text of it is looked into somewhere, and is a list of code
-- points.
pub mod Types
pub mod Options
pub mod Listen
pub mod Texts
pub mod Splits
pub mod Expand
pub mod Expansion
pub mod Maps
pub mod Environment
pub mod Load
pub mod EnvFields
pub mod EnvBinds
pub mod Settings
pub mod EnvErrors
