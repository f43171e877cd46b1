-- ===== src/Version.antt =====
-- crates/slopium-manifest/src/version.rs: versions, their order, and requirements.
-- An error is `none`; its message is not modelled.
pub mod Text
pub mod Defs
pub mod Requirement
pub mod Matches
