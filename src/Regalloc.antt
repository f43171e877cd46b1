-- ===== src/Regalloc.antt =====
-- crates/slopic-core/src/regalloc.rs: linear-scan register allocation over live intervals.
-- `assigned` and `busy` are the source's vectors; a read out of their bounds, which panics there,
-- answers `none` and `false` here, and the theorems have the bounds as hypotheses.
mod Defs
pub mod Invariant
pub mod Steps
pub mod Place
pub mod Order
pub mod Scan
pub mod Locations
pub mod Correct
pub mod Interference
pub use Defs.*
