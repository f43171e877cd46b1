-- ===== src/Cfg.antt =====
-- crates/slopic-core/src/cfg.rs: control flow, def/use, liveness and live intervals over MIR.
pub mod DefUse
pub mod Interval
pub mod Graph
pub mod Reach
pub mod Found
pub mod Correct
pub mod Sets
pub mod Liveness
pub mod Fixpoint
pub mod Rounds
pub mod Live
pub mod Exact
pub mod Analysis
pub mod Intervals
pub mod Marks
pub mod Hull
pub mod Cover
pub mod Edges
