-- ===== src/Opt.antt =====
-- crates/slopic-core/src/opt.rs: the passes within one function.
pub mod Dead
pub mod Effects
pub mod Thinned
pub mod Sweep
pub mod DeadCorrect
pub mod DeadEffects
pub mod Fold
pub mod Meaning
pub mod MeaningCorrect
pub mod FoldCorrect
pub mod Constants
pub mod ConstantsCorrect
pub mod Meet
pub mod Rounds
pub mod Execution
pub mod Rewrite
pub mod Known
pub mod Blocks
pub mod Propagate
pub mod Simplify
pub mod Thread
pub mod ThreadBack
pub mod MergeBack
pub mod UnreachableBack
pub mod Mergeable
pub mod Merge
pub mod Unreachable
pub mod SimplifyCorrect
pub mod Entry
