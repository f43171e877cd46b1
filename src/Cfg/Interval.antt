-- ===== src/Cfg/Interval.antt =====
-- crates/slopic-core/src/cfg.rs: the live range of one local.
use slopium.Base.{ℕ, ◌≤◌}
use slopium.Mir.{LocalId}

-- The range of positions over which one local is live, both ends included.
pub record Interval : Type 0 where
  pub local : LocalId
  pub start : ℕ
  pub end : ℕ

-- Two ranges that have a position in common.
pub record Overlap (a b : Interval) : Type 0 where
  pub fst_before : a.start ≤ b.end
  pub snd_before : b.start ≤ a.end
