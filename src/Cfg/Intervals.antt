-- ===== src/Cfg/Intervals.antt =====
-- crates/slopic-core/src/cfg.rs: `live_intervals`, the hull of the positions where a local is live.
use slopium.Base.{
  ℕ, zero, suc, ◌+◌, ◌-◌, ◌^◌, Bool, true, false, Option, none, some, List, [], ◌∷◌, min, max, leb,
  if◌then◌else◌, ◌>>=◌, length, get_or, set, replicate,
}
use slopium.Mir.{BlockId, LocalId, Instruction, MirFunction}
use slopium.Cfg.DefUse.{defs, uses, terminator_uses}
use slopium.Cfg.Graph.{Cfg}
use slopium.Cfg.Liveness.{Liveness, is_live_in, is_live_out, code_of, terminator_of, liveness}
use slopium.Cfg.Interval.{Interval}

pub record Ranges : Type 0 where
  pub first : List ℕ
  pub last : List ℕ
  pub seen : List Bool

abbrev pub usize_max : ℕ
usize_max = 2 ^ 64 - 1

unfoldable pub mark : LocalId → ℕ → Ranges → Ranges
mark local at r = if leb (length r.seen) local then r else record {
  first = set r.first local (min (get_or r.first local 0) at);
  last = set r.last local (max (get_or r.last local 0) at);
  seen = set r.seen local true;
}

unfoldable pub mark_all : List LocalId → ℕ → Ranges → Ranges
unfolding mark
mark_all [] at r = r
mark_all (l ∷ ls) at r = mark_all ls at (mark l at r)

unfoldable pub mark_def : Option LocalId → ℕ → Ranges → Ranges
unfolding mark
mark_def none at r = r
mark_def (some l) at r = mark l at r

-- `for local in 0..locals`, with the number of rounds left.
unfoldable pub mark_live : Liveness → BlockId → ℕ → ℕ → ℕ → LocalId → Ranges → Ranges
unfolding mark is_live_in is_live_out
mark_live live block start terminator zero local r = r
mark_live live block start terminator (suc n) local r =
    let entered = if is_live_in live block local then mark local start r else r in
    mark_live live block start terminator n (local + 1)
      (if is_live_out live block local then mark local terminator entered else entered)

-- The statements of a block from position `at` on.
unfoldable pub mark_code : List Instruction → ℕ → Ranges → Ranges
unfolding mark_all mark_def
mark_code [] at r = r
mark_code (i ∷ is) at r = mark_code is (at + 1) (mark_def (defs i) at (mark_all (uses i) at r))

unfoldable pub mark_block : MirFunction → Liveness → BlockId → ℕ → Ranges → Ranges
unfolding mark_live mark_code
mark_block f live block start r =
    let terminator = start + length (code_of f.blocks block) in
    mark_all (terminator_uses (terminator_of f.blocks block)) terminator (
      mark_code (code_of f.blocks block) start
        (mark_live live block start terminator (length f.locals) 0 r))

unfoldable pub mark_blocks : MirFunction → Liveness → List BlockId → ℕ → Ranges → Ranges
unfolding mark_block
mark_blocks f live [] at r = r
mark_blocks f live (b ∷ bs) at r =
    mark_blocks f live bs (at + length (code_of f.blocks b) + 1) (mark_block f live b at r)

-- `(0..locals).filter(…).map(…)`, with the number of locals left.
unfoldable pub collect : Ranges → ℕ → LocalId → List Interval
collect r zero local = []
collect r (suc n) local =
    let rest = collect r n (local + 1) in
    if get_or r.seen local false
    then record { local = local; start = get_or r.first local 0; end = get_or r.last local 0 }
      ∷ rest
    else rest

unfoldable pub no_ranges : ℕ → Ranges
no_ranges locals = record {
  first = replicate locals usize_max;
  last = replicate locals 0;
  seen = replicate locals false;
}

unfoldable pub live_intervals : MirFunction → Cfg → Option (List Interval)
unfolding mark_blocks collect no_ranges liveness
live_intervals f cfg = do
  live ← liveness f cfg
  some (
      collect (mark_blocks f live cfg.reverse_postorder 0 (no_ranges (length f.locals)))
        (length f.locals) 0)
