-- ===== src/Cfg/Graph.antt =====
-- crates/slopic-core/src/cfg.rs: `Cfg::new`, predecessors and the depth-first order of the blocks.
use slopium.Base.{
  ℕ, zero, suc, ◌+◌, ◌*◌, Bool, true, false, ◌&&◌, not, none, some, List, [], ◌∷◌, ◌++◌, ltb,
  if◌then◌else◌, length, get_elem?, get_or, set, replicate,
}
use slopium.Mir.{BlockId, BasicBlock, MirFunction}
use slopium.Cfg.DefUse.{successors}

pub record Cfg : Type 0 where
  pub predecessors : List (List BlockId)
  pub reverse_postorder : List BlockId
  pub reachable : List Bool

-- `successors(&function.blocks[block].terminator)`; a block that is not there has none.
unfoldable pub targets_of : List BasicBlock → BlockId → List BlockId
targets_of blocks block = elim (get_elem? blocks block) [
  | none ↦ []
  | some b ↦ successors b.terminator
]

-- The edges of the block `index` into the table of predecessors.
unfoldable pub add_edges : ℕ → BlockId → List BlockId → List (List BlockId) → List (List BlockId)
add_edges count index [] preds = preds
add_edges count index (target ∷ rest) preds =
    add_edges count index rest
      (if ltb target count then set preds target (get_or preds target [] ++ index ∷ []) else preds)

unfoldable pub all_edges : ℕ → BlockId → List BasicBlock → List (List BlockId) → List (List BlockId)
unfolding add_edges
all_edges count index [] preds = preds
all_edges count index (b ∷ rest) preds =
    all_edges count (index + 1) rest (add_edges count index (successors b.terminator) preds)

-- The variables of the depth-first search. The top of the stack is its head, and `order` is
-- `postorder` from its end, which is what the source reverses it to.
pub record Search : Type 0 where
  pub stack : List (BlockId × ℕ)
  pub reachable : List Bool
  pub order : List BlockId

-- The search meets `target`.
unfoldable pub visit : ℕ → BlockId → Search → Search
visit count target s =
    if ltb target count && not (get_or s.reachable target false)
    then record {
      stack = (target, 0) ∷ s.stack;
      reachable = set s.reachable target true;
      order = s.order;
    }
    else s

-- One round, for a popped entry above `rest`.
unfoldable pub search_step : List BasicBlock → BlockId → ℕ → List (BlockId × ℕ) → Search → Search
unfolding visit targets_of
search_step blocks block next rest s = elim (get_elem? (targets_of blocks block) next) [
  | some target ↦
      visit (length blocks) target
        (record { stack = (block, next + 1) ∷ rest; reachable = s.reachable; order = s.order })
  | none ↦ record { stack = rest; reachable = s.reachable; order = block ∷ s.order }
]

-- `while let Some((block, next)) = stack.pop()`, with fuel for the rounds.
unfoldable pub search_from : List BasicBlock → ℕ → Search → Search
unfolding search_step
search_from blocks zero s = s
search_from blocks (suc fuel) s = elim s.stack [
  | [] ↦ s
  | (block, next) ∷ rest ↦ search_from blocks fuel (search_step blocks block next rest s)
]

-- A block is on the stack for three rounds at most.
abbrev pub search_fuel : List BasicBlock → ℕ
search_fuel blocks = 3 * length blocks

unfoldable pub search_start : MirFunction → Search
search_start f = record {
  stack = (f.entry, 0) ∷ [];
  reachable = set (replicate (length f.blocks) false) f.entry true;
  order = [];
}

unfoldable pub searched : MirFunction → Search
unfolding search_from search_start
searched f =
    if ltb f.entry (length f.blocks)
    then search_from f.blocks (search_fuel f.blocks) (search_start f)
    else record { stack = []; reachable = replicate (length f.blocks) false; order = [] }

-- `Cfg::new`.
unfoldable pub new : MirFunction → Cfg
unfolding searched all_edges
new f = record {
  predecessors = all_edges (length f.blocks) 0 f.blocks (replicate (length f.blocks) []);
  reverse_postorder = (searched f).order;
  reachable = (searched f).reachable;
}

unfoldable pub predecessors_of : Cfg → BlockId → List BlockId
predecessors_of cfg block = get_or cfg.predecessors block []

unfoldable pub is_reachable : Cfg → BlockId → Bool
is_reachable cfg block = get_or cfg.reachable block false
