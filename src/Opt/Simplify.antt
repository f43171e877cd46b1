-- ===== src/Opt/Simplify.antt =====
-- crates/slopic-core/src/opt.rs: `simplify_cfg` and its three passes over the graph.
-- A target out of range keeps its place here, where the source would panic.
use slopium.Base.{
  ℕ, zero, suc, ◌+◌, Bool, true, false, ◌&&◌, ◌||◌, not, Option, none, some, List, [], ◌∷◌, ◌++◌,
  map, ◌==◌, if◌then◌else◌, length, get_or, get_elem?, set,
}
use slopium.Mir.{BlockId, Terminator, goto, branch, unreachable, Statement, BasicBlock, MirFunction}
use slopium.Cfg.Graph.{Cfg, new, is_reachable, predecessors_of}
use slopium.Cfg.Liveness.{terminator_of}

-- The next block of an empty block that goes on elsewhere.
unfoldable pub onward : BlockId → List Statement → Terminator → Option BlockId
onward target [] (goto next) = if next == target then none else some next
onward target _ _ = none

-- The loop of `resolve`, with the rounds that are left.
unfoldable pub resolve : List BasicBlock → ℕ → BlockId → BlockId
unfolding onward
resolve blocks zero target = target
resolve blocks (suc rounds) target = elim (get_elem? blocks target) [
  | none ↦ target
  | some b ↦ elim (onward target b.statements b.terminator) [
    | none ↦ target
    | some next ↦ resolve blocks rounds next
  ]
]

unfoldable pub thread : List BasicBlock → Terminator → Terminator
unfolding resolve
thread blocks (goto target) = goto (resolve blocks (length blocks) target)
thread blocks (branch condition then_block else_block) =
    branch condition (resolve blocks (length blocks) then_block)
      (resolve blocks (length blocks) else_block)
thread blocks t = t

unfoldable pub is_threaded : List BasicBlock → Terminator → Bool
unfolding resolve
is_threaded blocks (goto target) = not (resolve blocks (length blocks) target == target)
is_threaded blocks (branch condition then_block else_block) =
    not (resolve blocks (length blocks) then_block == then_block)
    || not (resolve blocks (length blocks) else_block == else_block)
is_threaded blocks t = false

unfoldable pub any_threaded : List BasicBlock → List BasicBlock → Bool
unfolding is_threaded
any_threaded blocks [] = false
any_threaded blocks (b ∷ bs) = is_threaded blocks b.terminator || any_threaded blocks bs

unfoldable pub thread_block : List BasicBlock → BasicBlock → BasicBlock
unfolding thread
thread_block blocks b = record b { terminator = thread blocks b.terminator }

unfoldable pub thread_gotos : MirFunction → MirFunction × Bool
unfolding thread_block any_threaded
thread_gotos f =
    (record f { blocks = map (thread_block f.blocks) f.blocks }, any_threaded f.blocks f.blocks)

-- Whether the block's only predecessor is the other one.
unfoldable pub is_only : BlockId → List BlockId → Bool
is_only block (p ∷ []) = p == block
is_only block _ = false

abbrev pub goto_target : Terminator → Option BlockId
goto_target (goto target) = some target
goto_target _ = none

unfoldable pub takes_in : MirFunction → Cfg → BlockId → BlockId → Bool
unfolding is_only predecessors_of
takes_in f cfg block target =
    not (target == block || target == f.entry) && is_only block (predecessors_of cfg target)

-- The target that the block may take in.
unfoldable pub mergeable : MirFunction → Cfg → BlockId → Option BlockId
unfolding is_reachable terminator_of takes_in
mergeable f cfg block =
    if is_reachable cfg block
    then elim (goto_target (terminator_of f.blocks block)) [
      | none ↦ none
      | some target ↦ if takes_in f cfg block target then some target else none
    ]
    else none

-- The first of the blocks from `block` on that takes in another, with `count` left to look at.
unfoldable pub find_merge : MirFunction → Cfg → ℕ → BlockId → Option (BlockId × BlockId)
unfolding mergeable
find_merge f cfg zero block = none
find_merge f cfg (suc count) block =
    let rest = find_merge f cfg count (suc block) in
    elim (mergeable f cfg block) [ some target ↦ some (block, target) | none ↦ rest ]

-- What becomes of the two blocks.
abbrev pub joined : BasicBlock → BasicBlock → BasicBlock
joined b t = record b {
  statements = b.statements ++ t.statements;
  terminator = t.terminator;
  terminator_span = t.terminator_span;
}

abbrev pub emptied : BasicBlock → BasicBlock
emptied t = record t { statements = []; terminator = unreachable }

unfoldable pub merge_blocks : List BasicBlock → BlockId → BlockId → List BasicBlock
merge_blocks blocks block target = elim (get_elem? blocks block) [
  | none ↦ blocks
  | some b ↦ elim (get_elem? blocks target) [
    | none ↦ blocks
    | some t ↦ set (set blocks block (joined b t)) target (emptied t)
  ]
]

unfoldable pub merge_from : ℕ → Bool → MirFunction → Option (MirFunction × Bool)
unfolding find_merge merge_blocks new
merge_from zero changed f = none
merge_from (suc fuel) changed f = elim (find_merge f (new f) (length f.blocks) 0) [
  | none ↦ some (f, changed)
  | some (block, target) ↦
      merge_from fuel true (record f { blocks = merge_blocks f.blocks block target })
]

abbrev pub goes : Terminator → ℕ
goes (goto _) = 1
goes _ = 0

-- Each merge takes one `goto` away.
unfoldable pub goto_count : List BasicBlock → ℕ
goto_count [] = 0
goto_count (b ∷ bs) = goes b.terminator + goto_count bs

unfoldable pub merge_linear_chains : MirFunction → Option (MirFunction × Bool)
unfolding merge_from goto_count
merge_linear_chains f = merge_from (suc (goto_count f.blocks)) false f

-- The new number of each block from `block` on: the count of the kept ones before it.
unfoldable pub mapping_from : Cfg → ℕ → BlockId → ℕ → List (Option BlockId)
unfolding is_reachable
mapping_from cfg zero block next = []
mapping_from cfg (suc count) block next =
    if is_reachable cfg block
    then some next ∷ mapping_from cfg count (suc block) (suc next)
    else none ∷ mapping_from cfg count (suc block) next

unfoldable pub renumber : List (Option BlockId) → BlockId → BlockId
renumber mapping block = elim (get_or mapping block none) [ some b ↦ b | none ↦ block ]

unfoldable pub remap : List (Option BlockId) → Terminator → Terminator
unfolding renumber
remap mapping (goto target) = goto (renumber mapping target)
remap mapping (branch condition then_block else_block) =
    branch condition (renumber mapping then_block) (renumber mapping else_block)
remap mapping t = t

unfoldable pub keep_reachable :
    List (Option BlockId) → List (Option BlockId) → List BasicBlock → List BasicBlock
unfolding remap
keep_reachable mapping (some _ ∷ slots) (b ∷ bs) =
    record b { terminator = remap mapping b.terminator } ∷ keep_reachable mapping slots bs
keep_reachable mapping (none ∷ slots) (b ∷ bs) = keep_reachable mapping slots bs
keep_reachable mapping _ _ = []

unfoldable pub all_kept : List (Option BlockId) → Bool
all_kept [] = true
all_kept (some _ ∷ slots) = all_kept slots
all_kept (none ∷ slots) = false

unfoldable pub remove_unreachable_blocks : MirFunction → MirFunction × Bool
unfolding mapping_from all_kept renumber keep_reachable new
remove_unreachable_blocks f =
    let mapping = mapping_from (new f) (length f.blocks) 0 0 in
    if all_kept mapping then (f, false) else (
      record f {
        entry = renumber mapping f.entry;
        blocks = keep_reachable mapping mapping f.blocks;
      },
      true,
    )

unfoldable pub simplify_cfg : MirFunction → Option (MirFunction × Bool)
unfolding thread_gotos merge_linear_chains remove_unreachable_blocks
simplify_cfg f =
    let (f1, threaded) = thread_gotos f in
    elim (merge_linear_chains f1) [
      | none ↦ none
      | some (f2, merged) ↦
          let (f3, dropped) = remove_unreachable_blocks f2 in
          some (f3, threaded || merged || dropped)
    ]
