-- ===== src/Cfg/Liveness.antt =====
-- crates/slopic-core/src/cfg.rs: backward liveness, iterated to a fixpoint.
use slopium.Base.{
  ℕ, zero, suc, ◌+◌, ◌*◌, Bool, true, false, ◌||◌, not, Option, none, some, List, [], ◌∷◌,
  if◌then◌else◌, length, get_elem?, get_or, set, replicate,
}
use slopium.Mir.{
  BlockId, LocalId, Instruction, Terminator, unreachable, BasicBlock, instructions, MirFunction,
}
use slopium.Cfg.DefUse.{defs, uses, terminator_uses}
use slopium.Cfg.Graph.{Cfg, targets_of}
use slopium.Cfg.Sets.{or_into, eq_flags}

pub record Liveness : Type 0 where
  pub live_in : List (List Bool)
  pub live_out : List (List Bool)

unfoldable pub lookup : List (List Bool) → BlockId → LocalId → Bool
lookup sets block local = get_or (get_or sets block []) local false

unfoldable pub is_live_in : Liveness → BlockId → LocalId → Bool
unfolding lookup
is_live_in l = lookup l.live_in

unfoldable pub is_live_out : Liveness → BlockId → LocalId → Bool
unfolding lookup
is_live_out l = lookup l.live_out

-- `set_live(set, local, live)` writes where the local is one of the function's.
unfoldable pub set_live : List Bool → LocalId → Bool → List Bool
set_live = set

unfoldable pub add_uses : List LocalId → List Bool → List Bool
unfolding set_live
add_uses [] live = live
add_uses (l ∷ ls) live = add_uses ls (set_live live l true)

unfoldable pub clear_def : Option LocalId → List Bool → List Bool
unfolding set_live
clear_def none live = live
clear_def (some l) live = set_live live l false

-- One statement backwards: the write is cleared before the reads are added.
unfoldable pub before : Instruction → List Bool → List Bool
unfolding add_uses clear_def
before i live = add_uses (uses i) (clear_def (defs i) live)

-- The statements of a block, last to first.
unfoldable pub backwards : List Instruction → List Bool → List Bool
unfolding before
backwards [] live = live
backwards (i ∷ is) live = before i (backwards is live)

-- The union of the live-in sets of the targets; a target that is not there adds nothing.
unfoldable pub union_of : List (List Bool) → List BlockId → List Bool → List Bool
union_of live_in [] out = out
union_of live_in (t ∷ ts) out = union_of live_in ts (or_into out (get_or live_in t []))

unfoldable pub code_of : List BasicBlock → BlockId → List Instruction
unfolding instructions
code_of blocks block = elim (get_elem? blocks block) [ none ↦ [] | some b ↦ instructions b ]

unfoldable pub terminator_of : List BasicBlock → BlockId → Terminator
terminator_of blocks block = elim (get_elem? blocks block) [
  | none ↦ unreachable
  | some b ↦ b.terminator
]

module _ (blocks : List BasicBlock) (locals : ℕ) where
  unfoldable pub out_set : List (List Bool) → BlockId → List Bool
  unfolding union_of targets_of
  out_set live_in block = union_of live_in (targets_of blocks block) (replicate locals false)

  unfoldable pub in_set : List (List Bool) → BlockId → List Bool
  unfolding backwards add_uses
  in_set live_in block =
      backwards (code_of blocks block)
        (add_uses (terminator_uses (terminator_of blocks block)) (out_set live_in block))

  -- One block of a round: its sets, and whether they changed.
  unfoldable pub visit_block : BlockId → Liveness → Liveness × Bool
  unfolding in_set out_set eq_flags
  visit_block block l =
      let inside = in_set l.live_in block in
      let out = out_set l.live_in block in
      if not (eq_flags inside (get_or l.live_in block []))
        || not (eq_flags out (get_or l.live_out block []))
      then (
        record { live_in = set l.live_in block inside; live_out = set l.live_out block out },
        true,
      )
      else (l, false)

  unfoldable pub round : List BlockId → Liveness → Bool → Liveness × Bool
  unfolding visit_block
  round [] l changed = (l, changed)
  round (b ∷ bs) l changed = let (l', c) = visit_block b l in round bs l' (changed || c)

  -- `while changed`; `none` means that the fuel ran out.
  unfoldable pub iterate : ℕ → List BlockId → Liveness → Option Liveness
  unfolding round
  iterate zero order l = none
  iterate (suc fuel) order l =
      let (l', changed) = round order l false in
      let rest = iterate fuel order l' in if changed then rest else some l'

-- Each round but the last adds a flag to one of the sets.
abbrev pub liveness_fuel : ℕ → ℕ → ℕ
liveness_fuel blocks locals = 2 * (blocks * locals) + 1

-- `liveness`. The order is the reverse postorder from its end.
unfoldable pub liveness : MirFunction → Cfg → Option Liveness
unfolding iterate
liveness f cfg =
    let blocks = length f.blocks in
    let locals = length f.locals in
    let empty = replicate blocks (replicate locals false) in
    iterate f.blocks locals (liveness_fuel blocks locals)
      (mathlib.Core.List.reverse cfg.reverse_postorder)
      (record { live_in = empty; live_out = empty })
