-- ===== src/Opt/Dead.antt =====
-- crates/slopic-core/src/opt.rs: `eliminate_dead_code`, what counts as pure, and the volatile count.
use slopium.Base.{
  ℕ, zero, suc, ◌+◌, Bool, true, false, ◌||◌, not, Option, none, some, List, [], ◌∷◌, map, leb,
  ◌==◌, if◌then◌else◌, length, get_or, replicate, keep,
}
use slopium.Mir.{
  Instruction, const_int, const_float, const_bool, string_new, assign, address_of, fn_addr,
  struct_new, field_load, load, field_addr, enum_new, enum_tag, enum_field_load, enum_field_addr,
  volatile_load, volatile_store, Statement, BasicBlock, instructions, MirFunction,
}
use slopium.Cfg.DefUse.{defs, uses, terminator_uses}
use slopium.Cfg.Liveness.{add_uses}

unfoldable pub is_pure : Instruction → Bool
is_pure (const_int _ _) = true
is_pure (const_float _ _) = true
is_pure (const_bool _ _) = true
is_pure (assign _ _) = true
is_pure (address_of _ _) = true
is_pure (field_load _ _ _) = true
is_pure (field_addr _ _ _) = true
is_pure (enum_tag _ _) = true
is_pure (enum_field_load _ _ _) = true
is_pure (enum_field_addr _ _ _) = true
is_pure (load _ _) = true
is_pure (fn_addr _ _) = true
is_pure (string_new _ _) = true
is_pure (struct_new _ _ _) = true
is_pure (enum_new _ _ _ _) = true
is_pure _ = false

unfoldable pub is_volatile : Instruction → Bool
is_volatile (volatile_load _ _ _) = true
is_volatile (volatile_store _ _ _) = true
is_volatile _ = false

unfoldable pub volatile_count : List BasicBlock → ℕ
unfolding is_volatile instructions
volatile_count [] = 0
volatile_count (b ∷ bs) = length (keep is_volatile (instructions b)) + volatile_count bs

-- The loops that collect the locals that something reads, over one block's code and over all blocks.
unfoldable pub mark_reads : List Instruction → List Bool → List Bool
unfolding add_uses
mark_reads [] used = used
mark_reads (i ∷ is) used = mark_reads is (add_uses (uses i) used)

unfoldable pub mark_used : List BasicBlock → List Bool → List Bool
unfolding mark_reads instructions add_uses
mark_used [] used = used
mark_used (b ∷ bs) used =
    mark_used bs (add_uses (terminator_uses b.terminator) (mark_reads (instructions b) used))

unfoldable pub used_locals : MirFunction → List Bool
unfolding mark_used add_uses
used_locals f = add_uses f.params (mark_used f.blocks (replicate (length f.locals) false))

unfoldable pub keeps : List Bool → Statement → Bool
unfolding is_pure
keeps used s = if not (is_pure s.instruction) then true else elim (defs s.instruction) [
  | some dst ↦ leb (length used) dst || get_or used dst false
  | none ↦ true
]

unfoldable pub retain_used : List Bool → BasicBlock → BasicBlock
unfolding keeps
retain_used used b = record {
  statements = keep (keeps used) b.statements;
  terminator = b.terminator;
  terminator_span = b.terminator_span;
}

-- One turn of the loop: the locals that are read, and the blocks without what they do not need.
unfoldable pub sweep : MirFunction → MirFunction
unfolding retain_used used_locals
sweep f = record f { blocks = map (retain_used (used_locals f)) f.blocks }

-- Whether the turn shortened a block.
unfoldable pub removed : List Bool → List BasicBlock → Bool
unfolding retain_used
removed used [] = false
removed used (b ∷ bs) =
    not (length (retain_used used b).statements == length b.statements) || removed used bs

unfoldable pub eliminate : ℕ → Bool → MirFunction → Option (MirFunction × Bool)
unfolding sweep removed used_locals
eliminate zero changed f = none
eliminate (suc fuel) changed f =
    let rest = eliminate fuel true (sweep f) in
    if removed (used_locals f) f.blocks then rest else some (sweep f, changed)

unfoldable pub statement_count : List BasicBlock → ℕ
statement_count [] = 0
statement_count (b ∷ bs) = length b.statements + statement_count bs

unfoldable pub eliminate_dead_code : MirFunction → Option (MirFunction × Bool)
unfolding eliminate statement_count
eliminate_dead_code f = eliminate (suc (statement_count f.blocks)) false f
