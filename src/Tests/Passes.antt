-- ===== src/Tests/Passes.antt =====
-- The theorems on the passes of crates/slopic-core/src/opt.rs and on crates/slopic-core/src/verify.rs,
-- at a sum of two constants and at the counting loop.
use slopium.Base.{◌<◌, ◌≡◌, ◌↔◌, refl, true, some, List, [], ◌∷◌, arith, length, In}
use slopium.Base.Int.{pos}
use slopium.Mir.{
  LocalId, BlockId, BasicBlock, MirFunction, const_int, const_bool, binary, add, return, branch,
  i64,
}
use slopium.Cfg.DefUse.{successors, defs, uses, terminator_uses}
use slopium.Cfg.Liveness.{code_of, terminator_of}
use slopium.Cfg.Graph.{new, predecessors_of, targets_of}
use slopium.Opt.Constants.{propagate_constants_within}
use slopium.Opt.Propagate.{IsFaithful, propagate_constants-IsFaithful}
use slopium.Opt.Simplify.{merge_linear_chains, simplify_cfg}
use slopium.Opt.Thread.{IsClosed}
use slopium.Opt.Merge.{Merges, merge_linear_chains-Merges}
use slopium.Opt.Entry.{simplify_cfg-entry}
use slopium.Opt.SimplifyCorrect.{Simplifies, simplify_cfg-Simplifies}
use slopium.Cfg.Edges.{predecessors_of-In}
use slopium.Verify.{verify_function, check_block_targets}
use slopium.Verify.Definedness.{Complaint, all, any, check_initialization}
use slopium.Verify.Initialized.{IsInitialized, check_initialization-IsInitialized}
use slopium.Verify.Lenient.{IsDefined, check_initialization-IsDefined}
use slopium.Verify.Shape.{IsWellFormed, verify_function-IsWellFormed, check_block_targets_iff}
use slopium.Tests.{here, at_here, counting, no_floats}

-- `return 5 + 6`
abbrev summing : MirFunction
summing = record counting {
  blocks =
      record {
        statements =
            at_here (const_int 0 (pos 5))
            ∷ at_here (const_int 1 (pos 6))
            ∷ at_here (binary 2 add 0 1 i64)
            ∷ [];
        terminator = return (some 2);
        terminator_span = here;
      }
      ∷ [];
}

abbrev summed : MirFunction
summed = record counting {
  blocks =
      record {
        statements =
            at_here (const_int 0 (pos 5))
            ∷ at_here (const_int 1 (pos 6))
            ∷ at_here (const_int 2 (pos 11))
            ∷ [];
        terminator = return (some 2);
        terminator_span = here;
      }
      ∷ [];
}

propagate_constants-IsFaithful_example : IsFaithful no_floats summing summed
unfolding propagate_constants_within new successors
propagate_constants-IsFaithful_example =
    propagate_constants-IsFaithful no_floats summing summed 2 true (omega arith) refl

counting-IsClosed : (counting.entry < length counting.blocks) × IsClosed counting.blocks
unfolding check_block_targets successors
counting-IsClosed = (check_block_targets_iff counting).0 refl

simplify_cfg-Simplifies_example : Simplifies no_floats counting (simplify_cfg counting)
simplify_cfg-Simplifies_example =
    simplify_cfg-Simplifies no_floats counting counting-IsClosed.0 counting-IsClosed.1

-- Nothing leads to the second of four blocks.
abbrev ending : LocalId → BasicBlock
ending l = record { statements = []; terminator = return (some l); terminator_span = here }

abbrev forking : BlockId → BlockId → BasicBlock
forking a b = record {
  statements = at_here (const_bool 2 true) ∷ [];
  terminator = branch 2 a b;
  terminator_span = here;
}

abbrev with_unreachable : MirFunction
with_unreachable = record counting { blocks = forking 2 3 ∷ ending 0 ∷ ending 0 ∷ ending 1 ∷ [] }

abbrev renumbered : MirFunction
renumbered = record counting { blocks = forking 1 2 ∷ ending 0 ∷ ending 1 ∷ [] }

simplify_cfg-entry_example : renumbered.entry ≡ 0
unfolding simplify_cfg new successors
simplify_cfg-entry_example =
    simplify_cfg-entry with_unreachable renumbered true refl (omega arith) refl

merge_linear_chains-Merges_example : Merges no_floats counting (merge_linear_chains counting)
merge_linear_chains-Merges_example = merge_linear_chains-Merges no_floats counting

predecessors_of-In_example :
    In 2 (predecessors_of (new counting) 1) ↔ In 1 (targets_of counting.blocks 2)
predecessors_of-In_example = predecessors_of-In counting 2 1 (omega arith)

check_initialization-IsInitialized_example :
    (cs : List Complaint) × (check_initialization counting (new counting) all ≡ some cs)
    × (cs ≡ [] → IsInitialized counting)
check_initialization-IsInitialized_example =
    check_initialization-IsInitialized counting (omega arith)

check_initialization-IsDefined_example :
    (cs : List Complaint) × (check_initialization counting (new counting) any ≡ some cs)
    × (cs ≡ [] → IsDefined counting)
check_initialization-IsDefined_example = check_initialization-IsDefined counting (omega arith)

verify_function-IsWellFormed_example :
    (cs : List Complaint) × (verify_function counting ≡ some cs) × (cs ≡ [] → IsWellFormed counting)
verify_function-IsWellFormed_example = verify_function-IsWellFormed counting

check_block_targets_iff_example :
    (check_block_targets counting ≡ [])
    ↔ ((counting.entry < length counting.blocks) × IsClosed counting.blocks)
check_block_targets_iff_example = check_block_targets_iff counting

-- The strict check and the verifier have no complaint about the loop.
accepted_test :
    (check_initialization counting (new counting) all ≡ some [])
    × (verify_function counting ≡ some [])
unfolding check_initialization verify_function new successors code_of terminator_of defs uses
    terminator_uses
accepted_test = (refl, refl)
