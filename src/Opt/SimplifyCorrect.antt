-- ===== src/Opt/SimplifyCorrect.antt =====
-- crates/slopic-core/src/opt.rs: `simplify_cfg` as a whole.
use slopium.Base.{◌<◌, ◌≡◌, ◌↔◌, refl, sym, ◌∙◌, subst, Bool, Option, some, List, length}
use slopium.Mir.{Instruction, MirFunction}
use slopium.Opt.Fold.{Floats, Constant}
use slopium.Opt.Execution.{Outcome}
use slopium.Opt.Simplify.{thread_gotos, remove_unreachable_blocks, simplify_cfg}
use slopium.Opt.Thread.{IsClosed, thread_gotos-Refines, length-thread_gotos, entry-thread_gotos}
use slopium.Opt.ThreadBack.{thread_gotos-Refined, thread_gotos-IsClosed}
use slopium.Opt.Merge.{merge_linear_chains-Merges}
use slopium.Opt.MergeBack.{merge_linear_chains-Merged}
use slopium.Opt.Unreachable.{remove_unreachable_blocks-Refines}
use slopium.Opt.UnreachableBack.{remove_unreachable_blocks-Refined}

-- A call of the one function can return a word after some events just when a call of the other can.
abbrev pub Agrees : Floats → MirFunction → MirFunction → Type 0
Agrees fl f g =
    (word : Option Constant) (trace : List Instruction)
    → Outcome fl f word trace ↔ Outcome fl g word trace

abbrev pub Simplifies : Floats → MirFunction → Option (MirFunction × Bool) → Type 0
Simplifies fl f o = (g : MirFunction) × (changed : Bool) × (o ≡ some (g, changed)) × Agrees fl f g

-- For a function whose entry and targets are blocks of it, the simplification ends, and its result does
-- just what the function does, as far as executions go in which no operation traps and no instruction
-- reads an unwritten local: one of the function can return a word after a sequence of calls, releases,
-- stores and volatile accesses exactly if one of the result can.
pub simplify_cfg-Simplifies :
    (fl : Floats) (f : MirFunction)
    → f.entry < length f.blocks
    → IsClosed f.blocks
    → Simplifies fl f (simplify_cfg f)
unfolding simplify_cfg
simplify_cfg-Simplifies fl f inside closed =
    let f1 = (thread_gotos f).0 in
    let closed1 = thread_gotos-IsClosed f closed in
    let (f2, merged, ends, refines, entry, size) = merge_linear_chains-Merges fl f1 in
    let (refined, closed2) = merge_linear_chains-Merged fl f1 f2 merged closed1 ends in
    let inside2 : f2.entry < length f2.blocks =
      subst (λ n. f2.entry < n) (sym (size ∙ length-thread_gotos f))
        (subst (λ n. n < length f.blocks) (sym (entry ∙ entry-thread_gotos f)) inside) in
    rw (ends, simplify_cfg)
      (
        (remove_unreachable_blocks f2).0,
        _,
        refl,
        λ word trace. (
          (λ out.
              remove_unreachable_blocks-Refines fl f2 inside2 word trace
                (refines word trace (thread_gotos-Refines fl f closed word trace out))),
          (λ out. thread_gotos-Refined fl f closed word trace (
              refined word trace
                (remove_unreachable_blocks-Refined fl f2 inside2 closed2 word trace out))),
        ),
      )
