-- ===== src/Opt/Entry.antt =====
-- crates/slopic-core/src/opt.rs: `simplify_cfg` keeps the entry in front, as code generation requires.
use slopium.Base.{
  ℕ, zero, suc, ◌<◌, ◌≡◌, inl, inr, refl, ◌∙◌, ap, subst, Bool, true, false, some, length,
  Bool-cases, arith,
}
use slopium.Mir.{MirFunction}
use slopium.Cfg.Graph.{Cfg, new, is_reachable}
use slopium.Cfg.Reach.{here}
use slopium.Cfg.Correct.{is_reachable-iff-path}
use slopium.Opt.Execution.{result_of}
use slopium.Opt.Fold.{Floats}
use slopium.Opt.Simplify.{
  thread_gotos, mapping_from, renumber, all_kept, remove_unreachable_blocks, simplify_cfg,
}
use slopium.Opt.Thread.{length-thread_gotos, entry-thread_gotos}
use slopium.Opt.Merge.{merge_linear_chains-Merges}

first_slot :
    (cfg : Cfg) (count : ℕ)
    → 0 < count
    → is_reachable cfg 0 ≡ true
    → renumber (mapping_from cfg count 0 0) 0 ≡ 0
unfolding mapping_from renumber
first_slot cfg zero lt r = absurd (omega arith)
first_slot cfg (suc count) lt r = rw (r, mapping_from, renumber) refl

remove-entry :
    (f : MirFunction)
    → f.entry ≡ 0
    → f.entry < length f.blocks
    → (remove_unreachable_blocks f).0.entry ≡ 0
unfolding remove_unreachable_blocks
remove-entry f first inside =
    let marked = (is_reachable-iff-path f inside f.entry).0.1 here in
    elim (Bool-cases (all_kept (mapping_from (new f) (length f.blocks) 0 0))) [
      | inl q ↦ rw (q, remove_unreachable_blocks) first
      | inr q ↦
          rw (q, remove_unreachable_blocks)
            (ap (renumber (mapping_from (new f) (length f.blocks) 0 0)) first
              ∙ first_slot (new f) (length f.blocks) (subst (λ n. n < length f.blocks) first inside)
                  (subst (λ n. is_reachable (new f) n ≡ true) first marked))
    ]

-- The merging does not look at floats.
abbrev some_floats : Floats
some_floats = record {
  plus = λ a b. a;
  minus = λ a b. a;
  times = λ a b. a;
  over = λ a b. a;
  lt = λ a b. false;
  le = λ a b. false;
  eq = λ a b. false;
  ne = λ a b. false;
}

-- A function with blocks that starts at block 0 still starts at block 0 when it has been simplified,
-- although the blocks may have new numbers.
pub simplify_cfg-entry :
    (f g : MirFunction) (changed : Bool)
    → f.entry ≡ 0
    → 0 < length f.blocks
    → simplify_cfg f ≡ some (g, changed)
    → g.entry ≡ 0
unfolding simplify_cfg
simplify_cfg-entry f g changed first some_block =
    let f1 = (thread_gotos f).0 in
    let (f2, merged, ends, refines, entry, size) = merge_linear_chains-Merges some_floats f1 in
    let first2 : f2.entry ≡ 0 = entry ∙ entry-thread_gotos f ∙ first in
    let inside2 : f2.entry < length f2.blocks =
      omega (arith, first2, size, length-thread_gotos f) in
    rw (ends, simplify_cfg)
      (λ h. subst (λ (k : MirFunction). k.entry ≡ 0) (result_of h) (remove-entry f2 first2 inside2))
