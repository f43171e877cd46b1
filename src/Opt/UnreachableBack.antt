-- ===== src/Opt/UnreachableBack.antt =====
-- crates/slopic-core/src/opt.rs: `remove_unreachable_blocks` adds nothing to what a function can do.
use slopium.Base.{
  ◌<◌, ◌≡◌, inl, inr, refl, sym, ◌∙◌, ap, subst, Option, List, ◌++◌, length, Bool-cases,
}
use slopium.Mir.{
  LocalId, BlockId, Instruction, Terminator, return, goto, branch, unreachable, MirFunction,
}
use slopium.Cfg.Graph.{new}
use slopium.Cfg.Liveness.{code_of, terminator_of}
use slopium.Opt.Fold.{Floats}
use slopium.Opt.ConstantsCorrect.{Env}
use slopium.Opt.Execution.{Comes, start, step, Executes, Takes, Takes-targets, Refines, events}
use slopium.Opt.Simplify.{mapping_from, renumber, remap, all_kept, remove_unreachable_blocks}
use slopium.Opt.Thread.{IsClosed}
use slopium.Opt.Unreachable.{
  new_numbers, kept, Stands, Comes-Stands, Stands-code_of, Stands-terminator_of,
}

remap-return :
    (mapping : List (Option BlockId)) (t : Terminator) (o : Option LocalId)
    → remap mapping t ≡ return o
    → t ≡ return o
unfolding remap
remap-return mapping (return x) o h = h
remap-return mapping (goto x) o h = cc
remap-return mapping (branch x y z) o h = cc
remap-return mapping unreachable o h = h

remap-Takes :
    (mapping : List (Option BlockId)) (e : Env) (t : Terminator) (r : BlockId)
    → Takes e (remap mapping t) r
    → (c : BlockId) × Takes e t c × (renumber mapping c ≡ r)
unfolding remap
remap-Takes mapping e (goto t) r h = (t, refl, h)
remap-Takes mapping e (branch cond t u) r (inl h) = (t, inl (h.0, refl), h.1)
remap-Takes mapping e (branch cond t u) r (inr h) = (u, inr (h.0, refl), h.1)
remap-Takes mapping e (return o) r h = absurd h
remap-Takes mapping e unreachable r h = absurd h

module _ (fl : Floats) (f : MirFunction) (inside : f.entry < length f.blocks)
    (closed : IsClosed f.blocks) where
  abbrev rest : MirFunction
  rest = kept fl f inside

  abbrev name_of : BlockId → BlockId
  name_of = renumber (new_numbers fl f inside)

  -- The block that an execution of the new function is at, under its old number.
  record Origin (r : BlockId) (e : Env) (trace : List Instruction) : Type 0 where
    block : BlockId
    named : name_of block ≡ r
    comes : Comes fl f block e trace

  code_back :
      (b r : BlockId)
      → Stands fl f inside b
      → name_of b ≡ r
      → code_of rest.blocks r ≡ code_of f.blocks b
  code_back b r s e = ap (code_of rest.blocks) (sym e) ∙ Stands-code_of fl f inside b s

  terminator_back :
      (b r : BlockId)
      → Stands fl f inside b
      → name_of b ≡ r
      → terminator_of rest.blocks r ≡ remap (new_numbers fl f inside) (terminator_of f.blocks b)
  terminator_back b r s e =
      ap (terminator_of rest.blocks) (sym e) ∙ Stands-terminator_of fl f inside b s

  Comes-Origin :
      {r : BlockId} {e : Env} {trace : List Instruction}
      → Comes fl rest r e trace
      → Origin r e trace
  Comes-Origin (start e s) = record { block = f.entry; named = refl; comes = start e s }
  Comes-Origin (step {b = r} {c = q} {e = e} {e' = e'} {trace = trace} there x t lt) =
      let h = Comes-Origin there in
      let s = Comes-Stands fl f inside h.comes in
      let code = code_back h.block r s h.named in
      let (c, takes, named) =
        remap-Takes (new_numbers fl f inside) e' (terminator_of f.blocks h.block) q
          (subst (λ u. Takes e' u q) (terminator_back h.block r s h.named) t) in
      record {
        block = c;
        named = named;
        comes =
            subst (λ is. Comes fl f c e' (trace ++ events is)) (sym code)
              (step h.comes (subst (λ is. Executes fl is e e') code x) takes
                (closed h.block c (Takes-targets f.blocks h.block c e' takes)));
      }

  kept-Refined : Refines fl rest f
  kept-Refined word trace out =
      let back = out.returns in
      let h = Comes-Origin back.comes in
      let s = Comes-Stands fl f inside h.comes in
      let code = code_back h.block out.block s h.named in
      record {
        block = h.block;
        operand = out.operand;
        words = out.words;
        returns = record {
          before = back.before;
          earlier = back.earlier;
          comes = h.comes;
          executes = subst (λ is. Executes fl is back.before out.words) code back.executes;
          ends =
              remap-return (new_numbers fl f inside) (terminator_of f.blocks h.block) out.operand
                (sym (terminator_back h.block out.block s h.named) ∙ back.ends);
          traced = back.traced ∙ ap (λ is. back.earlier ++ events is) code;
        };
        value = out.value;
      }

pub remove_unreachable_blocks-Refined :
    (fl : Floats) (f : MirFunction)
    → f.entry < length f.blocks
    → IsClosed f.blocks
    → Refines fl (remove_unreachable_blocks f).0 f
unfolding remove_unreachable_blocks
remove_unreachable_blocks-Refined fl f inside closed =
    elim (Bool-cases (all_kept (mapping_from (new f) (length f.blocks) 0 0))) [
      | inl q ↦ rw (q, remove_unreachable_blocks) (λ word trace out. out)
      | inr q ↦ rw (q, remove_unreachable_blocks) (kept-Refined fl f inside closed)
    ]
