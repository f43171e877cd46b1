-- ===== src/Opt/MergeBack.antt =====
-- crates/slopic-core/src/opt.rs: `merge_linear_chains` adds nothing to what a function can do.
use slopium.Base.{
  ℕ, zero, suc, ◌<◌, ◌≡◌, ◌≢◌, inl, inr, refl, sym, ◌∙◌, ap, subst, Bool, true, false, Option, some,
  List, [], ◌∷◌, ◌++◌, append_assoc, length, In, Option-cases, eq-or-ne,
}
use slopium.Mir.{LocalId, BlockId, Instruction, MirFunction}
use slopium.Cfg.DefUse.{successors}
use slopium.Cfg.Graph.{new}
use slopium.Cfg.Liveness.{code_of, terminator_of}
use slopium.Opt.Fold.{Floats}
use slopium.Opt.ConstantsCorrect.{Env}
use slopium.Opt.Execution
use slopium.Opt.Execution.{
  result_of, Comes, start, step, Returns, Outcome, Executes, Takes, Takes-targets, Refines, events,
}
use slopium.Opt.Simplify.{find_merge, merge_from, goto_count, emptied, merge_linear_chains}
use slopium.Opt.Mergeable.{IsMerge, find_merge-IsMerge, merged-lower, merged-other, length-merged}
use slopium.Opt.Merge.{
  code_of-same, terminator_of-same, keep-append, merged, code_of-upper, terminator_of-upper,
  goes_on, not_target,
}
use slopium.Opt.Blocks.{terminator_of-at}
use slopium.Opt.Thread.{IsClosed}
use slopium.Opt.ThreadBack.{targets_of-successors}

-- A run through two pieces of code has a middle.
record Splits (fl : Floats) (is js : List Instruction) (e e' : Env) : Type 0 where
  middle : Env
  first : Executes fl is e middle
  second : Executes fl js middle e'

Executes-Splits :
    {fl : Floats} (is js : List Instruction) {e e' : Env}
    → Executes fl (is ++ js) e e'
    → Splits fl is js e e'
Executes-Splits [] js {e} {e'} x = record { middle = e; first = Execution.done e; second = x }
Executes-Splits (_ ∷ is) js (Execution.next i e e' reads runs x) =
    let s = Executes-Splits is js x in
    record {
      middle = s.middle;
      first = Execution.next i e e' reads runs s.first;
      second = s.second;
    }

module _ (fl : Floats) (f : MirFunction) (closed : IsClosed f.blocks) (block target : BlockId)
    (m : IsMerge f block target) where
  abbrev whole : MirFunction
  whole = merged fl f block target m

  joined-events :
      (trace : List Instruction)
      → trace ++ events (code_of f.blocks block) ++ events (code_of f.blocks target)
        ≡ trace ++ events (code_of whole.blocks block)
  joined-events trace =
      append_assoc trace (events (code_of f.blocks block)) (events (code_of f.blocks target))
      ∙ ap (λ is. trace ++ is)
          (sym (
            ap events (code_of-upper fl f block target m)
            ∙ keep-append Execution.is_event (code_of f.blocks block) (code_of f.blocks target)))

  -- From the first block the old function goes on to the second.
  pass_on :
      {e e' : Env} {trace : List Instruction}
      → Comes fl f block e trace
      → Executes fl (code_of f.blocks block) e e'
      → Comes fl f target e' (trace ++ events (code_of f.blocks block))
  pass_on {e} {e'} there x =
      let takes : Takes e' (terminator_of f.blocks block) target =
        subst (λ u. Takes e' u target) (sym (goes_on fl f block target m)) refl in
      step there x takes (closed block target (Takes-targets f.blocks block target e' takes))

  -- The old function comes to the same block, which is not the emptied one.
  record Back (b : BlockId) (e : Env) (trace : List Instruction) : Type 0 where
    away : b ≢ target
    comes : Comes fl f b e trace

  step-Back :
      {b c : BlockId} {e e' : Env} {trace : List Instruction}
      → Back b e trace
      → Executes fl (code_of whole.blocks b) e e'
      → Takes e' (terminator_of whole.blocks b) c
      → Back c e' (trace ++ events (code_of whole.blocks b))
  step-Back {b} {c} {e} {e'} {trace} h x t = elim (eq-or-ne b block) [
    | inr nb ↦
        let same = merged-other f block target m b nb h.away in
        let code = code_of-same whole.blocks f.blocks b same in
        let takes = subst (λ u. Takes e' u c) (terminator_of-same whole.blocks f.blocks b same) t in
        record {
          away = not_target fl f block target m b c e' nb takes;
          comes =
              subst (λ is. Comes fl f c e' (trace ++ events is)) (sym code)
                (step h.comes (subst (λ is. Executes fl is e e') code x) takes
                  (closed b c (Takes-targets f.blocks b c e' takes)));
        }
    | inl at ↦
        let split = Executes-Splits (code_of f.blocks block) (code_of f.blocks target) (
          subst (λ is. Executes fl is e e')
            (ap (code_of whole.blocks) at ∙ code_of-upper fl f block target m) x) in
        let takes =
          subst (λ u. Takes e' u c)
            (ap (terminator_of whole.blocks) at ∙ terminator_of-upper fl f block target m) t in
        record {
          away = not_target fl f block target m target c e' m.apart takes;
          comes =
              subst (λ tr. Comes fl f c e' tr)
                (joined-events trace ∙ ap (λ k. trace ++ events (code_of whole.blocks k)) (sym at))
                (step (pass_on (subst (λ k. Comes fl f k e trace) at h.comes) split.first)
                  split.second takes (closed target c (Takes-targets f.blocks target c e' takes)));
        }
  ]

  Comes-Back :
      {b : BlockId} {e : Env} {trace : List Instruction} → Comes fl whole b e trace → Back b e trace
  Comes-Back (start e s) = record { away = λ q. m.not_entry (sym q); comes = start e s }
  Comes-Back (step there x t lt) = step-Back (Comes-Back there) x t

  Returns-Back :
      {b : BlockId} {o : Option LocalId} {e : Env} {trace : List Instruction}
      → Returns fl whole b o e trace
      → (r : BlockId) × Returns fl f r o e trace
  Returns-Back {b} {o} {e} {trace} h = elim (eq-or-ne b block) [
    | inr nb ↦
        let back = Comes-Back h.comes in
        let same = merged-other f block target m b nb back.away in
        let code = code_of-same whole.blocks f.blocks b same in
        (
          b,
          record {
            before = h.before;
            earlier = h.earlier;
            comes = back.comes;
            executes = subst (λ is. Executes fl is h.before e) code h.executes;
            ends = sym (terminator_of-same whole.blocks f.blocks b same) ∙ h.ends;
            traced = h.traced ∙ ap (λ is. h.earlier ++ events is) code;
          },
        )
    | inl at ↦
        let back = Comes-Back h.comes in
        let split = Executes-Splits (code_of f.blocks block) (code_of f.blocks target) (
          subst (λ is. Executes fl is h.before e)
            (ap (code_of whole.blocks) at ∙ code_of-upper fl f block target m) h.executes) in
        (
          target,
          record {
            before = split.middle;
            earlier = h.earlier ++ events (code_of f.blocks block);
            comes =
                pass_on (subst (λ k. Comes fl f k h.before h.earlier) at back.comes) split.first;
            executes = split.second;
            ends =
                sym (ap (terminator_of whole.blocks) at ∙ terminator_of-upper fl f block target m)
                ∙ h.ends;
            traced =
                h.traced
                ∙ ap (λ k. h.earlier ++ events (code_of whole.blocks k)) at
                ∙ sym (joined-events h.earlier);
          },
        )
  ]

  merged-Refined : Refines fl whole f
  merged-Refined word trace out =
      let (r, back) = Returns-Back out.returns in
      record {
        block = r;
        operand = out.operand;
        words = out.words;
        returns = back;
        value = out.value;
      }

  merged-IsClosed : IsClosed whole.blocks
  unfolding successors
  merged-IsClosed b t i =
      let there = subst (In t) (targets_of-successors whole.blocks b) i in
      let inside : t < length f.blocks = elim (eq-or-ne b block) [
        | inl at ↦ closed target t (
            subst (In t)
              (ap (λ k. successors (terminator_of whole.blocks k)) at
                ∙ ap successors (terminator_of-upper fl f block target m)
                ∙ sym (targets_of-successors f.blocks target))
              there)
        | inr nb ↦ elim (eq-or-ne b target) [
          | inl at ↦ absurd (
              subst (λ u. In t (successors u))
                (ap (terminator_of whole.blocks) at
                  ∙ terminator_of-at whole.blocks target (emptied m.lower)
                      (merged-lower f block target m))
                there)
          | inr nt ↦ closed b t (
              subst (In t)
                (ap successors (
                    terminator_of-same whole.blocks f.blocks b
                      (merged-other f block target m b nb nt))
                  ∙ sym (targets_of-successors f.blocks b))
                there)
        ]
      ] in
      subst (λ n. t < n) (sym (length-merged f block target m)) inside

-- The merged function is closed, and does only what the given one does.
abbrev pub Merged : Floats → MirFunction → MirFunction → Type 0
Merged fl f g = Refines fl g f × IsClosed g.blocks

merge_from-Merged :
    (fl : Floats) (fuel : ℕ) (changed : Bool) (f g : MirFunction) (c : Bool)
    → IsClosed f.blocks
    → merge_from fuel changed f ≡ some (g, c)
    → Merged fl f g
unfolding merge_from
merge_from-Merged fl zero changed f g c closed = λ h. absurd cc
merge_from-Merged fl (suc fuel) changed f g c closed =
    elim (Option-cases (find_merge f (new f) (length f.blocks) 0)) [
      | inl q ↦
          rw (q, merge_from)
            (λ h. subst (Merged fl f) (result_of h) ((λ word trace out. out), closed))
      | inr ((block, target), q) ↦
          let m = find_merge-IsMerge f (length f.blocks) 0 block target q in
          rw (q, merge_from)
            (λ h.
              let (back, inside) =
                merge_from-Merged fl fuel true (merged fl f block target m) g c
                  (merged-IsClosed fl f closed block target m) h in
              (
                (λ word trace out.
                    merged-Refined fl f closed block target m word trace (back word trace out)),
                inside,
              ))
    ]

pub merge_linear_chains-Merged :
    (fl : Floats) (f g : MirFunction) (c : Bool)
    → IsClosed f.blocks
    → merge_linear_chains f ≡ some (g, c)
    → Merged fl f g
unfolding merge_linear_chains
merge_linear_chains-Merged fl f g c = merge_from-Merged fl (suc (goto_count f.blocks)) false f g c
