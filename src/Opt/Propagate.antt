-- ===== src/Opt/Propagate.antt =====
-- crates/slopic-core/src/opt.rs: `propagate_constants_within` as a whole.
use slopium.Base.{
  ℕ, ◌<◌, ◌≡◌, inl, inr, refl, sym, ◌∙◌, ap, subst, Bool, Option, some, List, ◌++◌, max, length,
  Option-cases,
}
use slopium.Mir.{LocalId, BlockId, Instruction, MirFunction}
use slopium.Cfg.Graph.{new}
use slopium.Opt.Fold.{Floats}
use slopium.Opt.Constants.{first_states, entry_states, rewrite_blocks, propagate_constants_within}
use slopium.Opt.ConstantsCorrect.{Env}
use slopium.Opt.Rounds.{States, IsSettled, settle_flow-IsSettled}
use slopium.Opt.Execution.{result_of, Starts, Comes, start, step, Returns}
use slopium.Opt.Known.{Comes-IsKnown, first_states-IsFlow}
use slopium.Opt.Blocks.{length-rewrite_blocks, known-Follows}

-- The rewritten function.
abbrev rewritten : Floats → MirFunction → States → MirFunction
rewritten fl f E = record f { blocks = (rewrite_blocks fl f.blocks E).0 }

module _ (fl : Floats) (f : MirFunction) (lt : f.entry < length f.blocks) (E : States)
    (settled : IsSettled fl f.blocks
      (new f).reverse_postorder
      (length f.locals)
      f.entry
      (Starts f)
      E) where
  Comes-rewritten :
      {b : BlockId} {e : Env} {trace : List Instruction}
      → Comes fl f b e trace
      → Comes fl (rewritten fl f E) b e trace
  Comes-rewritten (start e s) = start e s
  Comes-rewritten (step {b = b} {c = c} {e = e} {e' = e'} {trace = trace} r x t inside) =
      let k = Comes-IsKnown fl f lt E settled r in
      let same = known-Follows fl f.blocks E b k.state e e' k.there k.describes x in
      subst (λ is. Comes fl (rewritten fl f E) c e' (trace ++ is)) same.same_events
        (step (Comes-rewritten r) same.executes (same.takes c t)
          (subst (λ n. c < n) (sym (length-rewrite_blocks fl f.blocks E)) inside))

  Returns-rewritten :
      {b : BlockId} {o : Option LocalId} {e : Env} {trace : List Instruction}
      → Returns fl f b o e trace
      → Returns fl (rewritten fl f E) b o e trace
  Returns-rewritten {b} {o} {e} r =
      let k = Comes-IsKnown fl f lt E settled r.comes in
      let same = known-Follows fl f.blocks E b k.state r.before e k.there k.describes r.executes in
      record {
        before = r.before;
        earlier = r.earlier;
        comes = Comes-rewritten r.comes;
        executes = same.executes;
        ends = same.returns o r.ends;
        traced = r.traced ∙ ap (λ is. r.earlier ++ is) (sym same.same_events);
      }

-- The function does all that the other does, at the same blocks.
pub record IsFaithful (fl : Floats) (f g : MirFunction) : Type 0 where
  pub frame : g ≡ record f { blocks = g.blocks }
  pub comes :
      (b : BlockId) (e : Env) (trace : List Instruction)
      → Comes fl f b e trace
      → Comes fl g b e trace
  pub returns :
      (b : BlockId) (o : Option LocalId) (e : Env) (trace : List Instruction)
      → Returns fl f b o e trace
      → Returns fl g b o e trace

settled-IsFaithful :
    (fl : Floats) (f : MirFunction) (n : ℕ) (E : States)
    → f.entry < length f.blocks
    → entry_states fl f n ≡ some E
    → IsFaithful fl f (rewritten fl f E)
unfolding entry_states
settled-IsFaithful fl f n E lt q =
    let settled =
      settle_flow-IsSettled fl f.blocks (new f).reverse_postorder (length f.locals) f.entry
        (Starts f) (max 1 n) (first_states f) E (first_states-IsFlow f lt) q in
    record {
      frame = refl;
      comes = λ b e trace r. Comes-rewritten fl f lt E settled r;
      returns = λ b o e trace r. Returns-rewritten fl f lt E settled r;
    }

-- For a function whose entry is one of its blocks, if the propagation settles within its bound on the
-- rounds: whatever the operations on floats, an execution of the function in which no operation traps
-- and no instruction reads an unwritten local is an execution of the result. It comes to the same
-- blocks and returns from the same, with the same words in all locals and after the same calls,
-- releases, stores and volatile accesses in the same order. The result differs in nothing but its
-- blocks. An operation leaves in an execution what it means, which is not defined by the folds, and a
-- local that is written through its address counts as written when the address is taken.
pub propagate_constants-IsFaithful :
    (fl : Floats) (f g : MirFunction) (max_rounds : ℕ) (changed : Bool)
    → f.entry < length f.blocks
    → propagate_constants_within fl f max_rounds ≡ some (g, changed)
    → IsFaithful fl f g
unfolding propagate_constants_within
propagate_constants-IsFaithful fl f g n changed lt = elim (Option-cases (entry_states fl f n)) [
  | inl q ↦ rw (q, propagate_constants_within) (λ h. absurd cc)
  | inr (E, q) ↦
      rw (q, propagate_constants_within)
        (λ h. subst (IsFaithful fl f) (result_of h) (settled-IsFaithful fl f n E lt q))
]
