-- ===== src/Opt/ThreadBack.antt =====
-- crates/slopic-core/src/opt.rs: `thread_gotos` adds nothing to what a function can do.
use slopium.Base.{
  ◌<◌, ◌≡◌, inl, inr, refl, sym, ◌∙◌, ap, subst, Option, List, ◌++◌, append-nil, length, In,
  get_elem?, Option-cases,
}
use slopium.Mir.{
  LocalId, BlockId, Instruction, Terminator, return, goto, branch, unreachable, BasicBlock,
  MirFunction,
}
use slopium.Cfg.DefUse.{successors}
use slopium.Cfg.Graph.{targets_of}
use slopium.Cfg.Liveness.{terminator_of}
use slopium.Opt.Fold.{Floats}
use slopium.Opt.ConstantsCorrect.{Env}
use slopium.Opt.Execution
use slopium.Opt.Execution.{
  Comes, start, step, Returns, Executes, Takes, Takes-targets, Refines, events,
}
use slopium.Opt.Simplify.{thread, thread_gotos}
use slopium.Opt.Thread.{
  Walk, stay, walk, IsClosed, resolve-Walk, Walk-lt, walk-Passes, targets_of-goto, threaded,
  code_of-threaded, terminator_of-threaded, length-thread_gotos,
}

-- What the threaded terminator takes, the old one takes by a detour through empty blocks.
thread-Takes :
    (blocks : List BasicBlock) (e : Env) (t : Terminator) (r : BlockId)
    → Takes e (thread blocks t) r
    → (c : BlockId) × Takes e t c × Walk blocks c r
unfolding thread
thread-Takes blocks e (goto t) r h =
    (t, refl, subst (Walk blocks t) h (resolve-Walk blocks (length blocks) t))
thread-Takes blocks e (branch cond t u) r (inl h) =
    (t, inl (h.0, refl), subst (Walk blocks t) h.1 (resolve-Walk blocks (length blocks) t))
thread-Takes blocks e (branch cond t u) r (inr h) =
    (u, inr (h.0, refl), subst (Walk blocks u) h.1 (resolve-Walk blocks (length blocks) u))
thread-Takes blocks e (return o) r h = absurd h
thread-Takes blocks e unreachable r h = absurd h

thread-return :
    (blocks : List BasicBlock) (t : Terminator) (o : Option LocalId)
    → thread blocks t ≡ return o
    → t ≡ return o
unfolding thread
thread-return blocks (return x) o h = h
thread-return blocks (goto x) o h = cc
thread-return blocks (branch x y z) o h = cc
thread-return blocks unreachable o h = h

module _ (fl : Floats) (f : MirFunction) (closed : IsClosed f.blocks) where
  abbrev after : MirFunction
  after = record f { blocks = threaded f.blocks }

  -- An execution goes through the empty blocks, with nothing to show for it.
  Walk-Comes :
      {b r : BlockId} {e : Env} {trace : List Instruction}
      → Walk f.blocks b r
      → Comes fl f b e trace
      → Comes fl f r e trace
  Walk-Comes stay there = there
  Walk-Comes {b} {r} {e} {trace} (walk {c = c} k q empty goes w) there =
      let passes = walk-Passes fl f.blocks b c k q empty goes in
      let quiet = ap (λ is. trace ++ events is) passes.code ∙ append-nil trace in
      Walk-Comes w (
        subst (Comes fl f c e) quiet (
          step there (subst (λ is. Executes fl is e e) (sym passes.code) (Execution.done e))
            (subst (λ u. Takes e u c) (sym passes.exit) refl)
            (closed b c (targets_of-goto f.blocks b c k q goes))))

  Comes-back :
      {b : BlockId} {e : Env} {trace : List Instruction}
      → Comes fl after b e trace
      → Comes fl f b e trace
  Comes-back (start e s) = start e s
  Comes-back (step {b = b} {c = r} {e = e} {e' = e'} {trace = trace} there x t lt) =
      let code = code_of-threaded f.blocks b in
      let (c, takes, w) =
        thread-Takes f.blocks e' (terminator_of f.blocks b) r
          (subst (λ u. Takes e' u r) (terminator_of-threaded f.blocks b) t) in
      subst (λ is. Comes fl f r e' (trace ++ events is)) (sym code)
        (Walk-Comes w (
          step (Comes-back there) (subst (λ is. Executes fl is e e') code x) takes
            (closed b c (Takes-targets f.blocks b c e' takes))))

  Returns-back :
      {b : BlockId} {o : Option LocalId} {e : Env} {trace : List Instruction}
      → Returns fl after b o e trace
      → Returns fl f b o e trace
  Returns-back {b} {o} {e} h =
      let code = code_of-threaded f.blocks b in
      record {
        before = h.before;
        earlier = h.earlier;
        comes = Comes-back h.comes;
        executes = subst (λ is. Executes fl is h.before e) code h.executes;
        ends =
            thread-return f.blocks (terminator_of f.blocks b) o
              (sym (terminator_of-threaded f.blocks b) ∙ h.ends);
        traced = h.traced ∙ ap (λ is. h.earlier ++ events is) code;
      }

-- Whatever the threaded function can do, the given one can.
pub thread_gotos-Refined :
    (fl : Floats) (f : MirFunction) → IsClosed f.blocks → Refines fl (thread_gotos f).0 f
unfolding thread_gotos
thread_gotos-Refined fl f closed word trace out = record {
  block = out.block;
  operand = out.operand;
  words = out.words;
  returns = Returns-back fl f closed out.returns;
  value = out.value;
}

pub targets_of-successors :
    (blocks : List BasicBlock) (b : BlockId)
    → targets_of blocks b ≡ successors (terminator_of blocks b)
unfolding targets_of terminator_of successors
targets_of-successors blocks b = elim (Option-cases (get_elem? blocks b)) [
  | inl q ↦ rw (q, targets_of, terminator_of) refl
  | inr (k, q) ↦ rw (q, targets_of, terminator_of) refl
]

thread-successors :
    (blocks : List BasicBlock) (t : Terminator) (r : BlockId)
    → In r (successors (thread blocks t))
    → (c : BlockId) × In c (successors t) × Walk blocks c r
unfolding successors thread
thread-successors blocks (goto t) r (inl e) =
    (t, inl refl, subst (Walk blocks t) (sym e) (resolve-Walk blocks (length blocks) t))
thread-successors blocks (goto t) r (inr m) = absurd m
thread-successors blocks (branch cond t u) r (inl e) =
    (t, inl refl, subst (Walk blocks t) (sym e) (resolve-Walk blocks (length blocks) t))
thread-successors blocks (branch cond t u) r (inr (inl e)) =
    (u, inr (inl refl), subst (Walk blocks u) (sym e) (resolve-Walk blocks (length blocks) u))
thread-successors blocks (branch cond t u) r (inr (inr m)) = absurd m
thread-successors blocks (return o) r m = absurd m
thread-successors blocks unreachable r m = absurd m

-- Threading keeps the targets in the function.
pub thread_gotos-IsClosed :
    (f : MirFunction) → IsClosed f.blocks → IsClosed (thread_gotos f).0.blocks
unfolding thread_gotos
thread_gotos-IsClosed f closed b t i =
    let there =
      subst (In t)
        (targets_of-successors (threaded f.blocks) b
          ∙ ap successors (terminator_of-threaded f.blocks b))
        i in
    let (c, m, w) = thread-successors f.blocks (terminator_of f.blocks b) t there in
    let inside = closed b c (subst (In c) (sym (targets_of-successors f.blocks b)) m) in
    subst (λ n. t < n) (sym (length-thread_gotos f)) (Walk-lt f.blocks c t closed w inside)
