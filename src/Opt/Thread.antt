-- ===== src/Opt/Thread.antt =====
-- crates/slopic-core/src/opt.rs: `thread_gotos` keeps what a function can do.
use slopium.Base.{
  ℕ, zero, suc, ◌<◌, ◌≡◌, inl, inr, refl, sym, ◌∙◌, ap, subst, Option, none, some, List, [], ◌∷◌,
  ◌++◌, append-nil, map, length, get_elem?, Option-cases, In, arith,
}
use slopium.Mir.{
  LocalId, BlockId, Instruction, Terminator, return, goto, branch, unreachable, Statement,
  BasicBlock, MirFunction,
}
use slopium.Cfg.DefUse.{successors}
use slopium.Cfg.Graph.{targets_of}
use slopium.Cfg.Liveness.{code_of, terminator_of}
use slopium.Opt.Fold.{Floats}
use slopium.Opt.ConstantsCorrect.{Env}
use slopium.Opt.Execution
use slopium.Opt.Execution.{Comes, start, step, Returns, Outcome, Executes, Takes, Refines, events}
use slopium.Opt.Blocks.{code_of-at, terminator_of-at, code_of-none, terminator_of-none}
use slopium.Opt.Simplify.{onward, resolve, thread, thread_block, thread_gotos}

-- Control passes from one block to the other through empty blocks only.
pub data Walk (blocks : List BasicBlock) : BlockId → BlockId → Type 0 where
  stay : {b : BlockId} → Walk blocks b b
  walk :
      {b c r : BlockId} (k : BasicBlock)
      → get_elem? blocks b ≡ some k
      → k.statements ≡ []
      → k.terminator ≡ goto c
      → Walk blocks c r
      → Walk blocks b r

-- Every target is a block of the function.
abbrev pub IsClosed : List BasicBlock → Type 0
IsClosed blocks = (b t : BlockId) → In t (targets_of blocks b) → t < length blocks

onward-goto :
    (b c : BlockId) (ss : List Statement) (t : Terminator)
    → onward b ss t ≡ some c
    → (ss ≡ []) × (t ≡ goto c)
unfolding onward
onward-goto b c (x ∷ xs) t h = cc
onward-goto b c [] (return o) h = cc
onward-goto b c [] (branch x y z) h = cc
onward-goto b c [] unreachable h = cc
onward-goto b c [] (goto d) h = ground arith

pub resolve-Walk :
    (blocks : List BasicBlock) (rounds : ℕ) (b : BlockId) → Walk blocks b (resolve blocks rounds b)
unfolding resolve
resolve-Walk blocks zero b = stay
resolve-Walk blocks (suc n) b = elim (Option-cases (get_elem? blocks b)) [
  | inl q ↦ rw (q, resolve) stay
  | inr (k, q) ↦ elim (Option-cases (onward b k.statements k.terminator)) [
    | inl p ↦ rw (q, resolve, p) stay
    | inr (c, p) ↦
        let (empty, goes) = onward-goto b c k.statements k.terminator p in
        rw (q, resolve, p) (walk k q empty goes (resolve-Walk blocks n c))
  ]
]

pub targets_of-goto :
    (blocks : List BasicBlock) (b c : BlockId) (k : BasicBlock)
    → get_elem? blocks b ≡ some k
    → k.terminator ≡ goto c
    → In c (targets_of blocks b)
unfolding targets_of successors
targets_of-goto blocks b c k q t = rw (q, targets_of, t) (inl refl)

pub Walk-lt :
    (blocks : List BasicBlock) (b r : BlockId)
    → IsClosed blocks
    → Walk blocks b r
    → b < length blocks
    → r < length blocks
Walk-lt blocks b _ closed stay lt = lt
Walk-lt blocks b r closed (walk {c = c} k q e t w) lt =
    Walk-lt blocks c r closed w (closed b c (targets_of-goto blocks b c k q t))

-- A block that is only passed on from.
pub record Passes (fl : Floats) (blocks : List BasicBlock) (b c : BlockId) : Type 0 where
  pub code : code_of blocks b ≡ []
  pub exit : terminator_of blocks b ≡ goto c

pub walk-Passes :
    (fl : Floats) (blocks : List BasicBlock) (b c : BlockId) (k : BasicBlock)
    → get_elem? blocks b ≡ some k
    → k.statements ≡ []
    → k.terminator ≡ goto c
    → Passes fl blocks b c
walk-Passes fl blocks b c k q e t = record {
  code = code_of-at blocks b k q ∙ ap (map (λ s. s.instruction)) e;
  exit = terminator_of-at blocks b k q ∙ t;
}

Takes-thread :
    (blocks : List BasicBlock) (e : Env) (t : Terminator) (c : BlockId)
    → Takes e t c
    → (r : BlockId) × Walk blocks c r × Takes e (thread blocks t) r
unfolding thread
Takes-thread blocks e (goto t) c h = (
  resolve blocks (length blocks) c,
  resolve-Walk blocks (length blocks) c,
  ap (resolve blocks (length blocks)) h,
)
Takes-thread blocks e (branch cond t u) c (inl h) = (
  resolve blocks (length blocks) c,
  resolve-Walk blocks (length blocks) c,
  inl (h.0, ap (resolve blocks (length blocks)) h.1),
)
Takes-thread blocks e (branch cond t u) c (inr h) = (
  resolve blocks (length blocks) c,
  resolve-Walk blocks (length blocks) c,
  inr (h.0, ap (resolve blocks (length blocks)) h.1),
)
Takes-thread blocks e (return o) c h = absurd h
Takes-thread blocks e unreachable c h = absurd h

pub get_elem?-map-some :
    {A B : Type 0} (h : A → B) (xs : List A) (i : ℕ) (x : A)
    → get_elem? xs i ≡ some x
    → get_elem? (map h xs) i ≡ some (h x)
get_elem?-map-some h [] i x q = cc
get_elem?-map-some h (y ∷ ys) zero x q = cc
get_elem?-map-some h (y ∷ ys) (suc i) x q = get_elem?-map-some h ys i x q

pub get_elem?-map-none :
    {A B : Type 0} (h : A → B) (xs : List A) (i : ℕ)
    → get_elem? xs i ≡ none
    → get_elem? (map h xs) i ≡ none
get_elem?-map-none h [] i q = refl
get_elem?-map-none h (y ∷ ys) zero q = cc
get_elem?-map-none h (y ∷ ys) (suc i) q = get_elem?-map-none h ys i q

length-map : {A B : Type 0} (h : A → B) (xs : List A) → length (map h xs) ≡ length xs
length-map h [] = refl
length-map h (x ∷ xs) = ap suc (length-map h xs)

abbrev pub threaded : List BasicBlock → List BasicBlock
threaded blocks = map (thread_block blocks) blocks

pub code_of-threaded :
    (blocks : List BasicBlock) (b : BlockId) → code_of (threaded blocks) b ≡ code_of blocks b
unfolding thread_block
code_of-threaded blocks b = elim (Option-cases (get_elem? blocks b)) [
  | inl q ↦
      let p = get_elem?-map-none (thread_block blocks) blocks b q in
      code_of-none (threaded blocks) b p ∙ sym (code_of-none blocks b q)
  | inr (k, q) ↦
      let p = get_elem?-map-some (thread_block blocks) blocks b k q in
      code_of-at (threaded blocks) b (thread_block blocks k) p ∙ sym (code_of-at blocks b k q)
]

pub terminator_of-threaded :
    (blocks : List BasicBlock) (b : BlockId)
    → terminator_of (threaded blocks) b ≡ thread blocks (terminator_of blocks b)
unfolding thread_block thread
terminator_of-threaded blocks b = elim (Option-cases (get_elem? blocks b)) [
  | inl q ↦
      let p = get_elem?-map-none (thread_block blocks) blocks b q in
      terminator_of-none (threaded blocks) b p
      ∙ ap (thread blocks) (sym (terminator_of-none blocks b q))
  | inr (k, q) ↦
      let p = get_elem?-map-some (thread_block blocks) blocks b k q in
      terminator_of-at (threaded blocks) b (thread_block blocks k) p
      ∙ ap (thread blocks) (sym (terminator_of-at blocks b k q))
]

Executes-nil : {fl : Floats} {e e' : Env} → Executes fl [] e e' → e ≡ e'
Executes-nil (Execution.done e) = refl

goto_not_return : {c : BlockId} {o : Option LocalId} → ¬ (goto c ≡ return o)
goto_not_return h = cc

module _ (fl : Floats) (f : MirFunction) (closed : IsClosed f.blocks) where
  abbrev after : MirFunction
  after = record f { blocks = threaded f.blocks }

  -- The new execution is where the old one is about to be.
  record Ahead (b : BlockId) (e : Env) (trace : List Instruction) : Type 0 where
    at : BlockId
    walks : Walk f.blocks b at
    comes : Comes fl after at e trace

  advance :
      {b c r : BlockId} {e e' : Env} {trace : List Instruction}
      → Walk f.blocks b r
      → Comes fl after r e trace
      → Executes fl (code_of f.blocks b) e e'
      → Takes e' (terminator_of f.blocks b) c
      → c < length f.blocks
      → Ahead c e' (trace ++ events (code_of f.blocks b))
  advance {b} {c} {r} {e} {e'} {trace} stay there x t lt =
      let (to, walks, takes) = Takes-thread f.blocks e' (terminator_of f.blocks b) c t in
      let bound = Walk-lt f.blocks c to closed walks lt in
      record {
        at = to;
        walks = walks;
        comes =
            subst (λ is. Comes fl after to e' (trace ++ events is)) (code_of-threaded f.blocks b)
              (step there (subst (λ is. Executes fl is e e') (sym (code_of-threaded f.blocks b)) x)
                (subst (λ u. Takes e' u to) (sym (terminator_of-threaded f.blocks b)) takes)
                (subst (λ n. to < n) (sym (length-map (thread_block f.blocks) f.blocks)) bound));
      }
  advance {b} {c} {r} {e} {e'} {trace} (walk {c = d} k q empty goes w) there x t lt =
      let passes = walk-Passes fl f.blocks b d k q empty goes in
      let same = Executes-nil (subst (λ is. Executes fl is e e') passes.code x) in
      let next : d ≡ c = subst (λ u. Takes e' u c) passes.exit t in
      let quiet = ap (λ is. trace ++ events is) passes.code ∙ append-nil trace in
      record {
        at = r;
        walks = subst (λ n. Walk f.blocks n r) next w;
        comes =
            subst (λ tr. Comes fl after r e' tr) (sym quiet)
              (subst (λ en. Comes fl after r en trace) same there);
      }

  Comes-Ahead :
      {b : BlockId} {e : Env} {trace : List Instruction} → Comes fl f b e trace → Ahead b e trace
  Comes-Ahead (start e s) = record { at = f.entry; walks = stay; comes = start e s }
  Comes-Ahead (step r x t lt) = let h = Comes-Ahead r in advance h.walks h.comes x t lt

  Returns-threaded :
      {b r : BlockId} {o : Option LocalId} {e : Env} {trace : List Instruction}
      → (h : Returns fl f b o e trace) → Walk f.blocks b r
      → Comes fl after r h.before h.earlier
      → Returns fl after r o e trace
  unfolding thread
  Returns-threaded {b} {r} {o} {e} h stay there = record {
    before = h.before;
    earlier = h.earlier;
    comes = there;
    executes =
        subst (λ is. Executes fl is h.before e) (sym (code_of-threaded f.blocks b)) h.executes;
    ends = terminator_of-threaded f.blocks b ∙ ap (thread f.blocks) h.ends;
    traced = h.traced ∙ ap (λ is. h.earlier ++ events is) (sym (code_of-threaded f.blocks b));
  }
  Returns-threaded {b} {r} {o} {e} h (walk {c = d} k q empty goes w) there =
      let passes = walk-Passes fl f.blocks b d k q empty goes in
      absurd (goto_not_return (sym passes.exit ∙ h.ends))

pub length-thread_gotos : (f : MirFunction) → length (thread_gotos f).0.blocks ≡ length f.blocks
unfolding thread_gotos
length-thread_gotos f = length-map (thread_block f.blocks) f.blocks

pub entry-thread_gotos : (f : MirFunction) → (thread_gotos f).0.entry ≡ f.entry
unfolding thread_gotos
entry-thread_gotos f = refl

-- If every target of the function is one of its blocks, whatever a call can do, a call of the function
-- whose gotos are threaded can: it returns the same word after the same calls, releases, stores and
-- volatile accesses in the same order.
pub thread_gotos-Refines :
    (fl : Floats) (f : MirFunction) → IsClosed f.blocks → Refines fl f (thread_gotos f).0
unfolding thread_gotos
thread_gotos-Refines fl f closed word trace out =
    let h = Comes-Ahead fl f closed out.returns.comes in
    record {
      block = h.at;
      operand = out.operand;
      words = out.words;
      returns = Returns-threaded fl f closed out.returns h.walks h.comes;
      value = out.value;
    }
