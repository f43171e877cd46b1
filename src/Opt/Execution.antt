-- ===== src/Opt/Execution.antt =====
-- crates/slopic-core/src/opt.rs: executions of a function, as far as the words of its locals go.
use slopium.Base.{
  ◌<◌, ◌≡◌, ◌⊎◌, inl, inr, sym, Bool, true, false, Option, none, some, List, [], ◌∷◌, ◌++◌, keep,
  length, In, get_elem?, Option-cases,
}
use slopium.Mir.{
  LocalId, BlockId, Instruction, Terminator, return, goto, branch, unreachable, BasicBlock,
  MirFunction,
}
use slopium.Cfg.DefUse.{uses, successors}
use slopium.Cfg.Graph.{targets_of}
use slopium.Cfg.Liveness.{code_of, terminator_of}
use slopium.Cfg.Reach.{PathTo, here}
use slopium.Opt.Effects.{effect_of, is_seen}
use slopium.Opt.Fold.{Constant, bool, Floats}
use slopium.Opt.ConstantsCorrect.{Env, Runs}

-- A call starts with words in its parameters only.
abbrev pub Starts : MirFunction → Env → Type 0
Starts f e = (l : LocalId) → ¬ In l f.params → e l ≡ none

-- Every local that the instruction reads has been written.
abbrev pub ReadsWritten : Instruction → Env → Type 0
ReadsWritten i e = (l : LocalId) → In l (uses i) → (c : Constant) × (e l ≡ some c)

-- The instructions run one after the other, and none reads a local that nothing has written.
pub data Executes (fl : Floats) : List Instruction → Env → Env → Type 0 where
  done : (e : Env) → Executes fl [] e e
  next :
      (i : Instruction) {is : List Instruction} (e e' : Env) {e'' : Env}
      → ReadsWritten i e
      → Runs fl i e e'
      → Executes fl is e' e''
      → Executes fl (i ∷ is) e e''

-- The terminator passes control to the block.
abbrev pub Takes : Env → Terminator → BlockId → Type 0
Takes e (goto t) c = t ≡ c
Takes e (branch cond t u) c =
    ((e cond ≡ some (bool true)) × (t ≡ c)) ⊎ ((e cond ≡ some (bool false)) × (u ≡ c))
Takes e _ c = ⊥

-- Calls, releases, stores and volatile accesses do more than compute a word.
unfoldable pub is_event : Instruction → Bool
is_event i = is_seen (effect_of i)

abbrev pub events : List Instruction → List Instruction
events is = keep is_event is

-- An execution comes to the start of the block with these words in the locals, and with these events
-- behind it.
pub data Comes (fl : Floats) (f : MirFunction) : BlockId → Env → List Instruction → Type 0 where
  start : (e : Env) → Starts f e → Comes fl f f.entry e []
  step :
      {b c : BlockId} {e e' : Env} {trace : List Instruction}
      → Comes fl f b e trace
      → Executes fl (code_of f.blocks b) e e'
      → Takes e' (terminator_of f.blocks b) c
      → c < length f.blocks
      → Comes fl f c e' (trace ++ events (code_of f.blocks b))

-- An execution returns from the block with these words in the locals, after these events.
pub record Returns (fl : Floats) (f : MirFunction) (b : BlockId) (o : Option LocalId) (e : Env)
    (trace : List Instruction) : Type 0 where
  pub before : Env
  pub earlier : List Instruction
  pub comes : Comes fl f b before earlier
  pub executes : Executes fl (code_of f.blocks b) before e
  pub ends : terminator_of f.blocks b ≡ return o
  pub traced : trace ≡ earlier ++ events (code_of f.blocks b)

-- The word that a return hands to the caller.
abbrev pub returned : Option LocalId → Env → Option Constant
returned none e = none
returned (some l) e = e l

-- A call can return this word after these events.
pub record Outcome (fl : Floats) (f : MirFunction) (word : Option Constant)
    (trace : List Instruction) : Type 0 where
  pub block : BlockId
  pub operand : Option LocalId
  pub words : Env
  pub returns : Returns fl f block operand words trace
  pub value : returned operand words ≡ word

-- Whatever a call of `f` can do, a call of `g` can.
abbrev pub Refines : Floats → MirFunction → MirFunction → Type 0
Refines fl f g =
    (word : Option Constant) (trace : List Instruction)
    → Outcome fl f word trace
    → Outcome fl g word trace

Takes-successors : (e : Env) (t : Terminator) (c : BlockId) → Takes e t c → In c (successors t)
unfolding successors
Takes-successors e (goto t) c h = inl (sym h)
Takes-successors e (branch cond t u) c (inl h) = inl (sym h.1)
Takes-successors e (branch cond t u) c (inr h) = inr (inl (sym h.1))
Takes-successors e (return o) c h = absurd h
Takes-successors e unreachable c h = absurd h

pub Takes-targets :
    (blocks : List BasicBlock) (b c : BlockId) (e : Env)
    → Takes e (terminator_of blocks b) c
    → In c (targets_of blocks b)
unfolding terminator_of targets_of
Takes-targets blocks b c e = elim (Option-cases (get_elem? blocks b)) [
  | inl q ↦ rw (q, terminator_of, targets_of) (λ h. h)
  | inr (k, q) ↦ rw (q, terminator_of, targets_of) (Takes-successors e k.terminator c)
]

-- An execution follows the edges between blocks.
pub Comes-PathTo :
    {fl : Floats} {f : MirFunction} {b : BlockId} {e : Env} {trace : List Instruction}
    → Comes fl f b e trace
    → PathTo f.blocks f.entry b
Comes-PathTo (start e s) = here
Comes-PathTo {f = f} (step {b = b} {c = c} {e' = e'} r x t lt) =
    PathTo.step (Comes-PathTo r) (Takes-targets f.blocks b c e' t) lt

-- The function of a result.
pub result_of :
    {a b : MirFunction} {x y : Bool}
    → ◌≡◌ {A = Option (MirFunction × Bool)} (some (a, x)) (some (b, y))
    → a ≡ b
result_of p = cc
