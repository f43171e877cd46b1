-- ===== src/Opt/Merge.antt =====
-- crates/slopic-core/src/opt.rs: `merge_linear_chains` keeps what a function can do.
use slopium.Base.{
  ℕ, zero, suc, ◌<◌, ◌≡◌, ◌≢◌, inl, inr, ◌⊎◌, refl, sym, ◌∙◌, ap, subst, Bool, true, false, Option,
  some, List, [], ◌∷◌, ◌++◌, append_assoc, map, length, get_elem?, Option-cases, Bool-cases, In,
  arith, eq-or-ne, keep,
}
use slopium.Mir.{LocalId, BlockId, Instruction, return, goto, BasicBlock, MirFunction}
use slopium.Cfg.Graph.{new, targets_of}
use slopium.Cfg.Liveness.{code_of, terminator_of}
use slopium.Opt.Fold.{Floats}
use slopium.Opt.ConstantsCorrect.{Env}
use slopium.Opt.Execution
use slopium.Opt.Execution.{
  Comes, start, step, Returns, Outcome, Executes, Takes, Takes-targets, Refines, events,
}
use slopium.Opt.Blocks.{code_of-at, terminator_of-at}
use slopium.Opt.Simplify.{
  find_merge, merge_blocks, merge_from, goto_count, joined, merge_linear_chains,
}
use slopium.Opt.Mergeable.{
  IsMerge, find_merge-IsMerge, merged-upper, merged-other, length-merged, merged-goto_count,
}

pub code_of-same :
    (xs ys : List BasicBlock) (b : BlockId)
    → get_elem? xs b ≡ get_elem? ys b
    → code_of xs b ≡ code_of ys b
unfolding code_of
code_of-same xs ys b h = rw (h, code_of) refl

pub terminator_of-same :
    (xs ys : List BasicBlock) (b : BlockId)
    → get_elem? xs b ≡ get_elem? ys b
    → terminator_of xs b ≡ terminator_of ys b
unfolding terminator_of
terminator_of-same xs ys b h = rw (h, terminator_of) refl

map-append : {A B : Type 0} (h : A → B) (xs ys : List A) → map h (xs ++ ys) ≡ map h xs ++ map h ys
map-append h [] ys = refl
map-append h (x ∷ xs) ys = ap (λ zs. h x ∷ zs) (map-append h xs ys)

pub keep-append :
    {A : Type 0} (p : A → Bool) (xs ys : List A) → keep p (xs ++ ys) ≡ keep p xs ++ keep p ys
keep-append p [] ys = refl
keep-append p (x ∷ xs) ys = elim (Bool-cases (p x)) [
  | inl q ↦ rw q (ap (λ zs. x ∷ zs) (keep-append p xs ys))
  | inr q ↦ rw q (keep-append p xs ys)
]

Executes-append :
    {fl : Floats} {is js : List Instruction} {e e' e'' : Env}
    → Executes fl is e e'
    → Executes fl js e' e''
    → Executes fl (is ++ js) e e''
Executes-append (Execution.done e) y = y
Executes-append (Execution.next i e e' reads runs x) y =
    Execution.next i e e' reads runs (Executes-append x y)

module _ (fl : Floats) (f : MirFunction) (block target : BlockId) (m : IsMerge f block target) where
  abbrev pub merged : MirFunction
  merged = record f { blocks = merge_blocks f.blocks block target }

  pub code_of-upper :
      code_of merged.blocks block ≡ code_of f.blocks block ++ code_of f.blocks target
  code_of-upper =
      code_of-at merged.blocks block (joined m.upper m.lower) (merged-upper f block target m)
      ∙ map-append (λ s. s.instruction) m.upper.statements m.lower.statements
      ∙ sym (
          ap (λ is. is ++ code_of f.blocks target) (code_of-at f.blocks block m.upper m.upper_at)
          ∙ ap (λ is. map (λ s. s.instruction) m.upper.statements ++ is)
              (code_of-at f.blocks target m.lower m.lower_at))

  pub terminator_of-upper : terminator_of merged.blocks block ≡ terminator_of f.blocks target
  terminator_of-upper =
      terminator_of-at merged.blocks block (joined m.upper m.lower) (merged-upper f block target m)
      ∙ sym (terminator_of-at f.blocks target m.lower m.lower_at)

  pub goes_on : terminator_of f.blocks block ≡ goto target
  goes_on = terminator_of-at f.blocks block m.upper m.upper_at ∙ m.goes

  -- The old execution is between the two blocks: the new one is in the middle of the joined block.
  record Inside (e : Env) (trace : List Instruction) : Type 0 where
    before : Env
    earlier : List Instruction
    comes : Comes fl merged block before earlier
    ran : Executes fl (code_of f.blocks block) before e
    traced : trace ≡ earlier ++ events (code_of f.blocks block)

  abbrev Stands : BlockId → Env → List Instruction → Type 0
  Stands b e trace = ((b ≢ target) × Comes fl merged b e trace) ⊎ ((b ≡ target) × Inside e trace)

  pub not_target :
      (b c : BlockId) (e : Env) → b ≢ block → Takes e (terminator_of f.blocks b) c → c ≢ target
  not_target b c e ne t same =
      ne
        (m.only b (subst (λ x. In x (targets_of f.blocks b)) same (Takes-targets f.blocks b c e t)))

  Inside-events :
      (e : Env) (trace : List Instruction) (i : Inside e trace)
      → trace ++ events (code_of f.blocks target)
        ≡ i.earlier ++ events (code_of merged.blocks block)
  Inside-events e trace i =
      ap (λ tr. tr ++ events (code_of f.blocks target)) i.traced
      ∙ append_assoc i.earlier (events (code_of f.blocks block)) (events (code_of f.blocks target))
      ∙ ap (λ is. i.earlier ++ is)
          (sym (
            ap events code_of-upper
            ∙ keep-append Execution.is_event (code_of f.blocks block) (code_of f.blocks target)))

  -- Control leaves the target: in the merged function it leaves the joined block.
  leave :
      {c : BlockId} {e e' : Env} {trace : List Instruction}
      → Inside e trace
      → Executes fl (code_of f.blocks target) e e'
      → Takes e' (terminator_of f.blocks target) c
      → c < length f.blocks
      → Comes fl merged c e' (trace ++ events (code_of f.blocks target))
  leave {c} {e} {e'} {trace} i x t lt =
      subst (λ tr. Comes fl merged c e' tr) (sym (Inside-events e trace i))
        (step i.comes
          (subst (λ is. Executes fl is i.before e') (sym code_of-upper) (Executes-append i.ran x))
          (subst (λ u. Takes e' u c) (sym terminator_of-upper) t)
          (subst (λ n. c < n) (sym (length-merged f block target m)) lt))

  -- Another block runs as it did.
  pass :
      {b c : BlockId} {e e' : Env} {trace : List Instruction}
      → b ≢ block
      → b ≢ target
      → Comes fl merged b e trace
      → Executes fl (code_of f.blocks b) e e'
      → Takes e' (terminator_of f.blocks b) c
      → c < length f.blocks
      → Comes fl merged c e' (trace ++ events (code_of f.blocks b))
  pass {b} {c} {e} {e'} {trace} nb nt there x t lt =
      let same = merged-other f block target m b nb nt in
      let code = code_of-same merged.blocks f.blocks b same in
      let exit = terminator_of-same merged.blocks f.blocks b same in
      subst (λ is. Comes fl merged c e' (trace ++ events is)) code
        (step there (subst (λ is. Executes fl is e e') (sym code) x)
          (subst (λ u. Takes e' u c) (sym exit) t)
          (subst (λ n. c < n) (sym (length-merged f block target m)) lt))

  go_on :
      {b c : BlockId} {e e' : Env} {trace : List Instruction}
      → Stands b e trace
      → Executes fl (code_of f.blocks b) e e'
      → Takes e' (terminator_of f.blocks b) c
      → c < length f.blocks
      → Stands c e' (trace ++ events (code_of f.blocks b))
  go_on {b} {c} {e} {e'} {trace} (inr (at, i)) x t lt =
      let away : c ≢ target = not_target b c e' (λ q. m.apart (sym at ∙ q)) t in
      inl (
        away,
        subst (λ k. Comes fl merged c e' (trace ++ events (code_of f.blocks k))) (sym at)
            (leave i (subst (λ k. Executes fl (code_of f.blocks k) e e') at x)
              (subst (λ k. Takes e' (terminator_of f.blocks k) c) at t) lt),
      )
  go_on {b} {c} {e} {e'} {trace} (inl (nt, there)) x t lt = elim (eq-or-ne b block) [
    | inr nb ↦ inl (not_target b c e' nb t, pass nb nt there x t lt)
    | inl at ↦
        let into : target ≡ c =
          subst (λ u. Takes e' u c) (ap (terminator_of f.blocks) at ∙ goes_on) t in
        inr (
          sym into,
          record {
            before = e;
            earlier = trace;
            comes = subst (λ k. Comes fl merged k e trace) at there;
            ran = subst (λ k. Executes fl (code_of f.blocks k) e e') at x;
            traced = ap (λ k. trace ++ events (code_of f.blocks k)) at;
          },
        )
  ]

  Comes-Stands :
      {b : BlockId} {e : Env} {trace : List Instruction} → Comes fl f b e trace → Stands b e trace
  Comes-Stands (start e s) = inl ((λ q. m.not_entry (sym q)), start e s)
  Comes-Stands (step r x t lt) = go_on (Comes-Stands r) x t lt

  Returns-merged :
      {b : BlockId} {o : Option LocalId} {e : Env} {trace : List Instruction}
      → (h : Returns fl f b o e trace) → Stands b h.before h.earlier
      → (r : BlockId) × Returns fl merged r o e trace
  Returns-merged {b} {o} {e} {trace} h (inr (at, i)) =
      let x = subst (λ k. Executes fl (code_of f.blocks k) h.before e) at h.executes in
      (
        block,
        record {
          before = i.before;
          earlier = i.earlier;
          comes = i.comes;
          executes =
              subst (λ is. Executes fl is i.before e) (sym code_of-upper) (Executes-append i.ran x);
          ends = terminator_of-upper ∙ ap (terminator_of f.blocks) (sym at) ∙ h.ends;
          traced =
              h.traced
              ∙ ap (λ k. h.earlier ++ events (code_of f.blocks k)) at
              ∙ Inside-events h.before h.earlier i;
        },
      )
  Returns-merged {b} {o} {e} {trace} h (inl (nt, there)) = elim (eq-or-ne b block) [
    | inl at ↦
        let clash : goto target ≡ return o =
          sym (ap (terminator_of f.blocks) at ∙ goes_on) ∙ h.ends in
        absurd cc
    | inr nb ↦
        let same = merged-other f block target m b nb nt in
        let code = code_of-same merged.blocks f.blocks b same in
        (
          b,
          record {
            before = h.before;
            earlier = h.earlier;
            comes = there;
            executes = subst (λ is. Executes fl is h.before e) (sym code) h.executes;
            ends = terminator_of-same merged.blocks f.blocks b same ∙ h.ends;
            traced = h.traced ∙ ap (λ is. h.earlier ++ events is) (sym code);
          },
        )
  ]

  merged-Refines : Refines fl f merged
  merged-Refines word trace out =
      let (r, back) = Returns-merged out.returns (Comes-Stands out.returns.comes) in
      record {
        block = r;
        operand = out.operand;
        words = out.words;
        returns = back;
        value = out.value;
      }

-- The loop ends with a function that can do all that the given one can.
abbrev pub Merges : Floats → MirFunction → Option (MirFunction × Bool) → Type 0
Merges fl f o =
    (g : MirFunction) × (changed : Bool) × (o ≡ some (g, changed))
    × Refines fl f g
    × (g.entry ≡ f.entry)
    × (length g.blocks ≡ length f.blocks)

merge_from-Merges :
    (fl : Floats) (fuel : ℕ) (changed : Bool) (f : MirFunction)
    → goto_count f.blocks < fuel
    → Merges fl f (merge_from fuel changed f)
unfolding merge_from
merge_from-Merges fl zero changed f lt = absurd (omega arith)
merge_from-Merges fl (suc fuel) changed f lt =
    elim (Option-cases (find_merge f (new f) (length f.blocks) 0)) [
      | inl q ↦ rw (q, merge_from) (f, changed, refl, (λ word trace out. out), refl, refl)
      | inr ((block, target), q) ↦
          let m = find_merge-IsMerge f (length f.blocks) 0 block target q in
          let fewer = merged-goto_count f block target m in
          let (g, c, e, r, entry, size) =
            merge_from-Merges fl fuel true (merged fl f block target m) (omega arith) in
          rw (q, merge_from)
            (
              g,
              c,
              e,
              (λ word trace out. r word trace (merged-Refines fl f block target m word trace out)),
              entry,
              size ∙ length-merged f block target m,
            )
    ]

-- The merging of chains ends for every function. Where an execution of the function, in which no
-- operation traps and no instruction reads an unwritten local, returns a word, so does one of the
-- result, after the same calls, releases, stores and volatile accesses in the same order. The entry and
-- the number of blocks stay as they are.
pub merge_linear_chains-Merges :
    (fl : Floats) (f : MirFunction) → Merges fl f (merge_linear_chains f)
unfolding merge_linear_chains
merge_linear_chains-Merges fl f =
    merge_from-Merges fl (suc (goto_count f.blocks)) false f (omega arith)
