-- ===== src/Opt/Unreachable.antt =====
-- crates/slopic-core/src/opt.rs: `remove_unreachable_blocks` keeps what a function can do.
use slopium.Base.{
  ℕ, zero, suc, ◌+◌, ◌<◌, ◌≡◌, inl, inr, refl, sym, ◌∙◌, ap, subst, true, Option, none, some, List,
  [], ◌∷◌, ◌++◌, length, get_elem?, get_elem?-lt, get_or, Bool-cases, arith,
}
use slopium.Mir.{
  LocalId, BlockId, Instruction, Terminator, return, goto, branch, unreachable, BasicBlock,
  MirFunction,
}
use slopium.Cfg.Graph.{Cfg, new, is_reachable}
use slopium.Cfg.Correct.{is_reachable-iff-path}
use slopium.Cfg.Liveness.{code_of, terminator_of}
use slopium.Opt.Fold.{Floats}
use slopium.Opt.ConstantsCorrect.{Env}
use slopium.Opt.Execution.{
  Comes, start, step, Comes-PathTo, Returns, Executes, Takes, Refines, events,
}
use slopium.Opt.Blocks.{code_of-at, terminator_of-at}
use slopium.Opt.Mergeable.{get_elem?-of_lt}
use slopium.Opt.Simplify.{
  mapping_from, renumber, remap, keep_reachable, all_kept, remove_unreachable_blocks,
}

-- A reachable block has a new number.
mapping_from-slot :
    (cfg : Cfg) (count block next i : ℕ)
    → i < count
    → is_reachable cfg (block + i) ≡ true
    → (v : ℕ) × (get_or (mapping_from cfg count block next) i none ≡ some v)
unfolding mapping_from
mapping_from-slot cfg zero block next i lt r = absurd (omega arith)
mapping_from-slot cfg (suc count) block next zero lt r =
    let here : is_reachable cfg block ≡ true =
      ap (is_reachable cfg) {x = block} {y = block + 0} (omega arith) ∙ r in
    rw (here, mapping_from) (next, refl)
mapping_from-slot cfg (suc count) block next (suc i) lt r =
    let there : is_reachable cfg (suc block + i) ≡ true =
      ap (is_reachable cfg) {x = suc block + i} {y = block + suc i} (omega arith) ∙ r in
    elim (Bool-cases (is_reachable cfg block)) [
      | inl q ↦
          rw (q, mapping_from)
            (mapping_from-slot cfg count (suc block) (suc next) i (omega arith) there)
      | inr q ↦
          rw (q, mapping_from) (mapping_from-slot cfg count (suc block) next i (omega arith) there)
    ]

-- The block that gets the new number.
abbrev renewed : List (Option BlockId) → BasicBlock → BasicBlock
renewed mapping k = record k { terminator = remap mapping k.terminator }

-- The slots count up from `next`, and the kept blocks stand at their new_numbers.
kept-at :
    (full : List (Option BlockId)) (cfg : Cfg) (bs : List BasicBlock) (block next i v : ℕ)
    (k : BasicBlock)
    → get_or (mapping_from cfg (length bs) block next) i none ≡ some v
    → get_elem? bs i ≡ some k
    → (j : ℕ) × (v ≡ next + j)
      × (get_elem? (keep_reachable full (mapping_from cfg (length bs) block next) bs) j
          ≡ some (renewed full k))
unfolding mapping_from keep_reachable
kept-at full cfg [] block next i v k = λ s q. cc
kept-at full cfg (b ∷ bs) block next zero v k = elim (Bool-cases (is_reachable cfg block)) [
  | inl r ↦
      rw (r, mapping_from, keep_reachable)
        (λ s q.
          let same : b ≡ k = cc in
          let number : next ≡ v = cc in (0, omega arith, ap (λ x. some (renewed full x)) same))
  | inr r ↦ rw (r, mapping_from, keep_reachable) (λ s q. cc)
]
kept-at full cfg (b ∷ bs) block next (suc i) v k = elim (Bool-cases (is_reachable cfg block)) [
  | inl r ↦
      rw (r, mapping_from, keep_reachable)
        (λ s q.
          let (j, number, at) = kept-at full cfg bs (suc block) (suc next) i v k s q in
          (suc j, omega arith, at))
  | inr r ↦
      rw (r, mapping_from, keep_reachable) (λ s q. kept-at full cfg bs (suc block) next i v k s q)
]

module _ (fl : Floats) (f : MirFunction) (inside : f.entry < length f.blocks) where
  abbrev pub new_numbers : List (Option BlockId)
  new_numbers = mapping_from (new f) (length f.blocks) 0 0

  abbrev pub kept : MirFunction
  kept = record f {
    entry = renumber new_numbers f.entry;
    blocks = keep_reachable new_numbers new_numbers f.blocks;
  }

  -- Where a reachable block stands afterwards.
  pub record Stands (b : BlockId) : Type 0 where
    pub old : BasicBlock
    pub old_at : get_elem? f.blocks b ≡ some old
    pub new_at : get_elem? kept.blocks (renumber new_numbers b) ≡ some (renewed new_numbers old)

  reached-Stands : (b : BlockId) → b < length f.blocks → is_reachable (new f) b ≡ true → Stands b
  unfolding renumber
  reached-Stands b lt r =
      let (k, at) = get_elem?-of_lt f.blocks b lt in
      let (v, slot) =
        mapping_from-slot (new f) (length f.blocks) 0 0 b lt
          (ap (is_reachable (new f)) {x = 0 + b} {y = b} (omega arith) ∙ r) in
      let (j, number, there) = kept-at new_numbers (new f) f.blocks 0 0 b v k slot at in
      record {
        old = k;
        old_at = at;
        new_at =
            rw (slot, renumber)
              (subst (λ n. get_elem? kept.blocks n ≡ some (renewed new_numbers k)) {x = j} {y = v}
                (omega arith) there);
      }

  Comes-lt :
      {b : BlockId} {e : Env} {trace : List Instruction}
      → Comes fl f b e trace
      → b < length f.blocks
  Comes-lt (start e s) = inside
  Comes-lt (step r x t lt) = lt

  pub Comes-Stands :
      {b : BlockId} {e : Env} {trace : List Instruction} → Comes fl f b e trace → Stands b
  Comes-Stands {b} r =
      reached-Stands b (Comes-lt r) ((is_reachable-iff-path f inside b).0.1 (Comes-PathTo r))

  pub Stands-code_of :
      (b : BlockId) → Stands b → code_of kept.blocks (renumber new_numbers b) ≡ code_of f.blocks b
  Stands-code_of b s =
      code_of-at kept.blocks (renumber new_numbers b) (renewed new_numbers s.old) s.new_at
      ∙ sym (code_of-at f.blocks b s.old s.old_at)

  pub Stands-terminator_of :
      (b : BlockId)
      → Stands b
      → terminator_of kept.blocks (renumber new_numbers b)
        ≡ remap new_numbers (terminator_of f.blocks b)
  Stands-terminator_of b s =
      terminator_of-at kept.blocks (renumber new_numbers b) (renewed new_numbers s.old) s.new_at
      ∙ ap (remap new_numbers) (sym (terminator_of-at f.blocks b s.old s.old_at))

  Takes-remap :
      (e : Env) (t : Terminator) (c : BlockId)
      → Takes e t c
      → Takes e (remap new_numbers t) (renumber new_numbers c)
  unfolding remap
  Takes-remap e (goto t) c h = ap (renumber new_numbers) h
  Takes-remap e (branch cond t u) c (inl h) = inl (h.0, ap (renumber new_numbers) h.1)
  Takes-remap e (branch cond t u) c (inr h) = inr (h.0, ap (renumber new_numbers) h.1)
  Takes-remap e (return o) c h = absurd h
  Takes-remap e unreachable c h = absurd h

  Comes-kept :
      {b : BlockId} {e : Env} {trace : List Instruction}
      → Comes fl f b e trace
      → Comes fl kept (renumber new_numbers b) e trace
  Comes-kept (start e s) = start e s
  Comes-kept (step {b = b} {c = c} {e = e} {e' = e'} {trace = trace} r x t lt) =
      let s = Comes-Stands r in
      let arrived = Comes-Stands (step r x t lt) in
      subst (λ is. Comes fl kept (renumber new_numbers c) e' (trace ++ events is))
        (Stands-code_of b s)
        (step (Comes-kept r) (subst (λ is. Executes fl is e e') (sym (Stands-code_of b s)) x)
          (subst (λ u. Takes e' u (renumber new_numbers c)) (sym (Stands-terminator_of b s))
            (Takes-remap e' (terminator_of f.blocks b) c t))
          (get_elem?-lt kept.blocks (renumber new_numbers c) (renewed new_numbers arrived.old)
            arrived.new_at))

  Returns-kept :
      {b : BlockId} {o : Option LocalId} {e : Env} {trace : List Instruction}
      → Returns fl f b o e trace
      → Returns fl kept (renumber new_numbers b) o e trace
  unfolding remap
  Returns-kept {b} {o} {e} h =
      let s = Comes-Stands h.comes in
      record {
        before = h.before;
        earlier = h.earlier;
        comes = Comes-kept h.comes;
        executes = subst (λ is. Executes fl is h.before e) (sym (Stands-code_of b s)) h.executes;
        ends = Stands-terminator_of b s ∙ ap (remap new_numbers) h.ends;
        traced = h.traced ∙ ap (λ is. h.earlier ++ events is) (sym (Stands-code_of b s));
      }

  kept-Refines : Refines fl f kept
  kept-Refines word trace out = record {
    block = renumber new_numbers out.block;
    operand = out.operand;
    words = out.words;
    returns = Returns-kept out.returns;
    value = out.value;
  }

-- For a function whose entry is one of its blocks: without its unreachable blocks, and with the rest
-- renumbered, it can do whatever it could. A call returns the same word after the same calls,
-- releases, stores and volatile accesses in the same order.
pub remove_unreachable_blocks-Refines :
    (fl : Floats) (f : MirFunction)
    → f.entry < length f.blocks
    → Refines fl f (remove_unreachable_blocks f).0
unfolding remove_unreachable_blocks
remove_unreachable_blocks-Refines fl f inside =
    elim (Bool-cases (all_kept (mapping_from (new f) (length f.blocks) 0 0))) [
      | inl q ↦ rw (q, remove_unreachable_blocks) (λ word trace out. out)
      | inr q ↦ rw (q, remove_unreachable_blocks) (kept-Refines fl f inside)
    ]
