-- ===== src/Opt/Mergeable.antt =====
-- crates/slopic-core/src/opt.rs: what `merge_linear_chains` finds, and that it ends.
use slopium.Base.{
  ℕ, zero, suc, ◌+◌, ◌<◌, ◌≡◌, ◌≢◌, inl, inr, refl, sym, ◌∙◌, ap, subst, Bool, true, false, Option,
  none, some, not, ◌||◌, ◌&&◌, List, [], ◌∷◌, length, get_elem?, Option-cases, Bool-cases, In,
  arith, ◌==◌, set, length-set,
}
use slopium.Mir.{BlockId, Terminator, return, goto, branch, unreachable, BasicBlock, MirFunction}
use slopium.Cfg.Graph.{new, is_reachable, predecessors_of, targets_of}
use slopium.Cfg.Edges.{predecessors_of-In, predecessors_of-lt}
use slopium.Cfg.Liveness.{terminator_of}
use slopium.Opt.Blocks.{terminator_of-at, terminator_of-none}
use slopium.Opt.Simplify.{
  is_only, goto_target, takes_in, mergeable, find_merge, merge_blocks, goto_count, goes, joined,
  emptied,
}

-- The one block may take in the other.
pub record IsMerge (f : MirFunction) (block target : BlockId) : Type 0 where
  pub upper : BasicBlock
  pub lower : BasicBlock
  pub upper_at : get_elem? f.blocks block ≡ some upper
  pub lower_at : get_elem? f.blocks target ≡ some lower
  pub goes : upper.terminator ≡ goto target
  pub apart : target ≢ block
  pub not_entry : target ≢ f.entry
  pub only : (p : BlockId) → In target (targets_of f.blocks p) → p ≡ block

pub get_elem?-of_lt :
    {A : Type 0} (xs : List A) (i : ℕ) → i < length xs → (x : A) × (get_elem? xs i ≡ some x)
get_elem?-of_lt [] i h = absurd (omega arith)
get_elem?-of_lt (x ∷ xs) zero h = (x, refl)
get_elem?-of_lt (x ∷ xs) (suc i) h = get_elem?-of_lt xs i (omega arith)

goto_target_lem : (t : Terminator) (c : BlockId) → goto_target t ≡ some c → t ≡ goto c
goto_target_lem (goto d) c h = cc
goto_target_lem (return o) c h = cc
goto_target_lem (branch x y z) c h = cc
goto_target_lem unreachable c h = cc

is_only_lem : (block : BlockId) (ps : List BlockId) → is_only block ps ≡ true → ps ≡ block ∷ []
unfolding is_only
is_only_lem block [] h = absurd cc
is_only_lem block (p ∷ []) h = let e : p ≡ block = ground arith in ap (λ x. x ∷ []) e
is_only_lem block (p ∷ q ∷ ps) h = absurd cc

and_true : (a b : Bool) → (a && b) ≡ true → (a ≡ true) × (b ≡ true)
and_true true b h = (refl, h)
and_true false b h = absurd cc

neither : (a b : Bool) → not (a || b) ≡ true → (a ≡ false) × (b ≡ false)
neither true b h = absurd cc
neither false true h = absurd cc
neither false false h = (refl, refl)

terminator_of-goto :
    (bs : List BasicBlock) (b c : BlockId)
    → terminator_of bs b ≡ goto c
    → (k : BasicBlock) × (get_elem? bs b ≡ some k) × (k.terminator ≡ goto c)
terminator_of-goto bs b c h = elim (Option-cases (get_elem? bs b)) [
  | inl q ↦ let clash = sym (terminator_of-none bs b q) ∙ h in absurd cc
  | inr (k, q) ↦ (k, q, sym (terminator_of-at bs b k q) ∙ h)
]

takes_in-IsMerge :
    (f : MirFunction) (block target : BlockId)
    → terminator_of f.blocks block ≡ goto target
    → takes_in f (new f) block target ≡ true
    → IsMerge f block target
unfolding takes_in
takes_in-IsMerge f block target goes h =
    let (new_place, alone) =
      and_true (not (target == block || target == f.entry))
        (is_only block (predecessors_of (new f) target)) h in
    let (a, b) = neither (target == block) (target == f.entry) new_place in
    let row = is_only_lem block (predecessors_of (new f) target) alone in
    let inside = predecessors_of-lt f block target (subst (In block) (sym row) (inl refl)) in
    let (k, k_at, k_goes) = terminator_of-goto f.blocks block target goes in
    let (t, t_at) = get_elem?-of_lt f.blocks target inside in
    record {
      upper = k;
      lower = t;
      upper_at = k_at;
      lower_at = t_at;
      goes = k_goes;
      apart = λ e. ground arith;
      not_entry = λ e. ground arith;
      only = λ p m. one (subst (In p) row ((predecessors_of-In f p target inside).1 m));
    }
  where
    one : {p : ℕ} → In p (block ∷ []) → p ≡ block
    one (inl e) = e
    one (inr m) = absurd m

mergeable-IsMerge :
    (f : MirFunction) (block target : BlockId)
    → mergeable f (new f) block ≡ some target
    → IsMerge f block target
unfolding mergeable
mergeable-IsMerge f block target = elim (Bool-cases (is_reachable (new f) block)) [
  | inr q ↦ rw (q, mergeable) (λ h. absurd cc)
  | inl q ↦ elim (Option-cases (goto_target (terminator_of f.blocks block))) [
    | inl n ↦ rw (q, mergeable, n) (λ h. absurd cc)
    | inr (c, s) ↦ elim (Bool-cases (takes_in f (new f) block c)) [
      | inr z ↦ rw (q, mergeable, s, z) (λ h. absurd cc)
      | inl z ↦
          rw (q, mergeable, s, z)
            (λ h.
              let same : c ≡ target = cc in
              subst (IsMerge f block) same
                (takes_in-IsMerge f block c (goto_target_lem (terminator_of f.blocks block) c s) z))
    ]
  ]
]

find-skip :
    (f : MirFunction) (n from : ℕ) {o : Option (ℕ × ℕ)}
    → mergeable f (new f) from ≡ none
    → find_merge f (new f) (suc n) from ≡ o
    → find_merge f (new f) n (suc from) ≡ o
unfolding find_merge
find-skip f n from {o} q =
    subst
      (λ r.
        (elim r [ some target ↦ some (from, target) | none ↦ find_merge f (new f) n (suc from) ])
          ≡ o
        → find_merge f (new f) n (suc from) ≡ o)
      (sym q) (λ h. h)

find-here :
    (f : MirFunction) (n from c : ℕ)
    → mergeable f (new f) from ≡ some c
    → find_merge f (new f) (suc n) from ≡ some (from, c)
unfolding find_merge
find-here f n from c q = rw (q, find_merge) refl

pub find_merge-IsMerge :
    (f : MirFunction) (n from block target : ℕ)
    → find_merge f (new f) n from ≡ some (block, target)
    → IsMerge f block target
unfolding find_merge
find_merge-IsMerge f zero from block target h = absurd cc
find_merge-IsMerge f (suc n) from block target h = elim (Option-cases (mergeable f (new f) from)) [
  | inl q ↦ find_merge-IsMerge f n (suc from) block target (find-skip f n from q h)
  | inr (c, q) ↦ pair (sym (find-here f n from c q) ∙ h) (mergeable-IsMerge f from c q)
]
  where
    pair :
        {a b : ℕ}
        → ◌≡◌ {A = Option (ℕ × ℕ)} (some (a, b)) (some (block, target))
        → IsMerge f a b
        → IsMerge f block target
    pair {a} {b} h m =
        let e : a ≡ block = cc in
        let d : b ≡ target = cc in subst (λ x. IsMerge f x target) e (subst (IsMerge f a) d m)

get_elem?-set_self :
    {A : Type 0} (xs : List A) (i : ℕ) (x v : A)
    → get_elem? xs i ≡ some x
    → get_elem? (set xs i v) i ≡ some v
get_elem?-set_self [] i x v h = cc
get_elem?-set_self (y ∷ ys) zero x v h = refl
get_elem?-set_self (y ∷ ys) (suc i) x v h = get_elem?-set_self ys i x v h

get_elem?-set_ne :
    {A : Type 0} (xs : List A) (i j : ℕ) (v : A) → i ≢ j → get_elem? (set xs i v) j ≡ get_elem? xs j
get_elem?-set_ne [] i j v h = refl
get_elem?-set_ne (y ∷ ys) zero zero v h = absurd (h refl)
get_elem?-set_ne (y ∷ ys) zero (suc j) v h = refl
get_elem?-set_ne (y ∷ ys) (suc i) zero v h = refl
get_elem?-set_ne (y ∷ ys) (suc i) (suc j) v h = get_elem?-set_ne ys i j v (λ e. h (ap suc e))

goto_count-set :
    (bs : List BasicBlock) (i : ℕ) (k k' : BasicBlock)
    → get_elem? bs i ≡ some k
    → goto_count (set bs i k') + goes k.terminator ≡ goto_count bs + goes k'.terminator
unfolding goto_count
goto_count-set [] i k k' h = cc
goto_count-set (b ∷ bs) zero k k' h = let e : b ≡ k = cc in rw e (omega arith)
goto_count-set (b ∷ bs) (suc i) k k' h = let ih = goto_count-set bs i k k' h in omega arith

module _ (f : MirFunction) (block target : BlockId) (m : IsMerge f block target) where
  pub merge_blocks_lem :
      merge_blocks f.blocks block target
      ≡ set (set f.blocks block (joined m.upper m.lower)) target (emptied m.lower)
  unfolding merge_blocks
  merge_blocks_lem = rw (m.upper_at, merge_blocks, m.lower_at) refl

  lower_kept : get_elem? (set f.blocks block (joined m.upper m.lower)) target ≡ some m.lower
  lower_kept =
      get_elem?-set_ne f.blocks block target (joined m.upper m.lower) (λ e. m.apart (sym e))
      ∙ m.lower_at

  -- The block that takes in the other.
  pub merged-upper :
      get_elem? (merge_blocks f.blocks block target) block ≡ some (joined m.upper m.lower)
  merged-upper =
      ap (λ bs. get_elem? bs block) merge_blocks_lem
      ∙ get_elem?-set_ne (set f.blocks block (joined m.upper m.lower)) target block
          (emptied m.lower) m.apart
      ∙ get_elem?-set_self f.blocks block m.upper (joined m.upper m.lower) m.upper_at

  pub merged-lower : get_elem? (merge_blocks f.blocks block target) target ≡ some (emptied m.lower)
  merged-lower =
      ap (λ bs. get_elem? bs target) merge_blocks_lem
      ∙ get_elem?-set_self (set f.blocks block (joined m.upper m.lower)) target m.lower
          (emptied m.lower) lower_kept

  -- The blocks that the merge leaves alone.
  pub merged-other :
      (b : BlockId)
      → b ≢ block
      → b ≢ target
      → get_elem? (merge_blocks f.blocks block target) b ≡ get_elem? f.blocks b
  merged-other b nb nt =
      ap (λ bs. get_elem? bs b) merge_blocks_lem
      ∙ get_elem?-set_ne (set f.blocks block (joined m.upper m.lower)) target b (emptied m.lower)
          (λ e. nt (sym e))
      ∙ get_elem?-set_ne f.blocks block b (joined m.upper m.lower) (λ e. nb (sym e))

  pub length-merged : length (merge_blocks f.blocks block target) ≡ length f.blocks
  length-merged =
      ap length merge_blocks_lem
      ∙ length-set (set f.blocks block (joined m.upper m.lower)) target (emptied m.lower)
      ∙ length-set f.blocks block (joined m.upper m.lower)

  pub merged-goto_count :
      suc (goto_count (merge_blocks f.blocks block target)) ≡ goto_count f.blocks
  merged-goto_count =
      let first = goto_count-set f.blocks block m.upper (joined m.upper m.lower) m.upper_at in
      let second =
        goto_count-set (set f.blocks block (joined m.upper m.lower)) target m.lower
          (emptied m.lower) lower_kept in
      let one : goes m.upper.terminator ≡ 1 = ap goes m.goes in
      let all = ap goto_count merge_blocks_lem in omega arith
