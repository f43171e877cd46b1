-- ===== src/Cfg/Reach.antt =====
-- crates/slopic-core/src/cfg.rs: the depth-first search finds the reachable blocks.
use slopium.Base.{
  ℕ, zero, suc, ◌+◌, ◌*◌, ◌-◌, ◌≤◌, ◌<◌, ◌≡◌, ◌⊎◌, inl, inr, refl, sym, ap, subst, Bool, true,
  false, Option, none, some, List, [], ◌∷◌, arith, eq-or-ne, length, get_elem?, get_or, set,
  replicate, In,
}
use slopium.Mir.{BlockId, BasicBlock, Terminator, return, goto, branch, unreachable}
use slopium.Cfg.DefUse.{successors}
use slopium.Cfg.Graph.{Search, targets_of}

-- Control can go from `a` to `b` along edges between blocks of the function.
pub data PathTo (blocks : List BasicBlock) (a : BlockId) : BlockId → Type 0 where
  here : PathTo blocks a a
  step :
      {b c : BlockId}
      → PathTo blocks a b
      → In c (targets_of blocks b)
      → c < length blocks
      → PathTo blocks a c

abbrev pub IsMarked : Search → BlockId → Type 0
IsMarked s b = get_or s.reachable b false ≡ true

-- What the search keeps true of the blocks that it has marked, finished or begun.
pub record IsSearch (blocks : List BasicBlock) (entry : BlockId) (s : Search) : Type 0 where
  pub sized : length s.reachable ≡ length blocks
  pub entry_marked : IsMarked s entry
  pub begun : (b : BlockId) → IsMarked s b → In b s.order ⊎ ((n : ℕ) × In (b, n) s.stack)
  pub finished :
      (b t : BlockId) → In b s.order → In t (targets_of blocks b) → t < length blocks → IsMarked s t
  pub partial :
      (b n k t : ℕ)
      → In (b, n) s.stack
      → k < n
      → get_elem? (targets_of blocks b) k ≡ some t
      → t < length blocks
      → IsMarked s t
  pub order_marked : (b : BlockId) → In b s.order → IsMarked s b
  pub stack_marked : (b n : ℕ) → In (b, n) s.stack → IsMarked s b
  pub short : (b n : ℕ) → In (b, n) s.stack → n ≤ 2
  pub real : (b : BlockId) → IsMarked s b → PathTo blocks entry b

-- The rounds that are left at most: three for a block still to be met, and what an entry of the
-- stack has left.
unfoldable pub unmarked : List Bool → ℕ
unmarked [] = 0
unmarked (true ∷ bs) = unmarked bs
unmarked (false ∷ bs) = suc (unmarked bs)

unfoldable pub rounds : List (BlockId × ℕ) → ℕ
rounds [] = 0
rounds ((b, n) ∷ rest) = 3 - n + rounds rest

unfoldable pub measure : Search → ℕ
unfolding unmarked rounds
measure s = 3 * unmarked s.reachable + rounds s.stack

pub unmarked-set :
    (bs : List Bool) (i : ℕ)
    → i < length bs
    → get_or bs i false ≡ false
    → unmarked bs ≡ suc (unmarked (set bs i true))
unfolding unmarked
unmarked-set [] i h e = absurd (omega arith)
unmarked-set (true ∷ bs) zero h e = cc
unmarked-set (false ∷ bs) zero h e = refl
unmarked-set (true ∷ bs) (suc i) h e = unmarked-set bs i (omega arith) e
unmarked-set (false ∷ bs) (suc i) h e = ap suc (unmarked-set bs i (omega arith) e)

pub unmarked-replicate : (n : ℕ) → unmarked (replicate n false) ≡ n
unfolding unmarked
unmarked-replicate zero = refl
unmarked-replicate (suc n) = ap suc (unmarked-replicate n)

-- A terminator has two targets at most.
successors_short : (t : Terminator) (n b : ℕ) → get_elem? (successors t) n ≡ some b → n < 2
unfolding successors
successors_short (goto target) zero b h = omega arith
successors_short (goto target) (suc n) b h = cc
successors_short (branch c x y) zero b h = omega arith
successors_short (branch c x y) (suc zero) b h = omega arith
successors_short (branch c x y) (suc (suc n)) b h = cc
successors_short unreachable n b h = cc
successors_short (return v) n b h = cc

pub targets_short :
    (blocks : List BasicBlock) (b n t : ℕ) → get_elem? (targets_of blocks b) n ≡ some t → n < 2
unfolding targets_of
targets_short blocks b n t = go (get_elem? blocks b)
  where
    go :
        (o : Option BasicBlock)
        → get_elem? (elim o [ none ↦ [] | some x ↦ successors x.terminator ]) n ≡ some t
        → n < 2
    go none h = cc
    go (some x) h = successors_short x.terminator n t h

-- The search that goes on with the next target of `block`.
abbrev pub advanced : BlockId → ℕ → List (BlockId × ℕ) → Search → Search
advanced block next rest s = record {
  stack = (block, next + 1) ∷ rest;
  reachable = s.reachable;
  order = s.order;
}

-- The invariant through one round, for the popped entry `(block, next)` above `rest`.
module _ (blocks : List BasicBlock) (entry : BlockId) (s : Search) (block next : ℕ)
    (rest : List (BlockId × ℕ)) (inv : IsSearch blocks entry s)
    (top : s.stack ≡ (block, next) ∷ rest) where
  pub on_top : In (block, next) s.stack
  on_top = subst (In (block, next)) (sym top) (inl refl)

  below : (b n : ℕ) → In (b, n) rest → In (b, n) s.stack
  below b n m = subst (In (b, n)) (sym top) (inr m)

  split : (b n : ℕ) → In (b, n) s.stack → (b ≡ block) ⊎ In (b, n) rest
  split b n m = elim (subst (In (b, n)) top m) [
    | inl e ↦ inl (ap (λ (p : BlockId × ℕ). p.0) e)
    | inr k ↦ inr k
  ]

  -- No target is left: the block is finished.
  module _ (done : get_elem? (targets_of blocks block) next ≡ none) where
    pub finish-IsSearch :
        IsSearch blocks entry
          (record { stack = rest; reachable = s.reachable; order = block ∷ s.order })
    finish-IsSearch = record {
      sized = inv.sized;
      entry_marked = inv.entry_marked;
      begun = λ b m. elim (inv.begun b m) [
        | inl o ↦ inl (inr o)
        | inr (n, k) ↦ elim (split b n k) [ inl e ↦ inl (inl e) | inr r ↦ inr (n, r) ]
      ];
      finished = λ b t m n lt. elim m [
        | inl e ↦ last_target t (subst (λ x. In t (targets_of blocks x)) e n) lt
        | inr o ↦ inv.finished b t o n lt
      ];
      partial = λ b n k t m. inv.partial b n k t (below b n m);
      order_marked = λ b m. elim m [
        | inl e ↦ subst (IsMarked s) (sym e) (inv.stack_marked block next on_top)
        | inr o ↦ inv.order_marked b o
      ];
      stack_marked = λ b n m. inv.stack_marked b n (below b n m);
      short = λ b n m. inv.short b n (below b n m);
      real = inv.real;
    }
      where
        position :
            (t : ℕ) (ts : List ℕ) (n : ℕ)
            → In t ts
            → get_elem? ts n ≡ none
            → (k : ℕ) × (k < n) × (get_elem? ts k ≡ some t)
        position t [] n m e = absurd m
        position t (x ∷ ts) zero m e = cc
        position t (x ∷ ts) (suc n) (inl q) e = (0, omega arith, ap some (sym q))
        position t (x ∷ ts) (suc n) (inr m) e =
            let (k, lt, q) = position t ts n m e in (suc k, omega arith, q)

        last_target : (t : ℕ) → In t (targets_of blocks block) → t < length blocks → IsMarked s t
        last_target t m lt =
            let (k, below_next, e) = position t (targets_of blocks block) next m done in
            inv.partial block next k t on_top below_next e lt

  -- A target that is out of range or marked: the search goes on with the next one.
  module _ (target : ℕ) (found : get_elem? (targets_of blocks block) next ≡ some target) where
    module _ (old : target < length blocks → IsMarked s target) where
      pub advance-IsSearch : IsSearch blocks entry (advanced block next rest s)
      advance-IsSearch = record {
        sized = inv.sized;
        entry_marked = inv.entry_marked;
        begun = λ b m. elim (inv.begun b m) [
          | inl o ↦ inl o
          | inr (n, k) ↦ inr (elim (split b n k) [
            | inl e ↦ (next + 1, inl (ap (λ x. (x, next + 1)) e))
            | inr r ↦ (n, inr r)
          ])
        ];
        finished = inv.finished;
        partial = λ b n k t m lt e bound. elim m [
          | inl p ↦
              next_partial k t (subst (λ j. k < j) (ap (λ (q : BlockId × ℕ). q.1) p) lt)
                (subst (λ j. get_elem? (targets_of blocks j) k ≡ some t)
                  (ap (λ (q : BlockId × ℕ). q.0) p) e)
                bound
          | inr r ↦ inv.partial b n k t (below b n r) lt e bound
        ];
        order_marked = inv.order_marked;
        stack_marked = λ b n m. elim m [
          | inl p ↦
              subst (IsMarked s) (sym (ap (λ (q : BlockId × ℕ). q.0) p))
                (inv.stack_marked block next on_top)
          | inr r ↦ inv.stack_marked b n (below b n r)
        ];
        short = λ b n m. elim m [
          | inl p ↦
              let e : n ≡ next + 1 = ap (λ (q : BlockId × ℕ). q.1) p in
              omega (arith, targets_short blocks block next target found)
          | inr r ↦ inv.short b n (below b n r)
        ];
        real = inv.real;
      }
        where
          next_partial :
              (k t : ℕ)
              → k < next + 1
              → get_elem? (targets_of blocks block) k ≡ some t
              → t < length blocks
              → IsMarked s t
          next_partial k t lt e bound = elim (eq-or-ne k next) [
            | inl same ↦
                let here : t ≡ target =
                  cc (subst (λ j. get_elem? (targets_of blocks block) j ≡ some t) same e, found) in
                subst (IsMarked s) (sym here) (old (subst (λ j. j < length blocks) here bound))
            | inr ne ↦ inv.partial block next k t on_top (omega arith) e bound
          ]
