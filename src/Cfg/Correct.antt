-- ===== src/Cfg/Correct.antt =====
-- crates/slopic-core/src/cfg.rs: what `Cfg::new` promises of reachability and of the block order.
use slopium.Base.{
  ℕ, ◌≤◌, ◌<◌, ◌≡◌, ◌↔◌, inl, inr, sym, ◌∙◌, subst, Bool, true, false, List, [], arith, lt→ltb,
  eq-or-ne, length, replicate, length-set, length-replicate, get_or-replicate, get_or-set_self,
  get_or-set_ne, In,
}
use slopium.Mir.{BlockId, MirFunction}
use slopium.Cfg.Graph.{search_fuel, search_start, searched, new, is_reachable}
use slopium.Cfg.Reach.{
  PathTo, here, step, IsMarked, IsSearch, rounds, measure, unmarked-set, unmarked-replicate,
}
use slopium.Cfg.Found.{search_from_lem}

module _ (f : MirFunction) (entry_lt : f.entry < length f.blocks) where
  fresh : List Bool
  fresh = replicate (length f.blocks) false

  fresh_size : f.entry < length (replicate (length f.blocks) false)
  fresh_size = subst (λ k. f.entry < k) (sym (length-replicate (length f.blocks) false)) entry_lt

  start-IsMarked : IsMarked (search_start f) f.entry
  unfolding search_start
  start-IsMarked = get_or-set_self (replicate (length f.blocks) false) f.entry true false fresh_size

  start_only : (b : BlockId) → IsMarked (search_start f) b → b ≡ f.entry
  unfolding search_start
  start_only b m = elim (eq-or-ne f.entry b) [
    | inl e ↦ sym e
    | inr ne ↦ cc (
      m,
      get_or-set_ne (replicate (length f.blocks) false) f.entry b true false ne,
      get_or-replicate (length f.blocks) b false,
    )
  ]

  start_stack : (b n : ℕ) → In (b, n) (search_start f).stack → (b ≡ f.entry) × (n ≡ 0)
  unfolding search_start
  start_stack b n (inl e) = (
    mathlib.Core.Path.ap (λ (q : BlockId × ℕ). q.0) e,
    mathlib.Core.Path.ap (λ (q : BlockId × ℕ). q.1) e,
  )
  start_stack b n (inr z) = absurd z

  start-IsSearch : IsSearch f.blocks f.entry (search_start f)
  start-IsSearch = record {
    sized =
        unfold search_start in
        length-set (replicate (length f.blocks) false) f.entry true
        ∙ length-replicate (length f.blocks) false;
    entry_marked = start-IsMarked;
    begun = λ b m.
        inr (
          0,
          unfold search_start in inl (mathlib.Core.Path.ap (λ (x : ℕ). (x, 0)) (start_only b m)),
        );
    finished = λ b t m. absurd (unfold search_start in m);
    partial = λ b n k t m lt. absurd (no_target n k (start_stack b n m).1 lt);
    order_marked = λ b m. absurd (unfold search_start in m);
    stack_marked =
        λ b n m. subst (IsMarked (search_start f)) (sym (start_stack b n m).0) start-IsMarked;
    short = λ b n m. omega (arith, (start_stack b n m).1);
    real = λ b m. subst (PathTo f.blocks f.entry) (sym (start_only b m)) here;
  }
    where
      no_target : (n k : ℕ) → n ≡ 0 → k < n → ⊥
      no_target n k e lt = absurd (omega arith)

  start_measure : measure (search_start f) ≤ search_fuel f.blocks
  unfolding measure rounds search_start
  start_measure = omega (
    arith,
    unmarked-set (replicate (length f.blocks) false) f.entry fresh_size
        (get_or-replicate (length f.blocks) f.entry false),
    unmarked-replicate (length f.blocks),
  )

  pub searched-IsSearch : IsSearch f.blocks f.entry (searched f) × ((searched f).stack ≡ [])
  unfolding searched
  searched-IsSearch = rw (lt→ltb f.entry (length f.blocks) entry_lt) (
      search_from_lem f.blocks f.entry (search_fuel f.blocks) (search_start f) start-IsSearch
        start_measure)

  -- The order holds the marked blocks.
  pub marked_in_order : (b : BlockId) → IsMarked (searched f) b → In b (searched f).order
  marked_in_order b m = elim (searched-IsSearch.0.begun b m) [
    | inl o ↦ o
    | inr (n, k) ↦ absurd (subst (In (b, n)) searched-IsSearch.1 k)
  ]

  IsMarked-path : (b : BlockId) → PathTo f.blocks f.entry b → IsMarked (searched f) b
  IsMarked-path b here = searched-IsSearch.0.entry_marked
  IsMarked-path b (step p m lt) =
      searched-IsSearch.0.finished _ b (marked_in_order _ (IsMarked-path _ p)) m lt

-- For a function whose entry is one of its blocks: a block is marked reachable exactly if control
-- can get to it from the entry along edges between blocks, and the reverse postorder holds exactly
-- the reachable blocks. The search has then come to its end within its fuel.
pub is_reachable-iff-path :
    (f : MirFunction)
    → f.entry < length f.blocks
    → (b : BlockId)
    → ((is_reachable (new f) b ≡ true) ↔ PathTo f.blocks f.entry b)
      × (In b (new f).reverse_postorder ↔ (is_reachable (new f) b ≡ true))
      × ((searched f).stack ≡ [])
unfolding is_reachable new
is_reachable-iff-path f lt b =
    let (inv, ended) = searched-IsSearch f lt in
    ((inv.real b, IsMarked-path f lt b), (inv.order_marked b, marked_in_order f lt b), ended)
