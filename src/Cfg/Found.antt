-- ===== src/Cfg/Found.antt =====
-- crates/slopic-core/src/cfg.rs: the search ends, and marks the reachable blocks and no others.
use slopium.Base.{
  ℕ, zero, suc, ◌+◌, ◌*◌, ◌-◌, ◌≤◌, ◌<◌, ◌≡◌, ◌⊎◌, inl, inr, refl, sym, ◌∙◌, ap, subst, true, false,
  none, some, List, [], ◌∷◌, arith, ltb, ltb→lt, lt→ltb, eq-or-ne, Bool-cases, Option-cases, length,
  get_elem?, get_or, set, length-set, get_or-set_self, get_or-set_ne, In, In-get_elem?,
}
use slopium.Mir.{BlockId, BasicBlock}
use slopium.Cfg.Graph.{Search, targets_of, visit, search_step, search_from}
use slopium.Cfg.Reach.{
  PathTo, step, IsMarked, IsSearch, unmarked, rounds, measure, unmarked-set, targets_short, on_top,
  advanced, advance-IsSearch, finish-IsSearch,
}

unfoldable marked : BlockId → Search → Search
marked target s = record {
  stack = (target, 0) ∷ s.stack;
  reachable = set s.reachable target true;
  order = s.order;
}

module _ (blocks : List BasicBlock) (entry target : BlockId) (s : Search)
    (inv : IsSearch blocks entry s) (bound : target < length blocks)
    (path : PathTo blocks entry target) where
  in_size : target < length s.reachable
  in_size = subst (λ k. target < k) (sym inv.sized) bound

  mark_self : IsMarked (marked target s) target
  unfolding marked
  mark_self = get_or-set_self s.reachable target true false in_size

  -- Marks stay.
  mark_keeps : (b : BlockId) → IsMarked s b → IsMarked (marked target s) b
  unfolding marked
  mark_keeps b m = elim (eq-or-ne target b) [
    | inl e ↦ subst (IsMarked (marked target s)) e mark_self
    | inr ne ↦ get_or-set_ne s.reachable target b true false ne ∙ m
  ]

  mark_only : (b : BlockId) → IsMarked (marked target s) b → (b ≡ target) ⊎ IsMarked s b
  unfolding marked
  mark_only b m = elim (eq-or-ne target b) [
    | inl e ↦ inl (sym e)
    | inr ne ↦ inr (sym (get_or-set_ne s.reachable target b true false ne) ∙ m)
  ]

  pushed :
      (b n : ℕ)
      → In (b, n) (marked target s).stack
      → ◌≡◌ {A = ℕ × ℕ} (b, n) (target, 0) ⊎ In (b, n) s.stack
  unfolding marked
  pushed b n m = m

  mark-IsSearch : IsSearch blocks entry (marked target s)
  mark-IsSearch = record {
    sized = unfold marked in length-set s.reachable target true ∙ inv.sized;
    entry_marked = mark_keeps entry inv.entry_marked;
    begun = λ b m. elim (mark_only b m) [
      | inl e ↦ inr (0, unfold marked in inl (ap (λ (x : ℕ). (x, 0)) e))
      | inr old ↦ elim (inv.begun b old) [
        | inl o ↦ inl (unfold marked in o)
        | inr (n, k) ↦ inr (n, unfold marked in inr k)
      ]
    ];
    finished = λ b t m n lt. mark_keeps t (inv.finished b t (unfold marked in m) n lt);
    partial = λ b n k t m lt e bd. elim (pushed b n m) [
      | inl p ↦ absurd (no_target n k lt (ap (λ (q : BlockId × ℕ). q.1) p))
      | inr r ↦ mark_keeps t (inv.partial b n k t r lt e bd)
    ];
    order_marked = λ b m. mark_keeps b (inv.order_marked b (unfold marked in m));
    stack_marked = λ b n m. elim (pushed b n m) [
      | inl p ↦ subst (IsMarked (marked target s)) (sym (ap (λ (q : BlockId × ℕ). q.0) p)) mark_self
      | inr r ↦ mark_keeps b (inv.stack_marked b n r)
    ];
    short = λ b n m. elim (pushed b n m) [
      | inl p ↦ let e : n ≡ 0 = ap (λ (q : BlockId × ℕ). q.1) p in omega arith
      | inr r ↦ inv.short b n r
    ];
    real = λ b m. elim (mark_only b m) [
      | inl e ↦ subst (PathTo blocks entry) (sym e) path
      | inr old ↦ inv.real b old
    ];
  }
    where
      no_target : (n k : ℕ) → k < n → n ≡ 0 → ⊥
      no_target n k lt e = absurd (omega arith)

-- The order of the stack does not matter to the invariant.
restack-IsSearch :
    (blocks : List BasicBlock) (entry : BlockId) (s : Search) (stack : List (BlockId × ℕ))
    → IsSearch blocks entry s
    → ((b n : ℕ) → In (b, n) s.stack → In (b, n) stack)
    → ((b n : ℕ) → In (b, n) stack → In (b, n) s.stack)
    → IsSearch blocks entry (record { stack = stack; reachable = s.reachable; order = s.order })
restack-IsSearch blocks entry s stack inv into from = record {
  sized = inv.sized;
  entry_marked = inv.entry_marked;
  begun = λ b m. elim (inv.begun b m) [ inl o ↦ inl o | inr (n, k) ↦ inr (n, into b n k) ];
  finished = inv.finished;
  partial = λ b n k t m. inv.partial b n k t (from b n m);
  order_marked = inv.order_marked;
  stack_marked = λ b n m. inv.stack_marked b n (from b n m);
  short = λ b n m. inv.short b n (from b n m);
  real = inv.real;
}

swap_in :
    (x y p : BlockId × ℕ) (rest : List (BlockId × ℕ)) → In p (x ∷ y ∷ rest) → In p (y ∷ x ∷ rest)
swap_in x y p rest (inl e) = inr (inl e)
swap_in x y p rest (inr (inl e)) = inl e
swap_in x y p rest (inr (inr m)) = inr (inr m)

-- One round keeps the invariant and uses up a round of the measure.
module _ (blocks : List BasicBlock) (entry : BlockId) (s : Search) (block next : ℕ)
    (rest : List (BlockId × ℕ)) (inv : IsSearch blocks entry s)
    (top : s.stack ≡ (block, next) ∷ rest) where
  abbrev Round : Search → Type 0
  Round t = IsSearch blocks entry t × (measure t < measure s)

  measure_top : measure s ≡ 3 * unmarked s.reachable + (3 - next + rounds rest)
  unfolding measure rounds
  measure_top = ap (λ st. 3 * unmarked s.reachable + rounds st) top

  next_short : next ≤ 2
  next_short = inv.short block next (on_top blocks entry s block next rest inv top)

  finish-Round :
      get_elem? (targets_of blocks block) next ≡ none
      → Round (record { stack = rest; reachable = s.reachable; order = block ∷ s.order })
  finish-Round done = (finish-IsSearch blocks entry s block next rest inv top done, shorter)
    where
      shorter :
          measure (record { stack = rest; reachable = s.reachable; order = block ∷ s.order })
          < measure s
      shorter = unfold measure in omega (arith, measure_top, next_short)

  module _ (target : ℕ) (found : get_elem? (targets_of blocks block) next ≡ some target) where
    next_low : next < 2
    next_low = targets_short blocks block next target found

    module _ (old : target < length blocks → IsMarked s target) where
      pass-Round : Round (advanced block next rest s)
      unfolding measure rounds
      pass-Round = (
        advance-IsSearch blocks entry s block next rest inv top target found old,
        omega (arith, measure_top, next_low),
      )

    module _ (bound : target < length blocks)
        (fresh : get_or s.reachable target false ≡ false) where
      -- `s` with the new target below the block that is being searched
      beneath : Search
      beneath = record {
        stack = (block, next) ∷ (target, 0) ∷ rest;
        reachable = set s.reachable target true;
        order = s.order;
      }

      to_target : PathTo blocks entry target
      to_target =
          step
            (inv.real block
              (inv.stack_marked block next (on_top blocks entry s block next rest inv top)))
            (In-get_elem? (targets_of blocks block) next found) bound

      beneath-IsSearch : IsSearch blocks entry beneath
      unfolding beneath marked
      beneath-IsSearch =
          restack-IsSearch blocks entry (marked target s) ((block, next) ∷ (target, 0) ∷ rest)
            (mark-IsSearch blocks entry target s inv bound to_target)
            (λ b n m.
              swap_in (target, 0) (block, next) (b, n) rest
                (subst (λ st. In (b, n) ((target, 0) ∷ st)) top m))
            (λ b n m.
              subst (λ st. In (b, n) ((target, 0) ∷ st)) (sym top)
                (swap_in (block, next) (target, 0) (b, n) rest m))

      enter-Round : Round (record {
        stack = (target, 0) ∷ (block, next + 1) ∷ rest;
        reachable = set s.reachable target true;
        order = s.order;
      })
      enter-Round = (entered, shorter)
        where
          found_marked : target < length blocks → IsMarked beneath target
          found_marked _ =
              unfold beneath marked in mark_self blocks entry target s inv bound to_target

          passed : IsSearch blocks entry (advanced block next ((target, 0) ∷ rest) beneath)
          passed =
              advance-IsSearch blocks entry beneath block next ((target, 0) ∷ rest) beneath-IsSearch
                (unfold beneath in refl) target found found_marked

          entered : IsSearch blocks entry (record {
            stack = (target, 0) ∷ (block, next + 1) ∷ rest;
            reachable = set s.reachable target true;
            order = s.order;
          })
          entered =
              unfold beneath in
              restack-IsSearch blocks entry (advanced block next ((target, 0) ∷ rest) beneath)
                ((target, 0) ∷ (block, next + 1) ∷ rest) passed
                (λ b n m. swap_in (block, next + 1) (target, 0) (b, n) rest m)
                (λ b n m. swap_in (target, 0) (block, next + 1) (b, n) rest m)

          fewer : unmarked s.reachable ≡ suc (unmarked (set s.reachable target true))
          fewer =
              unmarked-set s.reachable target (subst (λ k. target < k) (sym inv.sized) bound) fresh

          shorter :
              measure (record {
                stack = (target, 0) ∷ (block, next + 1) ∷ rest;
                reachable = set s.reachable target true;
                order = s.order;
              })
              < measure s
          shorter = unfold measure rounds in omega (arith, measure_top, next_low, fewer)

    visit-Round : Round (visit (length blocks) target (advanced block next rest s))
    unfolding visit
    visit-Round = elim (Bool-cases (ltb target (length blocks))) [
      | inr out ↦ rw out (pass-Round (λ lt. cc (lt→ltb target (length blocks) lt, out)))
      | inl bound ↦ rw bound (elim (Bool-cases (get_or s.reachable target false)) [
        | inl old ↦ rw old (pass-Round (λ lt. old))
        | inr fresh ↦ rw fresh (enter-Round (ltb→lt target (length blocks) bound) fresh)
      ])
    ]

  step-Round : Round (search_step blocks block next rest s)
  unfolding search_step
  step-Round = elim (Option-cases (get_elem? (targets_of blocks block) next)) [
    | inl done ↦ rw (done, search_step) (finish-Round done)
    | inr (target, found) ↦ rw (found, search_step) (visit-Round target found)
  ]

-- With fuel for the measure the search ends with an empty stack.
pub search_from_lem :
    (blocks : List BasicBlock) (entry : BlockId) (fuel : ℕ) (s : Search)
    → IsSearch blocks entry s
    → measure s ≤ fuel
    → IsSearch blocks entry (search_from blocks fuel s) × ((search_from blocks fuel s).stack ≡ [])
unfolding search_from
search_from_lem blocks entry zero s inv h = (inv, empty s.stack refl)
  where
    empty : (st : List (BlockId × ℕ)) → s.stack ≡ st → s.stack ≡ []
    empty [] e = e
    empty ((b, n) ∷ rest) e = absurd (
        omega (
          arith,
          h,
          measure_top blocks entry s b n rest inv e,
          next_short blocks entry s b n rest inv e,
        ))
search_from_lem blocks entry (suc fuel) s inv h =
    go (search_from_lem blocks entry fuel) s.stack refl
  where
    Ends : Search → Type 0
    Ends t = IsSearch blocks entry t × (t.stack ≡ [])

    go :
        ((t : Search)
          → IsSearch blocks entry t
          → measure t ≤ fuel
          → Ends (search_from blocks fuel t))
        → (st : List (BlockId × ℕ)) → s.stack ≡ st
        → Ends (elim st [
          | [] ↦ s
          | (b, n) ∷ rest ↦ search_from blocks fuel (search_step blocks b n rest s)
        ])
    go ih [] e = (inv, e)
    go ih ((b, n) ∷ rest) e =
        let (next, shorter) = step-Round blocks entry s b n rest inv e in
        ih (search_step blocks b n rest s) next (omega arith)
