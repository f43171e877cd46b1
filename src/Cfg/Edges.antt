-- ===== src/Cfg/Edges.antt =====
-- crates/slopic-core/src/cfg.rs: the table of predecessors that `Cfg::new` fills.
use slopium.Base.{
  ℕ, zero, suc, ◌+◌, ◌<◌, ◌≡◌, ◌⊎◌, inl, inr, ◌↔◌, refl, sym, ◌∙◌, subst, true, false, List, [],
  ◌∷◌, ◌++◌, arith, eq-or-ne, Bool-cases, ltb, lt→ltb, length, get_or, set, replicate, In,
  length-set, length-replicate, get_or-replicate, get_or-set_self, get_or-set_ne, In-append,
  In-append_left, In-append_right,
}
use slopium.Mir.{BlockId, BasicBlock, MirFunction}
use slopium.Cfg.DefUse.{successors}
use slopium.Cfg.Graph.{targets_of, add_edges, all_edges, new, predecessors_of}

false_not_true : ¬ (false ≡ true)
false_not_true h = absurd cc

length-add_edges :
    (n i : ℕ) (ts : List BlockId) (preds : List (List BlockId))
    → length (add_edges n i ts preds) ≡ length preds
unfolding add_edges
length-add_edges n i [] preds = refl
length-add_edges n i (t ∷ ts) preds = elim (Bool-cases (ltb t n)) [
  | inl q ↦ rw q (
      length-add_edges n i ts (set preds t (get_or preds t [] ++ i ∷ []))
      ∙ length-set preds t (get_or preds t [] ++ i ∷ []))
  | inr q ↦ rw q (length-add_edges n i ts preds)
]

pub length-all_edges :
    (n i : ℕ) (bs : List BasicBlock) (preds : List (List BlockId))
    → length (all_edges n i bs preds) ≡ length preds
unfolding all_edges
length-all_edges n i [] preds = refl
length-all_edges n i (b ∷ bs) preds =
    length-all_edges n (i + 1) bs (add_edges n i (successors b.terminator) preds)
    ∙ length-add_edges n i (successors b.terminator) preds

-- The row of `t` after one edge from `i` to `u`.
same_row :
    (preds : List (List BlockId)) (i t x : ℕ)
    → t < length preds
    → In x (get_or (set preds t (get_or preds t [] ++ i ∷ [])) t [])
      ↔ (In x (get_or preds t []) ⊎ ((x ≡ i) × (t ≡ t)))
same_row preds i t x lt = rw (get_or-set_self preds t (get_or preds t [] ++ i ∷ []) [] lt) (
  (λ h. elim (In-append x (get_or preds t []) (i ∷ []) h) [
    | inl m ↦ inl m
    | inr m ↦ inr (one m, refl)
  ]),
  (λ h. elim h [
    | inl m ↦ In-append_left x (get_or preds t []) (i ∷ []) m
    | inr e ↦ In-append_right x (get_or preds t []) (i ∷ []) (inl e.0)
  ]),
)
  where
    one : In x (i ∷ []) → x ≡ i
    one (inl e) = e
    one (inr m) = absurd m

edge_row :
    (preds : List (List BlockId)) (i u t x : ℕ)
    → t < length preds
    → In x (get_or (set preds u (get_or preds u [] ++ i ∷ [])) t [])
      ↔ (In x (get_or preds t []) ⊎ ((x ≡ i) × (t ≡ u)))
edge_row preds i u t x lt = elim (eq-or-ne u t) [
  | inr ne ↦
      rw (get_or-set_ne preds u t (get_or preds u [] ++ i ∷ []) [] ne)
        ((λ h. inl h), (λ h. elim h [ inl m ↦ m | inr e ↦ absurd (ne (sym e.1)) ]))
  | inl e ↦
      subst
        (λ v.
          In x (get_or (set preds v (get_or preds v [] ++ i ∷ [])) t [])
          ↔ (In x (get_or preds t []) ⊎ ((x ≡ i) × (t ≡ v))))
        (sym e) (same_row preds i t x lt)
]

-- The edges of one block.
block_edges :
    (n i : ℕ) (ts : List BlockId) (preds : List (List BlockId)) (t x : ℕ)
    → length preds ≡ n
    → t < n
    → In x (get_or (add_edges n i ts preds) t []) ↔ (In x (get_or preds t []) ⊎ ((x ≡ i) × In t ts))
unfolding add_edges
block_edges n i [] preds t x e lt = ((λ h. inl h), (λ h. elim h [ inl m ↦ m | inr m ↦ absurd m.1 ]))
block_edges n i (u ∷ ts) preds t x e lt = elim (Bool-cases (ltb u n)) [
  | inl q ↦
      let preds' = set preds u (get_or preds u [] ++ i ∷ []) in
      let (to, from) =
        block_edges n i ts preds' t x (length-set preds u (get_or preds u [] ++ i ∷ []) ∙ e) lt in
      let (row_to, row_from) = edge_row preds i u t x (subst (λ k. t < k) (sym e) lt) in
      rw (q, add_edges)
        (
          (λ h. elim (to h) [
            | inr m ↦ inr (m.0, inr m.1)
            | inl m ↦ elim (row_to m) [ inl m ↦ inl m | inr d ↦ inr (d.0, inl d.1) ]
          ]),
          (λ h. elim h [
            | inl m ↦ from (inl (row_from (inl m)))
            | inr d ↦ elim d.1 [
              | inl z ↦ from (inl (row_from (inr (d.0, z))))
              | inr m ↦ from (inr (d.0, m))
            ]
          ]),
        )
  | inr q ↦
      let (to, from) = block_edges n i ts preds t x e lt in
      rw (q, add_edges)
        (
          (λ h. elim (to h) [ inl m ↦ inl m | inr m ↦ inr (m.0, inr m.1) ]),
          (λ h. elim h [
            | inl m ↦ from (inl m)
            | inr d ↦ elim d.1 [
              | inl z ↦ absurd (false_not_true (sym q ∙ lt→ltb u n (subst (λ k. k < n) z lt)))
              | inr m ↦ from (inr (d.0, m))
            ]
          ]),
        )
]

-- The edges of the blocks from the `i`th on.
later_edges :
    (n i : ℕ) (bs : List BasicBlock) (preds : List (List BlockId)) (t x : ℕ)
    → length preds ≡ n
    → t < n
    → In x (get_or (all_edges n i bs preds) t [])
      ↔ (In x (get_or preds t []) ⊎ ((k : ℕ) × (x ≡ i + k) × In t (targets_of bs k)))
unfolding all_edges targets_of
later_edges n i [] preds t x e lt =
    ((λ h. inl h), (λ h. elim h [ inl m ↦ m | inr (k, q, m) ↦ absurd m ]))
later_edges n i (b ∷ bs) preds t x e lt =
    let (to, from) =
      later_edges n (i + 1) bs (add_edges n i (successors b.terminator) preds) t x
        (length-add_edges n i (successors b.terminator) preds ∙ e) lt in
    let (one_to, one_from) = block_edges n i (successors b.terminator) preds t x e lt in
    (
      (λ h. elim (to h) [
        | inr (k, q, m) ↦ inr (suc k, omega arith, m)
        | inl m ↦ elim (one_to m) [ inl m ↦ inl m | inr d ↦ inr (0, omega arith, d.1) ]
      ]),
      (λ h. elim h [
        | inl m ↦ from (inl (one_from (inl m)))
        | inr (zero, q, m) ↦ from (inl (one_from (inr (omega arith, m))))
        | inr (suc k, q, m) ↦ from (inr (k, omega arith, m))
      ]),
    )

-- A block stands among the predecessors of a block of the function just when that is one of its
-- targets.
pub predecessors_of-In :
    (f : MirFunction) (b t : BlockId)
    → t < length f.blocks
    → In b (predecessors_of (new f) t) ↔ In t (targets_of f.blocks b)
unfolding predecessors_of new
predecessors_of-In f b t lt =
    let n = length f.blocks in
    let (to, from) = later_edges n 0 f.blocks (replicate n []) t b (length-replicate n []) lt in
    (
      (λ h. elim (to h) [
        | inl m ↦ absurd (subst (In b) (get_or-replicate n t []) m)
        | inr (k, q, m) ↦ subst (λ j. In t (targets_of f.blocks j)) (omega arith) m
      ]),
      (λ h. from (inr (b, omega arith, h))),
    )

-- A block with predecessors is a block of the function.
pub predecessors_of-lt :
    (f : MirFunction) (b t : BlockId) → In b (predecessors_of (new f) t) → t < length f.blocks
unfolding predecessors_of new
predecessors_of-lt f b t h =
    let n = length f.blocks in
    subst (λ k. t < k) (length-all_edges n 0 f.blocks (replicate n []) ∙ length-replicate n [])
      (row-lt (all_edges n 0 f.blocks (replicate n [])) t b h)
  where
    row-lt : (rows : List (List BlockId)) (t b : ℕ) → In b (get_or rows t []) → t < length rows
    row-lt [] t b h = absurd h
    row-lt (r ∷ rows) zero b h = omega arith
    row-lt (r ∷ rows) (suc t) b h = let lt = row-lt rows t b h in omega arith
