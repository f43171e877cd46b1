-- ===== src/Regalloc/Order.antt =====
-- crates/slopic-core/src/regalloc.rs: the order in which the intervals are taken.
use slopium.Base.{
  ℕ, ◌≤◌, ◌≡◌, ◌≢◌, ◌⊎◌, inl, inr, Bool, true, false, List, [], ◌∷◌, arith, if◌then◌else◌,
  Bool-cases, In, All, Distinct,
}
use slopium.Cfg.Interval.{Interval}
use slopium.Regalloc.Defs.{order_le, insert, sort}
use slopium.Regalloc.Invariant.{local_of}

-- No interval starts below `now`, nor before one that stands ahead of it.
abbrev pub Ascending : ℕ → List Interval → Type 0
Ascending now [] = Unit
Ascending now (x ∷ xs) = (now ≤ x.start) × Ascending x.start xs

order_le-true : (a b : Interval) → order_le a b ≡ true → a.start ≤ b.start
unfolding order_le
order_le-true a b h = ground arith

order_le-false : (a b : Interval) → order_le a b ≡ false → b.start ≤ a.start
unfolding order_le
order_le-false a b h = ground arith

Ascending-below :
    (low now : ℕ) (xs : List Interval) → low ≤ now → Ascending now xs → Ascending low xs
Ascending-below low now [] h a = a
Ascending-below low now (x ∷ xs) h a = (omega arith, a.1)

insert-Ascending :
    (now : ℕ) (x : Interval) (xs : List Interval)
    → now ≤ x.start
    → Ascending now xs
    → Ascending now (insert x xs)
unfolding insert
insert-Ascending now x [] h a = (h, tt)
insert-Ascending now x (y ∷ ys) h a = elim (Bool-cases (order_le x y)) [
  | inl e ↦ rw e (h, (order_le-true x y e, a.1))
  | inr e ↦ rw e (a.0, insert-Ascending y.start x ys (order_le-false x y e) a.1)
]

pub sort-Ascending : (xs : List Interval) → Ascending 0 (sort xs)
unfolding sort
sort-Ascending [] = tt
sort-Ascending (x ∷ xs) = insert-Ascending 0 x (sort xs) (omega arith) (sort-Ascending xs)

-- Insertion adds the interval and keeps the others.
In-insert : (i x : Interval) (xs : List Interval) → In i (insert x xs) → (i ≡ x) ⊎ In i xs
unfolding insert
In-insert i x [] (inl e) = inl e
In-insert i x [] (inr z) = absurd z
In-insert i x (y ∷ ys) m = go (In-insert i x ys) (order_le x y) m
  where
    go :
        (In i (insert x ys) → (i ≡ x) ⊎ In i ys)
        → (b : Bool) → In i (if b then x ∷ y ∷ ys else y ∷ insert x ys)
        → (i ≡ x) ⊎ In i (y ∷ ys)
    go ih true n = n
    go ih false (inl p) = inr (inl p)
    go ih false (inr n) = elim (ih n) [ inl p ↦ inl p | inr q ↦ inr (inr q) ]

In-insert_of : (i x : Interval) (xs : List Interval) → (i ≡ x) ⊎ In i xs → In i (insert x xs)
unfolding insert
In-insert_of i x [] m = m
In-insert_of i x (y ∷ ys) m = elim (Bool-cases (order_le x y)) [
  | inl e ↦ rw e m
  | inr e ↦ rw e (elim m [
    | inl p ↦ inr (In-insert_of i x ys (inl p))
    | inr (inl q) ↦ inl q
    | inr (inr n) ↦ inr (In-insert_of i x ys (inr n))
  ])
]

pub In-sort : (i : Interval) (xs : List Interval) → In i (sort xs) → In i xs
unfolding sort
In-sort i [] m = m
In-sort i (x ∷ xs) m = elim (In-insert i x (sort xs) m) [
  | inl e ↦ inl e
  | inr n ↦ inr (In-sort i xs n)
]

pub In-sort_of : (i : Interval) (xs : List Interval) → In i xs → In i (sort xs)
unfolding sort
In-sort_of i [] m = m
In-sort_of i (x ∷ xs) (inl e) = In-insert_of i x (sort xs) (inl e)
In-sort_of i (x ∷ xs) (inr m) = In-insert_of i x (sort xs) (inr (In-sort_of i xs m))

module _ (P : Interval → Type 0) where
  insert-All : (x : Interval) (xs : List Interval) → P x → All P xs → All P (insert x xs)
  unfolding insert
  insert-All x [] p h = (p, tt)
  insert-All x (y ∷ ys) p h = elim (Bool-cases (order_le x y)) [
    | inl e ↦ rw e (p, h)
    | inr e ↦ rw e (h.0, insert-All x ys p h.1)
  ]

  pub sort-All : (xs : List Interval) → All P xs → All P (sort xs)
  unfolding sort
  sort-All [] h = tt
  sort-All (x ∷ xs) h = insert-All x (sort xs) h.0 (sort-All xs h.1)

insert-Distinct :
    (x : Interval) (xs : List Interval)
    → All (λ y. x.local ≢ y.local) xs
    → Distinct local_of xs
    → Distinct local_of (insert x xs)
unfolding insert
insert-Distinct x [] n d = (tt, tt)
insert-Distinct x (y ∷ ys) n d = elim (Bool-cases (order_le x y)) [
  | inl e ↦ rw e (n, d)
  | inr e ↦ rw e (
    insert-All (λ z. y.local ≢ z.local) x ys (λ p. n.0 (mathlib.Core.Path.sym p)) d.0,
    insert-Distinct x ys n.1 d.1,
  )
]

pub sort-Distinct : (xs : List Interval) → Distinct local_of xs → Distinct local_of (sort xs)
unfolding sort
sort-Distinct [] d = tt
sort-Distinct (x ∷ xs) d =
    insert-Distinct x (sort xs) (sort-All (λ y. x.local ≢ y.local) xs d.0) (sort-Distinct xs d.1)
