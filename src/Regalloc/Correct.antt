-- ===== src/Regalloc/Correct.antt =====
-- crates/slopic-core/src/regalloc.rs: what `allocate` promises.
use slopium.Base.{
  ℕ, zero, suc, ◌+◌, ◌<◌, ◌≡◌, ◌≢◌, ◌↔◌, inl, inr, refl, sym, ◌∙◌, ap, subst, Bool, true, false,
  not, Option, none, some, List, [], ◌∷◌, arith, Bool-cases, Option-cases, length, get_or, In, All,
  All-in, Distinct, keep, In-keep_lem, In-keep_of, All-keep, Distinct-keep,
}
use slopium.Cfg.Cover.{AreIntervals}
use slopium.Cfg.Interval.{Interval, Overlap}
use slopium.Regalloc.Defs.{
  Location, register, memory, location, unpinned, place_locals, count_memory, used, initial, sort,
  assign_registers, allocate,
}
use slopium.Regalloc.Invariant.{local_of}
use slopium.Regalloc.Locations.{
  place-register, place-Slot, place-inj, place-onto, IsAscending, used-IsAscending, used_sound,
  used_complete,
}
use slopium.Regalloc.Order.{sort-Ascending, sort-All, sort-Distinct, In-sort, In-sort_of}
use slopium.Regalloc.Scan.{Scanned, scan-Scanned, initial-IsScan}

abbrev is_free : List Bool → Interval → Bool
is_free pinned i = not (get_or pinned i.local false)

unpinned-keep :
    (pinned : List Bool) (xs : List Interval) → unpinned pinned xs ≡ keep (is_free pinned) xs
unfolding unpinned
unpinned-keep pinned [] = refl
unpinned-keep pinned (x ∷ xs) = ground (arith, unpinned-keep pinned xs)

module _ (count registers : ℕ) (pinned : List Bool) (xs : List Interval)
    (good : AreIntervals count xs) where
  pub scanned :
      Scanned count registers []
        (sort (unpinned pinned xs))
        (assign_registers count registers pinned xs)
  unfolding assign_registers
  scanned =
      scan-Scanned count registers (sort (unpinned pinned xs)) [] 0 (initial count registers)
        (initial-IsScan count registers) (sort-Ascending (unpinned pinned xs))
        (sort-Distinct (unpinned pinned xs) (
          subst (Distinct local_of) (sym (unpinned-keep pinned xs))
            (Distinct-keep (is_free pinned) local_of xs good.distinct)))
        (sort-All (λ i. i.local < count) (unpinned pinned xs)
          (subst (All (λ i. i.local < count)) (sym (unpinned-keep pinned xs))
            (All-keep (is_free pinned) (λ i. i.local < count) xs good.bounded)))
        (λ i x m. absurd m)

  sized : length (assign_registers count registers pinned xs).assigned ≡ count
  sized = scanned.invariant.sized

  in_size : (l : ℕ) → l < count → l < length (assign_registers count registers pinned xs).assigned
  in_size l h = subst (λ k. l < k) (sym sized) h

  -- An interval that is not pinned is scanned.
  seen : (i : Interval) → In i xs → get_or pinned i.local false ≡ false → In i scanned.seen
  seen i m free = scanned.seen_of i (
      inl (
        In-sort_of i (unpinned pinned xs) (
          subst (In i) (sym (unpinned-keep pinned xs))
            (In-keep_of (is_free pinned) i xs (ap not free) m))))

  seen_free : (i : Interval) → In i scanned.seen → In i xs × (get_or pinned i.local false ≡ false)
  seen_free i m = elim (scanned.of_seen i m) [
    | inl n ↦
        let (k, f) =
          In-keep_lem (is_free pinned) i xs
            (subst (In i) (unpinned-keep pinned xs) (In-sort i (unpinned pinned xs) n)) in
        (k, not-true (get_or pinned i.local false) f)
    | inr z ↦ absurd z
  ]
    where
      not-true : (b : Bool) → not b ≡ true → b ≡ false
      not-true true h = sym h
      not-true false h = refl

  -- A pinned local gets no register.
  pinned_unassigned :
      (l : ℕ)
      → get_or pinned l false ≡ true
      → get_or (assign_registers count registers pinned xs).assigned l none ≡ none
  pinned_unassigned l h =
      scanned.invariant.unseen l
        (λ i m e. cc (subst (λ k. get_or pinned k false ≡ false) e (seen_free i m).1, h))

  -- Where two locals of the function share a location, it is a register.
  shared_register :
      (l m : ℕ)
      → l < count
      → m < count
      → l ≢ m
      → location (allocate count registers pinned xs) l
        ≡ location (allocate count registers pinned xs) m
      → (r : ℕ) × (get_or (assign_registers count registers pinned xs).assigned l none ≡ some r)
        × (get_or (assign_registers count registers pinned xs).assigned m none ≡ some r)
  unfolding location allocate
  shared_register l m hl hm ne e =
      split (get_or (assign_registers count registers pinned xs).assigned l none)
        (get_or (assign_registers count registers pinned xs).assigned m none) refl refl
    where
      regs : List (Option ℕ)
      regs = (assign_registers count registers pinned xs).assigned

      split :
          (a b : Option ℕ)
          → get_or regs l none ≡ a
          → get_or regs m none ≡ b
          → (r : ℕ) × (get_or regs l none ≡ some r) × (get_or regs m none ≡ some r)
      split none none p q =
          absurd
            (ne (place-inj regs 0 l m (memory l) (memory m) (in_size l hl) (in_size m hm) p q e))
      split none (some b) p q =
          let s = place-Slot regs 0 l (memory l) (in_size l hl) p in
          cc (s.located, place-register regs 0 m b (memory m) q, e)
      split (some a) none p q =
          let s = place-Slot regs 0 m (memory m) (in_size m hm) q in
          cc (s.located, place-register regs 0 l a (memory l) p, e)
      split (some a) (some b) p q = (
        a,
        p,
        q ∙ cc (place-register regs 0 l a (memory l) p, place-register regs 0 m b (memory m) q, e),
      )

-- Two locals whose intervals have a position in common are never given the same location, be it a
-- register or a frame slot: whatever the number of registers and the pinned locals, if every
-- interval is of another local and each local is one of the function's.
pub allocate_safe :
    (count registers : ℕ) (pinned : List Bool) (xs : List Interval)
    → AreIntervals count xs
    → (i j : Interval) → In i xs
    → In j xs
    → i.local ≢ j.local
    → Overlap i j
    → location (allocate count registers pinned xs) i.local
      ≢ location (allocate count registers pinned xs) j.local
allocate_safe count registers pinned xs good i j mi mj ne o e =
    let s = scanned count registers pinned xs good in
    let bi = All-in (λ k. k.local < count) xs good.bounded mi in
    let bj = All-in (λ k. k.local < count) xs good.bounded mj in
    let (r, hi, hj) = shared_register count registers pinned xs good i.local j.local bi bj ne e in
    ne (
      s.invariant.safe i j r (seen count registers pinned xs good i mi (unpinned_of i r hi))
        (seen count registers pinned xs good j mj (unpinned_of j r hj)) hi hj o)
  where
    unpinned_of :
        (k : Interval) (r : ℕ)
        → get_or (assign_registers count registers pinned xs).assigned k.local none ≡ some r
        → get_or pinned k.local false ≡ false
    unpinned_of k r h = elim (Bool-cases (get_or pinned k.local false)) [
      | inl p ↦ cc (pinned_unassigned count registers pinned xs good k.local p, h)
      | inr f ↦ f
    ]

-- A pinned local of the function is in memory.
pub pinned_in_memory :
    (count registers : ℕ) (pinned : List Bool) (xs : List Interval)
    → AreIntervals count xs
    → (l : ℕ) → l < count
    → get_or pinned l false ≡ true
    → (slot : ℕ) × (location (allocate count registers pinned xs) l ≡ memory slot)
unfolding location allocate
pinned_in_memory count registers pinned xs good l lt h =
    let s =
      place-Slot (assign_registers count registers pinned xs).assigned 0 l (memory l)
        (in_size count registers pinned xs good l lt)
        (pinned_unassigned count registers pinned xs good l h) in
    (s.index, s.located)

-- A location below the bound of its kind.
abbrev pub Fits : ℕ → ℕ → Location → Type 0
Fits registers slots (register r) = r < registers
Fits registers slots (memory k) = k < slots

-- Every local of the function is in a register that the backend offers or in a frame slot below
-- `memory_slots`, and each of those slots is the place of some local: they are numbered without gaps.
pub allocate-Fits :
    (count registers : ℕ) (pinned : List Bool) (xs : List Interval)
    → AreIntervals count xs
    → ((l : ℕ)
        → l < count
        → Fits registers
            (allocate count registers pinned xs).memory_slots
            (location (allocate count registers pinned xs) l))
      × ((k : ℕ)
          → k < (allocate count registers pinned xs).memory_slots
          → (l : ℕ) × (l < count) × (location (allocate count registers pinned xs) l ≡ memory k))
unfolding location allocate
allocate-Fits count registers pinned xs good = (fits, onto)
  where
    regs : List (Option ℕ)
    regs = (assign_registers count registers pinned xs).assigned

    fits :
        (l : ℕ)
        → l < count
        → Fits registers (count_memory regs) (get_or (place_locals regs 0) l (memory l))
    fits l lt = elim (Option-cases (get_or regs l none)) [
      | inl e ↦
          let s = place-Slot regs 0 l (memory l) (in_size count registers pinned xs good l lt) e in
          subst (Fits registers (count_memory regs)) (sym s.located) (omega (arith, s.high))
      | inr (r, e) ↦
          subst (Fits registers (count_memory regs)) (sym (place-register regs 0 l r (memory l) e))
            ((scanned count registers pinned xs good).invariant.fits l r e)
    ]

    onto :
        (k : ℕ)
        → k < count_memory regs
        → (l : ℕ) × (l < count) × (get_or (place_locals regs 0) l (memory l) ≡ memory k)
    onto k lt =
        let (l, h, e) = place-onto regs 0 k memory lt in
        let same : 0 + k ≡ k = omega arith in
        (l, subst (λ n. l < n) (sized count registers pinned xs good) h, e ∙ ap memory same)

-- The registers that the backend saves are listed in ascending order without repetition, and are
-- exactly those in which some local of the function is placed.
pub used_registers_exact :
    (count registers : ℕ) (pinned : List Bool) (xs : List Interval)
    → AreIntervals count xs
    → IsAscending (allocate count registers pinned xs).used_registers
      × ((r : ℕ)
          → In r (allocate count registers pinned xs).used_registers ↔ (
              (l : ℕ) × (l < count)
              × (location (allocate count registers pinned xs) l ≡ register r)))
unfolding location allocate
used_registers_exact count registers pinned xs good =
    (used-IsAscending regs, λ r. (sound r, complete r))
  where
    regs : List (Option ℕ)
    regs = (assign_registers count registers pinned xs).assigned

    assigned_lt : (l r : ℕ) (ys : List (Option ℕ)) → get_or ys l none ≡ some r → l < length ys
    assigned_lt l r [] h = cc
    assigned_lt zero r (y ∷ ys) h = omega arith
    assigned_lt (suc l) r (y ∷ ys) h = omega (arith, assigned_lt l r ys h)

    sound :
        (r : ℕ)
        → In r (used regs)
        → (l : ℕ) × (l < count) × (get_or (place_locals regs 0) l (memory l) ≡ register r)
    sound r m =
        let (l, e) = used_sound regs r m in
        (
          l,
          subst (λ n. l < n) (sized count registers pinned xs good) (assigned_lt l r regs e),
          place-register regs 0 l r (memory l) e,
        )

    placed :
        (l r : ℕ) (o : Option ℕ)
        → l < count
        → get_or regs l none ≡ o
        → get_or (place_locals regs 0) l (memory l) ≡ register r
        → In r (used regs)
    placed l r none lt q e = cc (
      (place-Slot regs 0 l (memory l) (in_size count registers pinned xs good l lt) q).located,
      e,
    )
    placed l r (some p) lt q e =
        used_complete regs l r (q ∙ cc (place-register regs 0 l p (memory l) q, e))

    complete :
        (r : ℕ)
        → (l : ℕ) × (l < count) × (get_or (place_locals regs 0) l (memory l) ≡ register r)
        → In r (used regs)
    complete r (l, lt, e) = placed l r (get_or regs l none) lt refl e
