-- ===== src/Regalloc/Place.antt =====
-- crates/slopic-core/src/regalloc.rs: one round of the scan, and the whole scan.
use slopium.Base.{
  ℕ, suc, ◌+◌, ◌<◌, ◌≡◌, ◌≢◌, inl, inr, refl, sym, ◌∙◌, ap, subst, true, false, Option, none, some,
  List, [], ◌∷◌, arith, leb, if◌then◌else◌, Bool-cases, Option-cases, length, get_elem?, get_or,
  set, remove, length-set, get_or-set_self, get_or-set_ne, get_or-set_default, In, In-remove,
  In-remove_or, remove-key_ne, Distinct-remove, eq-or-ne, In-get_elem?,
}
use slopium.Cfg.Interval.{Interval}
use slopium.Regalloc.Defs.{
  Scan, find_free, key_le, max_from, victim, take_register, steal_register, spill, place,
}
use slopium.Regalloc.Invariant.{IsScan, register_of, local_of, some-inj}
use slopium.Regalloc.Steps.{Given, given-IsScan, find_free_lem, get_or-default}

max_from-at :
    (all : List Interval) (i : ℕ) (best : ℕ × Interval) (xs : List Interval)
    → ((k : ℕ) → get_elem? xs k ≡ get_elem? all (i + k))
    → get_elem? all best.0 ≡ some best.1
    → get_elem? all (max_from i best xs).0 ≡ some (max_from i best xs).1
unfolding max_from
max_from-at all i best [] h e = e
max_from-at all i best (x ∷ xs) h e =
    max_from-at all (i + 1) (if key_le best.1 x then (i, x) else best) xs
      (λ k.
        let same : i + suc k ≡ i + 1 + k = omega arith in
        subst (λ m. get_elem? xs k ≡ get_elem? all m) same (h (suc k)))
      (elim (Bool-cases (key_le best.1 x)) [
        | inl newer ↦
            let here : i + 0 ≡ i = omega arith in
            rw newer (sym (subst (λ m. some x ≡ get_elem? all m) here (h 0)))
        | inr older ↦ rw older e
      ])

-- The victim stands at its index.
victim_lem :
    (active : List Interval) (index : ℕ) (other : Interval)
    → victim active ≡ some (index, other)
    → get_elem? active index ≡ some other
unfolding victim
victim_lem [] index other h = cc
victim_lem (x ∷ xs) index other h =
    let e = max_from-at (x ∷ xs) 1 (0, x) xs (λ k. ap (get_elem? (x ∷ xs)) (one_more k)) refl in
    subst (λ p. get_elem? (x ∷ xs) p.0 ≡ some p.1) (some-inj h) e
  where
    one_more : (k : ℕ) → suc k ≡ 1 + k
    one_more k = omega arith

module _ (count registers : ℕ) (done : List Interval) (s : Scan) (n : Interval)
    (inv : IsScan count registers done n.start s)
    (fresh : (i : Interval) → In i done → i.local ≢ n.local) (bound : n.local < count) where
  in_bounds : n.local < length s.assigned
  in_bounds = subst (λ k. n.local < k) (sym inv.sized) bound

  active_ne : (i : Interval) → In i s.active → n.local ≢ i.local
  active_ne i m e = fresh i (inv.known i m) (sym e)

  take-Given :
      (r : ℕ)
      → get_or s.busy r false ≡ false
      → r < length s.busy
      → Given s n done r s.active (take_register n s r)
  unfolding take_register
  take-Given r idle lt = record {
    actives = refl;
    same_size = length-set s.assigned n.local (some r);
    same_busy = length-set s.busy r true;
    new_register = get_or-set_self s.assigned n.local (some r) none in_bounds;
    busy_new = get_or-set_self s.busy r true false lt;
    old_register =
        λ l q ne e. sym (get_or-set_ne s.assigned n.local l (some r) none (λ p. ne (sym p))) ∙ e;
    kept_active = λ i m. m;
    kept_register = λ i m. get_or-set_ne s.assigned n.local i.local (some r) none (active_ne i m);
    kept_ne = λ i m e. idle_ne i m e (inv.held i m);
    kept_busy = λ q b. elim (eq-or-ne r q) [
      | inl e ↦
          subst (λ k. get_or (set s.busy r true) k false ≡ true) e
            (get_or-set_self s.busy r true false lt)
      | inr ne ↦ get_or-set_ne s.busy r q true false ne ∙ b
    ];
    kept_distinct = inv.distinct;
    still = λ i q m e. m;
  }
    where
      idle_ne :
          (i : Interval)
          → In i s.active
          → register_of s i ≡ some r
          → (q : ℕ) × (register_of s i ≡ some q) × (get_or s.busy q false ≡ true)
          → ⊥
      idle_ne i m e (q, e', b) =
          let same : q ≡ r = some-inj (sym e' ∙ e) in
          cc (subst (λ k. get_or s.busy k false ≡ true) same b, idle)

  module _ (index : ℕ) (other : Interval) (r : ℕ) (at_index : get_elem? s.active index ≡ some other)
      (holds : register_of s other ≡ some r) where
    other_active : In other s.active
    other_active = In-get_elem? s.active index at_index

    removed_ne : (i : Interval) → In i (remove s.active index) → i.local ≢ other.local
    removed_ne i m = remove-key_ne local_of s.active index inv.distinct at_index m

    without_other : List (Option ℕ)
    without_other = set s.assigned other.local none

    after_steal :
        (l : ℕ)
        → l ≢ n.local
        → get_or (steal_register n s index other r).assigned l none ≡ get_or without_other l none
    unfolding steal_register without_other
    after_steal l ne =
        get_or-set_ne (set s.assigned other.local none) n.local l (some r) none (λ p. ne (sym p))

    steal-old :
        (l q : ℕ)
        → l ≢ n.local
        → get_or (steal_register n s index other r).assigned l none ≡ some q
        → (other.local ≢ l) × (get_or s.assigned l none ≡ some q)
    unfolding without_other
    steal-old l q ne e = elim (eq-or-ne other.local l) [
      | inl same ↦ cc (
        after_steal l ne,
        e,
        subst (λ k. get_or (set s.assigned other.local none) k none ≡ none) same
            (get_or-set_default s.assigned other.local none),
      )
      | inr differs ↦ (
        differs,
        sym (get_or-set_ne s.assigned other.local l none none differs) ∙ sym (after_steal l ne) ∙ e,
      )
    ]

    steal-kept :
        (i : Interval)
        → In i (remove s.active index)
        → register_of (steal_register n s index other r) i ≡ register_of s i
    unfolding without_other
    steal-kept i m =
        after_steal i.local (λ p. active_ne i (In-remove i s.active index m) (sym p))
        ∙ get_or-set_ne s.assigned other.local i.local none none (λ p. removed_ne i m (sym p))

    other_busy : get_or s.busy r false ≡ true
    other_busy =
        let (q, e, b) = inv.held other other_active in
        let same : q ≡ r = some-inj (sym e ∙ holds) in
        subst (λ k. get_or s.busy k false ≡ true) same b

    steal-Given : Given s n done r (remove s.active index) (steal_register n s index other r)
    steal-Given = record {
      actives = unfold steal_register in refl;
      same_size =
          unfold steal_register in
          length-set (set s.assigned other.local none) n.local (some r)
          ∙ length-set s.assigned other.local none;
      same_busy = unfold steal_register in refl;
      new_register =
          unfold steal_register in
          get_or-set_self (set s.assigned other.local none) n.local (some r) none
            (subst (λ k. n.local < k) (sym (length-set s.assigned other.local none)) in_bounds);
      busy_new = unfold steal_register in other_busy;
      old_register = λ l q ne e. (steal-old l q ne e).1;
      kept_active = λ i m. In-remove i s.active index m;
      kept_register = steal-kept;
      kept_ne = λ i m e.
          removed_ne i m (inv.apart i other r (In-remove i s.active index m) other_active e holds);
      kept_busy = λ q b. unfold steal_register in b;
      kept_distinct = Distinct-remove local_of s.active index inv.distinct;
      still = λ i q m e. elim (In-remove_or s.active index at_index m) [
        | inl same ↦
            absurd ((steal-old i.local q (λ p. active_ne i m (sym p)) e).0 (ap local_of (sym same)))
        | inr k ↦ k
      ];
    }

  -- The new interval stays in memory.
  skip-IsScan : IsScan count registers (n ∷ done) n.start s
  skip-IsScan = record {
    sized = inv.sized;
    busy_sized = inv.busy_sized;
    fits = inv.fits;
    unseen = λ l h. inv.unseen l (λ i m. h i (inr m));
    held = inv.held;
    apart = inv.apart;
    known = λ i m. inr (inv.known i m);
    distinct = inv.distinct;
    covered = λ i q m e. elim m [
      | inl same ↦ absurd (unassigned i q same e)
      | inr old ↦ inv.covered i q old e
    ];
    safe = λ i j q mi mj ei ej o. elim mi [
      | inl same ↦ absurd (unassigned i q same ei)
      | inr old ↦ elim mj [
        | inl same ↦ absurd (unassigned j q same ej)
        | inr old' ↦ inv.safe i j q old old' ei ej o
      ]
    ];
  }
    where
      unassigned : (i : Interval) (q : ℕ) → i ≡ n → register_of s i ≡ some q → ⊥
      unassigned i q same e =
          cc (subst (λ x. register_of s x ≡ some q) same e, inv.unseen n.local fresh)

  spill-IsScan : IsScan count registers (n ∷ done) n.start (spill n s)
  unfolding spill
  spill-IsScan = elim (Option-cases (victim s.active)) [
    | inl e ↦ rw (e, spill) skip-IsScan
    | inr (p, e) ↦ rw (e, spill) (chosen p.0 p.1 (victim_lem s.active p.0 p.1 e))
  ]
    where
      chosen :
          (index : ℕ) (other : Interval)
          → get_elem? s.active index ≡ some other
          → IsScan count registers (n ∷ done) n.start (
              if leb other.end n.end then s else elim (get_or s.assigned other.local none) [
                | none ↦ s
                | some r ↦ steal_register n s index other r
              ])
      chosen index other at_index = elim (Bool-cases (leb other.end n.end)) [
        | inl e ↦ rw e skip-IsScan
        | inr e ↦ rw e (elim (Option-cases (get_or s.assigned other.local none)) [
          | inl no_register ↦ rw no_register skip-IsScan
          | inr (r, holds) ↦ rw holds (
              given-IsScan count registers done s n inv fresh r (remove s.active index)
                (steal_register n s index other r) (steal-Given index other r at_index holds)
                (inv.fits other.local r holds))
        ])
      ]

  pub place-IsScan : IsScan count registers (n ∷ done) n.start (place n s)
  unfolding place
  place-IsScan = elim (Option-cases (find_free s.busy 0)) [
    | inl e ↦ rw (e, place) spill-IsScan
    | inr (r, e) ↦ rw (e, place) (free r (find_free_lem s.busy 0 r e))
  ]
    where
      free :
          (r : ℕ)
          → (k : ℕ) × (r ≡ 0 + k) × (get_or s.busy k true ≡ false) × (k < length s.busy)
          → IsScan count registers (n ∷ done) n.start (take_register n s r)
      free r (k, e, idle, lt) =
          let same : r ≡ k = omega arith in
          let lt' : r < length s.busy = omega arith in
          let idle' : get_or s.busy r false ≡ false =
            subst (λ q. get_or s.busy q false ≡ false) (sym same) (get_or-default s.busy k idle) in
          given-IsScan count registers done s n inv fresh r s.active (take_register n s r)
            (take-Given r idle' lt') (subst (λ q. r < q) inv.busy_sized lt')
