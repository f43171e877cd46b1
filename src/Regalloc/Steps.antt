-- ===== src/Regalloc/Steps.antt =====
-- crates/slopic-core/src/regalloc.rs: giving a free register out, and taking one over.
use slopium.Base.{
  ℕ, zero, suc, ◌+◌, ◌≤◌, ◌<◌, ◌≡◌, ◌≢◌, ◌⊎◌, inl, inr, refl, sym, ◌∙◌, ap, subst, Bool, true,
  false, none, some, List, [], ◌∷◌, ◌++◌, arith, Option-cases, length, get_or, In, Distinct,
  In-append, In-append_left, In-append_right, Distinct-append_one, eq-or-ne,
}
use slopium.Cfg.Interval.{Interval, Overlap}
use slopium.Regalloc.Defs.{Scan, find_free}
use slopium.Regalloc.Invariant.{IsScan, register_of, local_of, some-inj}

-- The register that is found is one of the vector's, and is not busy.
pub find_free_lem :
    (busy : List Bool) (i r : ℕ)
    → find_free busy i ≡ some r
    → (k : ℕ) × (r ≡ i + k) × (get_or busy k true ≡ false) × (k < length busy)
unfolding find_free
find_free_lem [] i r h = cc
find_free_lem (true ∷ busy) i r h =
    let (k, e, b, l) = find_free_lem busy (i + 1) r h in (suc k, omega arith, b, omega arith)
find_free_lem (false ∷ busy) i r h = (0, ground arith, refl, omega arith)

pub get_or-default :
    (busy : List Bool) (k : ℕ) → get_or busy k true ≡ false → get_or busy k false ≡ false
get_or-default [] k h = refl
get_or-default (b ∷ busy) zero h = h
get_or-default (b ∷ busy) (suc k) h = get_or-default busy k h

-- The scan after the interval `n` got the register `r`: `kept` are the older active intervals.
pub record Given (s : Scan) (n : Interval) (done : List Interval) (r : ℕ) (kept : List Interval)
    (s' : Scan) : Type 0 where
  pub actives : s'.active ≡ kept ++ n ∷ []
  pub same_size : length s'.assigned ≡ length s.assigned
  pub same_busy : length s'.busy ≡ length s.busy
  pub new_register : register_of s' n ≡ some r
  pub busy_new : get_or s'.busy r false ≡ true
  pub old_register :
      (l q : ℕ)
      → l ≢ n.local
      → get_or s'.assigned l none ≡ some q
      → get_or s.assigned l none ≡ some q
  pub kept_active : (i : Interval) → In i kept → In i s.active
  pub kept_register : (i : Interval) → In i kept → register_of s' i ≡ register_of s i
  pub kept_ne : (i : Interval) → In i kept → register_of s i ≢ some r
  pub kept_busy : (q : ℕ) → get_or s.busy q false ≡ true → get_or s'.busy q false ≡ true
  pub kept_distinct : Distinct local_of kept
  pub still : (i : Interval) (q : ℕ) → In i s.active → register_of s' i ≡ some q → In i kept

-- A new interval against the scan, whose expiry is done.
module _ (count registers : ℕ) (done : List Interval) (s : Scan) (n : Interval)
    (inv : IsScan count registers done n.start s)
    (fresh : (i : Interval) → In i done → i.local ≢ n.local) where
  module _ (r : ℕ) (kept : List Interval) (s' : Scan) (given : Given s n done r kept s')
      (r_fits : r < registers) where
    old_or_new : (i : Interval) → In i s'.active → In i kept ⊎ (i ≡ n)
    old_or_new i m = elim (In-append i kept (n ∷ []) (subst (In i) given.actives m)) [
      | inl a ↦ inl a
      | inr b ↦ inr (elim b [ inl e ↦ e | inr z ↦ absurd z ])
    ]

    old_of :
        (i : Interval) (q : ℕ) → In i done → register_of s' i ≡ some q → register_of s i ≡ some q
    old_of i q m = given.old_register i.local q (fresh i m)

    -- An older interval in the register of the new one ended before it starts.
    no_clash : (i : Interval) → In i done → register_of s' i ≡ some r → ¬ (n.start ≤ i.end)
    no_clash i m e h = elim (inv.covered i r m (old_of i r m e)) [
      | inl a ↦ given.kept_ne i (given.still i r a e) (old_of i r m e)
      | inr old ↦ omega arith
    ]

    given_held :
        (i : Interval)
        → In i s'.active
        → (q : ℕ) × (register_of s' i ≡ some q) × (get_or s'.busy q false ≡ true)
    given_held i m = elim (old_or_new i m) [
      | inl k ↦
          let (q, e, b) = inv.held i (given.kept_active i k) in
          (q, given.kept_register i k ∙ e, given.kept_busy q b)
      | inr e ↦
          (r, subst (λ j. register_of s' j ≡ some r) (sym e) given.new_register, given.busy_new)
    ]

    -- An older active interval is not in the register of the new one.
    kept_not_new :
        (i j : Interval) (q : ℕ)
        → In i kept
        → j ≡ n
        → register_of s' i ≡ some q
        → register_of s' j ≡ some q
        → ⊥
    kept_not_new i j q k e hi hj = given.kept_ne i k (
        sym (given.kept_register i k)
        ∙ hi
        ∙ sym hj
        ∙ subst (λ x. register_of s' x ≡ some r) (sym e) given.new_register)

    given_apart :
        (i j : Interval) (q : ℕ)
        → In i s'.active
        → In j s'.active
        → register_of s' i ≡ some q
        → register_of s' j ≡ some q
        → i.local ≡ j.local
    given_apart i j q mi mj hi hj = elim (old_or_new i mi) [
      | inl ki ↦ elim (old_or_new j mj) [
        | inl kj ↦
            inv.apart i j q (given.kept_active i ki) (given.kept_active j kj)
              (sym (given.kept_register i ki) ∙ hi) (sym (given.kept_register j kj) ∙ hj)
        | inr e ↦ absurd (kept_not_new i j q ki e hi hj)
      ]
      | inr e ↦ elim (old_or_new j mj) [
        | inl kj ↦ absurd (kept_not_new j i q kj e hj hi)
        | inr e' ↦ ap local_of (e ∙ sym e')
      ]
    ]

    given_covered :
        (i : Interval) (q : ℕ)
        → In i (n ∷ done)
        → register_of s' i ≡ some q
        → In i s'.active ⊎ (i.end < n.start)
    given_covered i q (inl e) h =
        inl (subst (In i) (sym given.actives) (In-append_right i kept (n ∷ []) (inl e)))
    given_covered i q (inr m) h = elim (inv.covered i q m (old_of i q m h)) [
      | inl a ↦
          inl (
            subst (In i) (sym given.actives) (In-append_left i kept (n ∷ []) (given.still i q a h)))
      | inr old ↦ inr old
    ]

    -- The new interval and an older one.
    new_safe :
        (i j : Interval) (q : ℕ)
        → i ≡ n
        → In j done
        → register_of s' i ≡ some q
        → register_of s' j ≡ some q
        → ¬ (i.start ≤ j.end)
    new_safe i j q e m hi hj h =
        no_clash j m
          (hj ∙ sym hi ∙ subst (λ x. register_of s' x ≡ some r) (sym e) given.new_register)
          (subst (λ x. x.start ≤ j.end) e h)

    given_safe :
        (i j : Interval) (q : ℕ)
        → In i (n ∷ done)
        → In j (n ∷ done)
        → register_of s' i ≡ some q
        → register_of s' j ≡ some q
        → Overlap i j
        → i.local ≡ j.local
    given_safe i j q (inl e) (inl e') hi hj o = ap local_of (e ∙ sym e')
    given_safe i j q (inl e) (inr m) hi hj o = absurd (new_safe i j q e m hi hj o.fst_before)
    given_safe i j q (inr m) (inl e) hi hj o = absurd (new_safe j i q e m hj hi o.snd_before)
    given_safe i j q (inr m) (inr m') hi hj o =
        inv.safe i j q m m' (old_of i q m hi) (old_of j q m' hj) o

    given_fits : (l q : ℕ) → get_or s'.assigned l none ≡ some q → q < registers
    given_fits l q h = elim (eq-or-ne l n.local) [
      | inl e ↦
          subst (λ k. k < registers)
            (some-inj
              (sym given.new_register ∙ subst (λ k. get_or s'.assigned k none ≡ some q) e h))
            r_fits
      | inr ne ↦ inv.fits l q (given.old_register l q ne h)
    ]

    given_unseen :
        (l : ℕ)
        → ((i : Interval) → In i (n ∷ done) → i.local ≢ l)
        → get_or s'.assigned l none ≡ none
    given_unseen l h = elim (Option-cases (get_or s'.assigned l none)) [
      | inl e ↦ e
      | inr (q, e) ↦ cc (
        given.old_register l q (λ same. h n (inl refl) (sym same)) e,
        inv.unseen l (λ i m. h i (inr m)),
      )
    ]

    pub given-IsScan : IsScan count registers (n ∷ done) n.start s'
    given-IsScan = record {
      sized = given.same_size ∙ inv.sized;
      busy_sized = given.same_busy ∙ inv.busy_sized;
      fits = given_fits;
      unseen = given_unseen;
      held = given_held;
      apart = given_apart;
      known = λ i m. elim (old_or_new i m) [
        | inl k ↦ inr (inv.known i (given.kept_active i k))
        | inr e ↦ inl e
      ];
      distinct = subst (Distinct local_of) (sym given.actives) (
          Distinct-append_one local_of kept n given.kept_distinct
            (λ i k. fresh i (inv.known i (given.kept_active i k))));
      covered = given_covered;
      safe = given_safe;
    }
