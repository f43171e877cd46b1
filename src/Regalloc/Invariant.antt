-- ===== src/Regalloc/Invariant.antt =====
-- crates/slopic-core/src/regalloc.rs: what the scan keeps true, and the expiry of old intervals.
use slopium.Base.{
  ℕ, ◌≤◌, ◌<◌, ◌≡◌, ◌≢◌, ◌⊎◌, inl, inr, refl, sym, ◌∙◌, ap, subst, Bool, true, false, Option, none,
  some, List, [], ◌∷◌, arith, leb, leb→le, le→leb, le-or-lt, if◌then◌else◌, Bool-cases, length,
  get_or, set, length-set, get_or-set_ne, In, Distinct, Distinct-in, keep, In-keep_lem, In-keep_of,
  Distinct-keep,
}
use slopium.Cfg.Interval.{Interval, Overlap}
use slopium.Regalloc.Defs.{Scan, release, expire, expired}

abbrev pub register_of : Scan → Interval → Option ℕ
register_of s i = get_or s.assigned i.local none

abbrev pub local_of : Interval → ℕ
local_of i = i.local

-- `done` are the intervals that the loop has seen, and no interval is still to come that starts
-- below `now`.
pub record IsScan (count registers : ℕ) (done : List Interval) (now : ℕ) (s : Scan) : Type 0 where
  pub sized : length s.assigned ≡ count
  pub busy_sized : length s.busy ≡ registers
  pub fits : (l r : ℕ) → get_or s.assigned l none ≡ some r → r < registers
  pub unseen :
      (l : ℕ) → ((i : Interval) → In i done → i.local ≢ l) → get_or s.assigned l none ≡ none
  pub held :
      (i : Interval)
      → In i s.active
      → (r : ℕ) × (register_of s i ≡ some r) × (get_or s.busy r false ≡ true)
  pub apart :
      (i j : Interval) (r : ℕ)
      → In i s.active
      → In j s.active
      → register_of s i ≡ some r
      → register_of s j ≡ some r
      → i.local ≡ j.local
  pub known : (i : Interval) → In i s.active → In i done
  pub distinct : Distinct local_of s.active
  pub covered :
      (i : Interval) (r : ℕ) → In i done → register_of s i ≡ some r → In i s.active ⊎ (i.end < now)
  pub safe :
      (i j : Interval) (r : ℕ)
      → In i done
      → In j done
      → register_of s i ≡ some r
      → register_of s j ≡ some r
      → Overlap i j
      → i.local ≡ j.local

pub some-inj : {A : Type 0} {a b : A} → some a ≡ some b → a ≡ b
some-inj h = cc

-- The intervals that outlast `start`.
abbrev pub outlasts : ℕ → Interval → Bool
outlasts start i = leb start i.end

module _ (start : ℕ) (assigned : List (Option ℕ)) where
  -- Expiry keeps what outlasts `start`, whatever it does to the registers.
  pub expire-keep :
      (busy : List Bool) (active : List Interval)
      → (expire start assigned busy active).1 ≡ keep (outlasts start) active
  unfolding expire
  expire-keep busy [] = refl
  expire-keep busy (x ∷ xs) =
      ap (λ kept. if leb start x.end then x ∷ kept else kept)
        (expire-keep (if leb start x.end then busy else release assigned busy x) xs)

  pub length-expire :
      (busy : List Bool) (active : List Interval)
      → length (expire start assigned busy active).0 ≡ length busy
  unfolding expire release
  length-expire busy [] = refl
  length-expire busy (x ∷ xs) =
      length-expire (if leb start x.end then busy else release assigned busy x) xs
      ∙ same (leb start x.end) (get_or assigned x.local none)
    where
      same :
          (b : Bool) (o : Option ℕ)
          → length (if b then busy else elim o [ none ↦ busy | some q ↦ set busy q false ])
            ≡ length busy
      same true o = refl
      same false none = refl
      same false (some q) = length-set busy q false

  -- A register that no expired interval holds stays busy.
  pub expire-busy :
      (r : ℕ) (busy : List Bool) (active : List Interval)
      → ((o : Interval) → In o active → get_or assigned o.local none ≡ some r → start ≤ o.end)
      → get_or busy r false ≡ true
      → get_or (expire start assigned busy active).0 r false ≡ true
  unfolding expire release
  expire-busy r busy [] h b = b
  expire-busy r busy (x ∷ xs) h b =
      expire-busy r (if leb start x.end then busy else release assigned busy x) xs
        (λ o m. h o (inr m))
        (elim (Bool-cases (leb start x.end)) [
          | inl stays ↦ rw stays b
          | inr gone ↦ rw gone (released gone)
        ])
    where
      kept_busy :
          (o : Option ℕ)
          → get_or assigned x.local none ≡ o
          → leb start x.end ≡ false
          → get_or (elim o [ none ↦ busy | some q ↦ set busy q false ]) r false ≡ true
      kept_busy none e gone = b
      kept_busy (some q) e gone =
          get_or-set_ne busy q r false false
            (λ same. cc (le→leb start x.end (h x (inl refl) (e ∙ ap some same))))
          ∙ b

      released : leb start x.end ≡ false → get_or (release assigned busy x) r false ≡ true
      released gone = kept_busy (get_or assigned x.local none) refl gone

module _ (count registers : ℕ) (done : List Interval) (now : ℕ) (s : Scan) (n : Interval)
    (inv : IsScan count registers done now s) (later : now ≤ n.start) where
  still_active : (i : Interval) → In i (expired n s).active → In i s.active × (n.start ≤ i.end)
  unfolding expired
  still_active i m =
      let (was, lasts) =
        In-keep_lem (outlasts n.start) i s.active
          (subst (In i) (expire-keep n.start s.assigned s.busy s.active) m) in
      (was, leb→le n.start i.end lasts)

  stays_active : (i : Interval) → In i s.active → n.start ≤ i.end → In i (expired n s).active
  unfolding expired
  stays_active i m h =
      subst (In i) (sym (expire-keep n.start s.assigned s.busy s.active))
        (In-keep_of (outlasts n.start) i s.active (le→leb n.start i.end h) m)

  stays_busy :
      (i : Interval) (r : ℕ)
      → In i (expired n s).active
      → register_of s i ≡ some r
      → get_or s.busy r false ≡ true
      → get_or (expired n s).busy r false ≡ true
  unfolding expired
  stays_busy i r m e b =
      expire-busy n.start s.assigned r s.busy s.active
        (λ o mo eo.
          let was = still_active i m in
          let same =
            Distinct-in local_of s.active inv.distinct mo was.0 (inv.apart o i r mo was.0 eo e) in
          subst (λ k. n.start ≤ k.end) (sym same) was.1)
        b

  expired-Distinct : Distinct local_of (expired n s).active
  unfolding expired
  expired-Distinct =
      subst (Distinct local_of) (sym (expire-keep n.start s.assigned s.busy s.active))
        (Distinct-keep (outlasts n.start) local_of s.active inv.distinct)

  still_covered :
      (i : Interval) → In i s.active ⊎ (i.end < now) → In i (expired n s).active ⊎ (i.end < n.start)
  still_covered i (inr old) = inr (omega arith)
  still_covered i (inl m) = elim (le-or-lt n.start i.end) [
    | inl h ↦ inl (stays_active i m h)
    | inr gone ↦ inr gone
  ]

  -- Expiry keeps the invariant, and moves the time to the start of the new interval.
  pub expired-IsScan : IsScan count registers done n.start (expired n s)
  expired-IsScan = record {
    sized = unfold expired in inv.sized;
    busy_sized =
        unfold expired in length-expire n.start s.assigned s.busy s.active ∙ inv.busy_sized;
    fits = unfold expired in inv.fits;
    unseen = unfold expired in inv.unseen;
    held = λ i m.
        let (r, e, b) = inv.held i (still_active i m).0 in
        (r, unfold expired in e, stays_busy i r m e b);
    apart = λ i j r mi mj.
        unfold expired in inv.apart i j r (still_active i mi).0 (still_active j mj).0;
    known = λ i m. inv.known i (still_active i m).0;
    distinct = expired-Distinct;
    covered = λ i r m e. still_covered i (inv.covered i r m (unfold expired in e));
    safe = unfold expired in inv.safe;
  }
