-- ===== src/Regalloc/Scan.antt =====
-- crates/slopic-core/src/regalloc.rs: the whole scan.
use slopium.Base.{
  ℕ, ◌<◌, ◌≡◌, ◌≢◌, ◌⊎◌, inl, inr, refl, subst, false, Option, none, List, [], ◌∷◌,
  length-replicate, get_or-replicate, In, All, All-in, Distinct,
}
use slopium.Cfg.Interval.{Interval}
use slopium.Regalloc.Defs.{Scan, scan, scan_step, initial, expired}
use slopium.Regalloc.Invariant.{IsScan, local_of, expired-IsScan}
use slopium.Regalloc.Order.{Ascending}
use slopium.Regalloc.Place.{place-IsScan}

-- What the scan of `xs` reaches: the invariant over all intervals seen.
pub record Scanned (count registers : ℕ) (done xs : List Interval) (s : Scan) : Type 0 where
  pub seen : List Interval
  pub time : ℕ
  pub invariant : IsScan count registers seen time s
  pub seen_of : (i : Interval) → In i xs ⊎ In i done → In i seen
  pub of_seen : (i : Interval) → In i seen → In i xs ⊎ In i done

module _ (count registers : ℕ) where
  pub scan-Scanned :
      (xs done : List Interval) (now : ℕ) (s : Scan)
      → IsScan count registers done now s
      → Ascending now xs
      → Distinct local_of xs
      → All (λ i. i.local < count) xs
      → ((i x : Interval) → In i done → In x xs → i.local ≢ x.local)
      → Scanned count registers done xs (scan s xs)
  unfolding scan scan_step
  scan-Scanned [] done now s inv a d b f = record {
    seen = done;
    time = now;
    invariant = inv;
    seen_of = λ i m. elim m [ inl z ↦ absurd z | inr n ↦ n ];
    of_seen = λ i m. inr m;
  }
  scan-Scanned (x ∷ xs) done now s inv a d b f =
      let fresh = λ (i : Interval) (m : In i done). f i x m (inl refl) in
      let inv' =
        place-IsScan count registers done (expired x s) x
          (expired-IsScan count registers done now s x inv a.0) fresh b.0 in
      let rest =
        scan-Scanned xs (x ∷ done) x.start (scan_step s x) inv' a.1 d.1 b.1
          (λ i y m n. later_fresh i y m n) in
      record {
        seen = rest.seen;
        time = rest.time;
        invariant = rest.invariant;
        seen_of = λ i m.
            rest.seen_of i
              (elim m [ inl (inl e) ↦ inr (inl e) | inl (inr n) ↦ inl n | inr n ↦ inr (inr n) ]);
        of_seen = λ i m. elim (rest.of_seen i m) [
          | inl n ↦ inl (inr n)
          | inr (inl e) ↦ inl (inl e)
          | inr (inr n) ↦ inr n
        ];
      }
    where
      later_fresh : (i y : Interval) → In i (x ∷ done) → In y xs → i.local ≢ y.local
      later_fresh i y (inl e) n p =
          All-in (λ z. x.local ≢ z.local) xs d.0 n (subst (λ z. z.local ≡ y.local) e p)
      later_fresh i y (inr m) n p = f i y m (inr n) p

pub initial-IsScan : (count registers : ℕ) → IsScan count registers [] 0 (initial count registers)
unfolding initial
initial-IsScan count registers = record {
  sized = length-replicate count none;
  busy_sized = length-replicate registers false;
  fits = λ l r e. cc (get_or-replicate {A = Option ℕ} count l none, e);
  unseen = λ l h. get_or-replicate count l none;
  held = λ i m. absurd m;
  apart = λ i j r m n p q. absurd m;
  known = λ i m. absurd m;
  distinct = tt;
  covered = λ i r m e. absurd m;
  safe = λ i j r m n p q o. absurd m;
}
