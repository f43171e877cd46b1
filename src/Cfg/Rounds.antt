-- ===== src/Cfg/Rounds.antt =====
-- crates/slopic-core/src/cfg.rs: one block, one round and all rounds of the liveness loop.
use slopium.Base.{
  ℕ, zero, suc, ◌+◌, ◌*◌, ◌≤◌, ◌<◌, ◌≡◌, ◌⊎◌, inl, inr, refl, sym, ◌∙◌, subst, Bool, true, false,
  ◌||◌, not, some, List, [], ◌∷◌, arith, eq-or-ne, if◌then◌else◌, Bool-cases, length, set,
  length-set, get_or-set_self, get_or-set_ne, All,
}
use slopium.Mir.{BlockId, BasicBlock}
use slopium.Cfg.Sets.{
  eq_flags, eq_flags_lem, Below, Below-refl, Below-trans, flags, flags-Below, flags-grow,
}
use slopium.Cfg.Liveness.{Liveness, out_set, in_set, visit_block, round, iterate}
use slopium.Cfg.Fixpoint.{
  row, Grows, Below-out_set, Below-in_set, length-out_set, length-in_set, IsGrowing, IsStable,
  total, total-set, size, size-le,
}

-- Writing a greater row makes the table grow.
Grows-set :
    (m : List (List Bool)) (b : ℕ) (r : List Bool)
    → b < length m
    → Below (row m b) r
    → Grows m (set m b r)
Grows-set m b r lt h c = elim (eq-or-ne b c) [
  | inl e ↦
      subst (λ k. Below (row m k) (row (set m b r) k)) e
        (subst (Below (row m b)) (sym (get_or-set_self m b r [] lt)) h)
  | inr ne ↦ subst (Below (row m c)) (sym (get_or-set_ne m b c r [] ne)) (Below-refl (row m c))
]

module _ (blocks : List BasicBlock) (locals : ℕ) where
  -- What a visit of a block, or a round, reaches from `l`.
  record Advance (l l' : Liveness) (changed : Bool) : Type 0 where
    growing : IsGrowing blocks locals l'
    no_less : size blocks locals l ≤ size blocks locals l'
    more : changed ≡ true → size blocks locals l < size blocks locals l'
    same : changed ≡ false → l' ≡ l

  module _ (b : BlockId) (l : Liveness) (g : IsGrowing blocks locals l)
      (lt : b < length blocks) where
    inside : List Bool
    inside = in_set blocks locals l.live_in b

    out : List Bool
    out = out_set blocks locals l.live_in b

    written : Liveness
    unfolding inside out
    written = record { live_in = set l.live_in b inside; live_out = set l.live_out b out }

    in_lt : b < length l.live_in
    in_lt = subst (λ k. b < k) (sym g.in_size) lt

    out_lt : b < length l.live_out
    out_lt = subst (λ k. b < k) (sym g.out_size) lt

    grown : Grows l.live_in (set l.live_in b (in_set blocks locals l.live_in b))
    grown = Grows-set l.live_in b (in_set blocks locals l.live_in b) in_lt (g.in_below b lt)

    -- A row of the written table: the new one at `b`, the old one elsewhere.
    row-written :
        (P : ℕ → List Bool → Type 0) (m : List (List Bool)) (r : List Bool)
        → b < length m
        → P b r
        → ((c : ℕ) → P c (row m c))
        → (c : ℕ) → P c (row (set m b r) c)
    row-written P m r bound new old c = elim (eq-or-ne b c) [
      | inl e ↦
          subst (λ k. P k (row (set m b r) k)) e
            (subst (P b) (sym (get_or-set_self m b r [] bound)) new)
      | inr ne ↦ subst (P c) (sym (get_or-set_ne m b c r [] ne)) (old c)
    ]

    written-IsGrowing : IsGrowing blocks locals written
    unfolding written
    written-IsGrowing = record {
      in_size = length-set l.live_in b (in_set blocks locals l.live_in b) ∙ g.in_size;
      out_size = length-set l.live_out b (out_set blocks locals l.live_in b) ∙ g.out_size;
      in_rows =
          row-written (λ c r. c < length blocks → length r ≡ locals) l.live_in
            (in_set blocks locals l.live_in b) in_lt (λ _. length-in_set blocks locals l.live_in b)
            g.in_rows;
      out_rows =
          row-written (λ c r. c < length blocks → length r ≡ locals) l.live_out
            (out_set blocks locals l.live_in b) out_lt
            (λ _. length-out_set blocks locals l.live_in b) g.out_rows;
      in_below =
          row-written
            (λ c r.
              c < length blocks
              → Below r
                  (in_set blocks locals (set l.live_in b (in_set blocks locals l.live_in b)) c))
            l.live_in (in_set blocks locals l.live_in b) in_lt
            (λ _. Below-in_set blocks locals l.live_in _ b grown)
            (λ c h.
              Below-trans _ _ _ (g.in_below c h) (Below-in_set blocks locals l.live_in _ c grown));
      out_below =
          row-written
            (λ c r.
              c < length blocks
              → Below r
                  (out_set blocks locals (set l.live_in b (in_set blocks locals l.live_in b)) c))
            l.live_out (out_set blocks locals l.live_in b) out_lt
            (λ _. Below-out_set blocks locals l.live_in _ b grown)
            (λ c h.
              Below-trans _ _ _ (g.out_below c h)
                (Below-out_set blocks locals l.live_in _ c grown));
    }

    in_total :
        total (set l.live_in b (in_set blocks locals l.live_in b)) + flags (row l.live_in b)
        ≡ total l.live_in + flags (in_set blocks locals l.live_in b)
    in_total = total-set l.live_in b (in_set blocks locals l.live_in b) in_lt

    out_total :
        total (set l.live_out b (out_set blocks locals l.live_in b)) + flags (row l.live_out b)
        ≡ total l.live_out + flags (out_set blocks locals l.live_in b)
    out_total = total-set l.live_out b (out_set blocks locals l.live_in b) out_lt

    in_more : flags (row l.live_in b) ≤ flags (in_set blocks locals l.live_in b)
    in_more = flags-Below (row l.live_in b) (in_set blocks locals l.live_in b) (g.in_below b lt)

    out_more : flags (row l.live_out b) ≤ flags (out_set blocks locals l.live_in b)
    out_more = flags-Below (row l.live_out b) (out_set blocks locals l.live_in b) (g.out_below b lt)

    written-size :
        flags (row l.live_in b) + flags (row l.live_out b)
          < flags (in_set blocks locals l.live_in b) + flags (out_set blocks locals l.live_in b)
        → size blocks locals l < size blocks locals written
    unfolding size written
    written-size h = omega (arith, in_total, out_total)

    written-Advance : size blocks locals l < size blocks locals written → Advance l written true
    written-Advance h = record {
      growing = written-IsGrowing;
      no_less = omega arith;
      more = λ _. h;
      same = λ e. cc;
    }

    abbrev visited : Bool → Bool → Liveness × Bool
    visited p q = if not p || not q then (written, true) else (l, false)

    visit-Advance : Advance l (visit_block blocks locals b l).0 (visit_block blocks locals b l).1
    unfolding visit_block written
    visit-Advance =
        split (eq_flags (in_set blocks locals l.live_in b) (row l.live_in b))
          (eq_flags (out_set blocks locals l.live_in b) (row l.live_out b)) refl refl
      where
        split :
            (p q : Bool)
            → eq_flags (in_set blocks locals l.live_in b) (row l.live_in b) ≡ p
            → eq_flags (out_set blocks locals l.live_in b) (row l.live_out b) ≡ q
            → Advance l (visited p q).0 (visited p q).1
        split true true p q = record {
          growing = g;
          no_less = omega arith;
          more = λ e. cc;
          same = λ _. refl;
        }
        split false q p e = written-Advance (
            written-size (
              omega (
                arith,
                out_more,
                flags-grow (row l.live_in b) (in_set blocks locals l.live_in b) (g.in_below b lt) p,
              )))
        split true false p q = written-Advance (
            written-size (
              omega (
                arith,
                in_more,
                flags-grow (row l.live_out b) (out_set blocks locals l.live_in b) (g.out_below b lt)
                    q,
              )))

    -- A visit that changes nothing has found the sets as they should be.
    visit-IsStable : (visit_block blocks locals b l).1 ≡ false → IsStable blocks locals l b
    unfolding visit_block written
    visit-IsStable =
        split (eq_flags (in_set blocks locals l.live_in b) (row l.live_in b))
          (eq_flags (out_set blocks locals l.live_in b) (row l.live_out b)) refl refl
      where
        split :
            (p q : Bool)
            → eq_flags (in_set blocks locals l.live_in b) (row l.live_in b) ≡ p
            → eq_flags (out_set blocks locals l.live_in b) (row l.live_out b) ≡ q
            → (visited p q).1 ≡ false
            → IsStable blocks locals l b
        split true true p q h = record {
          in_fixed = sym (eq_flags_lem _ _ p);
          out_fixed = sym (eq_flags_lem _ _ q);
        }
        split false q p e h = cc
        split true false p q h = cc

  -- What a round over `bs` reaches from `l`; the flag so far is `before`.
  record Rounded (bs : List BlockId) (l : Liveness) (before : Bool) (l' : Liveness) (changed : Bool)
      : Type 0 where
    growing : IsGrowing blocks locals l'
    no_less : size blocks locals l ≤ size blocks locals l'
    more : changed ≡ true → (before ≡ true) ⊎ (size blocks locals l < size blocks locals l')
    same : changed ≡ false → l' ≡ l
    began : changed ≡ false → before ≡ false
    stable : changed ≡ false → All (IsStable blocks locals l) bs

  or_false : (a b : Bool) → (a || b) ≡ false → (a ≡ false) × (b ≡ false)
  or_false a b h = ground arith

  or_true : (a b : Bool) → (a || b) ≡ true → (a ≡ true) ⊎ (b ≡ true)
  or_true a b h = ground arith

  -- A visit, then the rest of the round.
  module _ (b : BlockId) (bs : List BlockId) (l : Liveness) (before : Bool)
      (g : IsGrowing blocks locals l) (lt : b < length blocks) (l' : Liveness) (changed : Bool)
      (rest : Rounded bs
        (visit_block blocks locals b l).0
        (before || (visit_block blocks locals b l).1)
        l'
        changed) where
    now : Advance l (visit_block blocks locals b l).0 (visit_block blocks locals b l).1
    now = visit-Advance b l g lt

    quiet : changed ≡ false → (visit_block blocks locals b l).1 ≡ false
    quiet e = (or_false before (visit_block blocks locals b l).1 (rest.began e)).1

    visit-Rounded : Rounded (b ∷ bs) l before l' changed
    visit-Rounded = record {
      growing = rest.growing;
      no_less = omega (arith, now.no_less, rest.no_less);
      more = λ e. elim (rest.more e) [
        | inl p ↦ elim (or_true before (visit_block blocks locals b l).1 p) [
          | inl q ↦ inl q
          | inr q ↦ inr (omega (arith, now.more q, rest.no_less))
        ]
        | inr p ↦ inr (omega (arith, now.no_less, p))
      ];
      same = λ e. rest.same e ∙ now.same (quiet e);
      began = λ e. (or_false before (visit_block blocks locals b l).1 (rest.began e)).0;
      stable = λ e. (
        visit-IsStable b l g lt (quiet e),
        subst (λ x. All (IsStable blocks locals x) bs) (now.same (quiet e)) (rest.stable e),
      );
    }

  round-Rounded :
      (bs : List BlockId) (l : Liveness) (before : Bool)
      → IsGrowing blocks locals l
      → All (λ b. b < length blocks) bs
      → Rounded bs l before (round blocks locals bs l before).0 (round blocks locals bs l before).1
  unfolding round
  round-Rounded [] l before g h = record {
    growing = g;
    no_less = omega arith;
    more = λ e. inl e;
    same = λ _. refl;
    began = λ e. e;
    stable = λ _. tt;
  }
  round-Rounded (b ∷ bs) l before g h = visit-Rounded b bs l before g h.0 _ _ (
      round-Rounded bs (visit_block blocks locals b l).0
        (before || (visit_block blocks locals b l).1) (visit-Advance b l g h.0).growing h.1)

  -- With fuel for the flags that are not yet set, the loop ends at a fixpoint.
  pub iterate_lem :
      (fuel : ℕ) (order : List BlockId) (l : Liveness)
      → IsGrowing blocks locals l
      → All (λ b. b < length blocks) order
      → 2 * (length blocks * locals) < size blocks locals l + fuel
      → (l' : Liveness) × (iterate blocks locals fuel order l ≡ some l')
        × IsGrowing blocks locals l'
        × All (IsStable blocks locals l') order
  unfolding iterate
  iterate_lem zero order l g h enough = absurd (omega (arith, size-le blocks locals l g))
  iterate_lem (suc fuel) order l g h enough =
      elim (Bool-cases (round blocks locals order l false).1) [
        | inr quiet ↦ (
          (round blocks locals order l false).0,
          rw quiet,
          r.growing,
          subst (λ x. All (IsStable blocks locals x) order) (sym (r.same quiet)) (r.stable quiet),
        )
        | inl changed ↦
            let (l', e, g', s) =
              iterate_lem fuel order (round blocks locals order l false).0 r.growing h
                (elim (r.more changed) [ inl z ↦ cc | inr grew ↦ omega arith ]) in
            (l', rw changed e, g', s)
      ]
    where
      r :
          Rounded order l false
            (round blocks locals order l false).0
            (round blocks locals order l false).1
      r = round-Rounded order l false g h
