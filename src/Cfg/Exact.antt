-- ===== src/Cfg/Exact.antt =====
-- crates/slopic-core/src/cfg.rs: the liveness analysis finds the live locals and no others.
use slopium.Base.{
  ℕ, zero, suc, ◌<◌, ◌≡◌, inl, inr, refl, sym, ◌∙◌, subst, Bool, true, false, ◌||◌, not, Option,
  none, some, List, [], ◌∷◌, arith, if◌then◌else◌, length, get_elem?, get_or, set, replicate,
  length-replicate, get_or-replicate, get_or-set_either, In, In-append, In-append_left,
  In-append_right, All,
}
use mathlib.Core.List.{reverse, reverse-append}
use slopium.Mir.{BlockId, LocalId, Instruction, unreachable, BasicBlock}
use slopium.Cfg.DefUse.{defs, uses, terminator_uses}
use slopium.Cfg.Graph.{targets_of}
use slopium.Cfg.Sets.{eq_flags}
use slopium.Cfg.Liveness.{
  Liveness, add_uses, clear_def, before, backwards, code_of, terminator_of, out_set, in_set,
  visit_block, round, iterate,
}
use slopium.Cfg.Fixpoint.{
  row, IsStable, length-add_uses, length-clear_def, length-backwards, length-out_set,
}
use slopium.Cfg.Live.{
  LiveAt, read, pass, end, flow, Flag, add_uses-keeps, add_uses-adds, add_uses-only,
  clear_def-keeps, clear_def-only, union_of-adds, union_of-only,
}

module _ (blocks : List BasicBlock) (locals : ℕ) where
  -- A block with something live at its start is one of the function's.
  live_in_range :
      (l : LocalId) (c : BlockId) → LiveAt blocks l c (code_of blocks c) → c < length blocks
  live_in_range l c = go (get_elem? blocks c) refl
    where
      in_range :
          (bs : List BasicBlock) (k : ℕ) (x : BasicBlock) → get_elem? bs k ≡ some x → k < length bs
      in_range [] k x e = cc
      in_range (b ∷ bs) zero x e = omega arith
      in_range (b ∷ bs) (suc k) x e = omega (arith, in_range bs k x e)

      nothing :
          (is : List Instruction)
          → is ≡ []
          → terminator_of blocks c ≡ unreachable
          → targets_of blocks c ≡ []
          → LiveAt blocks l c is
          → ⊥
      nothing is p q r (read m) = cc p
      nothing is p q r (pass n v) = cc p
      nothing is p q r (end m) =
          absurd (unfold terminator_uses in subst (λ t. In l (terminator_uses t)) q m)
      nothing is p q r (flow {c = d} m v) = absurd (subst (In d) r m)

      go :
          (o : Option BasicBlock)
          → get_elem? blocks c ≡ o
          → LiveAt blocks l c (code_of blocks c)
          → c < length blocks
      go (some x) e v = in_range blocks c x e
      go none e v = absurd (
          nothing (code_of blocks c) (unfold code_of in rw (e, code_of))
            (unfold terminator_of in rw (e, terminator_of))
            (unfold targets_of in rw (e, targets_of)) v)

  -- What flows into the last instruction of a block.
  base : List (List Bool) → BlockId → List Bool
  base m b = add_uses (terminator_uses (terminator_of blocks b)) (out_set blocks locals m b)

  length-base : (m : List (List Bool)) (b : BlockId) → length (base m b) ≡ locals
  unfolding base
  length-base m b =
      length-add_uses (terminator_uses (terminator_of blocks b)) _
      ∙ length-out_set blocks locals m b

  length-rest :
      (m : List (List Bool)) (b : BlockId) (i : Instruction) (is : List Instruction)
      → length (clear_def (defs i) (backwards is (base m b))) ≡ locals
  length-rest m b i is =
      length-clear_def (defs i) (backwards is (base m b))
      ∙ length-backwards is (base m b)
      ∙ length-base m b

  -- `R` is a set of blocks that the edges do not leave, at which the sets are stable.
  module _ (l : Liveness) (x : LocalId) (x_lt : x < locals) (R : BlockId → Type 0)
      (closed : (b c : BlockId) → R b → In c (targets_of blocks b) → c < length blocks → R c)
      (fixed : (b : BlockId) → R b → IsStable blocks locals l b) where
    -- Whatever is live by a path is found.
    live_found :
        (b : BlockId) (is : List Instruction)
        → R b
        → LiveAt blocks x b is
        → Flag (backwards is (base l.live_in b)) x
    unfolding backwards before base in_set
    live_found b (i ∷ is) r (read m) =
        add_uses-adds (uses i) _ x (subst (λ k. x < k) (sym (length-rest l.live_in b i is)) x_lt) m
    live_found b (i ∷ is) r (pass n v) =
        add_uses-keeps (uses i) _ x (clear_def-keeps (defs i) _ x n (live_found b is r v))
    live_found b [] r (end m) =
        add_uses-adds (terminator_uses (terminator_of blocks b)) _ x
          (subst (λ k. x < k) (sym (length-out_set blocks locals l.live_in b)) x_lt) m
    live_found b [] r (flow {c = c} m v) =
        let rc = closed b c r m (live_in_range x c v) in
        add_uses-keeps (terminator_uses (terminator_of blocks b)) _ x (
          flows b c m (
            subst (λ s. Flag s x) (sym (fixed c rc).in_fixed)
              (live_found c (code_of blocks c) rc v)))
      where
        flows :
            (b c : BlockId)
            → In c (targets_of blocks b)
            → Flag (row l.live_in c) x
            → Flag (out_set blocks locals l.live_in b) x
        flows b c m h =
            unfold out_set in
            union_of-adds l.live_in (targets_of blocks b) (replicate locals false) x c
              (subst (λ k. x < k) (sym (length-replicate locals false)) x_lt) m h

    pub live_in_found :
        (b : BlockId) → R b → LiveAt blocks x b (code_of blocks b) → Flag (row l.live_in b) x
    live_in_found b r v =
        subst (λ s. Flag s x) (sym (fixed b r).in_fixed)
          (unfold in_set base in live_found b (code_of blocks b) r v)

    pub live_out_found :
        (b c : BlockId)
        → R b
        → In c (targets_of blocks b)
        → LiveAt blocks x c (code_of blocks c)
        → Flag (row l.live_out b) x
    live_out_found b c r m v =
        subst (λ s. Flag s x) (sym (fixed b r).out_fixed)
          (unfold out_set in
            union_of-adds l.live_in (targets_of blocks b) (replicate locals false) x c
              (subst (λ k. x < k) (sym (length-replicate locals false)) x_lt) m
              (live_in_found c (closed b c r m (live_in_range x c v)) v))

  -- A flag of the union at the end of a block comes from the start of a next one.
  out_real :
      (m : List (List Bool)) (b : BlockId) (x : LocalId)
      → Flag (out_set blocks locals m b) x
      → (c : BlockId) × In c (targets_of blocks b) × Flag (row m c) x
  unfolding out_set
  out_real m b x h = elim (union_of-only m (targets_of blocks b) (replicate locals false) x h) [
    | inl f ↦ cc (f, get_or-replicate locals x false)
    | inr r ↦ r
  ]

  -- Every flag stands for a path.
  pub record IsReal (l : Liveness) : Type 0 where
    pub in_real :
        (b : BlockId) (x : LocalId)
        → Flag (row l.live_in b) x
        → LiveAt blocks x b (code_of blocks b)
    pub out_real :
        (b : BlockId) (x : LocalId)
        → Flag (row l.live_out b) x
        → (c : BlockId) × In c (targets_of blocks b) × LiveAt blocks x c (code_of blocks c)

  module _ (l : Liveness) (real : IsReal l) where
    backwards_real :
        (b : BlockId) (x : LocalId) (is : List Instruction)
        → Flag (backwards is (base l.live_in b)) x
        → LiveAt blocks x b is
    unfolding backwards before base
    backwards_real b x (i ∷ is) h = elim (add_uses-only (uses i) _ x h) [
      | inl m ↦ read m
      | inr f ↦ let (ne, g) = clear_def-only (defs i) _ x f in pass ne (backwards_real b x is g)
    ]
    backwards_real b x [] h =
        elim (add_uses-only (terminator_uses (terminator_of blocks b)) _ x h) [
          | inl m ↦ end m
          | inr f ↦ let (c, m, g) = out_real l.live_in b x f in flow m (real.in_real c x g)
        ]

    visit-IsReal : (b : BlockId) → IsReal (visit_block blocks locals b l).0
    unfolding visit_block
    visit-IsReal b = choose (
        not (eq_flags (in_set blocks locals l.live_in b) (get_or l.live_in b []))
        || not (eq_flags (out_set blocks locals l.live_in b) (get_or l.live_out b [])))
      where
        written : Liveness
        written = record {
          live_in = set l.live_in b (in_set blocks locals l.live_in b);
          live_out = set l.live_out b (out_set blocks locals l.live_in b);
        }

        choose :
            (c : Bool) → IsReal (if◌then◌else◌ {A = Liveness × Bool} c (written, true) (l, false)).0
        choose false = real
        choose true = record {
          in_real = λ c x h.
              elim (get_or-set_either l.live_in b c (in_set blocks locals l.live_in b) []) [
                | inr old ↦ real.in_real c x (subst (λ s. Flag s x) old h)
                | inl e ↦
                    subst (λ k. LiveAt blocks x k (code_of blocks k)) e.0
                      (unfold in_set base in
                        backwards_real b x (code_of blocks b) (subst (λ s. Flag s x) e.1 h))
              ];
          out_real = λ c x h.
              elim (get_or-set_either l.live_out b c (out_set blocks locals l.live_in b) []) [
                | inr old ↦ real.out_real c x (subst (λ s. Flag s x) old h)
                | inl e ↦
                    let (d, m, g) = out_real l.live_in b x (subst (λ s. Flag s x) e.1 h) in
                    (d, subst (λ k. In d (targets_of blocks k)) e.0 m, real.in_real d x g)
              ];
        }

  round-IsReal :
      (bs : List BlockId) (l : Liveness) (changed : Bool)
      → IsReal l
      → IsReal (round blocks locals bs l changed).0
  unfolding round
  round-IsReal [] l changed real = real
  round-IsReal (b ∷ bs) l changed real =
      round-IsReal bs (visit_block blocks locals b l).0
        (changed || (visit_block blocks locals b l).1) (visit-IsReal l real b)

  pub iterate-IsReal :
      (fuel : ℕ) (order : List BlockId) (l l' : Liveness)
      → IsReal l
      → iterate blocks locals fuel order l ≡ some l'
      → IsReal l'
  unfolding iterate
  iterate-IsReal zero order l l' real e = cc
  iterate-IsReal (suc fuel) order l l' real e =
      next (iterate-IsReal fuel order (round blocks locals order l false).0 l' reached)
        (round blocks locals order l false).1 e
    where
      reached : IsReal (round blocks locals order l false).0
      reached = round-IsReal order l false real

      next :
          (iterate blocks locals fuel order (round blocks locals order l false).0 ≡ some l'
            → IsReal l')
          → (changed : Bool)
          → (if changed
              then iterate blocks locals fuel order (round blocks locals order l false).0
              else some (round blocks locals order l false).0)
            ≡ some l'
          → IsReal l'
      next more true h = more h
      next more false h = subst IsReal (some_inj h) reached
        where
          some_inj : {a c : Liveness} → some a ≡ some c → a ≡ c
          some_inj q = cc

pub In-reverse : (x : ℕ) (xs : List ℕ) → In x (reverse xs) → In x xs
In-reverse x [] m = m
In-reverse x (y ∷ xs) m =
    elim (In-append x (reverse xs) (y ∷ []) (subst (In x) (reverse-append (y ∷ []) xs) m)) [
      | inl a ↦ inr (In-reverse x xs a)
      | inr b ↦ elim b [ inl e ↦ inl e | inr z ↦ absurd z ]
    ]

pub In-reverse_of : (x : ℕ) (xs : List ℕ) → In x xs → In x (reverse xs)
In-reverse_of x [] m = m
In-reverse_of x (y ∷ xs) (inl e) =
    subst (In x) (sym (reverse-append (y ∷ []) xs))
      (In-append_right x (reverse xs) (y ∷ []) (inl e))
In-reverse_of x (y ∷ xs) (inr m) =
    subst (In x) (sym (reverse-append (y ∷ []) xs))
      (In-append_left x (reverse xs) (y ∷ []) (In-reverse_of x xs m))

pub All-of_in : (P : ℕ → Type 0) (xs : List ℕ) → ((x : ℕ) → In x xs → P x) → All P xs
All-of_in P [] h = tt
All-of_in P (x ∷ xs) h = (h x (inl refl), All-of_in P xs (λ y m. h y (inr m)))
