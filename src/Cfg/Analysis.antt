-- ===== src/Cfg/Analysis.antt =====
-- crates/slopic-core/src/cfg.rs: what `liveness` promises.
use slopium.Base.{
  ℕ, zero, suc, ◌<◌, ◌≡◌, ◌↔◌, refl, sym, ◌∙◌, ap, subst, Bool, true, false, some, List, [], ◌∷◌,
  arith, length, replicate, length-replicate, get_or-replicate, In, All-in,
}
use mathlib.Core.List.{reverse}
use slopium.Mir.{BlockId, LocalId, BasicBlock, MirFunction}
use slopium.Cfg.Graph.{targets_of, searched, new, is_reachable}
use slopium.Cfg.Reach.{IsMarked}
use slopium.Cfg.Correct.{searched-IsSearch, marked_in_order}
use slopium.Cfg.Sets.{Below, Below-none}
use slopium.Cfg.Liveness.{Liveness, is_live_in, is_live_out, code_of, liveness_fuel, liveness}
use slopium.Cfg.Fixpoint.{row, IsGrowing, IsStable, length-out_set, length-in_set}
use slopium.Cfg.Rounds.{iterate_lem}
use slopium.Cfg.Live.{LiveAt, Flag}
use slopium.Cfg.Exact.{
  IsReal, live_in_found, live_out_found, iterate-IsReal, In-reverse, In-reverse_of, All-of_in,
}

row-replicate : (n b : ℕ) (r : List Bool) → b < n → row (replicate n r) b ≡ r
row-replicate zero b r h = absurd (omega arith)
row-replicate (suc n) zero r h = refl
row-replicate (suc n) (suc b) r h = row-replicate n b r (omega arith)

no-Flag : (n b x locals : ℕ) → Flag (row (replicate n (replicate locals false)) b) x → ⊥
no-Flag zero b x locals h = cc
no-Flag (suc n) zero x locals h = cc (h, get_or-replicate locals x false)
no-Flag (suc n) (suc b) x locals h = no-Flag n b x locals h

module _ (blocks : List BasicBlock) (locals : ℕ) where
  abbrev empty : List (List Bool)
  empty = replicate (length blocks) (replicate locals false)

  start : Liveness
  start = record { live_in = empty; live_out = empty }

  empty-Below :
      (b : ℕ) (s : List Bool) → b < length blocks → length s ≡ locals → Below (row empty b) s
  empty-Below b s lt e =
      subst (λ r. Below r s) (sym (row-replicate (length blocks) b (replicate locals false) lt))
        (Below-none locals s e)

  empty_rows : (b : ℕ) → b < length blocks → length (row empty b) ≡ locals
  empty_rows b lt =
      ap length (row-replicate (length blocks) b (replicate locals false) lt)
      ∙ length-replicate locals false

  start-IsGrowing : IsGrowing blocks locals start
  unfolding start
  start-IsGrowing = record {
    in_size = length-replicate (length blocks) (replicate locals false);
    out_size = length-replicate (length blocks) (replicate locals false);
    in_rows = empty_rows;
    out_rows = empty_rows;
    in_below = λ b lt. empty-Below b _ lt (length-in_set blocks locals empty b);
    out_below = λ b lt. empty-Below b _ lt (length-out_set blocks locals empty b);
  }

  start-IsReal : IsReal blocks locals start
  unfolding start
  start-IsReal = record {
    in_real = λ b x h. absurd (no-Flag (length blocks) b x locals h);
    out_real = λ b x h. absurd (no-Flag (length blocks) b x locals h);
  }

marked_lt :
    (f : MirFunction)
    → f.entry < length f.blocks
    → (b : BlockId) → IsMarked (searched f) b
    → b < length f.blocks
marked_lt f lt b m =
    subst (λ n. b < n) (searched-IsSearch f lt).0.sized (in_range (searched f).reachable b m)
  where
    in_range : (s : List Bool) (y : ℕ) → Flag s y → y < length s
    in_range [] y e = cc
    in_range (z ∷ s) zero e = omega arith
    in_range (z ∷ s) (suc y) e = omega (arith, in_range s y e)

-- What the analysis says of a local at a reachable block.
pub record IsExact (f : MirFunction) (l : Liveness) (b : BlockId) (x : LocalId) : Type 0 where
  pub at_start : (is_live_in l b x ≡ true) ↔ LiveAt f.blocks x b (code_of f.blocks b)
  pub at_end :
      (is_live_out l b x ≡ true)
      ↔ ((c : BlockId) × In c (targets_of f.blocks b) × LiveAt f.blocks x c (code_of f.blocks c))

-- What the loop ends at: stable sets at the reachable blocks, and no flag without a path.
pub record Analysed (f : MirFunction) (l : Liveness) : Type 0 where
  pub result : liveness f (new f) ≡ some l
  pub fixed : (b : BlockId) → IsMarked (searched f) b → IsStable f.blocks (length f.locals) l b
  pub real : IsReal f.blocks (length f.locals) l

pub analysed : (f : MirFunction) → f.entry < length f.blocks → (l : Liveness) × Analysed f l
unfolding liveness new start
analysed f lt =
    let order = reverse (searched f).order in
    let (l, e, g, stable) =
      iterate_lem f.blocks (length f.locals) (liveness_fuel (length f.blocks) (length f.locals))
        order (start f.blocks (length f.locals)) (start-IsGrowing f.blocks (length f.locals))
        (All-of_in (λ b. b < length f.blocks) order
          (λ b m.
            marked_lt f lt b
              ((searched-IsSearch f lt).0.order_marked b (In-reverse b (searched f).order m))))
        (omega arith) in
    (
      l,
      record {
        result = e;
        fixed = λ b m.
            All-in (IsStable f.blocks (length f.locals) l) order stable
              (In-reverse_of b (searched f).order (marked_in_order f lt b m));
        real =
            iterate-IsReal f.blocks (length f.locals)
              (liveness_fuel (length f.blocks) (length f.locals)) order
              (start f.blocks (length f.locals)) l (start-IsReal f.blocks (length f.locals)) e;
      },
    )

-- Edges do not leave the marked blocks.
pub IsMarked-closed :
    (f : MirFunction) (lt : f.entry < length f.blocks) (b c : BlockId)
    → IsMarked (searched f) b
    → In c (targets_of f.blocks b)
    → c < length f.blocks
    → IsMarked (searched f) c
IsMarked-closed f lt b c m n h =
    (searched-IsSearch f lt).0.finished b c (marked_in_order f lt b m) n h

pub analysed-IsExact :
    (f : MirFunction)
    → f.entry < length f.blocks
    → (l : Liveness) → Analysed f l
    → (b : BlockId) → IsMarked (searched f) b
    → (x : LocalId) → x < length f.locals
    → IsExact f l b x
unfolding is_live_in is_live_out
analysed-IsExact f lt l a b m x x_lt = record {
  at_start = (
    a.real.in_real b x,
    live_in_found f.blocks (length f.locals) l x x_lt (IsMarked (searched f)) (IsMarked-closed f lt)
        a.fixed b m,
  );
  at_end = (
    a.real.out_real b x,
    λ p.
        live_out_found f.blocks (length f.locals) l x x_lt (IsMarked (searched f))
          (IsMarked-closed f lt) a.fixed b p.0 m p.1 p.2,
  );
}

-- The analysis of a function whose entry is one of its blocks comes to its end within its fuel. At
-- every reachable block, a local of the function is in the live-in set exactly if some path from
-- the start of the block reads it before writing it, and in the live-out set exactly if that holds
-- at the start of one of the blocks that follow.
pub liveness-IsExact :
    (f : MirFunction)
    → f.entry < length f.blocks
    → (l : Liveness) × (liveness f (new f) ≡ some l)
      × ((b : BlockId)
          → is_reachable (new f) b ≡ true
          → (x : LocalId) → x < length f.locals
          → IsExact f l b x)
unfolding is_reachable new
liveness-IsExact f lt =
    let (l, a) = analysed f lt in (l, a.result, λ b m x x_lt. analysed-IsExact f lt l a b m x x_lt)
