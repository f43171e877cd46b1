-- ===== src/Opt/DeadCorrect.antt =====
-- crates/slopic-core/src/opt.rs: what `eliminate_dead_code` leaves.
use slopium.Base.{
  ℕ, zero, suc, ◌<◌, ◌≡◌, inl, inr, refl, subst, Bool, true, false, some, arith, Bool-cases, In,
}
use slopium.Mir.{Statement, BasicBlock, MirFunction}
use slopium.Opt.Dead.{used_locals, sweep, removed, eliminate, statement_count, eliminate_dead_code}
use slopium.Opt.Thinned.{IsDead, AllThinned, AllThinned-trans, AllThinned-map}
use slopium.Opt.Sweep.{
  kept-clean, sweep-IsDead, sweep-same, sweep-clean, sweep-AllThinned, sweep-frame, sweep-smaller,
}

-- `g` is `f` without some dead code, and has no dead code left.
pub record IsSwept (f g : MirFunction) : Type 0 where
  pub frame : g ≡ record f { blocks = g.blocks }
  pub thinned : AllThinned (IsDead g) f.blocks g.blocks
  pub clean : (b : BasicBlock) (s : Statement) → In b g.blocks → In s b.statements → ¬ IsDead g s

-- The result of the loop from `changed` on, with what the next turn up needs.
record Swept (f g : MirFunction) (changed result : Bool) : Type 0 where
  swept : IsSwept f g
  still_dead : (s : Statement) → IsDead f s → IsDead g s
  told : result ≡ false → (changed ≡ false) × (g ≡ f)

last-Swept :
    (f : MirFunction) (changed : Bool)
    → removed (used_locals f) f.blocks ≡ false
    → Swept f (sweep f) changed changed
last-Swept f changed h =
    let all = sweep-same f h in
    record {
      swept = record {
        frame = sweep-frame f;
        thinned = AllThinned-map (sweep-IsDead f) (sweep-AllThinned f);
        clean = λ b s m n d. kept-clean f s (sweep-clean f b s m n) (subst (λ k. IsDead k s) all d);
      };
      still_dead = sweep-IsDead f;
      told = λ e. (e, all);
    }

step-Swept :
    (f g : MirFunction) (changed result : Bool)
    → Swept (sweep f) g true result
    → Swept f g changed result
unfolding sweep
step-Swept f g changed result r = record {
  swept = record {
    frame = r.swept.frame;
    thinned =
        AllThinned-trans (IsDead f) (IsDead g) (λ s d. r.still_dead s (sweep-IsDead f s d))
          (sweep-AllThinned f) r.swept.thinned;
    clean = r.swept.clean;
  };
  still_dead = λ s d. r.still_dead s (sweep-IsDead f s d);
  told = λ e. absurd (cc ((r.told e).0));
}

eliminate-Swept :
    (fuel : ℕ) (changed : Bool) (f : MirFunction)
    → statement_count f.blocks < fuel
    → (g : MirFunction) × (result : Bool) × (eliminate fuel changed f ≡ some (g, result))
      × Swept f g changed result
unfolding eliminate
eliminate-Swept zero changed f h = absurd (omega arith)
eliminate-Swept (suc fuel) changed f h = elim (Bool-cases (removed (used_locals f) f.blocks)) [
  | inl e ↦
      let (g, result, q, r) = eliminate-Swept fuel true (sweep f) (sweep-smaller f fuel e h) in
      (g, result, rw e q, step-Swept f g changed result r)
  | inr e ↦ (sweep f, changed, rw e refl, last-Swept f changed e)
]

-- Dead code elimination ends. It changes nothing but the blocks' statements, and removes only dead
-- ones: statements that do nothing but write a local of the function which is no parameter and which
-- nothing in the result reads. No such statement is left; one that writes a parameter stays, read or
-- not. If no change is reported, the function is the one that was given.
pub eliminate_dead_code-IsSwept :
    (f : MirFunction)
    → (g : MirFunction) × (changed : Bool) × (eliminate_dead_code f ≡ some (g, changed))
      × IsSwept f g
      × (changed ≡ false → g ≡ f)
unfolding eliminate_dead_code
eliminate_dead_code-IsSwept f =
    let (g, changed, e, r) =
      eliminate-Swept (suc (statement_count f.blocks)) false f (omega arith) in
    (g, changed, e, r.swept, λ h. (r.told h).1)
