-- ===== src/Opt/DeadEffects.antt =====
-- crates/slopic-core/src/opt.rs: what `eliminate_dead_code` must not touch.
use slopium.Base.{
  ◌≡◌, inl, inr, refl, ap, Bool, false, some, List, ◌∷◌, map, arith, Bool-cases, length, keep,
}
use slopium.Mir.{
  Instruction, volatile_load, volatile_store, Statement, BasicBlock, instructions, MirFunction,
}
use slopium.Opt.Effects.{effect_of, is_more, OnlyWrites}
use slopium.Opt.Dead.{is_volatile, volatile_count, eliminate_dead_code}
use slopium.Opt.Thinned.{IsDead, Thinned, kept, dropped, nil, AllThinned, cons}
use slopium.Opt.DeadCorrect.{eliminate_dead_code-IsSwept}

-- The instructions of a block that do more than write their local, in their order.
abbrev pub effects : List Statement → List Instruction
effects ss = keep (λ i. is_more (effect_of i)) (map (λ s. s.instruction) ss)

OnlyWrites-is_volatile : (i : Instruction) → OnlyWrites i → is_volatile i ≡ false
unfolding is_volatile
OnlyWrites-is_volatile (volatile_load _ _ _) h = absurd cc
OnlyWrites-is_volatile (volatile_store _ _ _) h = absurd cc
OnlyWrites-is_volatile _ h = refl

module _ (f : MirFunction) where
  Thinned-effects : {xs ys : List Statement} → Thinned (IsDead f) xs ys → effects xs ≡ effects ys
  Thinned-effects nil = refl
  Thinned-effects (kept s t) = elim (Bool-cases (is_more (effect_of s.instruction))) [
    | inl e ↦ rw e (ap (λ is. s.instruction ∷ is) (Thinned-effects t))
    | inr e ↦ rw e (Thinned-effects t)
  ]
  Thinned-effects (dropped s d t) = rw d.only_writes (Thinned-effects t)

  Thinned-volatile :
      {xs ys : List Statement}
      → Thinned (IsDead f) xs ys
      → keep is_volatile (map (λ s. s.instruction) xs)
        ≡ keep is_volatile (map (λ s. s.instruction) ys)
  Thinned-volatile nil = refl
  Thinned-volatile (kept s t) = elim (Bool-cases (is_volatile s.instruction)) [
    | inl e ↦ rw e (ap (λ is. s.instruction ∷ is) (Thinned-volatile t))
    | inr e ↦ rw e (Thinned-volatile t)
  ]
  Thinned-volatile (dropped s d t) =
      rw (OnlyWrites-is_volatile s.instruction d.only_writes) (Thinned-volatile t)

  AllThinned-effects :
      {bs cs : List BasicBlock}
      → AllThinned (IsDead f) bs cs
      → map (λ b. effects b.statements) bs ≡ map (λ b. effects b.statements) cs
  AllThinned-effects nil = refl
  AllThinned-effects (cons b c t e ts) = cons_cong (Thinned-effects t) (AllThinned-effects ts)
    where
      cons_cong :
          {x y : List Instruction} {xs ys : List (List Instruction)}
          → x ≡ y
          → xs ≡ ys
          → x ∷ xs ≡ y ∷ ys
      cons_cong p q = cc

  AllThinned-volatile_count :
      {bs cs : List BasicBlock}
      → AllThinned (IsDead f) bs cs
      → volatile_count bs ≡ volatile_count cs
  unfolding volatile_count instructions
  AllThinned-volatile_count nil = refl
  AllThinned-volatile_count (cons b c t e ts) =
      omega (arith, ap length (Thinned-volatile t), AllThinned-volatile_count ts)

-- Dead code elimination leaves in every block, in their order, the operations that may trap, the calls,
-- the drops and frees, the stores and the volatile accesses, and so leaves the number of volatile
-- accesses, which the driver compares.
pub eliminate_dead_code-effects :
    (f : MirFunction)
    → (g : MirFunction) × (changed : Bool) × (eliminate_dead_code f ≡ some (g, changed))
      × (map (λ b. effects b.statements) f.blocks ≡ map (λ b. effects b.statements) g.blocks)
      × (volatile_count f.blocks ≡ volatile_count g.blocks)
eliminate_dead_code-effects f =
    let (g, changed, e, r, told) = eliminate_dead_code-IsSwept f in
    (g, changed, e, AllThinned-effects g r.thinned, AllThinned-volatile_count g r.thinned)
