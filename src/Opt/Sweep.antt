-- ===== src/Opt/Sweep.antt =====
-- crates/slopic-core/src/opt.rs: one turn of the loop in `eliminate_dead_code`.
use slopium.Base.{
  ℕ, suc, ◌≤◌, ◌<◌, ◌≡◌, ◌≢◌, inl, inr, refl, sym, ◌∙◌, ap, subst, Bool, true, false, ◌||◌, not,
  some, List, [], ◌∷◌, map, arith, Bool-cases, Option-cases, length, get_or, In, keep, In-keep_lem,
  leb, ◌==◌,
}
use slopium.Mir.{LocalId, Instruction, Statement, BasicBlock, instructions, MirFunction}
use slopium.Cfg.DefUse.{defs, terminator_uses}
use slopium.Opt.Dead.{is_pure, used_locals, keeps, retain_used, sweep, removed, statement_count}
use slopium.Opt.Thinned.{
  BlocksRead, code, exit, IsDead, is_pure_iff, nil, AllThinned, cons, keep-Thinned,
  length-used_locals, used_locals_iff,
}

or-false : (a b : Bool) → (a || b) ≡ false → (a ≡ false) × (b ≡ false)
or-false true b h = absurd cc
or-false false b h = (refl, h)

-- The test of a pure statement that writes a local.
pure_keeps :
    (u : List Bool) (s : Statement) (d : LocalId)
    → is_pure s.instruction ≡ true
    → defs s.instruction ≡ some d
    → keeps u s ≡ (leb (length u) d || get_or u d false)
unfolding keeps
pure_keeps u s d p e = rw (p, e) refl

not_kept-IsDead : (f : MirFunction) (s : Statement) → keeps (used_locals f) s ≡ false → IsDead f s
unfolding keeps
not_kept-IsDead f s = elim (Bool-cases (is_pure s.instruction)) [
  | inl p ↦ elim (Option-cases (defs s.instruction)) [
    | inl e ↦ rw (p, e) (λ h. cc)
    | inr (d, e) ↦
        rw (p, e)
          (λ h.
            let (big, unset) =
              or-false (leb (length (used_locals f)) d) (get_or (used_locals f) d false) h in
            let lt : d < length (used_locals f) = ground (arith, big) in
            let in_range = subst (λ k. d < k) (length-used_locals f) lt in
            record {
              only_writes = (is_pure_iff s.instruction).0 p;
              written = d;
              writes = e;
              in_range = in_range;
              unread = λ r. absurd (cc ((used_locals_iff f d in_range).1 r, unset));
            })
  ]
  | inr p ↦ rw p (λ h. cc)
]

-- A kept statement is not dead.
pub kept-clean : (f : MirFunction) (s : Statement) → keeps (used_locals f) s ≡ true → ¬ IsDead f s
kept-clean f s h dead =
    let test =
      sym (
        pure_keeps (used_locals f) s dead.written ((is_pure_iff s.instruction).1 dead.only_writes)
          dead.writes)
      ∙ h in
    elim (Bool-cases (get_or (used_locals f) dead.written false)) [
      | inl set ↦ dead.unread ((used_locals_iff f dead.written dead.in_range).0 set)
      | inr unset ↦
          let lt : dead.written < length (used_locals f) =
            subst (λ k. dead.written < k) (sym (length-used_locals f)) dead.in_range in
          ground (arith, test, unset, lt)
    ]

-- What is read after a turn was read before it.
BlocksRead-more :
    (c : BasicBlock) (bs : List BasicBlock) (l : LocalId) → BlocksRead bs l → BlocksRead (c ∷ bs) l
BlocksRead-more c bs l (code b i m n o) = code b i (inr m) n o
BlocksRead-more c bs l (exit b m n) = exit b (inr m) n

In-instructions_keep :
    (p : Statement → Bool) (xs : List Statement) (i : Instruction)
    → In i (map (λ s. s.instruction) (keep p xs))
    → In i (map (λ s. s.instruction) xs)
In-instructions_keep p [] i = λ m. m
In-instructions_keep p (x ∷ xs) i = elim (Bool-cases (p x)) [
  | inl e ↦ rw e (elim [ inl q ↦ inl q | inr m ↦ inr (In-instructions_keep p xs i m) ])
  | inr e ↦ rw e (λ m. inr (In-instructions_keep p xs i m))
]

BlocksRead-retain :
    (u : List Bool) (bs : List BasicBlock) (l : LocalId)
    → BlocksRead (map (retain_used u) bs) l
    → BlocksRead bs l
unfolding retain_used instructions
BlocksRead-retain u [] l (code b i m n o) = absurd m
BlocksRead-retain u [] l (exit b m n) = absurd m
BlocksRead-retain u (c ∷ bs) l (code b i (inl e) n o) =
    code c i (inl refl)
      (In-instructions_keep (keeps u) c.statements i (subst (λ d. In i (instructions d)) e n)) o
BlocksRead-retain u (c ∷ bs) l (exit b (inl e) n) =
    exit c (inl refl) (subst (λ d. In l (terminator_uses d.terminator)) e n)
BlocksRead-retain u (c ∷ bs) l (code b i (inr m) n o) =
    BlocksRead-more c bs l (BlocksRead-retain u bs l (code b i m n o))
BlocksRead-retain u (c ∷ bs) l (exit b (inr m) n) =
    BlocksRead-more c bs l (BlocksRead-retain u bs l (exit b m n))

kept_all : (p : Statement → Bool) (xs : List Statement) → length (keep p xs) ≤ length xs
kept_all p [] = omega arith
kept_all p (x ∷ xs) = elim (Bool-cases (p x)) [
  | inl e ↦ rw e (omega (arith, kept_all p xs))
  | inr e ↦ rw e (omega (arith, kept_all p xs))
]

keep-same :
    (p : Statement → Bool) (xs : List Statement) → length (keep p xs) ≡ length xs → keep p xs ≡ xs
keep-same p [] = λ h. refl
keep-same p (x ∷ xs) = elim (Bool-cases (p x)) [
  | inl e ↦ rw e (λ h. ap (λ ys. x ∷ ys) (keep-same p xs (omega arith)))
  | inr e ↦ rw e (λ h. absurd (omega (arith, kept_all p xs)))
]

pub sweep-IsDead : (f : MirFunction) (s : Statement) → IsDead f s → IsDead (sweep f) s
unfolding sweep
sweep-IsDead f s d = record {
  only_writes = d.only_writes;
  written = d.written;
  writes = d.writes;
  in_range = d.in_range;
  unread = elim [
    | inl m ↦ d.unread (inl m)
    | inr r ↦ d.unread (inr (BlocksRead-retain (used_locals f) f.blocks d.written r))
  ];
}

-- Dead code of `f` alone is gone after a turn.
retain-AllThinned :
    (f : MirFunction) (bs : List BasicBlock)
    → AllThinned (IsDead f) bs (map (retain_used (used_locals f)) bs)
unfolding retain_used
retain-AllThinned f [] = nil
retain-AllThinned f (b ∷ bs) =
    cons b (retain_used (used_locals f) b)
      (keep-Thinned (IsDead f) (keeps (used_locals f)) (not_kept-IsDead f) b.statements) refl
      (retain-AllThinned f bs)

-- A turn that shortens no block changes none, and every statement has passed the test.
retain-clean :
    (u : List Bool) (bs : List BasicBlock) (b : BasicBlock) (s : Statement)
    → In b (map (retain_used u) bs)
    → In s b.statements
    → keeps u s ≡ true
unfolding retain_used
retain-clean u [] b s m n = absurd m
retain-clean u (c ∷ bs) b s (inl e) n =
    (In-keep_lem (keeps u) s c.statements (subst (λ d. In s d.statements) e n)).1
retain-clean u (c ∷ bs) b s (inr m) n = retain-clean u bs b s m n

not_removed-same :
    (u : List Bool) (bs : List BasicBlock) → removed u bs ≡ false → map (retain_used u) bs ≡ bs
unfolding removed retain_used
not_removed-same u [] h = refl
not_removed-same u (b ∷ bs) h =
    let (here, later) =
      or-false (not (length (retain_used u b).statements == length b.statements)) (removed u bs)
        h in
    let all : length (keep (keeps u) b.statements) ≡ length b.statements = ground (arith, here) in
    cong2 (ap (λ xs. record b { statements = xs }) (keep-same (keeps u) b.statements all))
      (not_removed-same u bs later)
  where
    cong2 : {c d : BasicBlock} {cs ds : List BasicBlock} → c ≡ d → cs ≡ ds → c ∷ cs ≡ d ∷ ds
    cong2 p q = cc

fewer :
    (u : List Bool) (bs : List BasicBlock)
    → statement_count (map (retain_used u) bs) ≤ statement_count bs
unfolding statement_count retain_used
fewer u [] = omega arith
fewer u (b ∷ bs) = omega (arith, kept_all (keeps u) b.statements, fewer u bs)

removed-smaller :
    (u : List Bool) (bs : List BasicBlock)
    → removed u bs ≡ true
    → statement_count (map (retain_used u) bs) < statement_count bs
unfolding removed retain_used statement_count
removed-smaller u [] h = absurd cc
removed-smaller u (b ∷ bs) h =
    elim (Bool-cases (length (keep (keeps u) b.statements) == length b.statements)) [
      | inl e ↦
          let later : removed u bs ≡ true = or-right e h in
          omega (arith, kept_all (keeps u) b.statements, removed-smaller u bs later)
      | inr e ↦
          let short : length (keep (keeps u) b.statements) ≢ length b.statements =
            ground (arith, e) in
          omega (arith, kept_all (keeps u) b.statements, fewer u bs, short)
    ]
  where
    or-right : {a c : Bool} → a ≡ true → (not a || c) ≡ true → c ≡ true
    or-right p q = ground (arith, p, q)

pub sweep-same : (f : MirFunction) → removed (used_locals f) f.blocks ≡ false → sweep f ≡ f
unfolding sweep
sweep-same f h = ap (λ bs. record f { blocks = bs }) (not_removed-same (used_locals f) f.blocks h)

pub sweep-clean :
    (f : MirFunction) (b : BasicBlock) (s : Statement)
    → In b (sweep f).blocks
    → In s b.statements
    → keeps (used_locals f) s ≡ true
unfolding sweep
sweep-clean f = retain-clean (used_locals f) f.blocks

pub sweep-AllThinned : (f : MirFunction) → AllThinned (IsDead f) f.blocks (sweep f).blocks
unfolding sweep
sweep-AllThinned f = retain-AllThinned f f.blocks

pub sweep-frame : (f : MirFunction) → sweep f ≡ record f { blocks = (sweep f).blocks }
unfolding sweep
sweep-frame f = refl

pub sweep-smaller :
    (f : MirFunction) (n : ℕ)
    → removed (used_locals f) f.blocks ≡ true
    → statement_count f.blocks < suc n
    → statement_count (sweep f).blocks < n
unfolding sweep
sweep-smaller f n e lt = omega (arith, removed-smaller (used_locals f) f.blocks e)
