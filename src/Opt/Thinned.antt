-- ===== src/Opt/Thinned.antt =====
-- crates/slopic-core/src/opt.rs: what dead code is, and lists of statements without some of it.
use slopium.Base.{
  ◌<◌, ◌≡◌, ◌↔◌, ◌⊎◌, inl, inr, refl, sym, ◌∙◌, subst, Bool, true, false, some, List, [], ◌∷◌,
  Bool-cases, arith, length, replicate, In, keep, get_or-replicate, length-replicate,
}
use slopium.Mir.{LocalId, Instruction, Statement, BasicBlock, instructions, MirFunction}
use slopium.Cfg.DefUse.{defs, uses, terminator_uses}
use slopium.Cfg.Liveness.{add_uses}
use slopium.Cfg.Fixpoint.{length-add_uses}
use slopium.Cfg.Live.{Flag, add_uses-keeps, add_uses-adds, add_uses-only}
use slopium.Opt.Effects.{OnlyWrites}
use slopium.Opt.Dead.{is_pure, mark_reads, mark_used, used_locals}

-- The code's `is_pure` holds of the instructions that only write their local.
pub is_pure_iff : (i : Instruction) → (is_pure i ≡ true) ↔ OnlyWrites i
unfolding is_pure
is_pure_iff i = ground arith

-- The blocks have an instruction or a terminator that reads the local.
pub data BlocksRead (blocks : List BasicBlock) (l : LocalId) : Type 0 where
  code :
      (b : BasicBlock) (i : Instruction)
      → In b blocks
      → In i (instructions b)
      → In l (uses i)
      → BlocksRead blocks l
  exit : (b : BasicBlock) → In b blocks → In l (terminator_uses b.terminator) → BlocksRead blocks l

-- The local is a parameter, or something in the function reads it.
abbrev pub Reads : MirFunction → LocalId → Type 0
Reads f l = In l f.params ⊎ BlocksRead f.blocks l

-- A statement whose only effect is to write a local that is no parameter and that nothing in the
-- function reads.
pub record IsDead (f : MirFunction) (s : Statement) : Type 0 where
  pub only_writes : OnlyWrites s.instruction
  pub written : LocalId
  pub writes : defs s.instruction ≡ some written
  pub in_range : written < length f.locals
  pub unread : ¬ Reads f written

pub data Thinned (P : Statement → Type 0) : List Statement → List Statement → Type 0 where
  nil : Thinned P [] []
  kept : (s : Statement) {xs ys : List Statement} → Thinned P xs ys → Thinned P (s ∷ xs) (s ∷ ys)
  dropped : (s : Statement) {xs ys : List Statement} → P s → Thinned P xs ys → Thinned P (s ∷ xs) ys

pub data AllThinned (P : Statement → Type 0) : List BasicBlock → List BasicBlock → Type 0 where
  nil : AllThinned P [] []
  cons :
      (b c : BasicBlock) {bs cs : List BasicBlock}
      → Thinned P b.statements c.statements
      → b.terminator ≡ c.terminator
      → AllThinned P bs cs
      → AllThinned P (b ∷ bs) (c ∷ cs)

pub Thinned-trans :
    (P Q : Statement → Type 0)
    → ((s : Statement) → P s → Q s)
    → {xs ys zs : List Statement} → Thinned P xs ys
    → Thinned Q ys zs
    → Thinned Q xs zs
Thinned-trans P Q h nil t = t
Thinned-trans P Q h (kept s r) (kept _ t) = kept s (Thinned-trans P Q h r t)
Thinned-trans P Q h (kept s r) (dropped _ q t) = dropped s q (Thinned-trans P Q h r t)
Thinned-trans P Q h (dropped s p r) t = dropped s (h s p) (Thinned-trans P Q h r t)

pub AllThinned-trans :
    (P Q : Statement → Type 0)
    → ((s : Statement) → P s → Q s)
    → {xs ys zs : List BasicBlock} → AllThinned P xs ys
    → AllThinned Q ys zs
    → AllThinned Q xs zs
AllThinned-trans P Q h nil t = t
AllThinned-trans P Q h (cons b _ r e rs) (cons _ d t q ts) =
    cons b d (Thinned-trans P Q h r t) (e ∙ q) (AllThinned-trans P Q h rs ts)

Thinned-map :
    {P Q : Statement → Type 0}
    → ((s : Statement) → P s → Q s)
    → {xs ys : List Statement} → Thinned P xs ys
    → Thinned Q xs ys
Thinned-map h nil = nil
Thinned-map h (kept s t) = kept s (Thinned-map h t)
Thinned-map h (dropped s p t) = dropped s (h s p) (Thinned-map h t)

pub AllThinned-map :
    {P Q : Statement → Type 0}
    → ((s : Statement) → P s → Q s)
    → {xs ys : List BasicBlock} → AllThinned P xs ys
    → AllThinned Q xs ys
AllThinned-map h nil = nil
AllThinned-map h (cons b c t e ts) = cons b c (Thinned-map h t) e (AllThinned-map h ts)

pub keep-Thinned :
    (P : Statement → Type 0) (p : Statement → Bool)
    → ((s : Statement) → p s ≡ false → P s)
    → (xs : List Statement) → Thinned P xs (keep p xs)
keep-Thinned P p h [] = nil
keep-Thinned P p h (x ∷ xs) = elim (Bool-cases (p x)) [
  | inl e ↦ rw e (kept x (keep-Thinned P p h xs))
  | inr e ↦ rw e (dropped x (h x e) (keep-Thinned P p h xs))
]

-- The marks over code, over blocks and over the function.
mark_reads-keeps :
    (is : List Instruction) (u : List Bool) (l : LocalId) → Flag u l → Flag (mark_reads is u) l
unfolding mark_reads
mark_reads-keeps [] u l h = h
mark_reads-keeps (i ∷ is) u l h =
    mark_reads-keeps is (add_uses (uses i) u) l (add_uses-keeps (uses i) u l h)

length-mark_reads : (is : List Instruction) (u : List Bool) → length (mark_reads is u) ≡ length u
unfolding mark_reads
length-mark_reads [] u = refl
length-mark_reads (i ∷ is) u =
    length-mark_reads is (add_uses (uses i) u) ∙ length-add_uses (uses i) u

mark_reads-adds :
    (is : List Instruction) (u : List Bool) (l : LocalId) (i : Instruction)
    → l < length u
    → In i is
    → In l (uses i)
    → Flag (mark_reads is u) l
unfolding mark_reads
mark_reads-adds [] u l i lt m n = absurd m
mark_reads-adds (x ∷ is) u l i lt (inl e) n =
    mark_reads-keeps is (add_uses (uses x) u) l
      (add_uses-adds (uses x) u l lt (subst (λ j. In l (uses j)) e n))
mark_reads-adds (x ∷ is) u l i lt (inr m) n =
    mark_reads-adds is (add_uses (uses x) u) l i
      (subst (λ k. l < k) (sym (length-add_uses (uses x) u)) lt) m n

mark_reads-only :
    (is : List Instruction) (u : List Bool) (l : LocalId)
    → Flag (mark_reads is u) l
    → ((i : Instruction) × In i is × In l (uses i)) ⊎ Flag u l
unfolding mark_reads
mark_reads-only [] u l h = inr h
mark_reads-only (x ∷ is) u l h = elim (mark_reads-only is (add_uses (uses x) u) l h) [
  | inl (i, m, n) ↦ inl (i, inr m, n)
  | inr k ↦ elim (add_uses-only (uses x) u l k) [ inl n ↦ inl (x, inl refl, n) | inr k' ↦ inr k' ]
]

abbrev marked_block : BasicBlock → List Bool → List Bool
marked_block b u = add_uses (terminator_uses b.terminator) (mark_reads (instructions b) u)

length-marked_block : (b : BasicBlock) (u : List Bool) → length (marked_block b u) ≡ length u
length-marked_block b u =
    length-add_uses (terminator_uses b.terminator) (mark_reads (instructions b) u)
    ∙ length-mark_reads (instructions b) u

length-mark_used : (bs : List BasicBlock) (u : List Bool) → length (mark_used bs u) ≡ length u
unfolding mark_used
length-mark_used [] u = refl
length-mark_used (b ∷ bs) u = length-mark_used bs (marked_block b u) ∙ length-marked_block b u

mark_used-keeps :
    (bs : List BasicBlock) (u : List Bool) (l : LocalId) → Flag u l → Flag (mark_used bs u) l
unfolding mark_used
mark_used-keeps [] u l h = h
mark_used-keeps (b ∷ bs) u l h = mark_used-keeps bs (marked_block b u) l (
    add_uses-keeps (terminator_uses b.terminator) (mark_reads (instructions b) u) l
      (mark_reads-keeps (instructions b) u l h))

mark_used-adds :
    (bs : List BasicBlock) (u : List Bool) (l : LocalId)
    → l < length u
    → BlocksRead bs l
    → Flag (mark_used bs u) l
unfolding mark_used
mark_used-adds [] u l lt (code b i m n o) = absurd m
mark_used-adds [] u l lt (exit b m n) = absurd m
mark_used-adds (c ∷ bs) u l lt (code b i (inl e) n o) = mark_used-keeps bs (marked_block c u) l (
    add_uses-keeps (terminator_uses c.terminator) (mark_reads (instructions c) u) l
      (mark_reads-adds (instructions c) u l i lt (subst (λ d. In i (instructions d)) e n) o))
mark_used-adds (c ∷ bs) u l lt (exit b (inl e) n) = mark_used-keeps bs (marked_block c u) l (
    add_uses-adds (terminator_uses c.terminator) (mark_reads (instructions c) u) l
      (subst (λ k. l < k) (sym (length-mark_reads (instructions c) u)) lt)
      (subst (λ d. In l (terminator_uses d.terminator)) e n))
mark_used-adds (c ∷ bs) u l lt (code b i (inr m) n o) =
    mark_used-adds bs (marked_block c u) l (subst (λ k. l < k) (sym (length-marked_block c u)) lt)
      (code b i m n o)
mark_used-adds (c ∷ bs) u l lt (exit b (inr m) n) =
    mark_used-adds bs (marked_block c u) l (subst (λ k. l < k) (sym (length-marked_block c u)) lt)
      (exit b m n)

BlocksRead-more :
    (c : BasicBlock) (bs : List BasicBlock) (l : LocalId) → BlocksRead bs l → BlocksRead (c ∷ bs) l
BlocksRead-more c bs l (code b i m n o) = code b i (inr m) n o
BlocksRead-more c bs l (exit b m n) = exit b (inr m) n

mark_used-only :
    (bs : List BasicBlock) (u : List Bool) (l : LocalId)
    → Flag (mark_used bs u) l
    → BlocksRead bs l ⊎ Flag u l
unfolding mark_used
mark_used-only [] u l h = inr h
mark_used-only (c ∷ bs) u l h = elim (mark_used-only bs (marked_block c u) l h) [
  | inl r ↦ inl (BlocksRead-more c bs l r)
  | inr k ↦
      elim (add_uses-only (terminator_uses c.terminator) (mark_reads (instructions c) u) l k) [
        | inl n ↦ inl (exit c (inl refl) n)
        | inr k' ↦ elim (mark_reads-only (instructions c) u l k') [
          | inl (i, m, n) ↦ inl (code c i (inl refl) m n)
          | inr k'' ↦ inr k''
        ]
      ]
]

pub length-used_locals : (f : MirFunction) → length (used_locals f) ≡ length f.locals
unfolding used_locals
length-used_locals f =
    length-add_uses f.params (mark_used f.blocks (replicate (length f.locals) false))
    ∙ length-mark_used f.blocks (replicate (length f.locals) false)
    ∙ length-replicate (length f.locals) false

-- The flags are exactly the locals that are read.
pub used_locals_iff :
    (f : MirFunction) (l : LocalId) → l < length f.locals → Flag (used_locals f) l ↔ Reads f l
unfolding used_locals
used_locals_iff f l lt = (only, adds)
  where
    none_read : List Bool
    none_read = replicate (length f.locals) false

    only : Flag (add_uses f.params (mark_used f.blocks none_read)) l → Reads f l
    only h = elim (add_uses-only f.params (mark_used f.blocks none_read) l h) [
      | inl m ↦ inl m
      | inr k ↦ elim (mark_used-only f.blocks none_read l k) [
        | inl r ↦ inr r
        | inr z ↦ absurd (cc (get_or-replicate (length f.locals) l false, z))
      ]
    ]

    adds : Reads f l → Flag (add_uses f.params (mark_used f.blocks none_read)) l
    adds (inl m) =
        add_uses-adds f.params (mark_used f.blocks none_read) l
          (subst (λ k. l < k)
            (sym (length-mark_used f.blocks none_read ∙ length-replicate (length f.locals) false))
            lt)
          m
    adds (inr r) = add_uses-keeps f.params (mark_used f.blocks none_read) l (
        mark_used-adds f.blocks none_read l
          (subst (λ k. l < k) (sym (length-replicate (length f.locals) false)) lt) r)
