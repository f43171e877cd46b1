-- ===== src/Cfg/Live.antt =====
-- crates/slopic-core/src/cfg.rs: liveness by paths, and that the computed sets are it.
use slopium.Base.{
  ℕ, zero, suc, ◌<◌, ◌≡◌, ◌≢◌, ◌⊎◌, inl, inr, refl, sym, ◌∙◌, ap, subst, Bool, true, false, Option,
  none, some, List, [], ◌∷◌, arith, length, get_or, set, length-set, get_or-set_self, get_or-set_ne,
  get_or-set_either, In,
}
use slopium.Mir.{BlockId, LocalId, Instruction, BasicBlock}
use slopium.Cfg.DefUse.{defs, uses, terminator_uses}
use slopium.Cfg.Graph.{targets_of}
use slopium.Cfg.Sets.{or_into, or_into-split, or_into-left, or_into-right, length-or_into}
use slopium.Cfg.Liveness.{add_uses, clear_def, union_of, code_of, terminator_of}
use slopium.Cfg.Fixpoint.{row}

-- From the point where `is` are the instructions that are left of the block `b`, some path reads
-- the local before it writes it.
pub data LiveAt (blocks : List BasicBlock) (l : LocalId) : BlockId → List Instruction → Type 0 where
  read :
      {b : BlockId} {i : Instruction} {is : List Instruction}
      → In l (uses i)
      → LiveAt blocks l b (i ∷ is)
  pass :
      {b : BlockId} {i : Instruction} {is : List Instruction}
      → defs i ≢ some l
      → LiveAt blocks l b is
      → LiveAt blocks l b (i ∷ is)
  end : {b : BlockId} → In l (terminator_uses (terminator_of blocks b)) → LiveAt blocks l b []
  flow :
      {b c : BlockId}
      → In c (targets_of blocks b)
      → LiveAt blocks l c (code_of blocks c)
      → LiveAt blocks l b []

abbrev pub Flag : List Bool → LocalId → Type 0
Flag s l = get_or s l false ≡ true

pub add_uses-keeps :
    (ls : List LocalId) (s : List Bool) (l : LocalId) → Flag s l → Flag (add_uses ls s) l
unfolding add_uses
add_uses-keeps [] s l h = h
add_uses-keeps (x ∷ ls) s l h =
    add_uses-keeps ls (set s x true) l
      (elim (get_or-set_either s x l true false) [ inl e ↦ e.1 | inr e ↦ e ∙ h ])

pub add_uses-adds :
    (ls : List LocalId) (s : List Bool) (l : LocalId)
    → l < length s
    → In l ls
    → Flag (add_uses ls s) l
unfolding add_uses
add_uses-adds [] s l lt m = absurd m
add_uses-adds (x ∷ ls) s l lt (inl e) =
    add_uses-keeps ls (set s x true) l
      (subst (λ k. Flag (set s k true) l) e (get_or-set_self s l true false lt))
add_uses-adds (x ∷ ls) s l lt (inr m) =
    add_uses-adds ls (set s x true) l (subst (λ k. l < k) (sym (length-set s x true)) lt) m

pub add_uses-only :
    (ls : List LocalId) (s : List Bool) (l : LocalId) → Flag (add_uses ls s) l → In l ls ⊎ Flag s l
unfolding add_uses
add_uses-only [] s l h = inr h
add_uses-only (x ∷ ls) s l h = elim (add_uses-only ls (set s x true) l h) [
  | inl m ↦ inl (inr m)
  | inr f ↦ elim (get_or-set_either s x l true false) [
    | inl e ↦ inl (inl (sym e.0))
    | inr e ↦ inr (sym e ∙ f)
  ]
]

pub clear_def-keeps :
    (o : Option LocalId) (s : List Bool) (l : LocalId)
    → o ≢ some l
    → Flag s l
    → Flag (clear_def o s) l
unfolding clear_def
clear_def-keeps none s l ne h = h
clear_def-keeps (some x) s l ne h = get_or-set_ne s x l false false (λ e. ne (ap some e)) ∙ h

pub clear_def-only :
    (o : Option LocalId) (s : List Bool) (l : LocalId)
    → Flag (clear_def o s) l
    → (o ≢ some l) × Flag s l
unfolding clear_def
clear_def-only none s l h = ((λ e. cc e), h)
clear_def-only (some x) s l h = elim (get_or-set_either s x l false false) [
  | inl e ↦ cc (e.1, h)
  | inr e ↦ ((λ p. cleared p e), sym e ∙ h)
]
  where
    cleared : some x ≡ some l → get_or (set s x false) l false ≡ get_or s l false → ⊥
    cleared p e =
        let same : x ≡ l = cc p in
        let flag : Flag s x = subst (Flag s) (sym same) (sym e ∙ h) in
        cc (
          get_or-set_self s x false false (in_range s x flag),
          subst (Flag (set s x false)) (sym same) h,
        )
      where
        in_range : (t : List Bool) (y : ℕ) → Flag t y → y < length t
        in_range [] y f = cc
        in_range (z ∷ t) zero f = omega arith
        in_range (z ∷ t) (suc y) f = omega (arith, in_range t y f)

pub union_of-keeps :
    (m : List (List Bool)) (ts : List BlockId) (s : List Bool) (l : LocalId)
    → Flag s l
    → Flag (union_of m ts s) l
unfolding union_of
union_of-keeps m [] s l h = h
union_of-keeps m (t ∷ ts) s l h =
    union_of-keeps m ts (or_into s (row m t)) l (or_into-left s (row m t) l h)

pub union_of-adds :
    (m : List (List Bool)) (ts : List BlockId) (s : List Bool) (l : LocalId) (c : BlockId)
    → l < length s
    → In c ts
    → Flag (row m c) l
    → Flag (union_of m ts s) l
unfolding union_of
union_of-adds m [] s l c lt n h = absurd n
union_of-adds m (t ∷ ts) s l c lt (inl e) h =
    union_of-keeps m ts (or_into s (row m t)) l
      (or_into-right s (row m t) l lt (subst (λ k. Flag (row m k) l) e h))
union_of-adds m (t ∷ ts) s l c lt (inr n) h =
    union_of-adds m ts (or_into s (row m t)) l c
      (subst (λ k. l < k) (sym (length-or_into s (row m t))) lt) n h

pub union_of-only :
    (m : List (List Bool)) (ts : List BlockId) (s : List Bool) (l : LocalId)
    → Flag (union_of m ts s) l
    → Flag s l ⊎ ((c : BlockId) × In c ts × Flag (row m c) l)
unfolding union_of
union_of-only m [] s l h = inl h
union_of-only m (t ∷ ts) s l h = elim (union_of-only m ts (or_into s (row m t)) l h) [
  | inr (c, n, f) ↦ inr (c, inr n, f)
  | inl f ↦ elim (or_into-split s (row m t) l f) [ inl g ↦ inl g | inr g ↦ inr (t, inl refl, g) ]
]
