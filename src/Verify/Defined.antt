-- ===== src/Verify/Defined.antt =====
-- crates/slopic-core/src/verify.rs: what `check_initialization` shows when a definition on some path is
-- enough.
use slopium.Base.{
  ℕ, zero, suc, ◌<◌, ◌≡◌, ◌⊎◌, inl, inr, refl, sym, ◌∙◌, ap, subst, Bool, true, false, ◌||◌, Option,
  none, some, List, [], ◌∷◌, ltb, ltb→lt, length, get_or, set, Bool-cases, Option-cases, In,
  get_or-set_either,
}
use slopium.Mir.{LocalId, BlockId, Instruction, MirFunction}
use slopium.Cfg.DefUse.{defs}
use slopium.Cfg.Graph.{targets_of}
use slopium.Cfg.Reach.{PathTo, here}
use slopium.Cfg.Liveness.{code_of}
use slopium.Verify.Definedness.{
  any, Entries, merge_slots, define, define_all, flow_target, flow_targets, flow_from, flow_all,
}
use slopium.Verify.Paths.{after, after_all, Arrives}

-- Some path from the entry writes the local before it comes to the block.
abbrev pub MayWrite : MirFunction → BlockId → LocalId → Type 0
MayWrite f b l = (ws : List LocalId) × Arrives f b ws × In l ws

abbrev pub Flagged : List Bool → LocalId → Type 0
Flagged d l = get_or d l false ≡ true

or_either : (a b : Bool) → (a || b) ≡ true → (a ≡ true) ⊎ (b ≡ true)
or_either true b h = inl refl
or_either false b h = inr h

merge_slots-either :
    (a b : List Bool) (l : LocalId) → Flagged (merge_slots any a b) l → Flagged a l ⊎ Flagged b l
unfolding merge_slots
merge_slots-either [] b l h = inl h
merge_slots-either (x ∷ a) [] l h = inl h
merge_slots-either (x ∷ a) (y ∷ b) zero h = or_either x y h
merge_slots-either (x ∷ a) (y ∷ b) (suc l) h = merge_slots-either a b l h

In-after : (o : Option LocalId) (l : LocalId) (ws : List LocalId) → In l ws → In l (after o ws)
In-after none l ws h = h
In-after (some k) l ws h = inr h

In-after_all :
    (is : List Instruction) (l : LocalId) (ws : List LocalId) → In l ws → In l (after_all is ws)
unfolding after_all
In-after_all [] l ws h = h
In-after_all (i ∷ is) l ws h = In-after_all is l (after (defs i) ws) (In-after (defs i) l ws h)

pub define-flag :
    (o : Option LocalId) (d : List Bool) (l : LocalId)
    → Flagged (define o d) l
    → Flagged d l ⊎ (o ≡ some l)
unfolding define
define-flag none d l h = inl h
define-flag (some k) d l h = elim (get_or-set_either d k l true false) [
  | inl e ↦ inr (ap some e.0)
  | inr e ↦ inl (sym e ∙ h)
]

-- A flag behind the code was there before or stands for a write of the code.
define_all-flag :
    (is : List Instruction) (d : List Bool) (l : LocalId)
    → Flagged (define_all is d) l
    → Flagged d l ⊎ ((ws : List LocalId) → In l (after_all is ws))
unfolding define_all after_all
define_all-flag [] d l h = inl h
define_all-flag (i ∷ is) d l h = elim (define_all-flag is (define (defs i) d) l h) [
  | inr w ↦ inr (λ ws. w (after (defs i) ws))
  | inl m ↦ elim (define-flag (defs i) d l m) [
    | inl n ↦ inl n
    | inr e ↦ inr (λ ws. In-after_all is l (after (defs i) ws) (top (defs i) e ws))
  ]
]
  where
    top : (o : Option LocalId) → o ≡ some l → (ws : List LocalId) → In l (after o ws)
    top none e ws = absurd cc
    top (some k) e ws = inl cc

PathTo-Arrives :
    {f : MirFunction} {b : BlockId}
    → PathTo f.blocks f.entry b
    → (ws : List LocalId) × Arrives f b ws
PathTo-Arrives {f} here = (f.params, Arrives.start)
PathTo-Arrives {f} (PathTo.step {b = b} p i lt) =
    let (ws, r) = PathTo-Arrives p in (after_all (code_of f.blocks b) ws, Arrives.step r i lt)

-- Each flag of an entry has a path that accounts for it, and the function's entry is filled.
pub record IsJustified (f : MirFunction) (ds : Entries) : Type 0 where
  pub begun : (d : List Bool) × (get_or ds f.entry none ≡ some d)
  pub justified :
      (b : BlockId) (d : List Bool) (l : LocalId)
      → get_or ds b none ≡ some d
      → Flagged d l
      → MayWrite f b l

set-IsJustified :
    (f : MirFunction) (ds : Entries) (t : BlockId) (x : List Bool)
    → IsJustified f ds
    → ((l : LocalId) → Flagged x l → MayWrite f t l)
    → IsJustified f (set ds t (some x))
set-IsJustified f ds t x h j = record {
  begun = elim (get_or-set_either ds t f.entry (some x) none) [
    | inl e ↦ (x, e.1)
    | inr e ↦ (h.begun.0, e ∙ h.begun.1)
  ];
  justified = λ b d l at flag. elim (get_or-set_either ds t b (some x) none) [
    | inl e ↦
        let same : x ≡ d = cc in
        subst (λ k. MayWrite f k l) e.0 (j l (subst (λ y. Flagged y l) (sym same) flag))
    | inr e ↦ h.justified b d l (sym e ∙ at) flag
  ];
}

target-IsJustified :
    (f : MirFunction) (count : ℕ) (defined : List Bool) (t : BlockId) (ds : Entries) (c : Bool)
    → IsJustified f ds
    → (t < count → (l : LocalId) → Flagged defined l → MayWrite f t l)
    → IsJustified f (flow_target any count defined t ds c).0
unfolding flow_target
target-IsJustified f count defined t ds c h j = elim (Bool-cases (ltb t count)) [
  | inr q ↦ rw (q, flow_target) h
  | inl q ↦ elim (Option-cases (get_or ds t none)) [
    | inl e ↦ rw (q, flow_target, e) (set-IsJustified f ds t defined h (j (ltb→lt t count q)))
    | inr (x, e) ↦
        rw (q, flow_target, e)
          (set-IsJustified f ds t (merge_slots any x defined) h (λ l flag.
            elim (merge_slots-either x defined l flag) [
              | inl m ↦ h.justified t x l e m
              | inr m ↦ j (ltb→lt t count q) l m
            ]))
  ]
]

targets-IsJustified :
    (f : MirFunction) (count : ℕ) (defined : List Bool) (ts : List BlockId) (ds : Entries)
    (c : Bool)
    → IsJustified f ds
    → ((t : BlockId) → In t ts → t < count → (l : LocalId) → Flagged defined l → MayWrite f t l)
    → IsJustified f (flow_targets any count defined ts ds c).0
unfolding flow_targets
targets-IsJustified f count defined [] ds c h j = h
targets-IsJustified f count defined (t ∷ ts) ds c h j =
    let r = flow_target any count defined t ds c in
    targets-IsJustified f count defined ts r.0 r.1
      (target-IsJustified f count defined t ds c h (λ lt l flag. j t (inl refl) lt l flag))
      (λ u i lt l flag. j u (inr i) lt l flag)

block-IsJustified :
    (f : MirFunction) (b : BlockId) (ds : Entries) (c : Bool)
    → PathTo f.blocks f.entry b
    → IsJustified f ds
    → IsJustified f (flow_from any f.blocks b ds c).0
unfolding flow_from
block-IsJustified f b ds c path h = elim (Option-cases (get_or ds b none)) [
  | inl q ↦ rw (q, flow_from) h
  | inr (d, q) ↦
      rw (q, flow_from)
        (targets-IsJustified f (length f.blocks) (define_all (code_of f.blocks b) d)
          (targets_of f.blocks b) ds c h
          (λ t i lt l flag. elim (define_all-flag (code_of f.blocks b) d l flag) [
            | inl m ↦
                let (ws, r, k) = h.justified b d l q m in
                (
                  after_all (code_of f.blocks b) ws,
                  Arrives.step r i lt,
                  In-after_all (code_of f.blocks b) l ws k,
                )
            | inr w ↦
                let (ws, r) = PathTo-Arrives path in
                (after_all (code_of f.blocks b) ws, Arrives.step r i lt, w ws)
          ]))
]

pub round-IsJustified :
    (f : MirFunction) (order : List BlockId) (ds : Entries) (c : Bool)
    → ((b : BlockId) → In b order → PathTo f.blocks f.entry b)
    → IsJustified f ds
    → IsJustified f (flow_all any f.blocks order ds c).0
unfolding flow_all
round-IsJustified f [] ds c paths h = h
round-IsJustified f (b ∷ bs) ds c paths h =
    let r = flow_from any f.blocks b ds c in
    round-IsJustified f bs r.0 r.1 (λ k i. paths k (inr i))
      (block-IsJustified f b ds c (paths b (inl refl)) h)
