-- ===== src/Verify/Progress.antt =====
-- crates/slopic-core/src/verify.rs: a round of `check_initialization` changes nothing or comes nearer
-- to its end.
use slopium.Base.{
  ℕ, zero, suc, ◌+◌, ◌≤◌, ◌<◌, ◌≡◌, ◌⊎◌, inl, inr, refl, sym, ◌∙◌, ap, subst, Bool, true, false,
  ◌||◌, not, Option, none, some, List, [], ◌∷◌, ltb, ltb→lt, length, get_or, set, length-set, arith,
  Bool-cases, Option-cases, get_or-set_either,
}
use slopium.Mir.{LocalId, BlockId, Instruction, BasicBlock}
use slopium.Cfg.DefUse.{defs}
use slopium.Cfg.Graph.{targets_of}
use slopium.Cfg.Liveness.{code_of}
use slopium.Cfg.Sets.{eq_flags, eq_flags_lem}
use slopium.Verify.Definedness.{
  Merge, any, all, updated, Entries, merge_slots, define, define_all, flow_target, flow_targets,
  flow_from, flow_all,
}

-- The flags that can still change.
unfoldable pub slot_cost : Merge → Bool → ℕ
slot_cost any true = 0
slot_cost any false = 1
slot_cost all true = 1
slot_cost all false = 0

unfoldable pub cost : Merge → List Bool → ℕ
unfolding slot_cost
cost m [] = 0
cost m (x ∷ xs) = slot_cost m x + cost m xs

unfoldable pub entry_cost : Merge → ℕ → Option (List Bool) → ℕ
unfolding cost
entry_cost m locals none = suc locals
entry_cost m locals (some d) = cost m d

unfoldable pub total : Merge → ℕ → Entries → ℕ
unfolding entry_cost
total m locals [] = 0
total m locals (d ∷ ds) = entry_cost m locals d + total m locals ds

pub cost-le : (m : Merge) (d : List Bool) → cost m d ≤ length d
unfolding cost slot_cost
cost-le m [] = omega arith
cost-le any (true ∷ d) = let h = cost-le any d in omega arith
cost-le any (false ∷ d) = let h = cost-le any d in omega arith
cost-le all (true ∷ d) = let h = cost-le all d in omega arith
cost-le all (false ∷ d) = let h = cost-le all d in omega arith

slot-updated :
    (m : Merge) (a b : Bool) → (updated m a b ≡ a) ⊎ (slot_cost m (updated m a b) < slot_cost m a)
unfolding slot_cost
slot-updated any true b = inl refl
slot-updated any false true = inr (omega arith)
slot-updated any false false = inl refl
slot-updated all true true = inl refl
slot-updated all true false = inr (omega arith)
slot-updated all false b = inl refl

-- The merge leaves the flags as they are or lowers their cost.
pub merge_slots-cost :
    (m : Merge) (a b : List Bool)
    → (merge_slots m a b ≡ a) ⊎ (cost m (merge_slots m a b) < cost m a)
unfolding merge_slots cost
merge_slots-cost m [] b = inl refl
merge_slots-cost m (x ∷ a) [] = inl refl
merge_slots-cost m (x ∷ a) (y ∷ b) = elim (slot-updated m x y) [
  | inl e ↦ elim (merge_slots-cost m a b) [
    | inl q ↦ inl (ap (λ z. z ∷ merge_slots m a b) e ∙ ap (λ zs. x ∷ zs) q)
    | inr lt ↦ let s = ap (slot_cost m) e in inr (omega arith)
  ]
  | inr lt ↦ elim (merge_slots-cost m a b) [
    | inl q ↦ let s = ap (cost m) q in inr (omega arith)
    | inr lt' ↦ inr (omega arith)
  ]
]

pub length-merge_slots : (m : Merge) (a b : List Bool) → length (merge_slots m a b) ≡ length a
unfolding merge_slots
length-merge_slots m [] b = refl
length-merge_slots m (x ∷ a) [] = refl
length-merge_slots m (x ∷ a) (y ∷ b) = ap suc (length-merge_slots m a b)

pub total-set :
    (m : Merge) (locals : ℕ) (ds : Entries) (i : ℕ) (d : Option (List Bool))
    → i < length ds
    → total m locals (set ds i d) + entry_cost m locals (get_or ds i none)
      ≡ total m locals ds + entry_cost m locals d
unfolding total
total-set m locals [] i d h = absurd (omega arith)
total-set m locals (x ∷ ds) zero d h = omega arith
total-set m locals (x ∷ ds) (suc i) d h =
    let ih = total-set m locals ds i d (omega arith) in omega arith

set_same : {A : Type 0} (xs : List A) (i : ℕ) (d : A) → set xs i (get_or xs i d) ≡ xs
set_same [] i d = refl
set_same (x ∷ xs) zero d = refl
set_same (x ∷ xs) (suc i) d = ap (λ ys. x ∷ ys) (set_same xs i d)

-- Every filled entry has a flag for each local.
abbrev pub AreSized : ℕ → Entries → Type 0
AreSized locals ds = (b : BlockId) (d : List Bool) → get_or ds b none ≡ some d → length d ≡ locals

-- From one state of the loop to a later one.
pub record Moves (m : Merge) (locals : ℕ) (ds : Entries) (c : Bool) (ds' : Entries) (c' : Bool)
    : Type 0 where
  pub same_length : length ds' ≡ length ds
  pub sized : AreSized locals ds'
  pub nearer : ((ds' ≡ ds) × (c' ≡ c)) ⊎ ((c' ≡ true) × (total m locals ds' < total m locals ds))

pub Moves-none :
    (m : Merge) (locals : ℕ) (ds : Entries) (c : Bool)
    → AreSized locals ds
    → Moves m locals ds c ds c
Moves-none m locals ds c s = record { same_length = refl; sized = s; nearer = inl (refl, refl) }

pub Moves-trans :
    (m : Merge) (locals : ℕ) (a : Entries) (x : Bool) (b : Entries) (y : Bool) (c : Entries)
    (z : Bool)
    → Moves m locals a x b y
    → Moves m locals b y c z
    → Moves m locals a x c z
Moves-trans m locals a x b y c z p q = record {
  same_length = q.same_length ∙ p.same_length;
  sized = q.sized;
  nearer = elim q.nearer [
    | inl e ↦ elim p.nearer [
      | inl d ↦ inl (e.0 ∙ d.0, e.1 ∙ d.1)
      | inr d ↦ inr (e.1 ∙ d.0, subst (λ w. total m locals w < total m locals a) (sym e.0) d.1)
    ]
    | inr e ↦ elim p.nearer [
      | inl d ↦ inr (e.0, subst (λ w. total m locals c < total m locals w) d.0 e.1)
      | inr d ↦ inr (e.0, omega arith)
    ]
  ];
}

pub sized-set :
    (locals : ℕ) (ds : Entries) (t : BlockId) (d : List Bool)
    → AreSized locals ds
    → length d ≡ locals
    → AreSized locals (set ds t (some d))
sized-set locals ds t d s e b d' h = elim (get_or-set_either ds t b (some d) none) [
  | inl q ↦ let same : d ≡ d' = cc in ap length (sym same) ∙ e
  | inr q ↦ s b d' (sym q ∙ h)
]

eq_flags_refl : (d : List Bool) → eq_flags d d ≡ true
unfolding eq_flags
eq_flags_refl [] = refl
eq_flags_refl (true ∷ d) = eq_flags_refl d
eq_flags_refl (false ∷ d) = eq_flags_refl d

or_false : (c : Bool) → (c || false) ≡ c
or_false true = refl
or_false false = refl

or_true : (c : Bool) → (c || true) ≡ true
or_true true = refl
or_true false = refl

ne_flags : (m : Merge) (a b : List Bool) → cost m a < cost m b → eq_flags a b ≡ false
ne_flags m a b lt = elim (Bool-cases (eq_flags a b)) [
  | inr q ↦ q
  | inl q ↦ let same = ap (cost m) (eq_flags_lem a b q) in absurd (omega arith)
]

-- One target of a block.
module _ (m : Merge) (locals : ℕ) (defined : List Bool) (t : BlockId) (ds : Entries) (c : Bool)
    (sized : AreSized locals ds) (full : length defined ≡ locals) where
  fill-Moves :
      t < length ds → get_or ds t none ≡ none → Moves m locals ds c (set ds t (some defined)) true
  unfolding total
  fill-Moves lt q =
      let sum = total-set m locals ds t (some defined) lt in
      let old = ap (entry_cost m locals) q in
      let bound = cost-le m defined in
      record {
        same_length = length-set ds t (some defined);
        sized = sized-set locals ds t defined sized full;
        nearer = inr (refl, omega arith);
      }

  merge-Moves :
      (existing : List Bool)
      → t < length ds
      → get_or ds t none ≡ some existing
      → Moves m locals ds c
          (set ds t (some (merge_slots m existing defined)))
          (c || not (eq_flags (merge_slots m existing defined) existing))
  unfolding total
  merge-Moves existing lt q =
      let u = merge_slots m existing defined in
      let sum = total-set m locals ds t (some u) lt in
      let old = ap (entry_cost m locals) q in
      record {
        same_length = length-set ds t (some u);
        sized =
            sized-set locals ds t u sized
              (length-merge_slots m existing defined ∙ sized t existing q);
        nearer = elim (merge_slots-cost m existing defined) [
          | inl e ↦ inl (
            ap (λ d. set ds t (some d)) e ∙ ap (set ds t) (sym q) ∙ set_same ds t none,
            ap (λ b. c || not b) (ap (λ d. eq_flags d existing) e ∙ eq_flags_refl existing)
                ∙ or_false c,
          )
          | inr lower ↦
              inr (ap (λ b. c || not b) (ne_flags m u existing lower) ∙ or_true c, omega arith)
        ];
      }

  pub flow_target-Moves :
      (count : ℕ)
      → length ds ≡ count
      → Moves m locals ds c
          (flow_target m count defined t ds c).0
          (flow_target m count defined t ds c).1
  unfolding flow_target
  flow_target-Moves count size = elim (Bool-cases (ltb t count)) [
    | inr q ↦ rw (q, flow_target) (Moves-none m locals ds c sized)
    | inl q ↦
        let lt : t < length ds = subst (λ k. t < k) (sym size) (ltb→lt t count q) in
        elim (Option-cases (get_or ds t none)) [
          | inl e ↦ rw (q, flow_target, e) (fill-Moves lt e)
          | inr (d, e) ↦ rw (q, flow_target, e) (merge-Moves d lt e)
        ]
  ]

pub flow_targets-Moves :
    (m : Merge) (locals : ℕ) (defined : List Bool) (ts : List BlockId) (ds : Entries) (c : Bool)
    (count : ℕ)
    → AreSized locals ds
    → length defined ≡ locals
    → length ds ≡ count
    → Moves m locals ds c
        (flow_targets m count defined ts ds c).0
        (flow_targets m count defined ts ds c).1
unfolding flow_targets
flow_targets-Moves m locals defined [] ds c count s full size = Moves-none m locals ds c s
flow_targets-Moves m locals defined (t ∷ ts) ds c count s full size =
    let r = flow_target m count defined t ds c in
    let one = flow_target-Moves m locals defined t ds c s full count size in
    Moves-trans m locals ds c r.0 r.1 (flow_targets m count defined ts r.0 r.1).0
      (flow_targets m count defined ts r.0 r.1).1 one
      (flow_targets-Moves m locals defined ts r.0 r.1 count one.sized full (one.same_length ∙ size))

length-define : (o : Option LocalId) (d : List Bool) → length (define o d) ≡ length d
unfolding define
length-define none d = refl
length-define (some l) d = length-set d l true

pub length-define_all :
    (is : List Instruction) (d : List Bool) → length (define_all is d) ≡ length d
unfolding define_all
length-define_all [] d = refl
length-define_all (i ∷ is) d = length-define_all is (define (defs i) d) ∙ length-define (defs i) d

pub flow_from-Moves :
    (m : Merge) (locals : ℕ) (blocks : List BasicBlock) (b : BlockId) (ds : Entries) (c : Bool)
    → AreSized locals ds
    → length ds ≡ length blocks
    → Moves m locals ds c (flow_from m blocks b ds c).0 (flow_from m blocks b ds c).1
unfolding flow_from
flow_from-Moves m locals blocks b ds c s size = elim (Option-cases (get_or ds b none)) [
  | inl q ↦ rw (q, flow_from) (Moves-none m locals ds c s)
  | inr (d, q) ↦
      rw (q, flow_from)
        (flow_targets-Moves m locals (define_all (code_of blocks b) d) (targets_of blocks b) ds c
          (length blocks) s (length-define_all (code_of blocks b) d ∙ s b d q) size)
]

pub flow_all-Moves :
    (m : Merge) (locals : ℕ) (blocks : List BasicBlock) (order : List BlockId) (ds : Entries)
    (c : Bool)
    → AreSized locals ds
    → length ds ≡ length blocks
    → Moves m locals ds c (flow_all m blocks order ds c).0 (flow_all m blocks order ds c).1
unfolding flow_all
flow_all-Moves m locals blocks [] ds c s size = Moves-none m locals ds c s
flow_all-Moves m locals blocks (b ∷ bs) ds c s size =
    let r = flow_from m blocks b ds c in
    let one = flow_from-Moves m locals blocks b ds c s size in
    Moves-trans m locals ds c r.0 r.1 (flow_all m blocks bs r.0 r.1).0
      (flow_all m blocks bs r.0 r.1).1 one
      (flow_all-Moves m locals blocks bs r.0 r.1 one.sized (one.same_length ∙ size))
