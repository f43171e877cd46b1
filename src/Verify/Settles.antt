-- ===== src/Verify/Settles.antt =====
-- crates/slopic-core/src/verify.rs: the loop of `check_initialization` ends where no block changes
-- anything.
use slopium.Base.{
  ℕ, zero, suc, ◌+◌, ◌*◌, ◌≤◌, ◌<◌, ◌≡◌, inl, inr, refl, sym, ◌∙◌, ap, subst, Bool, true, false,
  ◌||◌, not, Option, none, some, List, [], ◌∷◌, lt→ltb, length, get_or, set, arith, Bool-cases,
  Option-cases, In, length-set, length-replicate, get_or-replicate, replicate,
}
use slopium.Mir.{LocalId, BlockId, BasicBlock, MirFunction}
use slopium.Cfg.Graph.{targets_of}
use slopium.Cfg.Liveness.{code_of}
use slopium.Cfg.Sets.{eq_flags, eq_flags_lem}
use slopium.Verify.Definedness.{
  Merge, Entries, merge_slots, define_all, flow_target, flow_targets, flow_from, flow_all,
  settle_entries, settle_fuel, define_params, first_entries,
}
use slopium.Verify.Progress.{
  cost-le, entry_cost, total, AreSized, Moves, flow_target-Moves, flow_targets-Moves,
  flow_from-Moves, flow_all-Moves, length-define_all, sized-set,
}

-- The entry of the target has all that the merge would change.
abbrev pub HasMerged : Merge → List Bool → Entries → BlockId → Type 0
HasMerged m defined ds t =
    (d : List Bool) × (get_or ds t none ≡ some d) × (merge_slots m d defined ≡ d)

or_both : (a b : Bool) → (a || b) ≡ false → (a ≡ false) × (b ≡ false)
or_both true b h = absurd cc
or_both false b h = (refl, h)

not-false : (b : Bool) → not b ≡ false → b ≡ true
not-false true h = refl
not-false false h = absurd cc

-- A move that ends without a change has changed nothing.
unmoved :
    {m : Merge} {locals : ℕ} {a : Entries} {x : Bool} {b : Entries} {y : Bool}
    → Moves m locals a x b y
    → y ≡ false
    → (b ≡ a) × (x ≡ false)
unmoved p h = elim p.nearer [
  | inl e ↦ (e.0, sym e.1 ∙ h)
  | inr e ↦ let clash = sym e.0 ∙ h in absurd cc
]

target-HasMerged :
    (m : Merge) (count : ℕ) (defined : List Bool) (t : BlockId) (ds : Entries) (c : Bool)
    → t < count
    → (flow_target m count defined t ds c).1 ≡ false
    → HasMerged m defined ds t
unfolding flow_target
target-HasMerged m count defined t ds c lt = elim (Option-cases (get_or ds t none)) [
  | inl q ↦ rw (lt→ltb t count lt, flow_target, q) (λ h. absurd cc)
  | inr (d, q) ↦
      rw (lt→ltb t count lt, flow_target, q)
        (λ h. (
          d,
          refl,
          eq_flags_lem (merge_slots m d defined) d (
              not-false (eq_flags (merge_slots m d defined) d)
                (or_both c (not (eq_flags (merge_slots m d defined) d)) h).1),
        ))
]

targets-HasMerged :
    (m : Merge) (locals : ℕ) (defined : List Bool) (ts : List BlockId) (ds : Entries) (c : Bool)
    (count : ℕ)
    → AreSized locals ds
    → length defined ≡ locals
    → length ds ≡ count
    → (flow_targets m count defined ts ds c).1 ≡ false
    → (t : BlockId) → In t ts
    → t < count
    → HasMerged m defined ds t
unfolding flow_targets
targets-HasMerged m locals defined [] ds c count s full size h t i lt = absurd i
targets-HasMerged m locals defined (u ∷ ts) ds c count s full size h t i lt =
    let r = flow_target m count defined u ds c in
    let one = flow_target-Moves m locals defined u ds c s full count size in
    let later =
      flow_targets-Moves m locals defined ts r.0 r.1 count one.sized full
        (one.same_length ∙ size) in
    let here : r.1 ≡ false = (unmoved later h).1 in
    elim i [
      | inl e ↦
          subst (HasMerged m defined ds) (sym e)
            (target-HasMerged m count defined u ds c (subst (λ k. k < count) e lt) here)
      | inr k ↦
          subst (λ w. HasMerged m defined w t) (unmoved one here).0
            (targets-HasMerged m locals defined ts r.0 r.1 count one.sized full
              (one.same_length ∙ size) h t k lt)
    ]

-- Every target of the block has what the block gives it.
abbrev pub IsQuiet : Merge → List BasicBlock → Entries → BlockId → Type 0
IsQuiet m blocks ds b =
    (d : List Bool)
    → get_or ds b none ≡ some d
    → (t : BlockId) → In t (targets_of blocks b)
    → t < length blocks
    → HasMerged m (define_all (code_of blocks b) d) ds t

block-IsQuiet :
    (m : Merge) (locals : ℕ) (blocks : List BasicBlock) (b : BlockId) (ds : Entries) (c : Bool)
    → AreSized locals ds
    → length ds ≡ length blocks
    → (flow_from m blocks b ds c).1 ≡ false
    → IsQuiet m blocks ds b
unfolding flow_from
block-IsQuiet m locals blocks b ds c s size h d q =
    targets-HasMerged m locals (define_all (code_of blocks b) d) (targets_of blocks b) ds c
      (length blocks) s (length-define_all (code_of blocks b) d ∙ s b d q) size (quiet q h)
  where
    quiet :
        get_or ds b none ≡ some d
        → (flow_from m blocks b ds c).1 ≡ false
        → (flow_targets m
            (length blocks)
            (define_all (code_of blocks b) d)
            (targets_of blocks b)
            ds
            c).1
          ≡ false
    quiet q = rw (q, flow_from) (λ h. h)

round-IsQuiet :
    (m : Merge) (locals : ℕ) (blocks : List BasicBlock) (order : List BlockId) (ds : Entries)
    (c : Bool)
    → AreSized locals ds
    → length ds ≡ length blocks
    → (flow_all m blocks order ds c).1 ≡ false
    → (b : BlockId) → In b order
    → IsQuiet m blocks ds b
unfolding flow_all
round-IsQuiet m locals blocks [] ds c s size h b i = absurd i
round-IsQuiet m locals blocks (u ∷ us) ds c s size h b i =
    let r = flow_from m blocks u ds c in
    let one = flow_from-Moves m locals blocks u ds c s size in
    let later = flow_all-Moves m locals blocks us r.0 r.1 one.sized (one.same_length ∙ size) in
    let here : r.1 ≡ false = (unmoved later h).1 in
    elim i [
      | inl e ↦
          subst (IsQuiet m blocks ds) (sym e) (block-IsQuiet m locals blocks u ds c s size here)
      | inr k ↦
          subst (λ w. IsQuiet m blocks w b) (unmoved one here).0
            (round-IsQuiet m locals blocks us r.0 r.1 one.sized (one.same_length ∙ size) h b k)
    ]

-- The loop ends with entries that a further round leaves as they are, and that have every property
-- that rounds keep.
pub record IsSettled (m : Merge) (blocks : List BasicBlock) (order : List BlockId) (locals : ℕ)
    (P : Entries → Type 0) (ds : Entries) : Type 0 where
  pub quiet : (b : BlockId) → In b order → IsQuiet m blocks ds b
  pub sized : AreSized locals ds
  pub same_length : length ds ≡ length blocks
  pub kept : P ds

abbrev pub Settles :
    Merge → List BasicBlock → List BlockId → ℕ → (Entries → Type 0) → Option Entries → Type 0
Settles m blocks order locals P o =
    (ds : Entries) × (o ≡ some ds) × IsSettled m blocks order locals P ds

pub settle_entries-Settles :
    (m : Merge) (blocks : List BasicBlock) (order : List BlockId) (locals fuel : ℕ)
    (P : Entries → Type 0) (ds : Entries)
    → ((ds : Entries) → length ds ≡ length blocks → P ds → P (flow_all m blocks order ds false).0)
    → P ds
    → AreSized locals ds
    → length ds ≡ length blocks
    → total m locals ds < fuel
    → Settles m blocks order locals P (settle_entries m blocks order fuel ds)
unfolding settle_entries
settle_entries-Settles m blocks order locals zero P ds keeps p s size lt = absurd (omega arith)
settle_entries-Settles m blocks order locals (suc fuel) P ds keeps p s size lt =
    let r = flow_all m blocks order ds false in
    let one = flow_all-Moves m locals blocks order ds false s size in
    elim (Bool-cases r.1) [
      | inr q ↦
          let same = (unmoved one q).0 in
          let quiet = round-IsQuiet m locals blocks order ds false s size q in
          rw (q, settle_entries)
            (
              r.0,
              refl,
              record {
                quiet = λ b i. subst (λ w. IsQuiet m blocks w b) (sym same) (quiet b i);
                sized = one.sized;
                same_length = one.same_length ∙ size;
                kept = keeps ds size p;
              },
            )
      | inl q ↦
          let lower : total m locals r.0 < total m locals ds = elim one.nearer [
            | inl e ↦ let clash = sym q ∙ e.1 in absurd cc
            | inr e ↦ e.1
          ] in
          rw (q, settle_entries)
            (settle_entries-Settles m blocks order locals fuel P r.0 keeps (keeps ds size p)
              one.sized (one.same_length ∙ size) (omega arith))
    ]

entry_cost-le :
    (m : Merge) (locals : ℕ) (o : Option (List Bool))
    → ((d : List Bool) → o ≡ some d → length d ≡ locals)
    → entry_cost m locals o ≤ suc locals
unfolding entry_cost
entry_cost-le m locals none s = omega arith
entry_cost-le m locals (some d) s = omega (arith, cost-le m d, s d refl)

total-le :
    (m : Merge) (locals : ℕ) (ds : Entries)
    → AreSized locals ds
    → total m locals ds ≤ length ds * (locals + 1)
unfolding total
total-le m locals [] s = omega arith
total-le m locals (d ∷ ds) s =
    let rest = total-le m locals ds (λ b e h. s (suc b) e h) in
    let here = entry_cost-le m locals d (λ e h. s 0 e h) in omega arith

length-define_params : (ps : List LocalId) (d : List Bool) → length (define_params ps d) ≡ length d
unfolding define_params
length-define_params [] d = refl
length-define_params (p ∷ ps) d = length-define_params ps (set d p true) ∙ length-set d p true

-- The entries that the loop starts with.
module _ (f : MirFunction) where
  pub length-first_entries : length (first_entries f) ≡ length f.blocks
  unfolding first_entries
  length-first_entries =
      length-set (replicate (length f.blocks) none) f.entry
        (some (define_params f.params (replicate (length f.locals) false)))
      ∙ length-replicate (length f.blocks) none

  pub first_entries-sized : AreSized (length f.locals) (first_entries f)
  unfolding first_entries
  first_entries-sized =
      sized-set (length f.locals) (replicate (length f.blocks) none) f.entry
        (define_params f.params (replicate (length f.locals) false))
        (λ b d h. let clash = sym (get_or-replicate (length f.blocks) b none) ∙ h in absurd cc)
        (length-define_params f.params (replicate (length f.locals) false)
          ∙ length-replicate (length f.locals) false)

  pub first_entries-Settles :
      (m : Merge) (order : List BlockId) (P : Entries → Type 0)
      → ((ds : Entries)
          → length ds ≡ length f.blocks
          → P ds
          → P (flow_all m f.blocks order ds false).0)
      → P (first_entries f)
      → Settles m f.blocks order (length f.locals) P (
          settle_entries m f.blocks order
            (settle_fuel (length f.blocks) (length f.locals))
            (first_entries f))
  first_entries-Settles m order P keeps p =
      let bound = total-le m (length f.locals) (first_entries f) first_entries-sized in
      let size = ap (λ n. n * (length f.locals + 1)) length-first_entries in
      settle_entries-Settles m f.blocks order (length f.locals)
        (settle_fuel (length f.blocks) (length f.locals)) P (first_entries f) keeps p
        first_entries-sized length-first_entries (omega arith)
