-- ===== src/Verify/Paths.antt =====
-- crates/slopic-core/src/verify.rs: paths, and that the strict check starts from the parameters.
use slopium.Base.{
  ℕ, zero, suc, ◌<◌, ◌≡◌, ◌⊎◌, inl, inr, refl, sym, ◌∙◌, ap, subst, Bool, true, false, ◌&&◌, Option,
  none, some, List, [], ◌∷◌, ltb, ltb→lt, length, get_or, set, replicate, arith, eq-or-ne,
  Bool-cases, Option-cases, In, length-set, length-replicate, get_or-replicate, get_or-set_self,
  get_or-set_ne, get_or-set_either,
}
use slopium.Mir.{LocalId, BlockId, Instruction, MirFunction}
use slopium.Cfg.DefUse.{defs, uses}
use slopium.Cfg.Graph.{targets_of}
use slopium.Cfg.Liveness.{code_of}
use slopium.Verify.Definedness.{
  all, Entries, merge_slots, define, define_all, flow_target, flow_targets, flow_from, flow_all,
  define_params, first_entries,
}

-- The locals that have been written, where the ones of an instruction come on top.
abbrev pub after : Option LocalId → List LocalId → List LocalId
after none ws = ws
after (some l) ws = l ∷ ws

unfoldable pub after_all : List Instruction → List LocalId → List LocalId
after_all [] ws = ws
after_all (i ∷ is) ws = after_all is (after (defs i) ws)

-- A path from the entry comes to the block, and these locals have been written on it.
pub data Arrives (f : MirFunction) : BlockId → List LocalId → Type 0 where
  start : Arrives f f.entry f.params
  step :
      {b c : BlockId} {ws : List LocalId}
      → Arrives f b ws
      → In c (targets_of f.blocks b)
      → c < length f.blocks
      → Arrives f c (after_all (code_of f.blocks b) ws)

-- The instructions and what follows them read only what has been written.
unfoldable pub ReadsInOrder : ℕ → List Instruction → List LocalId → List LocalId → Type 0
ReadsInOrder locals [] exit ws = (l : LocalId) → In l exit → l < locals → In l ws
ReadsInOrder locals (i ∷ is) exit ws =
    ((l : LocalId) → In l (uses i) → l < locals → In l ws)
    × ReadsInOrder locals is exit (after (defs i) ws)

-- Every flag stands for a local that has been written.
abbrev pub Within : List Bool → List LocalId → Type 0
Within d ws = (l : LocalId) → get_or d l false ≡ true → In l ws

pub define-Within :
    (o : Option LocalId) (d : List Bool) (ws : List LocalId)
    → Within d ws
    → Within (define o d) (after o ws)
unfolding define
define-Within none d ws h k e = h k e
define-Within (some l) d ws h k e = elim (get_or-set_either d l k true false) [
  | inl m ↦ inl (sym m.0)
  | inr m ↦ inr (h k (sym m ∙ e))
]

pub define_all-Within :
    (is : List Instruction) (d : List Bool) (ws : List LocalId)
    → Within d ws
    → Within (define_all is d) (after_all is ws)
unfolding define_all after_all
define_all-Within [] d ws h = h
define_all-Within (i ∷ is) d ws h =
    define_all-Within is (define (defs i) d) (after (defs i) ws) (define-Within (defs i) d ws h)

and_both : (a b : Bool) → (a && b) ≡ true → (a ≡ true) × (b ≡ true)
and_both true b h = (refl, h)
and_both false b h = absurd cc

-- The merge keeps a flag only where both have it.
merge_slots-first :
    (a b : List Bool) (l : LocalId)
    → get_or (merge_slots all a b) l false ≡ true
    → get_or a l false ≡ true
unfolding merge_slots
merge_slots-first [] b l h = h
merge_slots-first (x ∷ a) [] l h = h
merge_slots-first (x ∷ a) (y ∷ b) zero h = (and_both x y h).0
merge_slots-first (x ∷ a) (y ∷ b) (suc l) h = merge_slots-first a b l h

pub merge_slots-second :
    (a b : List Bool) (l : LocalId)
    → length a ≡ length b
    → get_or (merge_slots all a b) l false ≡ true
    → get_or b l false ≡ true
unfolding merge_slots
merge_slots-second [] b l e h = absurd cc
merge_slots-second (x ∷ a) [] l e h = absurd (omega arith)
merge_slots-second (x ∷ a) (y ∷ b) zero e h = (and_both x y h).1
merge_slots-second (x ∷ a) (y ∷ b) (suc l) e h = merge_slots-second a b l (omega arith) h

none_not_some : {d : List Bool} → ¬ (◌≡◌ {A = Option (List Bool)} none (some d))
none_not_some h = absurd cc

some_both : {a b : List Bool} → ◌≡◌ {A = Option (List Bool)} (some a) (some b) → a ≡ b
some_both h = cc

-- The entry has no flag but those of the parameters.
abbrev Begins : MirFunction → Entries → Type 0
Begins f ds = (d : List Bool) × (get_or ds f.entry none ≡ some d) × Within d f.params

module _ (f : MirFunction) where
  target-Begins :
      (count : ℕ) (defined : List Bool) (t : BlockId) (ds : Entries) (c : Bool)
      → length ds ≡ count
      → Begins f ds
      → Begins f (flow_target all count defined t ds c).0
  unfolding flow_target
  target-Begins count defined t ds c size (d, at, w) = elim (Bool-cases (ltb t count)) [
    | inr q ↦ rw (q, flow_target) (d, at, w)
    | inl q ↦ elim (Option-cases (get_or ds t none)) [
      | inl e ↦
          rw (q, flow_target, e)
            (
              d,
              get_or-set_ne ds t f.entry (some defined) none
                    (λ s. none_not_some (sym e ∙ ap (λ k. get_or ds k none) s ∙ at))
                  ∙ at,
              w,
            )
      | inr (existing, e) ↦
          rw (q, flow_target, e)
            (elim (eq-or-ne t f.entry) [
              | inr ne ↦ (
                d,
                get_or-set_ne ds t f.entry (some (merge_slots all existing defined)) none ne ∙ at,
                w,
              )
              | inl s ↦
                  let same : existing ≡ d = some_both (sym e ∙ ap (λ k. get_or ds k none) s ∙ at) in
                  (
                    merge_slots all existing defined,
                    ap (λ k. get_or (set ds t (some (merge_slots all existing defined))) k none)
                          (sym s)
                        ∙ get_or-set_self ds t (some (merge_slots all existing defined)) none
                            (subst (λ k. t < k) (sym size) (ltb→lt t count q)),
                    λ l h. w l (
                        subst (λ x. get_or x l false ≡ true) same
                          (merge_slots-first existing defined l h)),
                  )
            ])
    ]
  ]

  length-flow_target :
      (count : ℕ) (defined : List Bool) (t : BlockId) (ds : Entries) (c : Bool)
      → length (flow_target all count defined t ds c).0 ≡ length ds
  unfolding flow_target
  length-flow_target count defined t ds c = elim (Bool-cases (ltb t count)) [
    | inr q ↦ rw (q, flow_target) refl
    | inl q ↦ elim (Option-cases (get_or ds t none)) [
      | inl e ↦ rw (q, flow_target, e) (length-set ds t (some defined))
      | inr (d, e) ↦ rw (q, flow_target, e) (length-set ds t (some (merge_slots all d defined)))
    ]
  ]

  -- As many entries as blocks, and the first one begins.
  abbrev pub Started : Entries → Type 0
  Started ds = (length ds ≡ length f.blocks) × Begins f ds

  targets-Started :
      (defined : List Bool) (ts : List BlockId) (ds : Entries) (c : Bool)
      → Started ds
      → Started (flow_targets all (length f.blocks) defined ts ds c).0
  unfolding flow_targets
  targets-Started defined [] ds c h = h
  targets-Started defined (t ∷ ts) ds c h =
      let r = flow_target all (length f.blocks) defined t ds c in
      targets-Started defined ts r.0 r.1 (
        length-flow_target (length f.blocks) defined t ds c ∙ h.0,
        target-Begins (length f.blocks) defined t ds c h.0 h.1,
      )

  pub round-Started :
      (order : List BlockId) (ds : Entries) (c : Bool)
      → Started ds
      → Started (flow_all all f.blocks order ds c).0
  unfolding flow_all flow_from
  round-Started [] ds c h = h
  round-Started (b ∷ bs) ds c h =
      let r = flow_from all f.blocks b ds c in
      let one : Started r.0 = elim (Option-cases (get_or ds b none)) [
        | inl q ↦ rw (q, flow_from) h
        | inr (d, q) ↦
            rw (q, flow_from)
              (targets-Started (define_all (code_of f.blocks b) d) (targets_of f.blocks b) ds c h)
      ] in
      round-Started bs r.0 r.1 one

pub define_params-In :
    (ps : List LocalId) (d : List Bool) (l : LocalId)
    → get_or (define_params ps d) l false ≡ true
    → In l ps ⊎ (get_or d l false ≡ true)
unfolding define_params
define_params-In [] d l h = inr h
define_params-In (p ∷ ps) d l h = elim (define_params-In ps (set d p true) l h) [
  | inl m ↦ inl (inr m)
  | inr m ↦ elim (get_or-set_either d p l true false) [
    | inl e ↦ inl (inl (sym e.0))
    | inr e ↦ inr (sym e ∙ m)
  ]
]

pub first_entries-Begins :
    (f : MirFunction) → f.entry < length f.blocks → Begins f (first_entries f)
unfolding first_entries
first_entries-Begins f lt = (
  define_params f.params (replicate (length f.locals) false),
  get_or-set_self (replicate (length f.blocks) none) f.entry
      (some (define_params f.params (replicate (length f.locals) false))) none
      (subst (λ n. f.entry < n) (sym (length-replicate (length f.blocks) none)) lt),
  λ l h. elim (define_params-In f.params (replicate (length f.locals) false) l h) [
    | inl m ↦ m
    | inr m ↦ let clash = sym (get_or-replicate (length f.locals) l false) ∙ m in absurd cc
  ],
)
