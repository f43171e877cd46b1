-- ===== src/Opt/Rounds.antt =====
-- crates/slopic-core/src/opt.rs: what a round of the constant propagation keeps, and what a round that
-- changes nothing has found.
use slopium.Base.{
  ℕ, zero, suc, ◌<◌, ◌≡◌, ◌⊎◌, inl, inr, refl, sym, ◌∙◌, ap, subst, Bool, false, ◌||◌, Option, none,
  some, List, [], ◌∷◌, arith, Bool-cases, Option-cases, ltb, lt→ltb, length, get_or, set, In,
  eq-or-ne, get_or-set_ne, length-set,
}
use slopium.Mir.{BlockId, BasicBlock}
use slopium.Cfg.Graph.{targets_of}
use slopium.Cfg.Liveness.{code_of}
use slopium.Opt.Fold.{Floats}
use slopium.Opt.Constants.{
  Value, meet_states, transfer, Flow, flow_into, flow_out, flow_block, flow_round, settle_flow,
}
use slopium.Opt.ConstantsCorrect.{Env, Describes}
use slopium.Opt.Meet.{length-meet_states, meet_states-Describes, not_lowered-same, length-transfer}

abbrev pub States : Type 0
States = List (Option (List Value))

abbrev pub state_at : States → BlockId → Option (List Value)
state_at E b = get_or E b none

set-same : (E : States) (t : ℕ) (x : List Value) → state_at E t ≡ some x → set E t (some x) ≡ E
set-same [] t x h = refl
set-same (y ∷ E) zero x h = ap (λ z. z ∷ E) (sym h)
set-same (y ∷ E) (suc t) x h = ap (λ F. y ∷ F) (set-same E t x h)

pub set-either :
    (E : States) (t b : ℕ) (x : List Value) {st : List Value}
    → state_at (set E t (some x)) b ≡ some st
    → (x ≡ st) ⊎ (state_at E b ≡ some st)
set-either [] t b x h = inr h
set-either (y ∷ E) zero zero x h = inl cc
set-either (y ∷ E) zero (suc b) x h = inr h
set-either (y ∷ E) (suc t) zero x h = inr h
set-either (y ∷ E) (suc t) (suc b) x h = set-either E t b x h

set-at :
    (E : States) (t : ℕ) (x : List Value) {old : List Value}
    → state_at E t ≡ some old
    → state_at (set E t (some x)) t ≡ some x
set-at [] t x h = absurd cc
set-at (y ∷ E) zero x h = refl
set-at (y ∷ E) (suc t) x h = set-at E t x h

value_of_some : {x y : List Value} → some x ≡ some y → x ≡ y
value_of_some e = cc

value_of_entry : {E F : States} → some E ≡ some F → E ≡ F
value_of_entry e = cc

module _ (locals : ℕ) (entry : BlockId) (Start : Env → Type 0) where
  -- Every state is of the function's locals, and the entry's describes what a call starts with.
  pub record IsFlow (blocks : ℕ) (E : States) : Type 0 where
    pub covers : length E ≡ blocks
    pub sized : (b : BlockId) {st : List Value} → state_at E b ≡ some st → length st ≡ locals
    pub started :
        (st : List Value) × (state_at E entry ≡ some st) × ((e : Env) → Start e → Describes st e)

  met-IsFlow :
      (blocks : ℕ) (E : States) (t : BlockId) (old st : List Value)
      → state_at E t ≡ some old
      → IsFlow blocks E
      → IsFlow blocks (set E t (some (meet_states old st).0))
  met-IsFlow blocks E t old st h f = record {
    covers = length-set E t _ ∙ f.covers;
    sized = λ b q. elim (set-either E t b (meet_states old st).0 q) [
      | inl p ↦ ap length (sym p) ∙ length-meet_states old st ∙ f.sized t h
      | inr p ↦ f.sized b p
    ];
    started = elim (eq-or-ne t entry) [
      | inl q ↦
          let kept = subst (λ b. state_at E b ≡ some old) q h in
          let says : (e : Env) → Start e → Describes old e = λ e p.
            subst (λ x. Describes x e) (value_of_some (sym f.started.1 ∙ kept)) (f.started.2 e p) in
          (
            (meet_states old st).0,
            subst
                (λ b.
                  state_at (set E t (some (meet_states old st).0)) b ≡ some (meet_states old st).0)
                q (set-at E t (meet_states old st).0 h),
            λ e p. meet_states-Describes old st e (says e p),
          )
      | inr n ↦ (f.started.0, get_or-set_ne E t entry _ none n ∙ f.started.1, f.started.2)
    ];
  }

  fresh-IsFlow :
      (blocks : ℕ) (E : States) (t : BlockId) (st : List Value)
      → state_at E t ≡ none
      → length st ≡ locals
      → IsFlow blocks E
      → IsFlow blocks (set E t (some st))
  fresh-IsFlow blocks E t st h n f = record {
    covers = length-set E t _ ∙ f.covers;
    sized =
        λ b q. elim (set-either E t b st q) [ inl p ↦ ap length (sym p) ∙ n | inr p ↦ f.sized b p ];
    started = (
      f.started.0,
      get_or-set_ne E t entry _ none (λ q. cc (subst (λ b. state_at E b ≡ none) q h, f.started.1))
          ∙ f.started.1,
      f.started.2,
    );
  }

  flow_into-IsFlow :
      (blocks n : ℕ) (st : List Value) (t : BlockId) (s : Flow)
      → length st ≡ locals
      → IsFlow n s.entry
      → IsFlow n (flow_into blocks st t s).entry
  unfolding flow_into
  flow_into-IsFlow blocks n st t s l f = elim (Bool-cases (ltb t blocks)) [
    | inl e ↦ elim (Option-cases (state_at s.entry t)) [
      | inl h ↦ rw (e, h) (fresh-IsFlow n s.entry t st h l f)
      | inr (old, h) ↦ rw (e, h) (met-IsFlow n s.entry t old st h f)
    ]
    | inr e ↦ rw e f
  ]

  flow_out-IsFlow :
      (blocks n : ℕ) (st : List Value) (ts : List BlockId) (s : Flow)
      → length st ≡ locals
      → IsFlow n s.entry
      → IsFlow n (flow_out blocks st ts s).entry
  unfolding flow_out
  flow_out-IsFlow blocks n st [] s l f = f
  flow_out-IsFlow blocks n st (t ∷ ts) s l f =
      flow_out-IsFlow blocks n st ts (flow_into blocks st t s) l
        (flow_into-IsFlow blocks n st t s l f)

  flow_block-IsFlow :
      (fl : Floats) (blocks : List BasicBlock) (n : ℕ) (b : BlockId) (s : Flow)
      → IsFlow n s.entry
      → IsFlow n (flow_block fl blocks b s).entry
  unfolding flow_block
  flow_block-IsFlow fl blocks n b s f = elim (Option-cases (state_at s.entry b)) [
    | inl h ↦ rw (h, flow_block) f
    | inr (st, h) ↦
        rw (h, flow_block)
          (flow_out-IsFlow (length blocks) n (transfer fl (code_of blocks b) st)
            (targets_of blocks b) s (length-transfer fl (code_of blocks b) st ∙ f.sized b h) f)
  ]

  flow_round-IsFlow :
      (fl : Floats) (blocks : List BasicBlock) (n : ℕ) (order : List BlockId) (s : Flow)
      → IsFlow n s.entry
      → IsFlow n (flow_round fl blocks order s).entry
  unfolding flow_round
  flow_round-IsFlow fl blocks n [] s f = f
  flow_round-IsFlow fl blocks n (b ∷ order) s f =
      flow_round-IsFlow fl blocks n order (flow_block fl blocks b s)
        (flow_block-IsFlow fl blocks n b s f)

-- The state behind a block adds nothing to the state in front of a block that follows.
pub record IsMet (E : States) (st : List Value) (t : BlockId) : Type 0 where
  pub old : List Value
  pub there : state_at E t ≡ some old
  pub same : (meet_states old st).1 ≡ false

or-false : {a b : Bool} → (a || b) ≡ false → (a ≡ false) × (b ≡ false)
or-false h = ground (arith, h)

-- What has not been reported as a change is none.
pub record Quiet (s t : Flow) : Type 0 where
  pub quiet : s.changed ≡ false
  pub same : t.entry ≡ s.entry

flow_into-Quiet :
    (blocks : ℕ) (st : List Value) (t : BlockId) (s : Flow)
    → (flow_into blocks st t s).changed ≡ false
    → Quiet s (flow_into blocks st t s) × (t < blocks → IsMet s.entry st t)
unfolding flow_into
flow_into-Quiet blocks st t s = elim (Bool-cases (ltb t blocks)) [
  | inl e ↦ elim (Option-cases (state_at s.entry t)) [
    | inl h ↦ rw (e, h) (λ q. absurd cc)
    | inr (old, h) ↦
        rw (e, h)
          (λ q. (
            record {
              quiet = (or-false q).0;
              same =
                  ap (λ x. set s.entry t (some x)) (not_lowered-same old st (or-false q).1)
                  ∙ set-same s.entry t old h;
            },
            λ lt. record { old = old; there = h; same = (or-false q).1 },
          ))
  ]
  | inr e ↦
      rw e (λ q. (record { quiet = q; same = refl }, λ lt. absurd (cc (lt→ltb t blocks lt, e))))
]

flow_out-Quiet :
    (blocks : ℕ) (st : List Value) (ts : List BlockId) (s : Flow)
    → (flow_out blocks st ts s).changed ≡ false
    → Quiet s (flow_out blocks st ts s)
      × ((t : BlockId) → In t ts → t < blocks → IsMet s.entry st t)
unfolding flow_out
flow_out-Quiet blocks st [] s q = (record { quiet = q; same = refl }, λ t m. absurd m)
flow_out-Quiet blocks st (x ∷ ts) s q =
    let (later, met) = flow_out-Quiet blocks st ts (flow_into blocks st x s) q in
    let (now, first) = flow_into-Quiet blocks st x s later.quiet in
    (
      record { quiet = now.quiet; same = later.same ∙ now.same },
      λ t m lt. elim m [
        | inl e ↦ subst (IsMet s.entry st) (sym e) (first (subst (λ k. k < blocks) e lt))
        | inr k ↦ subst (λ E. IsMet E st t) now.same (met t k lt)
      ],
    )

-- The state of a block agrees with those of the blocks that follow.
pub record IsStable (fl : Floats) (blocks : List BasicBlock) (E : States) (b : BlockId)
    : Type 0 where
  pub flows :
      {st : List Value}
      → state_at E b ≡ some st
      → (t : BlockId) → In t (targets_of blocks b)
      → t < length blocks
      → IsMet E (transfer fl (code_of blocks b) st) t

flow_block-Quiet :
    (fl : Floats) (blocks : List BasicBlock) (b : BlockId) (s : Flow)
    → (flow_block fl blocks b s).changed ≡ false
    → Quiet s (flow_block fl blocks b s) × IsStable fl blocks s.entry b
unfolding flow_block
flow_block-Quiet fl blocks b s = elim (Option-cases (state_at s.entry b)) [
  | inl h ↦
      rw (h, flow_block)
        (λ q. (record { quiet = q; same = refl }, record { flows = λ p. absurd (cc (sym h ∙ p)) }))
  | inr (st, h) ↦
      rw (h, flow_block)
        (λ q.
          let (quiet, met) =
            flow_out-Quiet (length blocks) (transfer fl (code_of blocks b) st) (targets_of blocks b)
              s q in
          (
            quiet,
            record {
              flows = λ p t m lt.
                  subst (λ x. IsMet s.entry (transfer fl (code_of blocks b) x) t)
                    (value_of_some (sym h ∙ p)) (met t m lt);
            },
          ))
]

pub flow_round-Quiet :
    (fl : Floats) (blocks : List BasicBlock) (order : List BlockId) (s : Flow)
    → (flow_round fl blocks order s).changed ≡ false
    → Quiet s (flow_round fl blocks order s)
      × ((b : BlockId) → In b order → IsStable fl blocks s.entry b)
unfolding flow_round
flow_round-Quiet fl blocks [] s q = (record { quiet = q; same = refl }, λ t m. absurd m)
flow_round-Quiet fl blocks (x ∷ order) s q =
    let (later, stable) = flow_round-Quiet fl blocks order (flow_block fl blocks x s) q in
    let (now, first) = flow_block-Quiet fl blocks x s later.quiet in
    (
      record { quiet = now.quiet; same = later.same ∙ now.same },
      λ b m. elim m [
        | inl e ↦ subst (IsStable fl blocks s.entry) (sym e) first
        | inr k ↦ subst (λ E. IsStable fl blocks E b) now.same (stable b k)
      ],
    )

-- What the loop ends at: states that describe the start, and that no block lowers any more.
pub record IsSettled (fl : Floats) (blocks : List BasicBlock) (order : List BlockId) (locals : ℕ)
    (entry : BlockId) (Start : Env → Type 0) (E : States) : Type 0 where
  pub flow : IsFlow locals entry Start (length blocks) E
  pub stable : (b : BlockId) → In b order → IsStable fl blocks E b

pub settle_flow-IsSettled :
    (fl : Floats) (blocks : List BasicBlock) (order : List BlockId) (locals : ℕ) (entry : BlockId)
    (Start : Env → Type 0) (rounds : ℕ) (E F : States)
    → IsFlow locals entry Start (length blocks) E
    → settle_flow fl blocks order rounds E ≡ some F
    → IsSettled fl blocks order locals entry Start F
unfolding settle_flow
settle_flow-IsSettled fl blocks order locals entry Start zero E F f = λ h. absurd cc
settle_flow-IsSettled fl blocks order locals entry Start (suc rounds) E F f =
    let s : Flow = record { entry = E; changed = false } in
    let r = flow_round fl blocks order s in
    let kept = flow_round-IsFlow locals entry Start fl blocks (length blocks) order s f in
    elim (Bool-cases r.changed) [
      | inl c ↦
          rw c
            (λ h. settle_flow-IsSettled fl blocks order locals entry Start rounds r.entry F kept h)
      | inr c ↦ rw c (λ h.
          let (quiet, stable) = flow_round-Quiet fl blocks order s c in
          let at_end : r.entry ≡ F = value_of_entry h in
          record {
            flow = subst (IsFlow locals entry Start (length blocks)) at_end kept;
            stable =
                λ b m. subst (λ G. IsStable fl blocks G b) (sym quiet.same ∙ at_end) (stable b m);
          })
    ]
