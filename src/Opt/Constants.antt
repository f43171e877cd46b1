-- ===== src/Opt/Constants.antt =====
-- crates/slopic-core/src/opt.rs: the lattice of constants, `apply`, `propagate_constants_within` and
-- `rewrite_with_constants`.
use slopium.Base.{
  ℕ, zero, suc, Bool, true, false, ◌||◌, not, Option, none, some, List, [], ◌∷◌, max, ltb, ◌==◌,
  if◌then◌else◌, length, get_or, set, replicate,
}
use slopium.Base.Int.{eq_ℤ}
use slopium.Mir.{
  LocalId, BlockId, Ty, BinaryOp, Instruction, const_int, const_float, const_bool, string_new,
  assign, address_of, binary, call, fn_addr, call_value, drop, struct_new, field_load, load,
  field_addr, enum_new, enum_tag, enum_field_load, enum_field_addr, field_store, enum_field_store,
  free, volatile_load, volatile_store, Terminator, goto, branch, Statement, BasicBlock, MirFunction,
}
use slopium.Cfg.Graph.{new, targets_of}
use slopium.Cfg.Liveness.{code_of}
use slopium.Opt.Fold.{Constant, int, bool, float, instruction_of, Floats, fold_binary}

pub data Value : Type 0 where
  unknown : Value
  known : Constant → Value
  varying : Value

abbrev eq_bool : Bool → Bool → Bool
eq_bool true b = b
eq_bool false b = not b

unfoldable pub eq_constant : Constant → Constant → Bool
eq_constant (int a) (int b) = eq_ℤ a b
eq_constant (bool a) (bool b) = eq_bool a b
eq_constant (float a) (float b) = a == b
eq_constant _ _ = false

unfoldable pub eq_value : Value → Value → Bool
unfolding eq_constant
eq_value unknown unknown = true
eq_value (known a) (known b) = eq_constant a b
eq_value varying varying = true
eq_value _ _ = false

-- `Value::meet`.
unfoldable pub meet : Value → Value → Value
unfolding eq_constant
meet unknown v = v
meet varying v = varying
meet (known a) unknown = known a
meet (known a) (known b) = if eq_constant a b then known a else varying
meet (known a) varying = varying

-- The state after the meet, and whether a slot was lowered.
unfoldable pub meet_states : List Value → List Value → List Value × Bool
unfolding meet eq_value
meet_states [] from = ([], false)
meet_states (v ∷ into) [] = (v ∷ into, false)
meet_states (v ∷ into) (w ∷ from) =
    let (rest, changed) = meet_states into from in
    (meet v w ∷ rest, not (eq_value (meet v w) v) || changed)

unfoldable pub value_of : List Value → LocalId → Option Constant
value_of state l = elim (get_or state l varying) [ known c ↦ some c | _ ↦ none ]

-- What `apply` gives to the destination of a binary operation.
unfoldable pub folded_value : Floats → BinaryOp → Ty → Value → Value → Value
unfolding fold_binary
folded_value fl op ty (known l) (known r) = elim (fold_binary fl op ty l r) [
  | some c ↦ known c
  | none ↦ varying
]
folded_value fl op ty _ _ = varying

unfoldable pub apply : Floats → Instruction → List Value → List Value
unfolding folded_value
apply fl (const_int dst v) state = set state dst (known (int v))
apply fl (const_bool dst v) state = set state dst (known (bool v))
apply fl (const_float dst v) state = set state dst (known (float v))
apply fl (assign dst src) state = set state dst (get_or state src varying)
apply fl (binary dst op lhs rhs ty) state =
    set state dst (folded_value fl op ty (get_or state lhs varying) (get_or state rhs varying))
apply fl (volatile_load dst _ _) state = set state dst varying
apply fl (address_of dst src) state = set (set state src varying) dst varying
apply fl (string_new dst _) state = set state dst varying
apply fl (call dst _ _ _ _) state = set state dst varying
apply fl (fn_addr dst _) state = set state dst varying
apply fl (call_value dst _ _ _ _) state = set state dst varying
apply fl (struct_new dst _ _) state = set state dst varying
apply fl (field_load dst _ _) state = set state dst varying
apply fl (load dst _) state = set state dst varying
apply fl (field_addr dst _ _) state = set state dst varying
apply fl (enum_new dst _ _ _) state = set state dst varying
apply fl (enum_tag dst _) state = set state dst varying
apply fl (enum_field_load dst _ _) state = set state dst varying
apply fl (enum_field_addr dst _ _) state = set state dst varying
apply fl (drop _ _) state = state
apply fl (free _) state = state
apply fl (field_store _ _ _) state = state
apply fl (enum_field_store _ _ _) state = state
apply fl (volatile_store _ _ _) state = state

unfoldable pub transfer : Floats → List Instruction → List Value → List Value
unfolding apply
transfer fl [] state = state
transfer fl (i ∷ is) state = transfer fl is (apply fl i state)

-- The entry states of the blocks, and whether this round has changed one.
pub record Flow : Type 0 where
  pub entry : List (Option (List Value))
  pub changed : Bool

unfoldable pub flow_into : ℕ → List Value → BlockId → Flow → Flow
unfolding meet_states
flow_into blocks state target s =
    if ltb target blocks
    then elim (get_or s.entry target none) [
      | some existing ↦ record {
        entry = set s.entry target (some (meet_states existing state).0);
        changed = s.changed || (meet_states existing state).1;
      }
      | none ↦ record { entry = set s.entry target (some state); changed = true }
    ]
    else s

unfoldable pub flow_out : ℕ → List Value → List BlockId → Flow → Flow
unfolding flow_into
flow_out blocks state [] s = s
flow_out blocks state (t ∷ ts) s = flow_out blocks state ts (flow_into blocks state t s)

unfoldable pub flow_block : Floats → List BasicBlock → BlockId → Flow → Flow
unfolding flow_out transfer targets_of code_of
flow_block fl blocks block s = elim (get_or s.entry block none) [
  | some state ↦
      flow_out (length blocks) (transfer fl (code_of blocks block) state) (targets_of blocks block)
        s
  | none ↦ s
]

unfoldable pub flow_round : Floats → List BasicBlock → List BlockId → Flow → Flow
unfolding flow_block
flow_round fl blocks [] s = s
flow_round fl blocks (b ∷ order) s = flow_round fl blocks order (flow_block fl blocks b s)

-- `none` is the internal error: the bound on the rounds was reached.
unfoldable pub settle_flow :
    Floats
    → List BasicBlock
    → List BlockId
    → ℕ
    → List (Option (List Value))
    → Option (List (Option (List Value)))
unfolding flow_round
settle_flow fl blocks order zero entry = none
settle_flow fl blocks order (suc rounds) entry =
    let s = flow_round fl blocks order (record { entry = entry; changed = false }) in
    let rest = settle_flow fl blocks order rounds s.entry in
    if s.changed then rest else some s.entry

unfoldable pub set_varying : List LocalId → List Value → List Value
set_varying [] state = state
set_varying (p ∷ ps) state = set_varying ps (set state p varying)

unfoldable pub first_states : MirFunction → List (Option (List Value))
unfolding set_varying
first_states f =
    set (replicate (length f.blocks) none) f.entry
      (some (set_varying f.params (replicate (length f.locals) unknown)))

unfoldable pub entry_states : Floats → MirFunction → ℕ → Option (List (Option (List Value)))
unfolding settle_flow first_states
entry_states fl f max_rounds =
    settle_flow fl f.blocks (new f).reverse_postorder (max 1 max_rounds) (first_states f)

unfoldable pub rewrite_instruction : Floats → List Value → Instruction → Option Instruction
unfolding value_of fold_binary instruction_of
rewrite_instruction fl state (binary dst op lhs rhs ty) = elim (value_of state lhs) [
  | none ↦ none
  | some l ↦ elim (value_of state rhs) [
    | none ↦ none
    | some r ↦ elim (fold_binary fl op ty l r) [
      | none ↦ none
      | some folded ↦ some (instruction_of folded dst)
    ]
  ]
]
rewrite_instruction fl state _ = none

unfoldable pub is_self_assign : Instruction → Bool
is_self_assign (assign dst src) = dst == src
is_self_assign _ = false

-- The rewritten statements, the state behind them and whether one has changed.
unfoldable pub rewrite_statements :
    Floats → List Statement → List Value → List Statement × List Value × Bool
unfolding rewrite_instruction apply is_self_assign
rewrite_statements fl [] state = ([], state, false)
rewrite_statements fl (s ∷ ss) state =
    let rewritten = rewrite_instruction fl state s.instruction in
    let instruction : Instruction = elim rewritten [ none ↦ s.instruction | some i ↦ i ] in
    let folded : Bool = elim rewritten [ none ↦ false | some _ ↦ true ] in
    let (rest, after, changed) = rewrite_statements fl ss (apply fl instruction state) in
    if is_self_assign instruction
    then (rest, after, true)
    else (record s { instruction = instruction } ∷ rest, after, folded || changed)

-- A branch on a known condition is a jump.
unfoldable pub rewrite_terminator : List Value → Terminator → Option Terminator
unfolding value_of
rewrite_terminator state (branch condition then_block else_block) =
    elim (value_of state condition) [
      | some (bool taken) ↦ some (goto (if taken then then_block else else_block))
      | _ ↦ none
    ]
rewrite_terminator state _ = none

unfoldable pub rewrite_block : Floats → BasicBlock → Option (List Value) → BasicBlock × Bool
unfolding rewrite_statements rewrite_terminator
rewrite_block fl b none = (b, false)
rewrite_block fl b (some state) =
    let (statements, after, changed) = rewrite_statements fl b.statements state in
    elim (rewrite_terminator after b.terminator) [
      | none ↦ (record b { statements = statements }, changed)
      | some t ↦ (record b { statements = statements; terminator = t }, true)
    ]

unfoldable pub rewrite_blocks :
    Floats → List BasicBlock → List (Option (List Value)) → List BasicBlock × Bool
unfolding rewrite_block
rewrite_blocks fl [] entry = ([], false)
rewrite_blocks fl (b ∷ bs) entry =
    let (b', here) = rewrite_block fl b (get_or entry 0 none) in
    let (bs', later) = rewrite_blocks fl bs (elim entry [ [] ↦ [] | _ ∷ rest ↦ rest ]) in
    (b' ∷ bs', here || later)

unfoldable pub propagate_constants_within : Floats → MirFunction → ℕ → Option (MirFunction × Bool)
unfolding entry_states rewrite_blocks
propagate_constants_within fl f max_rounds = elim (entry_states fl f max_rounds) [
  | none ↦ none
  | some entry ↦
      let (blocks, changed) = rewrite_blocks fl f.blocks entry in
      some (record f { blocks = blocks }, changed)
]
