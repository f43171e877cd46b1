-- ===== src/Verify.antt =====
-- crates/slopic-core/src/verify.rs: the checks within one function. A complaint keeps the numbers of
-- its message and not its text.
pub mod Definedness
pub mod Progress
pub mod Settles
pub mod Paths
pub mod Initialized
pub mod Defined
pub mod Lenient
pub mod Shape
use slopium.Base.{
  ℕ, zero, suc, ◌+◌, Bool, true, false, ◌||◌, not, Option, none, some, List, [], ◌∷◌, ◌++◌, map,
  ltb, ◌==◌, if◌then◌else◌, length, get_elem?,
}
use slopium.Mir.{
  LocalId, BlockId, Ty, bool, BinaryOp, equal, not_equal, bit_and, bit_or, bit_xor, rem,
  Instruction, binary, call, call_value, BasicBlock, instructions, MirFunction,
}
use slopium.Integers.{int_kind}
use slopium.Cfg.DefUse.{defs, uses, terminator_uses, successors}
use slopium.Cfg.Graph.{new}
use slopium.Opt.Fold.{is_f64, shifts}
use slopium.Verify.Definedness.{
  Complaint, no_blocks, entry_out_of_range, entry_not_first, parameter_out_of_range,
  parameter_not_leading, parameter_not_flagged, target_out_of_range, operand_out_of_range,
  exit_out_of_range, argument_count, operand_type, any, check_initialization,
}

abbrev pub complain : Bool → Complaint → List Complaint
complain true c = c ∷ []
complain false c = []

unfoldable pub verify_param : MirFunction → ℕ → LocalId → List Complaint
verify_param f index param = elim (get_elem? f.locals param) [
  | none ↦ parameter_out_of_range index ∷ []
  | some l ↦
      complain (not (param == index)) (parameter_not_leading index)
      ++ complain (not l.is_param) (parameter_not_flagged param)
]

unfoldable pub verify_params : MirFunction → ℕ → List LocalId → List Complaint
unfolding verify_param
verify_params f index [] = []
verify_params f index (p ∷ ps) = verify_param f index p ++ verify_params f (index + 1) ps

unfoldable pub is_integer : Ty → Bool
unfolding int_kind
is_integer ty = elim (int_kind ty) [ none ↦ false | some _ ↦ true ]

abbrev pub bitwise : BinaryOp → Bool
bitwise bit_and = true
bitwise bit_or = true
bitwise bit_xor = true
bitwise _ = false

abbrev pub is_bool : Ty → Bool
is_bool bool = true
is_bool _ = false

abbrev pub is_equality : BinaryOp → Bool
is_equality equal = true
is_equality not_equal = true
is_equality _ = false

abbrev pub is_rem : BinaryOp → Bool
is_rem rem = true
is_rem _ = false

-- The types that an operation takes.
unfoldable pub allowed : BinaryOp → Ty → Bool
unfolding is_integer is_f64 shifts
allowed op ty =
    let numeric = is_integer ty || is_f64 ty in
    if is_equality op
    then numeric || is_bool ty
    else if bitwise op || shifts op || is_rem op
    then is_integer ty
    else numeric

unfoldable pub verify_instruction_shape : ℕ → ℕ → Instruction → List Complaint
unfolding allowed
verify_instruction_shape index position (call dst callee args arg_types ret) =
    complain (not (length args == length arg_types)) (argument_count index position)
verify_instruction_shape index position (call_value dst callee args arg_types ret) =
    complain (not (length args == length arg_types)) (argument_count index position)
verify_instruction_shape index position (binary dst op lhs rhs ty) =
    complain (not (allowed op ty)) (operand_type index position)
verify_instruction_shape index position _ = []

unfoldable pub out_of_range : ℕ → (LocalId → Complaint) → List LocalId → List Complaint
out_of_range count c [] = []
out_of_range count c (l ∷ ls) = complain (not (ltb l count)) (c l) ++ out_of_range count c ls

abbrev pub written_by : Instruction → List LocalId
written_by i = elim (defs i) [ none ↦ [] | some l ↦ l ∷ [] ]

unfoldable pub verify_instructions : ℕ → ℕ → ℕ → List Instruction → List Complaint
unfolding out_of_range verify_instruction_shape
verify_instructions index position locals [] = []
verify_instructions index position locals (i ∷ is) =
    out_of_range locals (operand_out_of_range index position) (uses i ++ written_by i)
    ++ verify_instruction_shape index position i
    ++ verify_instructions index (position + 1) locals is

unfoldable pub verify_block_operands : ℕ → BasicBlock → ℕ → List Complaint
unfolding verify_instructions out_of_range
verify_block_operands index b locals =
    verify_instructions index 0 locals (instructions b)
    ++ out_of_range locals (exit_out_of_range index) (terminator_uses b.terminator)

-- The loop over the targets of a block; `check_block_targets` has it too.
unfoldable pub verify_targets : ℕ → ℕ → List BlockId → List Complaint
verify_targets blocks index [] = []
verify_targets blocks index (t ∷ ts) =
    complain (not (ltb t blocks)) (target_out_of_range index t) ++ verify_targets blocks index ts

unfoldable pub verify_blocks : MirFunction → ℕ → List BasicBlock → List Complaint
unfolding verify_targets verify_block_operands
verify_blocks f index [] = []
verify_blocks f index (b ∷ bs) =
    verify_targets (length f.blocks) index (successors b.terminator)
    ++ verify_block_operands index b (length f.locals)
    ++ verify_blocks f (index + 1) bs

-- `verify_function`; `none` means that the fuel of the dataflow ran out.
unfoldable pub verify_function : MirFunction → Option (List Complaint)
unfolding verify_params verify_blocks check_initialization
verify_function f =
    if length f.blocks == 0
    then some (no_blocks ∷ [])
    else if not (ltb f.entry (length f.blocks))
    then some (entry_out_of_range ∷ [])
    else elim (check_initialization f (new f) any) [
      | none ↦ none
      | some undefined ↦ some (
          complain (not (f.entry == 0)) entry_not_first
          ++ verify_params f 0 f.params
          ++ verify_blocks f 0 f.blocks
          ++ undefined)
    ]

unfoldable pub targets_from : ℕ → ℕ → List BasicBlock → List Complaint
unfolding verify_targets
targets_from blocks index [] = []
targets_from blocks index (b ∷ bs) =
    verify_targets blocks index (successors b.terminator) ++ targets_from blocks (index + 1) bs

-- `check_block_targets`, for one function.
unfoldable pub check_block_targets : MirFunction → List Complaint
unfolding targets_from
check_block_targets f =
    complain (not (ltb f.entry (length f.blocks))) entry_out_of_range
    ++ targets_from (length f.blocks) 0 f.blocks
