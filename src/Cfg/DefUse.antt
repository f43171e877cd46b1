-- ===== src/Cfg/DefUse.antt =====
-- crates/slopic-core/src/cfg.rs: which blocks a terminator leads to, which local an instruction
-- writes and which locals it reads.
use slopium.Base.{Option, none, some, List, [], ◌∷◌}
use slopium.Mir.{
  BlockId, LocalId, Instruction, const_int, const_float, const_bool, string_new, assign, address_of,
  binary, call, fn_addr, call_value, drop, struct_new, field_load, load, field_addr, enum_new,
  enum_tag, enum_field_load, enum_field_addr, field_store, enum_field_store, free, volatile_load,
  volatile_store, Terminator, return, goto, branch, unreachable,
}

unfoldable pub successors : Terminator → List BlockId
successors (return value) = []
successors unreachable = []
successors (goto target) = target ∷ []
successors (branch condition then_block else_block) = then_block ∷ else_block ∷ []

-- The local that an instruction writes, if any.
unfoldable pub defs : Instruction → Option LocalId
defs (const_int dst value) = some dst
defs (const_float dst bits) = some dst
defs (const_bool dst value) = some dst
defs (string_new dst value) = some dst
defs (assign dst src) = some dst
defs (address_of dst src) = some dst
defs (binary dst op lhs rhs ty) = some dst
defs (call dst callee args arg_types result) = some dst
defs (fn_addr dst symbol) = some dst
defs (call_value dst callee args arg_types result) = some dst
defs (struct_new dst name fields) = some dst
defs (field_load dst base index) = some dst
defs (field_addr dst base index) = some dst
defs (load dst src) = some dst
defs (enum_new dst enum_name tag fields) = some dst
defs (enum_tag dst base) = some dst
defs (enum_field_load dst base index) = some dst
defs (enum_field_addr dst base index) = some dst
defs (volatile_load dst addr ty) = some dst
defs (drop local ty) = none
defs (free local) = none
defs (field_store base index src) = none
defs (enum_field_store base index src) = none
defs (volatile_store addr src ty) = none

-- What `uses` appends to its buffer.
unfoldable pub uses : Instruction → List LocalId
uses (const_int dst value) = []
uses (const_float dst bits) = []
uses (const_bool dst value) = []
uses (string_new dst value) = []
uses (fn_addr dst symbol) = []
uses (assign dst src) = src ∷ []
uses (address_of dst src) = src ∷ []
uses (load dst src) = src ∷ []
uses (binary dst op lhs rhs ty) = lhs ∷ rhs ∷ []
uses (call dst callee args arg_types result) = args
uses (call_value dst callee args arg_types result) = callee ∷ args
uses (struct_new dst name fields) = fields
uses (enum_new dst enum_name tag fields) = fields
uses (field_load dst base index) = base ∷ []
uses (field_addr dst base index) = base ∷ []
uses (enum_tag dst base) = base ∷ []
uses (enum_field_load dst base index) = base ∷ []
uses (enum_field_addr dst base index) = base ∷ []
uses (drop local ty) = local ∷ []
uses (free local) = local ∷ []
uses (volatile_load dst addr ty) = addr ∷ []
uses (volatile_store addr src ty) = addr ∷ src ∷ []
uses (field_store base index src) = base ∷ src ∷ []
uses (enum_field_store base index src) = base ∷ src ∷ []

unfoldable pub terminator_uses : Terminator → List LocalId
terminator_uses (return none) = []
terminator_uses (return (some value)) = value ∷ []
terminator_uses (branch condition then_block else_block) = condition ∷ []
terminator_uses (goto target) = []
terminator_uses unreachable = []
