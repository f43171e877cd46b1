-- ===== src/Mir.antt =====
-- crates/slopic-core/src/mir.rs: the mid-level representation as data, with the types of
-- crates/slopic-core/src/ast.rs and the spans of crates/slopic-core/src/diagnostic.rs.
-- A name or a text is the list of its code points, an `i64` the integer it stands for, and the
-- bits of an `f64` a number.
use slopium.Base.{ℕ, Bool, Option, List, map, min, max}
use slopium.Base.Int.{ℤ}

abbrev pub Text : Type 0
Text = List ℕ

abbrev pub LocalId : Type 0
LocalId = ℕ

abbrev pub BlockId : Type 0
BlockId = ℕ

pub record Span : Type 0 where
  pub start : ℕ
  pub end : ℕ
  pub line : ℕ
  pub column : ℕ

unfoldable pub join : Span → Span → Span
join a b = record {
  start = min a.start b.start;
  end = max a.end b.end;
  line = a.line;
  column = a.column;
}

-- `Type` of ast.rs.
mutual
  pub data Ty : Type 0 where
    unit bool i8 i16 i32 i64 u8 u16 u32 u64 f64 string : Ty
    list : Ty → Ty
    array : Ty → ℕ → Ty
    slice : Ty → Ty
    ref : Bool → Ty → Ty
    named : Text → Ty
    apply : Text → Tys → Ty
    fn : Tys → Ty → Ty
    ptr : Ty → Ty

  pub data Tys : Type 0 where
    nil : Tys
    cons : Ty → Tys → Tys

pub data BinaryOp : Type 0 where
  add sub mul div rem : BinaryOp
  less greater less_equal greater_equal equal not_equal : BinaryOp
  bit_and bit_or bit_xor shl shr : BinaryOp

-- The fields of each constructor are those of the source's variant, in its order.
pub data Instruction : Type 0 where
  const_int : LocalId → ℤ → Instruction
  const_float : LocalId → ℕ → Instruction
  const_bool : LocalId → Bool → Instruction
  string_new : LocalId → List ℕ → Instruction
  assign : LocalId → LocalId → Instruction
  address_of : LocalId → LocalId → Instruction
  binary : LocalId → BinaryOp → LocalId → LocalId → Ty → Instruction
  call : LocalId → Text → List LocalId → List Ty → Ty → Instruction
  fn_addr : LocalId → Text → Instruction
  call_value : LocalId → LocalId → List LocalId → List Ty → Ty → Instruction
  drop : LocalId → Ty → Instruction
  struct_new : LocalId → Text → List LocalId → Instruction
  field_load : LocalId → LocalId → ℕ → Instruction
  load : LocalId → LocalId → Instruction
  field_addr : LocalId → LocalId → ℕ → Instruction
  enum_new : LocalId → Text → ℕ → List LocalId → Instruction
  enum_tag : LocalId → LocalId → Instruction
  enum_field_load : LocalId → LocalId → ℕ → Instruction
  enum_field_addr : LocalId → LocalId → ℕ → Instruction
  field_store : LocalId → ℕ → LocalId → Instruction
  enum_field_store : LocalId → ℕ → LocalId → Instruction
  free : LocalId → Instruction
  volatile_load : LocalId → LocalId → Ty → Instruction
  volatile_store : LocalId → LocalId → Ty → Instruction

-- `return` and `goto` with their operands; `branch condition then_block else_block`.
pub data Terminator : Type 0 where
  return : Option LocalId → Terminator
  goto : BlockId → Terminator
  branch : LocalId → BlockId → BlockId → Terminator
  unreachable : Terminator

pub record Statement : Type 0 where
  pub instruction : Instruction
  pub span : Span

pub record BasicBlock : Type 0 where
  pub statements : List Statement
  pub terminator : Terminator
  pub terminator_span : Span

unfoldable pub instructions : BasicBlock → List Instruction
instructions b = map (λ s. s.instruction) b.statements

pub record MirLocal : Type 0 where
  pub ty : Ty
  pub name : Option Text
  pub is_param : Bool

pub record MirFunction : Type 0 where
  pub name : Text
  pub emit : Bool
  pub inline_hint : Bool
  pub params : List LocalId
  pub return_type : Ty
  pub locals : List MirLocal
  pub blocks : List BasicBlock
  pub entry : BlockId
  pub span : Span
