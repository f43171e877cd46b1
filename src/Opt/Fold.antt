-- ===== src/Opt/Fold.antt =====
-- crates/slopic-core/src/opt.rs: constants and `fold_binary`.
use slopium.Base.{
  ℕ, ◌/◌, ◌+◌, ◌-◌, ◌*◌, ◌%◌, ◌^◌, Bool, true, false, ◌&&◌, not, Option, none, some, ltb, leb, ◌==◌,
  if◌then◌else◌, ◌>>=◌,
}
use slopium.Base.Int.{
  ℤ, pos, negsuc, pos_part, neg_part, add_ℤ, sub_ℤ, mul_ℤ, div_ℤ, rem_ℤ, lt_ℤ, eq_ℤ,
}
use slopium.Mir.{
  LocalId, Ty, f64, BinaryOp, add, sub, mul, div, rem, less, greater, less_equal, greater_equal,
  equal, not_equal, bit_and, bit_or, bit_xor, shl, shr, Instruction, const_int, const_bool,
  const_float,
}
use slopium.Integers.{
  IntKind, regime, is_full_width, to_word, from_word, shift_left, shift_right, canonicalize,
}

pub data Constant : Type 0 where
  int : ℤ → Constant
  bool : Bool → Constant
  float : ℕ → Constant

unfoldable pub instruction_of : Constant → LocalId → Instruction
instruction_of (int v) dst = const_int dst v
instruction_of (bool b) dst = const_bool dst b
instruction_of (float bits) dst = const_float dst bits

-- The operations of `f64` on bit patterns, which Rust's standard library defines.
pub record Floats : Type 0 where
  pub plus : ℕ → ℕ → ℕ
  pub minus : ℕ → ℕ → ℕ
  pub times : ℕ → ℕ → ℕ
  pub over : ℕ → ℕ → ℕ
  pub lt : ℕ → ℕ → Bool
  pub le : ℕ → ℕ → Bool
  pub eq : ℕ → ℕ → Bool
  pub ne : ℕ → ℕ → Bool

unfoldable pub is_f64 : Ty → Bool
is_f64 f64 = true
is_f64 _ = false

unfoldable pub shifts : BinaryOp → Bool
shifts shl = true
shifts shr = true
shifts _ = false

unfoldable pub fold_float : Floats → BinaryOp → ℕ → ℕ → Option Constant
fold_float fl add l r = some (float (fl.plus l r))
fold_float fl sub l r = some (float (fl.minus l r))
fold_float fl mul l r = some (float (fl.times l r))
fold_float fl div l r = some (float (fl.over l r))
fold_float fl less l r = some (bool (fl.lt l r))
fold_float fl greater l r = some (bool (fl.lt r l))
fold_float fl less_equal l r = some (bool (fl.le l r))
fold_float fl greater_equal l r = some (bool (fl.le r l))
fold_float fl equal l r = some (bool (fl.eq l r))
fold_float fl not_equal l r = some (bool (fl.ne l r))
fold_float fl _ l r = none

-- The two operands of an `f64` operation, where both are floats.
unfoldable pub fold_floats : Floats → BinaryOp → Constant → Constant → Option Constant
unfolding fold_float
fold_floats fl op (float l) (float r) = fold_float fl op l r
fold_floats fl op _ _ = none

unfoldable pub integer : Constant → Option ℤ
integer (int v) = some v
integer (bool true) = some (pos 1)
integer (bool false) = some (pos 0)
integer (float _) = none

-- `u32::try_from`, then the filter on the type's width.
unfoldable pub shift_amount : IntKind → ℤ → Option ℕ
shift_amount k (pos n) = if ltb n k.bits then some n else none
shift_amount k (negsuc n) = none

unfoldable pub fold_shift : IntKind → BinaryOp → ℤ → ℤ → Option Constant
unfolding shift_amount canonicalize
fold_shift k op l r = shift_amount k r >>= λ amount. some (
    int (
      canonicalize k (elim op [
        | shl ↦ shift_left l amount
        | _ ↦ if k.signed then shift_right l amount else from_word (to_word l / 2 ^ amount)
      ])))

-- `checked_…` on a `u64` whose exact result is a natural number.
unfoldable pub checked_u64 : ℕ → Option Constant
checked_u64 n = if ltb n (2 ^ 64) then some (int (from_word n)) else none

unfoldable pub fold_u64 : BinaryOp → ℕ → ℕ → Option Constant
unfolding checked_u64
fold_u64 add l r = checked_u64 (l + r)
fold_u64 sub l r = if leb r l then checked_u64 (l - r) else none
fold_u64 mul l r = checked_u64 (l * r)
fold_u64 div l r = if r == 0 then none else checked_u64 (l / r)
fold_u64 rem l r = if r == 0 then none else checked_u64 (l % r)
fold_u64 less l r = some (bool (ltb l r))
fold_u64 greater l r = some (bool (ltb r l))
fold_u64 less_equal l r = some (bool (leb l r))
fold_u64 greater_equal l r = some (bool (leb r l))
fold_u64 equal l r = some (bool (l == r))
fold_u64 not_equal l r = some (bool (not (l == r)))
fold_u64 bit_and l r = some (int (from_word (Prim.Native.Nat.bit_and l r)))
fold_u64 bit_or l r = some (int (from_word (Prim.Native.Nat.bit_or l r)))
fold_u64 bit_xor l r = some (int (from_word (Prim.Native.Nat.bit_xor l r)))
fold_u64 _ l r = none

-- `checked_…` on an `i64` with its exact result.
unfoldable pub checked_i64 : ℤ → Option Constant
checked_i64 v =
    if ltb (pos_part v) (2 ^ 63) && leb (neg_part v) (2 ^ 63) then some (int v) else none

-- A remainder is declined where the division is.
unfoldable pub fold_i64 : BinaryOp → ℤ → ℤ → Option Constant
unfolding checked_i64
fold_i64 add l r = checked_i64 (add_ℤ l r)
fold_i64 sub l r = checked_i64 (sub_ℤ l r)
fold_i64 mul l r = checked_i64 (mul_ℤ l r)
fold_i64 div l r = if eq_ℤ r (pos 0) then none else checked_i64 (div_ℤ l r)
fold_i64 rem l r =
    if eq_ℤ r (pos 0) then none else checked_i64 (div_ℤ l r) >>= λ _. checked_i64 (rem_ℤ l r)
fold_i64 less l r = some (bool (lt_ℤ l r))
fold_i64 greater l r = some (bool (lt_ℤ r l))
fold_i64 less_equal l r = some (bool (not (lt_ℤ r l)))
fold_i64 greater_equal l r = some (bool (not (lt_ℤ l r)))
fold_i64 equal l r = some (bool (eq_ℤ l r))
fold_i64 not_equal l r = some (bool (not (eq_ℤ l r)))
fold_i64 bit_and l r = some (int (from_word (Prim.Native.Nat.bit_and (to_word l) (to_word r))))
fold_i64 bit_or l r = some (int (from_word (Prim.Native.Nat.bit_or (to_word l) (to_word r))))
fold_i64 bit_xor l r = some (int (from_word (Prim.Native.Nat.bit_xor (to_word l) (to_word r))))
fold_i64 _ l r = none

-- A narrow result that is not its own canonical word would trap.
unfoldable pub settle : IntKind → Constant → Option Constant
unfolding canonicalize
settle k (int v) = if eq_ℤ (canonicalize k v) v then some (int v) else none
settle k c = some c

unfoldable pub fold_integers : IntKind → BinaryOp → ℤ → ℤ → Option Constant
unfolding shifts fold_shift is_full_width fold_u64 fold_i64 settle
fold_integers k op l r =
    if shifts op
    then fold_shift k op l r
    else if not k.signed && is_full_width k
    then fold_u64 op (to_word l) (to_word r)
    else fold_i64 op l r >>= settle k

unfoldable pub fold_binary : Floats → BinaryOp → Ty → Constant → Constant → Option Constant
unfolding is_f64 fold_floats integer fold_integers regime
fold_binary fl op ty lhs rhs =
    if is_f64 ty
    then fold_floats fl op lhs rhs
    else integer lhs >>= λ l. integer rhs >>= λ r. fold_integers (regime ty) op l r
