-- ===== src/Integers.antt =====
-- crates/slopic-core/src/ast.rs: the integer types, their canonical machine words and literals.
-- An `i64` is the integer that it stands for; a shift and a cast go through its 64-bit pattern.
pub mod Canonical
pub mod Literals
use slopium.Base.{
  ℕ, zero, suc, ◌+◌, ◌-◌, ◌*◌, ◌/◌, ◌%◌, ◌^◌, ◌≤◌, ◌<◌, Bool, true, false, ◌&&◌, ◌||◌, not, Option,
  none, some, ltb, leb, ◌==◌, if◌then◌else◌,
}
use slopium.Base.Int.{ℤ, pos, negsuc}
use slopium.Mir.{
  Ty, unit, bool, i8, i16, i32, i64, u8, u16, u32, u64, f64, string, list, array, slice, ref, named,
  apply, fn, ptr,
}

pub record IntKind : Type 0 where
  pub bits : ℕ
  pub signed : Bool

unfoldable pub int_kind : Ty → Option IntKind
int_kind i8 = some (record { bits = 8; signed = true })
int_kind i16 = some (record { bits = 16; signed = true })
int_kind i32 = some (record { bits = 32; signed = true })
int_kind i64 = some (record { bits = 64; signed = true })
int_kind u8 = some (record { bits = 8; signed = false })
int_kind u16 = some (record { bits = 16; signed = false })
int_kind u32 = some (record { bits = 32; signed = false })
int_kind u64 = some (record { bits = 64; signed = false })
int_kind _ = none

-- `codegen::regime`: what is no integer counts as a signed word.
unfoldable pub regime : Ty → IntKind
unfolding int_kind
regime ty = elim (int_kind ty) [ none ↦ record { bits = 64; signed = true } | some k ↦ k ]

unfoldable pub is_full_width : IntKind → Bool
is_full_width k = k.bits == 64

-- The 64-bit pattern of a value, and the value of a pattern.
abbrev pub to_word : ℤ → ℕ
to_word (pos n) = n % 2 ^ 64
to_word (negsuc n) = 2 ^ 64 - 1 - n % 2 ^ 64

abbrev pub from_word : ℕ → ℤ
from_word w = if ltb w (2 ^ 63) then pos w else negsuc (2 ^ 64 - 1 - w)

-- `value << shift` and `value >> shift` on an `i64`.
abbrev pub shift_left : ℤ → ℕ → ℤ
shift_left v s = from_word (to_word v * 2 ^ s % 2 ^ 64)

abbrev pub shift_right : ℤ → ℕ → ℤ
shift_right (pos n) s = pos (n / 2 ^ s)
shift_right (negsuc n) s = negsuc (n / 2 ^ s)

-- `value & self.mask()`: the mask below the full width is `2 ^ bits - 1`.
abbrev pub low_bits : ℤ → ℕ → ℤ
low_bits v bits = from_word (to_word v % 2 ^ bits)

unfoldable pub canonicalize : IntKind → ℤ → ℤ
canonicalize k value =
    if k.bits == 64
    then value
    else if k.signed
    then shift_right (shift_left value (64 - k.bits)) (64 - k.bits)
    else low_bits value k.bits

unfoldable pub accepts : IntKind → IntKind → Bool
accepts k source =
    if k.bits == 64
    then true
    else if ltb k.bits source.bits
    then false
    else if source.bits == k.bits
    then (source.signed && k.signed) || (not source.signed && not k.signed)
    else not source.signed || k.signed

pub record IntLiteral : Type 0 where
  pub magnitude : ℕ
  pub negative : Bool
  pub bits : Bool

-- `(magnitude as i64).wrapping_neg()`
abbrev pub wrapping_neg : ℤ → ℤ
wrapping_neg v = from_word ((2 ^ 64 - to_word v) % 2 ^ 64)

abbrev pub literal_limit : IntKind → ℕ
literal_limit k = if k.signed then 2 ^ (k.bits - 1) - 1 else 2 ^ k.bits - 1

unfoldable pub at : IntLiteral → IntKind → Option ℤ
unfolding canonicalize
at l k =
    if l.negative
    then if not k.signed || ltb (2 ^ (k.bits - 1)) l.magnitude
      then none
      else some (wrapping_neg (from_word l.magnitude))
    else if l.bits
    then if ltb k.bits 64 && leb (2 ^ k.bits) l.magnitude
      then none
      else some (canonicalize k (from_word l.magnitude))
    else if ltb (literal_limit k) l.magnitude
    then none
    else some (from_word l.magnitude)
