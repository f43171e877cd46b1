-- ===== src/Opt/Meaning.antt =====
-- docs/language.md, and for what the machine does crates/slopic-core/src/codegen.rs: what a binary
-- operation leaves, by the numbers that its operands stand for. `none` is an operation that traps, or
-- that there is not for these operands. Of crates/slopic-core/src/opt.rs only the constants are used,
-- and none of the folds.
use slopium.Base.{
  ℕ, ◌-◌, ◌*◌, ◌/◌, ◌%◌, ◌^◌, Bool, true, false, ◌&&◌, ◌||◌, not, Option, none, some, ltb, leb,
  ◌==◌, if◌then◌else◌, ◌>>=◌,
}
use slopium.Base.Int.{
  ℤ, pos, negsuc, pos_part, neg_part, sub_ℕ, add_ℤ, sub_ℤ, mul_ℤ, div_ℤ, rem_ℤ, lt_ℤ, eq_ℤ,
}
use slopium.Mir.{
  Ty, i8, i16, i32, i64, u8, u16, u32, u64, f64, BinaryOp, add, sub, mul, div, rem, less, greater,
  less_equal, greater_equal, equal, not_equal, bit_and, bit_or, bit_xor, shl, shr,
}
use slopium.Integers.{to_word, from_word}
use slopium.Opt.Fold.{Constant, int, bool, float, Floats}

-- How a machine word is read at a type: by its width, and by whether the top bit is a sign.
abbrev pub width : Ty → ℕ
width i8 = 8
width u8 = 8
width i16 = 16
width u16 = 16
width i32 = 32
width u32 = 32
width _ = 64

abbrev pub has_sign : Ty → Bool
has_sign u8 = false
has_sign u16 = false
has_sign u32 = false
has_sign u64 = false
has_sign _ = true

-- The numbers that a type holds: from minus the first up to below the second.
abbrev pub range : Ty → ℕ × ℕ
range i8 = (128, 128)
range u8 = (0, 256)
range i16 = (32768, 32768)
range u16 = (0, 65536)
range i32 = (2147483648, 2147483648)
range u32 = (0, 4294967296)
range u64 = (0, 18446744073709551616)
range _ = (9223372036854775808, 9223372036854775808)

-- The number that a word stands for: a `u64` is the word's bit pattern, which may have the top bit.
abbrev pub number_of : Ty → ℤ → ℤ
number_of u64 v = pos (to_word v)
number_of _ v = v

abbrev pub holds : Ty → ℤ → Bool
holds ty x = leb (neg_part x) (range ty).0 && ltb (pos_part x) (range ty).1

-- The word of a number that a type holds.
abbrev pub word_of : ℤ → ℤ
word_of (pos n) = from_word n
word_of (negsuc n) = negsuc n

-- An arithmetic operation leaves its mathematical result, and traps where the type does not hold it.
abbrev pub exactly : Ty → ℤ → Option Constant
exactly ty x = if holds ty x then some (int (word_of x)) else none

-- The word whose pattern has the low bits of the given one, with the sign of the type's width.
abbrev pub wrapped : Ty → ℕ → ℤ
wrapped u64 n = from_word (n % 2 ^ 64)
wrapped ty n =
    if has_sign ty && leb (2 ^ (width ty - 1)) (n % 2 ^ width ty)
    then sub_ℕ (n % 2 ^ width ty) (2 ^ width ty)
    else pos (n % 2 ^ width ty)

-- A word of 64 bits is any word of a type of that width; a narrower type keeps its range.
abbrev pub pattern : Ty → ℤ → Option Constant
pattern ty w = if width ty == 64 then some (int w) else exactly ty w

-- The type whose division the machine performs.
abbrev pub machine : Ty → Ty
machine u64 = u64
machine _ = i64

-- Division by a power of two that rounds down.
abbrev pub floor_over : ℤ → ℕ → ℤ
floor_over (pos n) s = pos (n / 2 ^ s)
floor_over (negsuc n) s = negsuc (n / 2 ^ s)

-- A shift to the right keeps the sign of a signed type.
abbrev pub shifted_right : Ty → ℤ → ℕ → ℤ
shifted_right ty v s =
    if not (has_sign ty)
    then wrapped ty (to_word v / 2 ^ s)
    else if width ty == 64
    then floor_over v s
    else wrapped ty (to_word (floor_over v s))

-- A shift by a negative amount, or by the width or more, traps; one to the left loses its top bits.
abbrev pub shifted : (ℕ → ℤ) → Ty → ℤ → Option Constant
shifted f ty (pos n) = if ltb n (width ty) then some (int (f n)) else none
shifted f ty (negsuc n) = none

-- A division by zero traps, and a remainder where the machine's division does.
unfoldable pub of_words : BinaryOp → Ty → ℤ → ℤ → Option Constant
of_words add ty a b = exactly ty (add_ℤ (number_of ty a) (number_of ty b))
of_words sub ty a b = exactly ty (sub_ℤ (number_of ty a) (number_of ty b))
of_words mul ty a b = exactly ty (mul_ℤ (number_of ty a) (number_of ty b))
of_words div ty a b =
    if eq_ℤ (number_of ty b) (pos 0)
    then none
    else exactly ty (div_ℤ (number_of ty a) (number_of ty b))
of_words rem ty a b =
    if eq_ℤ (number_of ty b) (pos 0)
      || not (holds (machine ty) (div_ℤ (number_of ty a) (number_of ty b)))
    then none
    else exactly ty (rem_ℤ (number_of ty a) (number_of ty b))
of_words less ty a b = some (bool (lt_ℤ (number_of ty a) (number_of ty b)))
of_words greater ty a b = some (bool (lt_ℤ (number_of ty b) (number_of ty a)))
of_words less_equal ty a b = some (bool (not (lt_ℤ (number_of ty b) (number_of ty a))))
of_words greater_equal ty a b = some (bool (not (lt_ℤ (number_of ty a) (number_of ty b))))
of_words equal ty a b = some (bool (eq_ℤ (number_of ty a) (number_of ty b)))
of_words not_equal ty a b = some (bool (not (eq_ℤ (number_of ty a) (number_of ty b))))
of_words bit_and ty a b = pattern ty (from_word (Prim.Native.Nat.bit_and (to_word a) (to_word b)))
of_words bit_or ty a b = pattern ty (from_word (Prim.Native.Nat.bit_or (to_word a) (to_word b)))
of_words bit_xor ty a b = pattern ty (from_word (Prim.Native.Nat.bit_xor (to_word a) (to_word b)))
of_words shl ty a b = shifted (λ s. wrapped ty (to_word a * 2 ^ s)) ty b
of_words shr ty a b = shifted (shifted_right ty a) ty b

unfoldable pub of_floats : Floats → BinaryOp → ℕ → ℕ → Option Constant
of_floats fl add a b = some (float (fl.plus a b))
of_floats fl sub a b = some (float (fl.minus a b))
of_floats fl mul a b = some (float (fl.times a b))
of_floats fl div a b = some (float (fl.over a b))
of_floats fl less a b = some (bool (fl.lt a b))
of_floats fl greater a b = some (bool (fl.lt b a))
of_floats fl less_equal a b = some (bool (fl.le a b))
of_floats fl greater_equal a b = some (bool (fl.le b a))
of_floats fl equal a b = some (bool (fl.eq a b))
of_floats fl not_equal a b = some (bool (fl.ne a b))
of_floats fl _ a b = none

-- A truth value is held in a word as one or zero.
abbrev pub held : Constant → Option ℤ
held (int v) = some v
held (bool true) = some (pos 1)
held (bool false) = some (pos 0)
held (float bits) = none

unfoldable pub meaning : Floats → BinaryOp → Ty → Constant → Constant → Option Constant
unfolding of_words of_floats
meaning fl op f64 (float a) (float b) = of_floats fl op a b
meaning fl op f64 a b = none
meaning fl op ty a b = held a >>= λ v. held b >>= λ w. of_words op ty v w
