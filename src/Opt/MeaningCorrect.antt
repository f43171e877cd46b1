-- ===== src/Opt/MeaningCorrect.antt =====
-- crates/slopic-core/src/opt.rs: `fold_binary` against the meaning of the operations.
use slopium.Base.{
  ℕ, ◌+◌, ◌*◌, ◌/◌, ◌%◌, ◌^◌, ◌<◌, ◌≡◌, ◌≢◌, inl, inr, refl, sym, ◌∙◌, ap, Bool, true, false, not,
  Option, none, some, ltb, ◌==◌, if◌then◌else◌, ◌>>=◌, arith, Bool-cases,
}
use native.Mathlib.Nat.{div-le_self}
use slopium.Base.Int.{ℤ, pos, negsuc, sub_ℕ, add_ℤ, sub_ℤ, mul_ℤ, div_ℤ, rem_ℤ, eq_ℤ}
use slopium.Mir.{
  Ty, i8, i16, i32, i64, u8, u16, u32, u64, f64, BinaryOp, add, sub, mul, div, rem, less, greater,
  less_equal, greater_equal, equal, not_equal, bit_and, bit_or, bit_xor, shl, shr,
}
use slopium.Integers.{
  IntKind, int_kind, regime, is_full_width, to_word, from_word, canonicalize, shift_left,
  shift_right,
}
use slopium.Opt.Fold.{
  Constant, int, bool, float, Floats, is_f64, shifts, integer, fold_i64, fold_u64, checked_i64,
  checked_u64, settle, fold_integers, fold_binary, fold_shift, shift_amount, fold_float,
  fold_floats,
}
use slopium.Opt.Meaning.{
  width, has_sign, number_of, holds, exactly, wrapped, pattern, machine, floor_over, shifted_right,
  of_words, of_floats, held, meaning,
}

-- An arithmetic result at a type that is not `u64`.
settled-exactly :
    (ty : Ty) (x : ℤ) → ty ≢ u64 → (checked_i64 x >>= settle (regime ty)) ≡ exactly ty x
unfolding regime int_kind checked_i64 settle canonicalize
settled-exactly u64 x n = absurd (n refl)
settled-exactly i8 x n = ground arith
settled-exactly i16 x n = ground arith
settled-exactly i32 x n = ground arith
settled-exactly i64 x n = ground arith
settled-exactly u8 x n = ground arith
settled-exactly u16 x n = ground arith
settled-exactly u32 x n = ground arith
settled-exactly _ x n = ground arith

-- A bit pattern at a type that is not `u64`.
settled-pattern :
    (ty : Ty) (w : ℕ) → ty ≢ u64 → settle (regime ty) (int (from_word w)) ≡ pattern ty (from_word w)
unfolding regime int_kind settle canonicalize
settled-pattern u64 x n = absurd (n refl)
settled-pattern i8 x n = ground arith
settled-pattern i16 x n = ground arith
settled-pattern i32 x n = ground arith
settled-pattern i64 x n = ground arith
settled-pattern u8 x n = ground arith
settled-pattern u16 x n = ground arith
settled-pattern u32 x n = ground arith
settled-pattern _ x n = ground arith

canonicalize-shl :
    (ty : Ty) (m : ℕ) → canonicalize (regime ty) (from_word (m % 2 ^ 64)) ≡ wrapped ty m
unfolding regime int_kind canonicalize
canonicalize-shl i8 m = ground arith
canonicalize-shl i16 m = ground arith
canonicalize-shl i32 m = ground arith
canonicalize-shl i64 m = ground arith
canonicalize-shl u8 m = ground arith
canonicalize-shl u16 m = ground arith
canonicalize-shl u32 m = ground arith
canonicalize-shl u64 m = ground arith
canonicalize-shl _ m = ground arith

-- A word at a signed type.
canonicalize-signed :
    (ty : Ty) (x : ℤ)
    → has_sign ty ≡ true
    → canonicalize (regime ty) x ≡ (if width ty == 64 then x else wrapped ty (to_word x))
unfolding regime int_kind canonicalize
canonicalize-signed i8 x h = ground arith
canonicalize-signed i16 x h = ground arith
canonicalize-signed i32 x h = ground arith
canonicalize-signed u8 x h = absurd cc
canonicalize-signed u16 x h = absurd cc
canonicalize-signed u32 x h = absurd cc
canonicalize-signed u64 x h = absurd cc
canonicalize-signed _ x h = refl

-- A pattern at an unsigned type.
canonicalize-unsigned :
    (ty : Ty) (n : ℕ)
    → has_sign ty ≡ false
    → n < 2 ^ 64
    → canonicalize (regime ty) (from_word n) ≡ wrapped ty n
unfolding regime int_kind canonicalize
canonicalize-unsigned u8 n h lt = ground arith
canonicalize-unsigned u16 n h lt = ground arith
canonicalize-unsigned u32 n h lt = ground arith
canonicalize-unsigned u64 n h lt = ground arith
canonicalize-unsigned _ n h lt = absurd cc

regime-signed : (ty : Ty) → (regime ty).signed ≡ has_sign ty
unfolding regime int_kind
regime-signed i8 = refl
regime-signed i16 = refl
regime-signed i32 = refl
regime-signed i64 = refl
regime-signed u8 = refl
regime-signed u16 = refl
regime-signed u32 = refl
regime-signed u64 = refl
regime-signed _ = refl

regime-bits : (ty : Ty) → (regime ty).bits ≡ width ty
unfolding regime int_kind
regime-bits i8 = refl
regime-bits i16 = refl
regime-bits i32 = refl
regime-bits i64 = refl
regime-bits u8 = refl
regime-bits u16 = refl
regime-bits u32 = refl
regime-bits u64 = refl
regime-bits _ = refl

floor_over_lem : (v : ℤ) (s : ℕ) → shift_right v s ≡ floor_over v s
floor_over_lem (pos n) s = refl
floor_over_lem (negsuc n) s = refl

to_word-lt : (v : ℤ) → to_word v < 2 ^ 64
to_word-lt v = ground arith

shr_lem :
    (ty : Ty) (v : ℤ) (s : ℕ) (signed : Bool)
    → signed ≡ has_sign ty
    → canonicalize (regime ty) (if signed then shift_right v s else from_word (to_word v / 2 ^ s))
      ≡ shifted_right ty v s
shr_lem ty v s true h =
    rw (sym h, floor_over_lem v s) (canonicalize-signed ty (floor_over v s) (sym h))
shr_lem ty v s false h = rw (sym h) (
    canonicalize-unsigned ty (to_word v / 2 ^ s) (sym h)
      (omega (arith, to_word-lt v, div-le_self (to_word v) (2 ^ s))))

checked_u64-exactly : (n : ℕ) → checked_u64 n ≡ exactly u64 (pos n)
unfolding checked_u64
checked_u64-exactly n = ground arith

mul_pos : (a b : ℕ) → mul_ℤ (pos a) (pos b) ≡ pos (a * b)
mul_pos a b = all_positive (a * b + 0) (a * 0 + 0 * b) (a * b) (omega arith) (omega arith)
  where
    all_positive : (x y z : ℕ) → x ≡ z → y ≡ 0 → sub_ℕ x y ≡ pos z
    all_positive x y z p q = ground arith

eq_ℤ-pos : (a : ℕ) → eq_ℤ (pos a) (pos 0) ≡ (a == 0)
eq_ℤ-pos a = ground arith

plus_zero : (a : ℕ) → a + 0 ≡ a
plus_zero a = omega arith

div_pos : (a b : ℕ) → div_ℤ (pos a) (pos b) ≡ pos (a / b)
div_pos a b = rw (plus_zero a, plus_zero b) refl

rem_pos : (a b : ℕ) → rem_ℤ (pos a) (pos b) ≡ pos (a % b)
rem_pos a b = rw (plus_zero a, plus_zero b) refl

quotient-holds : (a : ℤ) (n : ℕ) → holds u64 (div_ℤ (pos (to_word a)) (pos n)) ≡ true
quotient-holds a n =
    ap (holds u64) (div_pos (to_word a) n)
    ∙ below (to_word a / n) (omega (arith, to_word-lt a, div-le_self (to_word a) n))
  where
    below : (x : ℕ) → x < 2 ^ 64 → holds u64 (pos x) ≡ true
    below x h = ground arith

-- The remainder of a division that the machine can perform.
allowed-exactly :
    (x y : ℤ) (o : Option Constant)
    → holds u64 x ≡ true
    → o ≡ exactly u64 y
    → o ≡ (if not (holds u64 x) then none else exactly u64 y)
allowed-exactly x y o h e = rw h e

-- The operations of `u64`, on bit patterns.
fold_u64-of_words :
    (op : BinaryOp) (a b : ℤ)
    → shifts op ≡ false
    → fold_u64 op (to_word a) (to_word b) ≡ of_words op u64 a b
unfolding fold_u64 of_words checked_u64 shifts
fold_u64-of_words add a b h = ground arith
fold_u64-of_words sub a b h = ground arith
fold_u64-of_words mul a b h =
    rw (mul_pos (to_word a) (to_word b)) (checked_u64-exactly (to_word a * to_word b))
fold_u64-of_words div a b h = elim (Bool-cases (to_word b == 0)) [
  | inl q ↦ rw (eq_ℤ-pos (to_word b), q) refl
  | inr q ↦
      rw (eq_ℤ-pos (to_word b), q)
        (checked_u64-exactly (to_word a / to_word b)
          ∙ ap (exactly u64) (sym (div_pos (to_word a) (to_word b))))
]
fold_u64-of_words rem a b h = elim (Bool-cases (to_word b == 0)) [
  | inl q ↦ rw (eq_ℤ-pos (to_word b), q) refl
  | inr q ↦
      rw (eq_ℤ-pos (to_word b), q)
        (allowed-exactly (div_ℤ (pos (to_word a)) (pos (to_word b)))
          (rem_ℤ (pos (to_word a)) (pos (to_word b))) (checked_u64 (to_word a % to_word b))
          (quotient-holds a (to_word b))
          (checked_u64-exactly (to_word a % to_word b)
            ∙ ap (exactly u64) (sym (rem_pos (to_word a) (to_word b)))))
]
fold_u64-of_words less a b h = ground arith
fold_u64-of_words greater a b h = ground arith
fold_u64-of_words less_equal a b h = ground arith
fold_u64-of_words greater_equal a b h = ground arith
fold_u64-of_words equal a b h = ground arith
fold_u64-of_words not_equal a b h = ground arith
fold_u64-of_words bit_and a b h = refl
fold_u64-of_words bit_or a b h = refl
fold_u64-of_words bit_xor a b h = refl
fold_u64-of_words shl a b h = absurd cc
fold_u64-of_words shr a b h = absurd cc

number_lem : (ty : Ty) (a : ℤ) → ty ≢ u64 → number_of ty a ≡ a
number_lem u64 a n = absurd (n refl)
number_lem _ a n = refl

machine_lem : (ty : Ty) → ty ≢ u64 → machine ty ≡ i64
machine_lem u64 n = absurd (n refl)
machine_lem _ n = refl

checked_holds : (x : ℤ) → holds i64 x ≡ true → checked_i64 x ≡ some (int x)
unfolding checked_i64
checked_holds x h = ground arith

checked_lacks : (x : ℤ) → holds i64 x ≡ false → checked_i64 x ≡ none
unfolding checked_i64
checked_lacks x h = ground arith

-- A remainder, of a division that the machine can perform.
remainder :
    (ty : Ty) (x y : ℤ)
    → ty ≢ u64
    → ((checked_i64 x >>= λ _. checked_i64 y) >>= settle (regime ty))
      ≡ (if not (holds (machine ty) x) then none else exactly ty y)
remainder ty x y n = elim (Bool-cases (holds i64 x)) [
  | inl q ↦ rw (machine_lem ty n, q, checked_holds x q) (settled-exactly ty y n)
  | inr q ↦ rw (machine_lem ty n, q, checked_lacks x q) refl
]

-- A result that is no integer is kept.
fold_i64-of_words :
    (op : BinaryOp) (ty : Ty) (a b : ℤ)
    → shifts op ≡ false
    → ty ≢ u64
    → (fold_i64 op a b >>= settle (regime ty)) ≡ of_words op ty a b
unfolding fold_i64 of_words shifts settle
fold_i64-of_words add ty a b h n =
    rw (number_lem ty a n, number_lem ty b n) (settled-exactly ty (add_ℤ a b) n)
fold_i64-of_words sub ty a b h n =
    rw (number_lem ty a n, number_lem ty b n) (settled-exactly ty (sub_ℤ a b) n)
fold_i64-of_words mul ty a b h n =
    rw (number_lem ty a n, number_lem ty b n) (settled-exactly ty (mul_ℤ a b) n)
fold_i64-of_words div ty a b h n =
    rw (number_lem ty a n, number_lem ty b n)
      (elim (Bool-cases (eq_ℤ b (pos 0))) [
        | inl z ↦ rw z refl
        | inr z ↦ rw z (settled-exactly ty (div_ℤ a b) n)
      ])
fold_i64-of_words rem ty a b h n =
    rw (number_lem ty a n, number_lem ty b n)
      (elim (Bool-cases (eq_ℤ b (pos 0))) [
        | inl z ↦ rw z refl
        | inr z ↦ rw z (remainder ty (div_ℤ a b) (rem_ℤ a b) n)
      ])
fold_i64-of_words less ty a b h n = rw (number_lem ty a n, number_lem ty b n) refl
fold_i64-of_words greater ty a b h n = rw (number_lem ty a n, number_lem ty b n) refl
fold_i64-of_words less_equal ty a b h n = rw (number_lem ty a n, number_lem ty b n) refl
fold_i64-of_words greater_equal ty a b h n = rw (number_lem ty a n, number_lem ty b n) refl
fold_i64-of_words equal ty a b h n = rw (number_lem ty a n, number_lem ty b n) refl
fold_i64-of_words not_equal ty a b h n = rw (number_lem ty a n, number_lem ty b n) refl
fold_i64-of_words bit_and ty a b h n =
    settled-pattern ty (Prim.Native.Nat.bit_and (to_word a) (to_word b)) n
fold_i64-of_words bit_or ty a b h n =
    settled-pattern ty (Prim.Native.Nat.bit_or (to_word a) (to_word b)) n
fold_i64-of_words bit_xor ty a b h n =
    settled-pattern ty (Prim.Native.Nat.bit_xor (to_word a) (to_word b)) n
fold_i64-of_words shl ty a b h n = absurd cc
fold_i64-of_words shr ty a b h n = absurd cc

-- An amount that both accept, or that both refuse.
amount_lem :
    (k : IntKind) (n w : ℕ) (f g : ℕ → ℤ)
    → k.bits ≡ w
    → f n ≡ g n
    → (shift_amount k (pos n) >>= λ s. some (int (f s)))
      ≡ (if ltb n w then some (int (g n)) else none)
unfolding shift_amount
amount_lem k n w f g e same = elim (Bool-cases (ltb n w)) [
  | inl q ↦ rw (e, q, same) refl
  | inr q ↦ rw (e, q) refl
]

shift-of_words :
    (op : BinaryOp) (ty : Ty) (a b : ℤ)
    → shifts op ≡ true
    → fold_shift (regime ty) op a b ≡ of_words op ty a b
unfolding fold_shift of_words shifts
shift-of_words shl ty a (pos n) h =
    amount_lem (regime ty) n (width ty) (λ s. canonicalize (regime ty) (shift_left a s))
      (λ s. wrapped ty (to_word a * 2 ^ s)) (regime-bits ty)
      (canonicalize-shl ty (to_word a * 2 ^ n))
shift-of_words shr ty a (pos n) h =
    amount_lem (regime ty) n (width ty)
      (λ s.
        canonicalize (regime ty)
          (if (regime ty).signed then shift_right a s else from_word (to_word a / 2 ^ s)))
      (shifted_right ty a) (regime-bits ty) (shr_lem ty a n (regime ty).signed (regime-signed ty))
shift-of_words shl ty a (negsuc n) h = refl
shift-of_words shr ty a (negsuc n) h = refl
shift-of_words _ ty a b h = absurd cc

-- What is no shift, by whether it is unsigned and 64 bits wide.
fold_integers-unshifted :
    (op : BinaryOp) (ty : Ty) (a b : ℤ)
    → shifts op ≡ false
    → fold_integers (regime ty) op a b ≡ of_words op ty a b
unfolding fold_integers is_full_width regime int_kind
fold_integers-unshifted op u64 a b h = rw (h, fold_integers) (fold_u64-of_words op a b h)
fold_integers-unshifted op i8 a b h =
    rw (h, fold_integers) (fold_i64-of_words op i8 a b h (λ e. absurd cc))
fold_integers-unshifted op i16 a b h =
    rw (h, fold_integers) (fold_i64-of_words op i16 a b h (λ e. absurd cc))
fold_integers-unshifted op i32 a b h =
    rw (h, fold_integers) (fold_i64-of_words op i32 a b h (λ e. absurd cc))
fold_integers-unshifted op u8 a b h =
    rw (h, fold_integers) (fold_i64-of_words op u8 a b h (λ e. absurd cc))
fold_integers-unshifted op u16 a b h =
    rw (h, fold_integers) (fold_i64-of_words op u16 a b h (λ e. absurd cc))
fold_integers-unshifted op u32 a b h =
    rw (h, fold_integers) (fold_i64-of_words op u32 a b h (λ e. absurd cc))
fold_integers-unshifted op ty a b h =
    rw (h, fold_integers) (fold_i64-of_words op ty a b h (λ e. absurd cc))

fold_integers-of_words :
    (op : BinaryOp) (ty : Ty) (a b : ℤ) → fold_integers (regime ty) op a b ≡ of_words op ty a b
unfolding fold_integers
fold_integers-of_words op ty a b = elim (Bool-cases (shifts op)) [
  | inl q ↦ rw (q, fold_integers) (shift-of_words op ty a b q)
  | inr q ↦ fold_integers-unshifted op ty a b q
]

-- Two constants that are no floats to an operation of integers.
of_constants :
    (op : BinaryOp) (ty : Ty) (a b : Constant)
    → (integer a >>= λ l. integer b >>= λ r. fold_integers (regime ty) op l r)
      ≡ (held a >>= λ v. held b >>= λ w. of_words op ty v w)
unfolding integer
of_constants op ty (int v) (int w) = fold_integers-of_words op ty v w
of_constants op ty (int v) (bool true) = fold_integers-of_words op ty v (pos 1)
of_constants op ty (int v) (bool false) = fold_integers-of_words op ty v (pos 0)
of_constants op ty (bool true) (int w) = fold_integers-of_words op ty (pos 1) w
of_constants op ty (bool false) (int w) = fold_integers-of_words op ty (pos 0) w
of_constants op ty (bool true) (bool true) = fold_integers-of_words op ty (pos 1) (pos 1)
of_constants op ty (bool true) (bool false) = fold_integers-of_words op ty (pos 1) (pos 0)
of_constants op ty (bool false) (bool true) = fold_integers-of_words op ty (pos 0) (pos 1)
of_constants op ty (bool false) (bool false) = fold_integers-of_words op ty (pos 0) (pos 0)
of_constants op ty (float a) b = refl
of_constants op ty (int v) (float b) = refl
of_constants op ty (bool true) (float b) = refl
of_constants op ty (bool false) (float b) = refl

fold_float-of_floats :
    (fl : Floats) (op : BinaryOp) (a b : ℕ) → fold_float fl op a b ≡ of_floats fl op a b
unfolding fold_float of_floats
fold_float-of_floats fl add a b = refl
fold_float-of_floats fl sub a b = refl
fold_float-of_floats fl mul a b = refl
fold_float-of_floats fl div a b = refl
fold_float-of_floats fl less a b = refl
fold_float-of_floats fl greater a b = refl
fold_float-of_floats fl less_equal a b = refl
fold_float-of_floats fl greater_equal a b = refl
fold_float-of_floats fl equal a b = refl
fold_float-of_floats fl not_equal a b = refl
fold_float-of_floats fl _ a b = refl

-- For every operation, type and pair of constants, whatever the operations on floats: `fold_binary`
-- gives what the operation leaves by its independent meaning, and declines exactly where it traps or
-- where there is no such operation on these constants. So no operation that traps is folded away.
pub fold_binary-meaning :
    (fl : Floats) (op : BinaryOp) (ty : Ty) (a b : Constant)
    → fold_binary fl op ty a b ≡ meaning fl op ty a b
unfolding fold_binary fold_floats is_f64 meaning
fold_binary-meaning fl op f64 (float a) (float b) = fold_float-of_floats fl op a b
fold_binary-meaning fl op f64 (float a) (int b) = refl
fold_binary-meaning fl op f64 (float a) (bool b) = refl
fold_binary-meaning fl op f64 (int a) b = refl
fold_binary-meaning fl op f64 (bool a) b = refl
fold_binary-meaning fl op ty a b = of_constants op ty a b
