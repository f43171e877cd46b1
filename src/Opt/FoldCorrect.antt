-- ===== src/Opt/FoldCorrect.antt =====
-- crates/slopic-core/src/opt.rs: `fold_binary` keeps every trap.
use slopium.Base.{
  ◌≡◌, ◌≢◌, ◌⊎◌, inl, inr, refl, sym, ◌∙◌, ap, subst, true, false, ◌&&◌, not, Option, none, some,
  arith, Bool-cases, if◌then◌else◌, ◌>>=◌,
}
use slopium.Base.Int.{ℤ, pos, add_ℤ, sub_ℤ, mul_ℤ, div_ℤ, eq_ℤ}
use slopium.Mir.{Ty, u64, BinaryOp, add, sub, mul, div}
use slopium.Integers.{IntKind, int_kind, regime, is_full_width, canonicalize}
use slopium.Integers.Canonical.{IsI64, InRange, canonicalize-IsCanonical}
use slopium.Opt.Fold.{
  Constant, int, Floats, is_f64, shifts, integer, fold_i64, checked_i64, settle, fold_integers,
  fold_binary,
}

-- The mathematical result of an arithmetic operation; a quotient rounds towards zero.
abbrev pub exact : BinaryOp → ℤ → ℤ → Option ℤ
exact add a b = some (add_ℤ a b)
exact sub a b = some (sub_ℤ a b)
exact mul a b = some (mul_ℤ a b)
exact div a b = if eq_ℤ b (pos 0) then none else some (div_ℤ a b)
exact _ a b = none

eq_ℤ→≡ : (a b : ℤ) → eq_ℤ a b ≡ true → a ≡ b
eq_ℤ→≡ a b h = ground arith

eq_ℤ-refl : (a : ℤ) → eq_ℤ a a ≡ true
eq_ℤ-refl a = ground arith

narrow-IsI64 : (ty : Ty) (k : IntKind) (x : ℤ) → int_kind ty ≡ some k → InRange k x → IsI64 x
unfolding int_kind
narrow-IsI64 ty k x e h = ground arith

checked_in : (x : ℤ) → IsI64 x → checked_i64 x ≡ some (int x)
unfolding checked_i64
checked_in x h = ground arith

checked_out : (x : ℤ) → ¬ IsI64 x → checked_i64 x ≡ none
unfolding checked_i64
checked_out x h = ground arith

IsI64-or : (x : ℤ) → IsI64 x ⊎ ¬ IsI64 x
IsI64-or x = ground arith

-- The value of an operation with the exact result `x`: it is folded exactly if the type holds it.
pub record FoldsTo (k : IntKind) (x : ℤ) (folded : Option Constant) : Type 0 where
  pub held : InRange k x → folded ≡ some (int x)
  pub trapped : ¬ InRange k x → folded ≡ none

settled :
    (ty : Ty) (k : IntKind) (x : ℤ)
    → int_kind ty ≡ some k
    → FoldsTo k x (checked_i64 x >>= settle k)
unfolding settle
settled ty k x e = elim (IsI64-or x) [
  | inl i ↦ rw (checked_in x i) (
      let c = canonicalize-IsCanonical ty k x e i in
      record {
        held = λ h. rw (c.kept.1 h, eq_ℤ-refl x) refl;
        trapped = λ n. elim (Bool-cases (eq_ℤ (canonicalize k x) x)) [
          | inl q ↦ absurd (n (c.kept.0 (eq_ℤ→≡ (canonicalize k x) x q)))
          | inr q ↦ rw q refl
        ];
      })
  | inr n ↦
      rw (checked_out x n)
        (record { held = λ h. absurd (n (narrow-IsI64 ty k x e h)); trapped = λ h. refl })
]

value_of_some : {x y : ℤ} → some x ≡ some y → x ≡ y
value_of_some e = cc

folds :
    (k : IntKind) (op : BinaryOp) (a b x : ℤ)
    → (not k.signed && is_full_width k) ≡ false
    → exact op a b ≡ some x
    → fold_integers k op a b ≡ (checked_i64 x >>= settle k)
unfolding fold_integers shifts fold_i64
folds k add a b x n e = rw n (ap (λ y. checked_i64 y >>= settle k) (value_of_some e))
folds k sub a b x n e = rw n (ap (λ y. checked_i64 y >>= settle k) (value_of_some e))
folds k mul a b x n e = rw n (ap (λ y. checked_i64 y >>= settle k) (value_of_some e))
folds k div a b x n e = quotient e
  where
    quotient :
        (if eq_ℤ b (pos 0) then none else some (div_ℤ a b)) ≡ some x
        → fold_integers k div a b ≡ (checked_i64 x >>= settle k)
    quotient = elim (Bool-cases (eq_ℤ b (pos 0))) [
      | inl z ↦ rw (n, z) (λ q. absurd cc)
      | inr z ↦ rw (n, z) (λ q. ap (λ y. checked_i64 y >>= settle k) (value_of_some q))
    ]
folds k _ a b x n e = absurd cc

regime_lem : (ty : Ty) (k : IntKind) → int_kind ty ≡ some k → regime ty ≡ k
unfolding regime
regime_lem ty k e = rw (e, regime) refl

integer_no_f64 : (ty : Ty) (k : IntKind) → int_kind ty ≡ some k → is_f64 ty ≡ false
unfolding int_kind is_f64
integer_no_f64 ty k e = ground arith

not_u64 :
    (ty : Ty) (k : IntKind)
    → int_kind ty ≡ some k
    → ty ≢ u64
    → (not k.signed && is_full_width k) ≡ false
unfolding int_kind is_full_width
not_u64 ty k e h = ground arith

opened :
    (fl : Floats) (op : BinaryOp) (ty : Ty) (k : IntKind) (a b : ℤ)
    → int_kind ty ≡ some k
    → fold_binary fl op ty (int a) (int b) ≡ fold_integers (regime ty) op a b
unfolding fold_binary integer
opened fl op ty k a b e = rw (integer_no_f64 ty k e) refl

-- For addition, subtraction, multiplication and division at every integer type but `u64`: the
-- operation on two constants is folded, and then to its mathematical result, exactly if the type
-- holds that result. An operation that overflows is left in the program.
pub fold_binary-FoldsTo :
    (fl : Floats) (op : BinaryOp) (ty : Ty) (k : IntKind) (a b x : ℤ)
    → int_kind ty ≡ some k
    → ty ≢ u64
    → exact op a b ≡ some x
    → FoldsTo k x (fold_binary fl op ty (int a) (int b))
fold_binary-FoldsTo fl op ty k a b x e n ex =
    subst (FoldsTo k x)
      (sym (
        opened fl op ty k a b e
        ∙ ap (λ q. fold_integers q op a b) (regime_lem ty k e)
        ∙ folds k op a b x (not_u64 ty k e n) ex))
      (settled ty k x e)
