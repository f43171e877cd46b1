-- ===== src/Integers/Canonical.antt =====
-- crates/slopic-core/src/ast.rs: what `IntKind::canonicalize` and `IntKind::accepts` promise.
use slopium.Base.{
  ℕ, ◌-◌, ◌%◌, ◌^◌, ◌≤◌, ◌<◌, ◌≡◌, ◌↔◌, true, false, some, arith, ◌==◌, if◌then◌else◌, subst,
  Bool-cases, inl, inr, ◌&&◌, not, false,
}
use slopium.Base.Int.{ℤ, pos, negsuc, pos_part, neg_part}
use slopium.Mir.{Ty, i8, i16, i32, i64, u8, u16, u32, u64}
use slopium.Integers.{IntKind, int_kind, to_word, canonicalize, accepts}

-- The values of an `i64`.
abbrev pub IsI64 : ℤ → Type 0
IsI64 v = (pos_part v < 2 ^ 63) × (neg_part v ≤ 2 ^ 63)

-- The bounds of a type's canonical machine words, read as `i64`: a 64-bit type has every word, and a
-- `u64` of 2 ^ 63 or more is a negative one. For the narrow types these are the values themselves.
abbrev pub upper : IntKind → ℕ
upper k = if k.signed then 2 ^ (k.bits - 1) else if k.bits == 64 then 2 ^ 63 else 2 ^ k.bits

abbrev pub lower : IntKind → ℕ
lower k = if k.signed then 2 ^ (k.bits - 1) else if k.bits == 64 then 2 ^ 63 else 0

abbrev pub InRange : IntKind → ℤ → Type 0
InRange k v = (pos_part v < upper k) × (neg_part v ≤ lower k)

-- A canonical word has the value's low bits, and is the value exactly if the type holds it.
pub record IsCanonical (k : IntKind) (v c : ℤ) : Type 0 where
  pub ranged : InRange k c
  pub low_bits : to_word c % 2 ^ k.bits ≡ to_word v % 2 ^ k.bits
  pub kept : (c ≡ v) ↔ InRange k v

signed_8 :
    (v : ℤ)
    → IsI64 v
    → IsCanonical
        (record { bits = 8; signed = true })
        v
        (canonicalize (record { bits = 8; signed = true }) v)
unfolding canonicalize
signed_8 v h = record { ranged = ground arith; low_bits = ground arith; kept = ground arith }

signed_16 :
    (v : ℤ)
    → IsI64 v
    → IsCanonical
        (record { bits = 16; signed = true })
        v
        (canonicalize (record { bits = 16; signed = true }) v)
unfolding canonicalize
signed_16 v h = record { ranged = ground arith; low_bits = ground arith; kept = ground arith }

signed_32 :
    (v : ℤ)
    → IsI64 v
    → IsCanonical
        (record { bits = 32; signed = true })
        v
        (canonicalize (record { bits = 32; signed = true }) v)
unfolding canonicalize
signed_32 v h = record { ranged = ground arith; low_bits = ground arith; kept = ground arith }

signed_64 :
    (v : ℤ)
    → IsI64 v
    → IsCanonical
        (record { bits = 64; signed = true })
        v
        (canonicalize (record { bits = 64; signed = true }) v)
unfolding canonicalize
signed_64 v h = record { ranged = ground arith; low_bits = ground arith; kept = ground arith }

unsigned_8 :
    (v : ℤ)
    → IsI64 v
    → IsCanonical
        (record { bits = 8; signed = false })
        v
        (canonicalize (record { bits = 8; signed = false }) v)
unfolding canonicalize
unsigned_8 v h = record { ranged = ground arith; low_bits = ground arith; kept = ground arith }

unsigned_16 :
    (v : ℤ)
    → IsI64 v
    → IsCanonical
        (record { bits = 16; signed = false })
        v
        (canonicalize (record { bits = 16; signed = false }) v)
unfolding canonicalize
unsigned_16 v h = record { ranged = ground arith; low_bits = ground arith; kept = ground arith }

unsigned_32 :
    (v : ℤ)
    → IsI64 v
    → IsCanonical
        (record { bits = 32; signed = false })
        v
        (canonicalize (record { bits = 32; signed = false }) v)
unfolding canonicalize
unsigned_32 v h = record { ranged = ground arith; low_bits = ground arith; kept = ground arith }

unsigned_64 :
    (v : ℤ)
    → IsI64 v
    → IsCanonical
        (record { bits = 64; signed = false })
        v
        (canonicalize (record { bits = 64; signed = false }) v)
unfolding canonicalize
unsigned_64 v h = record { ranged = ground arith; low_bits = ground arith; kept = ground arith }

kind_of : {a k : IntKind} → some a ≡ some k → a ≡ k
kind_of e = cc

-- For each of the eight integer types and every `i64`: the canonical word lies within the type's
-- bounds, agrees with the value in the low bits of the type's width, and is the value itself
-- exactly if the value lies within the bounds. So an operation of a narrow type overflows exactly
-- if its 64-bit result is changed by being made canonical.
pub canonicalize-IsCanonical :
    (ty : Ty) (k : IntKind) (v : ℤ)
    → int_kind ty ≡ some k
    → IsI64 v
    → IsCanonical k v (canonicalize k v)
unfolding int_kind
canonicalize-IsCanonical i8 k v e h =
    subst (λ q. IsCanonical q v (canonicalize q v)) (kind_of e) (signed_8 v h)
canonicalize-IsCanonical i16 k v e h =
    subst (λ q. IsCanonical q v (canonicalize q v)) (kind_of e) (signed_16 v h)
canonicalize-IsCanonical i32 k v e h =
    subst (λ q. IsCanonical q v (canonicalize q v)) (kind_of e) (signed_32 v h)
canonicalize-IsCanonical i64 k v e h =
    subst (λ q. IsCanonical q v (canonicalize q v)) (kind_of e) (signed_64 v h)
canonicalize-IsCanonical u8 k v e h =
    subst (λ q. IsCanonical q v (canonicalize q v)) (kind_of e) (unsigned_8 v h)
canonicalize-IsCanonical u16 k v e h =
    subst (λ q. IsCanonical q v (canonicalize q v)) (kind_of e) (unsigned_16 v h)
canonicalize-IsCanonical u32 k v e h =
    subst (λ q. IsCanonical q v (canonicalize q v)) (kind_of e) (unsigned_32 v h)
canonicalize-IsCanonical u64 k v e h =
    subst (λ q. IsCanonical q v (canonicalize q v)) (kind_of e) (unsigned_64 v h)
canonicalize-IsCanonical _ k v e h = cc

narrow-IsI64 : (ty : Ty) (k : IntKind) (v : ℤ) → int_kind ty ≡ some k → InRange k v → IsI64 v
unfolding int_kind
narrow-IsI64 ty k v e h = ground arith

accepts-InRange :
    (a b : Ty) (k source : IntKind) (v : ℤ)
    → int_kind a ≡ some k
    → int_kind b ≡ some source
    → accepts k source ≡ true
    → InRange source v
    → InRange k v
unfolding int_kind accepts
accepts-InRange a b k source v ea eb h r = ground arith

-- A word of the source that a type which does not accept it lacks.
abbrev lacking : IntKind → IntKind → ℤ
lacking k source = if source.signed && not k.signed then negsuc 0 else pos (upper source - 1)

lacking-InRange :
    (b : Ty) (k source : IntKind) → int_kind b ≡ some source → InRange source (lacking k source)
unfolding int_kind
lacking-InRange b k source e = ground arith

lacking-out :
    (a b : Ty) (k source : IntKind)
    → int_kind a ≡ some k
    → int_kind b ≡ some source
    → accepts k source ≡ false
    → ¬ InRange k (lacking k source)
unfolding int_kind accepts
lacking-out a b k source ea eb h r = ground arith

-- A conversion between integer types is free exactly if no word of the one has to be changed to be a
-- canonical word of the other. A word of a 64-bit type is any `i64`, whose bits are kept and not its
-- number: `u64` accepts `i8`, and reads the word of -1 as all its bits set.
pub accepts-canonicalize_iff :
    (a b : Ty) (k source : IntKind)
    → int_kind a ≡ some k
    → int_kind b ≡ some source
    → (accepts k source ≡ true) ↔ ((v : ℤ) → InRange source v → canonicalize k v ≡ v)
accepts-canonicalize_iff a b k source ea eb =
    let canonical : (v : ℤ) → InRange source v → IsCanonical k v (canonicalize k v) =
      λ v r. canonicalize-IsCanonical a k v ea (narrow-IsI64 b source v eb r) in
    (
      λ h v r. (canonical v r).kept.1 (accepts-InRange a b k source v ea eb h r),
      λ h. elim (Bool-cases (accepts k source)) [
        | inl q ↦ q
        | inr q ↦
            let r = lacking-InRange b k source eb in
            absurd (
              lacking-out a b k source ea eb q
                ((canonical (lacking k source) r).kept.0 (h (lacking k source) r)))
      ],
    )
