-- ===== src/Integers/Literals.antt =====
-- crates/slopic-core/src/ast.rs: what `IntLiteral::at` promises.
use slopium.Base.{◌%◌, ◌^◌, ◌≤◌, ◌≡◌, if◌then◌else◌}
use slopium.Base.Int.{ℤ, pos_part, neg_part}
use slopium.Integers.{IntKind, to_word, IntLiteral}
use slopium.Integers.Canonical.{InRange}

-- What the word of a literal means: the negated magnitude, or a word with the magnitude for its
-- low bits.
abbrev pub Denotes : IntKind → IntLiteral → ℤ → Type 0
Denotes k l v =
    if l.negative
    then (pos_part v ≤ 0) × (neg_part v ≡ l.magnitude)
    else (neg_part v ≤ 2 ^ 63) × (to_word v % 2 ^ k.bits ≡ l.magnitude)

pub record IsRead (k : IntKind) (l : IntLiteral) (v : ℤ) : Type 0 where
  pub ranged : InRange k v
  pub denotes : Denotes k l v
