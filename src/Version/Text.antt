-- ===== src/Version/Text.antt =====
-- Rust's operations on text that crates/slopium-manifest/src/version.rs uses, on code points.
use slopium.Base.{
  ℕ, ◌+◌, ◌*◌, ◌-◌, ◌^◌, Bool, true, false, ◌&&◌, ◌||◌, Option, none, some, List, [], ◌∷◌, compare,
  Ordering, leb, ltb, ◌==◌, if◌then◌else◌,
}
use slopium.Mir.{Text}

-- `split_once`.
unfoldable pub split_once : ℕ → Text → Option (Text × Text)
split_once c [] = none
split_once c (x ∷ xs) =
    let rest = split_once c xs in
    if x == c
    then some ([], xs)
    else elim rest [ none ↦ none | some (before, after) ↦ some (x ∷ before, after) ]

-- `split`: one part more than there are separators.
unfoldable pub split : ℕ → Text → List Text
split c [] = [] ∷ []
split c (x ∷ xs) =
    let rest = split c xs in
    if x == c
    then [] ∷ rest
    else elim rest [ [] ↦ (x ∷ []) ∷ [] | part ∷ parts ↦ (x ∷ part) ∷ parts ]

unfoldable pub is_digit : ℕ → Bool
is_digit c = leb 48 c && leb c 57

unfoldable pub is_alphanumeric : ℕ → Bool
unfolding is_digit
is_alphanumeric c = is_digit c || (leb 65 c && leb c 90) || (leb 97 c && leb c 122)

unfoldable pub all : (ℕ → Bool) → Text → Bool
all p [] = true
all p (x ∷ xs) = p x && all p xs

unfoldable pub digits_value : ℕ → Text → ℕ
digits_value n [] = n
digits_value n (x ∷ xs) = digits_value (10 * n + (x - 48)) xs

unfoldable pub digits_u64 : Text → Option ℕ
unfolding all is_digit digits_value
digits_u64 [] = none
digits_u64 (x ∷ xs) =
    if all is_digit (x ∷ xs) && ltb (digits_value 0 (x ∷ xs)) (2 ^ 64)
    then some (digits_value 0 (x ∷ xs))
    else none

-- `parse::<u64>`, which takes a plus sign before the digits.
unfoldable pub parse_u64 : Text → Option ℕ
unfolding digits_u64
parse_u64 [] = none
parse_u64 (x ∷ xs) = if x == 43 then digits_u64 xs else digits_u64 (x ∷ xs)

-- `str::cmp`: the order of bytes in UTF-8 is that of code points.
unfoldable pub compare_text : Text → Text → Ordering
compare_text [] [] = Ordering.eq
compare_text [] (y ∷ ys) = Ordering.lt
compare_text (x ∷ xs) [] = Ordering.gt
compare_text (x ∷ xs) (y ∷ ys) = elim (compare x y) [
  | Ordering.eq ↦ compare_text xs ys
  | Ordering.lt ↦ Ordering.lt
  | Ordering.gt ↦ Ordering.gt
]

unfoldable pub eq_text : Text → Text → Bool
eq_text [] [] = true
eq_text (x ∷ xs) (y ∷ ys) = x == y && eq_text xs ys
eq_text _ _ = false

-- `char::is_whitespace`.
unfoldable pub is_space : ℕ → Bool
is_space c =
    c == 32
    || (leb 9 c && leb c 13)
    || c == 133
    || c == 160
    || c == 5760
    || (leb 8192 c && leb c 8202)
    || c == 8232
    || c == 8233
    || c == 8239
    || c == 8287
    || c == 12288

unfoldable pub trim_start : Text → Text
unfolding is_space
trim_start [] = []
trim_start (x ∷ xs) = let rest = trim_start xs in if is_space x then rest else x ∷ xs

-- `trim`.
unfoldable pub trim : Text → Text
unfolding trim_start
trim t = mathlib.Core.List.reverse (trim_start (mathlib.Core.List.reverse (trim_start t)))
