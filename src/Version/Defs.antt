-- ===== src/Version/Defs.antt =====
-- crates/slopium-manifest/src/version.rs: `Version`, its parsing and its order.
use slopium.Base.{
  ℕ, Bool, true, false, ◌&&◌, ◌||◌, Option, none, some, List, [], ◌∷◌, compare, Ordering, ◌==◌,
  if◌then◌else◌, ◌>>=◌,
}
use slopium.Mir.{Text}
use slopium.Version.Text.{split_once, split, is_alphanumeric, all, parse_u64, compare_text}

pub record Version : Type 0 where
  pub major : ℕ
  pub minor : ℕ
  pub patch : ℕ
  pub pre : Option Text
  pub build : Option Text

unfoldable pub is_prerelease : Version → Bool
is_prerelease v = elim v.pre [ none ↦ false | some _ ↦ true ]

unfoldable pub no_empty_part : List Text → Bool
no_empty_part [] = true
no_empty_part ([] ∷ parts) = false
no_empty_part ((x ∷ xs) ∷ parts) = no_empty_part parts

-- The empty text has one part, which is empty.
unfoldable pub check_identifiers : Text → Bool
unfolding no_empty_part split all is_alphanumeric
check_identifiers text =
    no_empty_part (split 46 text) && all (λ c. is_alphanumeric c || c == 46 || c == 45) text

-- One of the three numbers: not empty, and no zero in front of more digits.
unfoldable pub number : Text → Option ℕ
unfolding parse_u64
number [] = none
number (x ∷ []) = parse_u64 (x ∷ [])
number (x ∷ y ∷ rest) = if x == 48 then none else parse_u64 (x ∷ y ∷ rest)

-- The text in front of a separator and the checked text behind it, where there is one.
unfoldable pub take_suffix : ℕ → Text → Option (Text × Option Text)
unfolding split_once check_identifiers
take_suffix separator text = elim (split_once separator text) [
  | none ↦ some (text, none)
  | some (before, after) ↦ if check_identifiers after then some (before, some after) else none
]

unfoldable pub numbers : List Text → Option (ℕ × ℕ × ℕ)
unfolding number
numbers (a ∷ b ∷ c ∷ []) =
    number a >>= λ major. number b >>= λ minor. number c >>= λ patch. some (major, minor, patch)
numbers _ = none

unfoldable pub parse : Text → Option Version
unfolding take_suffix numbers split
parse text = take_suffix 43 text >>= λ (rest, build). take_suffix 45 rest >>= λ (core, pre).
    numbers (split 46 core) >>= λ (major, minor, patch).
    some (record { major = major; minor = minor; patch = patch; pre = pre; build = build })

-- `Ordering::then_with`, with the second comparison at hand.
unfoldable pub then_with : Ordering → Ordering → Ordering
then_with Ordering.eq o = o
then_with Ordering.lt o = Ordering.lt
then_with Ordering.gt o = Ordering.gt

unfoldable pub compare_core : Version → Version → Ordering
unfolding then_with
compare_core a b =
    then_with (compare a.major b.major)
      (then_with (compare a.minor b.minor) (compare a.patch b.patch))

unfoldable pub compare_parsed : Option ℕ → Option ℕ → Ordering → Ordering
compare_parsed (some a) (some b) texts = compare a b
compare_parsed (some a) none texts = Ordering.lt
compare_parsed none (some b) texts = Ordering.gt
compare_parsed none none texts = texts

unfoldable pub compare_identifier : Text → Text → Ordering
unfolding compare_parsed parse_u64 compare_text
compare_identifier a b = compare_parsed (parse_u64 a) (parse_u64 b) (compare_text a b)

unfoldable pub compare_parts : List Text → List Text → Ordering
unfolding compare_identifier then_with
compare_parts [] [] = Ordering.eq
compare_parts [] (y ∷ ys) = Ordering.lt
compare_parts (x ∷ xs) [] = Ordering.gt
compare_parts (x ∷ xs) (y ∷ ys) = then_with (compare_identifier x y) (compare_parts xs ys)

unfoldable pub compare_prerelease : Text → Text → Ordering
unfolding compare_parts split
compare_prerelease a b = compare_parts (split 46 a) (split 46 b)

-- A release outranks its pre-releases.
unfoldable pub compare_pre : Option Text → Option Text → Ordering
unfolding compare_prerelease
compare_pre none none = Ordering.eq
compare_pre none (some b) = Ordering.gt
compare_pre (some a) none = Ordering.lt
compare_pre (some a) (some b) = compare_prerelease a b

unfoldable pub cmp : Version → Version → Ordering
unfolding compare_core compare_pre then_with
cmp a b = then_with (compare_core a b) (compare_pre a.pre b.pre)

unfoldable pub less_than : Version → Version → Bool
unfolding cmp
less_than a b = elim (cmp a b) [ Ordering.lt ↦ true | _ ↦ false ]
