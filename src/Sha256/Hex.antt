-- ===== src/Sha256/Hex.antt =====
-- crates/slopium-manifest/src/sha256.rs: `Digest::parse` and the printing of a digest. A text is its
-- bytes in UTF-8, as the source counts and cuts them.
use slopium.Base.{
  ℕ, ◌+◌, ◌*◌, ◌-◌, ◌/◌, ◌%◌, ◌<◌, ◌≡◌, refl, Bool, true, false, ◌&&◌, ◌||◌, not, Option, none,
  some, List, [], ◌∷◌, ltb, leb, ◌==◌, if◌then◌else◌, length, arith, All,
}

-- A digit, in lower case.
unfoldable pub hex_digit : ℕ → ℕ
hex_digit n = if ltb n 10 then 48 + n else 87 + n

-- `{byte:02x}` for each byte.
unfoldable pub display : List ℕ → List ℕ
unfolding hex_digit
display [] = []
display (b ∷ bs) = hex_digit (b / 16) ∷ hex_digit (b % 16) ∷ display bs

-- `char::to_digit(16)` on a byte.
unfoldable pub to_digit : ℕ → Option ℕ
to_digit c =
    if leb 48 c && leb c 57
    then some (c - 48)
    else if leb 97 c && leb c 102
    then some (c - 87)
    else if leb 65 c && leb c 70
    then some (c - 55)
    else none

-- `u8::from_str_radix(digits, 16)` on two bytes, which takes a plus sign in front.
unfoldable pub from_str_radix : ℕ → ℕ → Option ℕ
unfolding to_digit
from_str_radix c d = if c == 43 then to_digit d else elim (to_digit c) [
  | none ↦ none
  | some high ↦ elim (to_digit d) [ none ↦ none | some low ↦ some (high * 16 + low) ]
]

pub data Parsed : Type 0 where
  digest : List ℕ → Parsed
  invalid : Parsed
  -- A slice ends within a character.
  panics : Parsed

abbrev pub prepend : ℕ → Parsed → Parsed
prepend b (digest bs) = digest (b ∷ bs)
prepend b invalid = invalid
prepend b panics = panics

abbrev pub is_uppercase : ℕ → Bool
is_uppercase c = leb 65 c && leb c 90

-- Whether a character starts where these bytes do, or the text ends.
abbrev pub is_char_boundary : List ℕ → Bool
is_char_boundary [] = true
is_char_boundary (c ∷ cs) = ltb c 128 || leb 192 c

unfoldable pub parse_pairs : List ℕ → Parsed
unfolding from_str_radix
parse_pairs [] = digest []
parse_pairs (c ∷ []) = invalid
parse_pairs (c ∷ d ∷ rest) =
    let others = parse_pairs rest in
    if not (is_char_boundary rest) then panics else elim (from_str_radix c d) [
      | none ↦ invalid
      | some byte ↦ if is_uppercase c || is_uppercase d then invalid else prepend byte others
    ]

unfoldable pub parse_digest : List ℕ → Parsed
unfolding parse_pairs
parse_digest text = if length text == 64 then parse_pairs text else invalid

digit_back : (n : ℕ) → n < 16 → to_digit (hex_digit n) ≡ some n
unfolding to_digit hex_digit
digit_back n lt = ground arith

digit_plain : (n : ℕ) → n < 16 → (hex_digit n == 43) ≡ false
unfolding hex_digit
digit_plain n lt = ground arith

digit_lower : (n : ℕ) → n < 16 → is_uppercase (hex_digit n) ≡ false
unfolding hex_digit
digit_lower n lt = ground arith

display-boundary : (bs : List ℕ) → All (λ b. b < 256) bs → is_char_boundary (display bs) ≡ true
unfolding display hex_digit
display-boundary [] h = refl
display-boundary (b ∷ bs) h = let lt = h.0 in ground arith

length-display : (bs : List ℕ) → length (display bs) ≡ 2 * length bs
unfolding display
length-display [] = omega arith
length-display (b ∷ bs) = omega (arith, length-display bs)

byte_back : (b : ℕ) → b < 256 → from_str_radix (hex_digit (b / 16)) (hex_digit (b % 16)) ≡ some b
unfolding from_str_radix
byte_back b lt =
    let whole : b / 16 * 16 + b % 16 ≡ b = omega arith in
    rw
      (
        digit_plain (b / 16) (omega arith),
        from_str_radix,
        digit_back (b / 16) (omega arith),
        digit_back (b % 16) (omega arith),
        whole,
      )
      refl

parse_pairs-display : (bs : List ℕ) → All (λ b. b < 256) bs → parse_pairs (display bs) ≡ digest bs
unfolding parse_pairs display
parse_pairs-display [] h = refl
parse_pairs-display (b ∷ bs) h =
    let lt = h.0 in
    rw
      (
        display-boundary bs h.1,
        parse_pairs,
        byte_back b lt,
        digit_lower (b / 16) (omega arith),
        digit_lower (b % 16) (omega arith),
        parse_pairs-display bs h.1,
      )
      refl

-- A digest of 32 bytes that is printed is parsed back.
pub parse_digest-display :
    (bs : List ℕ) → length bs ≡ 32 → All (λ b. b < 256) bs → parse_digest (display bs) ≡ digest bs
unfolding parse_digest
parse_digest-display bs size h =
    let whole : (length (display bs) == 64) ≡ true = ground (arith, length-display bs) in
    rw (whole, parse_digest) (parse_pairs-display bs h)
