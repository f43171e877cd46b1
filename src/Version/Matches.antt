-- ===== src/Version/Matches.antt =====
-- crates/slopium-manifest/src/version.rs: the order of versions, and what requirements match.
use slopium.Base.{
  ℕ, ◌+◌, ◌<◌, ◌≡◌, ◌↔◌, ◌⊎◌, inl, inr, refl, ◌∙◌, ap, true, false, ◌||◌, Option, none, some, List,
  [], ◌∷◌, arith, compare, Ordering, ltb, ◌==◌, if◌then◌else◌, Bool-cases, ◌≢◌, Option-cases,
}
use slopium.Mir.{Text}
use slopium.Version.Text.{compare_text, split, parse_u64}
use slopium.Version.Defs.{
  Version, then_with, compare_core, compare_parsed, compare_identifier, compare_parts,
  compare_prerelease, compare_pre, cmp, less_than, is_prerelease,
}
use slopium.Version.Requirement.{
  Op, caret, tilde, Comparator, VersionReq, eq_core, matches_caret, matches_tilde,
  comparator_matches, all_match, some_names, matches,
}

-- The first of the three numbers that differs decides.
abbrev pub CoreLess : Version → Version → Type 0
CoreLess a b =
    (a.major < b.major)
    ⊎ ((a.major ≡ b.major) × ((a.minor < b.minor) ⊎ ((a.minor ≡ b.minor) × (a.patch < b.patch))))

abbrev pub release_of : ℕ → ℕ → ℕ → Version
release_of a b c = record { major = a; minor = b; patch = c; pre = none; build = none }

-- The first release that a caret requirement with that many fields excludes.
abbrev pub caret_limit : ℕ → Version → Version
caret_limit fields bound =
    if ltb 0 bound.major || fields == 1
    then release_of (bound.major + 1) 0 0
    else if ltb 0 bound.minor || fields == 2
    then release_of 0 (bound.minor + 1) 0
    else release_of 0 0 (bound.patch + 1)

abbrev pub tilde_limit : ℕ → Version → Version
tilde_limit fields bound =
    if fields == 1
    then release_of (bound.major + 1) 0 0
    else release_of bound.major (bound.minor + 1) 0

core-CoreLess : (a b : Version) → CoreLess a b → compare_core a b ≡ Ordering.lt
unfolding compare_core then_with
core-CoreLess a b h = ground arith

less_than-CoreLess : (a b : Version) → less_than a b ≡ false → ¬ CoreLess a b
unfolding less_than cmp then_with
less_than-CoreLess a b h c =
    let smaller : less_than a b ≡ true = rw (core-CoreLess a b c, less_than, cmp) refl in absurd cc

-- The comparator of a caret requirement, before the rule on pre-releases.
matches_caret_iff :
    (fields : ℕ) (bound v : Version)
    → (matches_caret fields bound v ≡ true)
      ↔ ((less_than v bound ≡ false) × CoreLess v (caret_limit fields bound))
unfolding matches_caret eq_core
matches_caret_iff fields bound v = elim (Bool-cases (less_than v bound)) [
  | inl e ↦ rw e (λ h. absurd cc, λ h. absurd cc)
  | inr e ↦ let above = less_than-CoreLess v bound e in rw e ground arith
]

-- The comparator of a tilde requirement, before the rule on pre-releases.
matches_tilde_iff :
    (fields : ℕ) (bound v : Version)
    → (matches_tilde fields bound v ≡ true)
      ↔ ((less_than v bound ≡ false) × CoreLess v (tilde_limit fields bound))
unfolding matches_tilde
matches_tilde_iff fields bound v = elim (Bool-cases (less_than v bound)) [
  | inl e ↦ rw e (λ h. absurd cc, λ h. absurd cc)
  | inr e ↦ let above = less_than-CoreLess v bound e in rw e ground arith
]

-- A requirement of one comparator.
abbrev pub single : Op → ℕ → Version → Text → VersionReq
single op fields bound text = record {
  comparators = record { op = op; version = bound; fields = fields } ∷ [];
  text = text;
}

-- A pre-release is offered to a requirement that names a pre-release of the same three numbers only.
abbrev pub IsOffered : Version → Version → Type 0
IsOffered bound v =
    (t : Text)
    → v.pre ≡ some t
    → (bound.pre ≢ none)
      × (bound.major ≡ v.major)
      × (bound.minor ≡ v.minor)
      × (bound.patch ≡ v.patch)

same_core :
    (a b : Version)
    → (eq_core a b ≡ true) ↔ ((a.major ≡ b.major) × (a.minor ≡ b.minor) × (a.patch ≡ b.patch))
unfolding eq_core
same_core a b = ground arith

-- Whether the requirement names a pre-release of the candidate's numbers.
named_iff :
    (c : Comparator) (v : Version)
    → (some_names (c ∷ []) v ≡ true) ↔ (
        (c.version.pre ≢ none)
        × (c.version.major ≡ v.major)
        × (c.version.minor ≡ v.minor)
        × (c.version.patch ≡ v.patch))
unfolding some_names is_prerelease
named_iff c v =
    let core = same_core c.version v in
    elim (Option-cases c.version.pre) [
      | inl e ↦ rw e (λ h. absurd cc, λ h. absurd (h.0 refl))
      | inr (t, e) ↦ elim (Bool-cases (eq_core c.version v)) [
        | inl q ↦
            let (x, y, z) = core.0 q in rw (e, q) (λ h. ((λ z. absurd cc), x, y, z), λ h. refl)
        | inr q ↦
            rw (e, q)
              (λ h. absurd cc, λ h. let (n, x, y, z) = h in absurd (cc (core.1 (x, y, z), q)))
      ]
    ]

-- A requirement of one comparator matches what the comparator does, pre-releases apart.
matches-single_iff :
    (op : Op) (fields : ℕ) (bound v : Version) (text : Text)
    → (matches (single op fields bound text) v ≡ true) ↔ (
        (comparator_matches (record { op = op; version = bound; fields = fields }) v ≡ true)
        × IsOffered bound v)
unfolding matches all_match is_prerelease
matches-single_iff op fields bound v text =
    let c : Comparator = record { op = op; version = bound; fields = fields } in
    let named = named_iff c v in
    elim (Bool-cases (comparator_matches c v)) [
      | inl q ↦ elim (Option-cases v.pre) [
        | inl e ↦ rw (q, e) (λ h. (refl, λ t z. absurd cc), λ h. refl)
        | inr (t, e) ↦ rw (q, e) (λ h. (refl, λ u z. named.0 h), λ h. named.1 (h.1 t refl))
      ]
      | inr q ↦ rw q (λ h. absurd cc, λ h. absurd cc)
    ]

-- A requirement of one caret matches the versions that are not below its version and whose three
-- numbers are below the limit, and no others, except that a pre-release is matched only if the
-- requirement names a pre-release of the same three numbers. The limit steps the leftmost number that
-- is not zero, or, where the numbers written are all zero, the last one written.
pub matches-caret_iff :
    (fields : ℕ) (bound v : Version) (text : Text)
    → (matches (single caret fields bound text) v ≡ true)
      ↔ (((less_than v bound ≡ false) × CoreLess v (caret_limit fields bound)) × IsOffered bound v)
unfolding comparator_matches
matches-caret_iff fields bound v text =
    let whole = matches-single_iff caret fields bound v text in
    let arm = matches_caret_iff fields bound v in
    (λ h. (arm.0 (whole.0 h).0, (whole.0 h).1), λ h. whole.1 (arm.1 h.0, h.1))

-- A requirement of one tilde matches the versions that are not below its version and whose three
-- numbers are below the limit, and no others, except that a pre-release is matched only if the
-- requirement names a pre-release of the same three numbers. The limit steps the minor number, or the
-- major one if no other was written.
pub matches-tilde_iff :
    (fields : ℕ) (bound v : Version) (text : Text)
    → (matches (single tilde fields bound text) v ≡ true)
      ↔ (((less_than v bound ≡ false) × CoreLess v (tilde_limit fields bound)) × IsOffered bound v)
unfolding comparator_matches
matches-tilde_iff fields bound v text =
    let whole = matches-single_iff tilde fields bound v text in
    let arm = matches_tilde_iff fields bound v in
    (λ h. (arm.0 (whole.0 h).0, (whole.0 h).1), λ h. whole.1 (arm.1 h.0, h.1))

abbrev pub flip : Ordering → Ordering
flip Ordering.lt = Ordering.gt
flip Ordering.eq = Ordering.eq
flip Ordering.gt = Ordering.lt

flip-compare : (a b : ℕ) → compare b a ≡ flip (compare a b)
flip-compare a b = ground arith

flip-then_with : (a b : Ordering) → then_with (flip a) (flip b) ≡ flip (then_with a b)
unfolding then_with
flip-then_with Ordering.lt b = refl
flip-then_with Ordering.eq b = refl
flip-then_with Ordering.gt b = refl

both : (a b c d : Ordering) → a ≡ flip c → b ≡ flip d → then_with a b ≡ flip (then_with c d)
both a b c d p q = ap (λ x. then_with x b) p ∙ ap (then_with (flip c)) q ∙ flip-then_with c d

flip-compare_text : (a b : Text) → compare_text b a ≡ flip (compare_text a b)
unfolding compare_text
flip-compare_text [] [] = refl
flip-compare_text [] (y ∷ ys) = refl
flip-compare_text (x ∷ xs) [] = refl
flip-compare_text (x ∷ xs) (y ∷ ys) = ground (arith, flip-compare_text xs ys)

flip-compare_parsed :
    (a b : Option ℕ) (s t : Ordering)
    → s ≡ flip t
    → compare_parsed b a s ≡ flip (compare_parsed a b t)
unfolding compare_parsed
flip-compare_parsed none none s t e = e
flip-compare_parsed none (some b) s t e = refl
flip-compare_parsed (some a) none s t e = refl
flip-compare_parsed (some a) (some b) s t e = flip-compare a b

flip-compare_parts : (a b : List Text) → compare_parts b a ≡ flip (compare_parts a b)
unfolding compare_parts compare_identifier
flip-compare_parts [] [] = refl
flip-compare_parts [] (y ∷ ys) = refl
flip-compare_parts (x ∷ xs) [] = refl
flip-compare_parts (x ∷ xs) (y ∷ ys) =
    both (compare_identifier y x) (compare_parts ys xs) (compare_identifier x y)
      (compare_parts xs ys)
      (flip-compare_parsed (parse_u64 x) (parse_u64 y) (compare_text y x) (compare_text x y)
        (flip-compare_text x y))
      (flip-compare_parts xs ys)

flip-compare_pre : (a b : Option Text) → compare_pre b a ≡ flip (compare_pre a b)
unfolding compare_pre compare_prerelease
flip-compare_pre none none = refl
flip-compare_pre none (some b) = refl
flip-compare_pre (some a) none = refl
flip-compare_pre (some a) (some b) = flip-compare_parts (split 46 a) (split 46 b)

flip-compare_core : (a b : Version) → compare_core b a ≡ flip (compare_core a b)
unfolding compare_core then_with
flip-compare_core a b = ground arith

-- Comparing two versions the other way round gives the opposite answer, pre-releases included.
pub flip-cmp : (a b : Version) → cmp b a ≡ flip (cmp a b)
unfolding cmp
flip-cmp a b =
    both (compare_core b a) (compare_pre b.pre a.pre) (compare_core a b) (compare_pre a.pre b.pre)
      (flip-compare_core a b) (flip-compare_pre a.pre b.pre)
