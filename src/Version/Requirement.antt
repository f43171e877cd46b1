-- ===== src/Version/Requirement.antt =====
-- crates/slopium-manifest/src/version.rs: `Comparator` and `VersionReq`, their matching and parsing.
use slopium.Base.{
  ℕ, zero, suc, ◌-◌, Bool, true, false, ◌&&◌, ◌||◌, not, Option, none, some, List, [], ◌∷◌, ◌++◌,
  ltb, ◌==◌, if◌then◌else◌, ◌>>=◌, length,
}
use slopium.Mir.{Text}
use slopium.Version.Text.{split, eq_text, trim}
use slopium.Version.Defs.{Version, is_prerelease, parse, less_than}

pub data Op : Type 0 where
  caret tilde exact greater greater_eq less less_eq : Op

pub record Comparator : Type 0 where
  pub op : Op
  pub version : Version
  pub fields : ℕ

unfoldable pub eq_core : Version → Version → Bool
eq_core a b = a.major == b.major && a.minor == b.minor && a.patch == b.patch

unfoldable pub eq_pre : Option Text → Option Text → Bool
unfolding eq_text
eq_pre none none = true
eq_pre (some a) (some b) = eq_text a b
eq_pre _ _ = false

unfoldable pub matches_exact : ℕ → Version → Version → Bool
unfolding eq_core eq_pre
matches_exact fields bound v =
    if fields == 1
    then v.major == bound.major
    else if fields == 2
    then v.major == bound.major && v.minor == bound.minor
    else eq_core v bound && eq_pre v.pre bound.pre

unfoldable pub matches_caret : ℕ → Version → Version → Bool
unfolding less_than eq_core
matches_caret fields bound v =
    if less_than v bound
    then false
    else if ltb 0 bound.major || fields == 1
    then v.major == bound.major
    else if ltb 0 bound.minor || fields == 2
    then v.major == 0 && v.minor == bound.minor
    else eq_core v bound

unfoldable pub matches_tilde : ℕ → Version → Version → Bool
unfolding less_than
matches_tilde fields bound v =
    if less_than v bound
    then false
    else if fields == 1
    then v.major == bound.major
    else v.major == bound.major && v.minor == bound.minor

-- `Comparator::matches`.
unfoldable pub comparator_matches : Comparator → Version → Bool
unfolding matches_exact matches_caret matches_tilde less_than
comparator_matches c v = elim c.op [
  | exact ↦ matches_exact c.fields c.version v
  | greater ↦ less_than c.version v
  | greater_eq ↦ not (less_than v c.version)
  | less ↦ less_than v c.version
  | less_eq ↦ not (less_than c.version v)
  | caret ↦ matches_caret c.fields c.version v
  | tilde ↦ matches_tilde c.fields c.version v
]

pub record VersionReq : Type 0 where
  pub comparators : List Comparator
  pub text : Text

unfoldable pub any : VersionReq
any = record { comparators = []; text = 42 ∷ [] }

unfoldable pub all_match : List Comparator → Version → Bool
unfolding comparator_matches
all_match [] v = true
all_match (c ∷ cs) v = comparator_matches c v && all_match cs v

unfoldable pub some_names : List Comparator → Version → Bool
unfolding is_prerelease eq_core
some_names [] v = false
some_names (c ∷ cs) v = (is_prerelease c.version && eq_core c.version v) || some_names cs v

unfoldable pub matches : VersionReq → Version → Bool
unfolding all_match some_names is_prerelease
matches req v =
    if not (all_match req.comparators v)
    then false
    else if is_prerelease v
    then some_names req.comparators v
    else true

-- `text.find(['-', '+'])` and `split_at`.
unfoldable pub split_suffix : Text → Text × Text
split_suffix [] = ([], [])
split_suffix (x ∷ xs) =
    let (core, suffix) = split_suffix xs in
    if x == 45 || x == 43 then ([], x ∷ xs) else (x ∷ core, suffix)

unfoldable pub pad : ℕ → Text → Text
pad zero core = core
pad (suc missing) core = pad missing (core ++ 46 ∷ 48 ∷ [])

unfoldable pub parse_partial : Text → Option (Version × ℕ)
unfolding split_suffix split pad parse
parse_partial text =
    let (core, suffix) = split_suffix text in
    let fields = length (split 46 core) in
    if fields == 0 || ltb 3 fields || length core == 0
    then none
    else parse (pad (3 - fields) core ++ suffix) >>= λ v. some (v, fields)

-- The longest operator first; a bare version is a caret requirement.
unfoldable pub parse_operator : Text → Op × Text
parse_operator [] = (caret, [])
parse_operator (x ∷ []) =
    if x == 94
    then (caret, [])
    else if x == 126
    then (tilde, [])
    else if x == 61
    then (exact, [])
    else if x == 62
    then (greater, [])
    else if x == 60
    then (less, [])
    else (caret, x ∷ [])
parse_operator (x ∷ y ∷ rest) =
    if x == 62 && y == 61
    then (greater_eq, rest)
    else if x == 60 && y == 61
    then (less_eq, rest)
    else if x == 94
    then (caret, y ∷ rest)
    else if x == 126
    then (tilde, y ∷ rest)
    else if x == 61
    then (exact, y ∷ rest)
    else if x == 62
    then (greater, y ∷ rest)
    else if x == 60
    then (less, y ∷ rest)
    else (caret, x ∷ y ∷ rest)

unfoldable pub parse_comparator : Text → Option Comparator
unfolding trim parse_operator parse_partial
parse_comparator piece = elim (trim piece) [
  | [] ↦ none
  | x ∷ xs ↦
      let (op, rest) = parse_operator (x ∷ xs) in
      parse_partial (trim rest) >>= λ (version, fields).
      some (record { op = op; version = version; fields = fields })
]

unfoldable pub parse_comparators : List Text → Option (List Comparator)
unfolding parse_comparator
parse_comparators [] = some []
parse_comparators (p ∷ ps) =
    let rest = parse_comparators ps in parse_comparator p >>= λ c. rest >>= λ cs. some (c ∷ cs)

-- `VersionReq::parse`.
unfoldable pub parse_req : Text → Option VersionReq
unfolding trim eq_text any parse_comparators split
parse_req text =
    if eq_text (trim text) (42 ∷ [])
    then some any
    else parse_comparators (split 44 (trim text)) >>= λ cs.
        some (record { comparators = cs; text = trim text })
