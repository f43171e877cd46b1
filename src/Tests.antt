-- ===== src/Tests.antt =====
-- A counting loop of three blocks and the theorems at it, at small interval lists and at integers.
mod Digests
mod Passes
mod Reading
use slopium.Base.{
  ℕ, ◌<◌, ◌≡◌, ◌≢◌, ◌↔◌, inl, inr, refl, true, false, none, some, List, [], ◌∷◌, arith, length, In,
}
use slopium.Base.{map, zero, suc, Bool}
use slopium.Mir.{free}
use slopium.Cfg.DefUse.{defs}
use slopium.Version.Defs.{Version, less_than, cmp, parse}
use slopium.Version.Requirement.{caret, tilde, matches, matches_caret, parse_partial}
use slopium.Version.Matches.{
  CoreLess, release_of, caret_limit, tilde_limit, flip, single, IsOffered, matches-caret_iff,
  matches-tilde_iff, flip-cmp,
}
use slopium.Opt.Dead.{eliminate_dead_code, volatile_count}
use slopium.Opt.DeadCorrect.{IsSwept, eliminate_dead_code-IsSwept}
use slopium.Opt.DeadEffects.{effects, eliminate_dead_code-effects}
use slopium.Opt.Fold.{Floats, int, bool, fold_binary}
use slopium.Opt.Meaning.{meaning}
use slopium.Opt.MeaningCorrect.{fold_binary-meaning}
use slopium.Opt.FoldCorrect.{FoldsTo, fold_binary-FoldsTo}
use slopium.Opt.Constants.{unknown, transfer}
use slopium.Opt.ConstantsCorrect.{Env, Exposes, Describes, Runs, next, done, transfer-Describes}
use slopium.Base.Int.{ℤ, pos, negsuc}
use slopium.Mir.{
  Text, Span, i64, i16, i8, u8, MirLocal, MirFunction, Statement, Instruction, const_int, binary,
  less, add, u64, shl, return, goto, branch, BlockId, LocalId,
}
use slopium.Cfg.Interval.{Interval}
use slopium.Cfg.Graph.{new, searched, is_reachable}
use slopium.Cfg.Reach.{PathTo}
use slopium.Cfg.Correct.{is_reachable-iff-path}
use slopium.Cfg.Liveness.{Liveness, liveness}
use slopium.Cfg.Analysis.{IsExact, liveness-IsExact}
use slopium.Cfg.Cover.{AreIntervals}
use slopium.Regalloc.{register, memory, Allocation, location, allocate, allocate_function}
use slopium.Regalloc.Locations.{IsAscending}
use slopium.Regalloc.Correct.{
  Fits, allocate_safe, pinned_in_memory, allocate-Fits, used_registers_exact,
}
use slopium.Regalloc.Interference.{IsSafe, allocate_function-IsSafe}
use slopium.Integers.{int_kind, canonicalize, accepts}
use slopium.Integers.Canonical.{
  IsCanonical, InRange, canonicalize-IsCanonical, accepts-canonicalize_iff,
}

abbrev here : Span
here = record { start = 0; end = 0; line = 1; column = 1 }

abbrev at_here : Instruction → Statement
at_here i = record { instruction = i; span = here }

abbrev word : MirLocal
word = record { ty = i64; name = none; is_param = false }

-- `let i = 0, n = 10; while i < n { i = i + 1 }; return i`
abbrev counting : MirFunction
counting = record {
  name = [];
  emit = true;
  inline_hint = false;
  params = [];
  return_type = i64;
  locals = word ∷ word ∷ word ∷ [];
  blocks =
      record {
        statements = at_here (const_int 0 (pos 0)) ∷ at_here (const_int 1 (pos 10)) ∷ [];
        terminator = goto 1;
        terminator_span = here;
      }
      ∷ record {
        statements = at_here (binary 2 less 0 1 i64) ∷ [];
        terminator = branch 2 2 3;
        terminator_span = here;
      }
      ∷ record {
        statements = at_here (binary 0 add 0 1 i64) ∷ [];
        terminator = goto 1;
        terminator_span = here;
      }
      ∷ record { statements = []; terminator = return (some 0); terminator_span = here }
      ∷ [];
  entry = 0;
  span = here;
}

allocate_function-IsSafe_example :
    (a : Allocation) × (allocate_function counting (new counting) 2 (false ∷ []) ≡ some a)
    × ((b : BlockId) → is_reachable (new counting) b ≡ true → IsSafe counting a b)
allocate_function-IsSafe_example = allocate_function-IsSafe counting (omega arith) 2 (false ∷ [])

liveness-IsExact_example :
    (l : Liveness) × (liveness counting (new counting) ≡ some l)
    × ((b : BlockId)
        → is_reachable (new counting) b ≡ true
        → (x : LocalId) → x < length counting.locals
        → IsExact counting l b x)
liveness-IsExact_example = liveness-IsExact counting (omega arith)

is_reachable-iff-path_example :
    ((is_reachable (new counting) 3 ≡ true) ↔ PathTo counting.blocks counting.entry 3)
    × (In 3 (new counting).reverse_postorder ↔ (is_reachable (new counting) 3 ≡ true))
    × ((searched counting).stack ≡ [])
is_reachable-iff-path_example = is_reachable-iff-path counting (omega arith) 3

abbrev first : Interval
first = record { local = 0; start = 0; end = 6 }

abbrev second : Interval
second = record { local = 1; start = 2; end = 4 }

abbrev two : List Interval
two = first ∷ second ∷ []

two-AreIntervals : AreIntervals 3 two
two-AreIntervals = record {
  distinct = ((λ e. absurd (omega arith), tt), (tt, tt));
  bounded = (omega arith, (omega arith, tt));
}

allocate_safe_example : location (allocate 3 2 [] two) 0 ≢ location (allocate 3 2 [] two) 1
allocate_safe_example =
    allocate_safe 3 2 [] two two-AreIntervals first second (inl refl) (inr (inl refl)) (omega arith)
      (record { fst_before = omega arith; snd_before = omega arith })

pinned_in_memory_example : (slot : ℕ) × (location (allocate 3 2 (true ∷ []) two) 0 ≡ memory slot)
pinned_in_memory_example =
    pinned_in_memory 3 2 (true ∷ []) two two-AreIntervals 0 (omega arith) refl

allocate-Fits_example :
    ((l : ℕ) → l < 3 → Fits 1 (allocate 3 1 [] two).memory_slots (location (allocate 3 1 [] two) l))
    × ((k : ℕ)
        → k < (allocate 3 1 [] two).memory_slots
        → (l : ℕ) × (l < 3) × (location (allocate 3 1 [] two) l ≡ memory k))
allocate-Fits_example = allocate-Fits 3 1 [] two two-AreIntervals

used_registers_exact_example :
    IsAscending (allocate 3 2 [] two).used_registers
    × ((r : ℕ)
        → In r (allocate 3 2 [] two).used_registers
          ↔ ((l : ℕ) × (l < 3) × (location (allocate 3 2 [] two) l ≡ register r)))
used_registers_exact_example = used_registers_exact 3 2 [] two two-AreIntervals

-- `200` as an `i8` is `-56`.
canonicalize-IsCanonical_example :
    IsCanonical
      (record { bits = 8; signed = true })
      (pos 200)
      (canonicalize (record { bits = 8; signed = true }) (pos 200))
unfolding int_kind
canonicalize-IsCanonical_example =
    canonicalize-IsCanonical i8 (record { bits = 8; signed = true }) (pos 200) refl
      (omega arith, omega arith)

accepts-canonicalize_iff_example :
    (accepts (record { bits = 16; signed = true }) (record { bits = 8; signed = false }) ≡ true) ↔ (
      (v : ℤ)
      → InRange (record { bits = 8; signed = false }) v
      → canonicalize (record { bits = 16; signed = true }) v ≡ v)
unfolding int_kind
accepts-canonicalize_iff_example =
    accepts-canonicalize_iff i16 u8 (record { bits = 16; signed = true })
      (record { bits = 8; signed = false }) refl refl

-- The word of -1 has every bit set as a `u64`, which takes it as it is; a `u8` does not.
conversion_test :
    (accepts (record { bits = 64; signed = false }) (record { bits = 8; signed = true }) ≡ true)
    × (canonicalize (record { bits = 64; signed = false }) (negsuc 0) ≡ negsuc 0)
    × (canonicalize (record { bits = 8; signed = false }) (negsuc 0) ≡ pos 255)
unfolding accepts canonicalize
conversion_test = (refl, refl, refl)

-- Nothing reads the constant that is written to the fourth local.
abbrev wasteful : MirFunction
wasteful = record counting {
  locals = word ∷ word ∷ word ∷ word ∷ [];
  blocks =
      record {
        statements =
            at_here (const_int 0 (pos 0)) ∷ at_here (const_int 3 (pos 7)) ∷ at_here (free 1) ∷ [];
        terminator = return (some 0);
        terminator_span = here;
      }
      ∷ [];
}

eliminate_dead_code-IsSwept_example :
    (g : MirFunction) × (changed : Bool) × (eliminate_dead_code wasteful ≡ some (g, changed))
    × IsSwept wasteful g
    × (changed ≡ false → g ≡ wasteful)
eliminate_dead_code-IsSwept_example = eliminate_dead_code-IsSwept wasteful

eliminate_dead_code-effects_example :
    (g : MirFunction) × (changed : Bool) × (eliminate_dead_code wasteful ≡ some (g, changed))
    × (map (λ b. effects b.statements) wasteful.blocks ≡ map (λ b. effects b.statements) g.blocks)
    × (volatile_count wasteful.blocks ≡ volatile_count g.blocks)
eliminate_dead_code-effects_example = eliminate_dead_code-effects wasteful

abbrev no_floats : Floats
no_floats = record {
  plus = λ a b. a;
  minus = λ a b. a;
  times = λ a b. a;
  over = λ a b. a;
  lt = λ a b. false;
  le = λ a b. false;
  eq = λ a b. false;
  ne = λ a b. true;
}

-- `100 + 27` is an `i8`, and `100 + 28` is left to trap.
fold_binary-FoldsTo_example :
    FoldsTo
      (record { bits = 8; signed = true })
      (pos 128)
      (fold_binary no_floats add i8 (int (pos 100)) (int (pos 28)))
unfolding int_kind
fold_binary-FoldsTo_example =
    fold_binary-FoldsTo no_floats add i8 (record { bits = 8; signed = true }) (pos 100) (pos 28)
      (pos 128) refl (λ e. cc) refl

abbrev nothing : Env
nothing l = none

-- The locals behind `0 = 5` and behind `1 = 0 + 0`.
abbrev five : Env
five l = elim l [ zero ↦ some (int (pos 5)) | suc _ ↦ none ]

abbrev ten : Env
ten l = elim l [
  | zero ↦ some (int (pos 5))
  | suc k ↦ elim k [ zero ↦ some (int (pos 10)) | suc _ ↦ none ]
]

five-frame :
    (l : LocalId)
    → defs (const_int 0 (pos 5)) ≢ some l
    → ¬ Exposes (const_int 0 (pos 5)) l
    → five l ≡ nothing l
unfolding defs
five-frame zero n x = absurd (n refl)
five-frame (suc _) n x = refl

five-Runs : Runs no_floats (const_int 0 (pos 5)) nothing five
five-Runs = record { frame = five-frame; result = refl }

ten-frame :
    (l : LocalId)
    → defs (binary 1 add 0 0 i64) ≢ some l
    → ¬ Exposes (binary 1 add 0 0 i64) l
    → ten l ≡ five l
unfolding defs
ten-frame zero n x = refl
ten-frame (suc zero) n x = absurd (n refl)
ten-frame (suc (suc _)) n x = refl

ten-Runs : Runs no_floats (binary 1 add 0 0 i64) five ten
unfolding meaning
ten-Runs = record { frame = ten-frame; result = (int (pos 10), refl, refl) }

unknown-Describes : Describes (unknown ∷ unknown ∷ []) nothing
unknown-Describes zero = refl
unknown-Describes (suc zero) = refl
unknown-Describes (suc (suc _)) = tt

transfer-Describes_example :
    Describes
      (transfer no_floats
        (const_int 0 (pos 5) ∷ binary 1 add 0 0 i64 ∷ [])
        (unknown ∷ unknown ∷ []))
      ten
transfer-Describes_example =
    transfer-Describes no_floats (const_int 0 (pos 5) ∷ binary 1 add 0 0 i64 ∷ [])
      (unknown ∷ unknown ∷ []) nothing ten unknown-Describes
      (next (const_int 0 (pos 5)) nothing five five-Runs
        (next (binary 1 add 0 0 i64) five ten ten-Runs (done ten)))

fold_binary-meaning_example :
    fold_binary no_floats add u64 (int (negsuc 0)) (int (pos 1))
    ≡ meaning no_floats add u64 (int (negsuc 0)) (int (pos 1))
fold_binary-meaning_example = fold_binary-meaning no_floats add u64 (int (negsuc 0)) (int (pos 1))

-- The largest `u64` and one trap, -7 is less than 2, a `u8` keeps the low bits of a shift, and an `i8`
-- does not hold 128.
meaning_test :
    (meaning no_floats add u64 (int (negsuc 0)) (int (pos 1)) ≡ none)
    × (meaning no_floats less i64 (int (negsuc 6)) (int (pos 2)) ≡ some (bool true))
    × (meaning no_floats shl u8 (int (pos 255)) (int (pos 4)) ≡ some (int (pos 240)))
    × (meaning no_floats add i8 (int (pos 100)) (int (pos 28)) ≡ none)
unfolding meaning
meaning_test = (refl, refl, refl, refl)

-- `^0.2.3` takes `0.2.9` but not `0.3.0`, nor a pre-release of its own version.
caret_test :
    (matches_caret 3 (release_of 0 2 3) (release_of 0 2 9) ≡ true)
    × (matches_caret 3 (release_of 0 2 3) (release_of 0 3 0) ≡ false)
    × (matches_caret 3 (release_of 0 2 3) (record (release_of 0 2 3) { pre = some (97 ∷ []) })
        ≡ false)
unfolding matches_caret
caret_test = (refl, refl, refl)

-- `1.0`, read as a requirement, is `^1.0.0` with two fields.
parse_partial_test : parse_partial (49 ∷ 46 ∷ 48 ∷ []) ≡ some (release_of 1 0 0, 2)
unfolding parse_partial
parse_partial_test = refl

-- `1.0.0-b` is read, and `01.0.0` is refused.
version_test :
    (parse (49 ∷ 46 ∷ 48 ∷ 46 ∷ 48 ∷ 45 ∷ 98 ∷ [])
      ≡ some (record (release_of 1 0 0) { pre = some (98 ∷ []) }))
    × (parse (48 ∷ 49 ∷ 46 ∷ 48 ∷ 46 ∷ 48 ∷ []) ≡ none)
unfolding parse
version_test = (refl, refl)

-- `^1.0.0`, written out.
abbrev one_caret : Text
one_caret = 94 ∷ 49 ∷ 46 ∷ 48 ∷ 46 ∷ 48 ∷ []

-- `1.1.0-a`
abbrev prerelease : Version
prerelease = record (release_of 1 1 0) { pre = some (97 ∷ []) }

matches-caret_iff_example :
    (matches (single caret 3 (release_of 1 0 0) one_caret) prerelease ≡ true) ↔ (
      ((less_than prerelease (release_of 1 0 0) ≡ false)
        × CoreLess prerelease (caret_limit 3 (release_of 1 0 0)))
      × IsOffered (release_of 1 0 0) prerelease)
matches-caret_iff_example = matches-caret_iff 3 (release_of 1 0 0) prerelease one_caret

matches-tilde_iff_example :
    (matches (single tilde 2 (release_of 1 2 0) []) (release_of 1 2 9) ≡ true) ↔ (
      ((less_than (release_of 1 2 9) (release_of 1 2 0) ≡ false)
        × CoreLess (release_of 1 2 9) (tilde_limit 2 (release_of 1 2 0)))
      × IsOffered (release_of 1 2 0) (release_of 1 2 9))
matches-tilde_iff_example = matches-tilde_iff 2 (release_of 1 2 0) (release_of 1 2 9) []

-- `^1.0.0` takes `1.1.0`, but not `1.1.0-a`, which its comparator takes.
prerelease_test :
    (matches (single caret 3 (release_of 1 0 0) one_caret) (release_of 1 1 0) ≡ true)
    × (matches (single caret 3 (release_of 1 0 0) one_caret) prerelease ≡ false)
    × (matches_caret 3 (release_of 1 0 0) prerelease ≡ true)
unfolding matches matches_caret
prerelease_test = (refl, refl, refl)

flip-cmp_example :
    cmp (release_of 1 0 0) (record (release_of 1 0 0) { pre = some (97 ∷ []) })
    ≡ flip (cmp (record (release_of 1 0 0) { pre = some (97 ∷ []) }) (release_of 1 0 0))
flip-cmp_example = flip-cmp (record (release_of 1 0 0) { pre = some (97 ∷ []) }) (release_of 1 0 0)
