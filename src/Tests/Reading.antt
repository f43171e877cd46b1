-- ===== src/Tests/Reading.antt =====
-- The theorems on crates/slopic-core/src/parser.rs at `(a (b))` and at `) (a`.
use slopium.Base.{◌≡◌, refl, some, List, [], ◌∷◌, arith}
use slopium.Parser.{
  Token, left_paren, right_paren, SExpr, sexpr, SExprs, nil, cons, CompileResult, ok, err,
  Diagnostic, unexpected_close, unclosed_list, parse,
}
use slopium.Base.{ℕ, ◌+◌}
use slopium.Mir.{Span}
use slopium.Parser.Written.{
  word, group, AllWritten, nothing, also, tokens_of_all, forms_of, nesting_all,
}
use slopium.Parser
use slopium.Parser.Printed.{parse-tokens_of_all}
use slopium.Parser.Judged.{Judges, parse-Judges}
use slopium.Tests.{here}

-- One byte of the first line.
abbrev byte : ℕ → Span
byte n = record { start = n; end = n + 1; line = 1; column = n + 1 }

abbrev nested : AllWritten
nested =
    also
      (group (byte 0)
        (also (word (97 ∷ []) (byte 1))
          (also (group (byte 3) (also (word (98 ∷ []) (byte 4)) nothing) (byte 5)) nothing))
        (byte 6))
      nothing

parse-tokens_of_all_example : parse (tokens_of_all nested) ≡ some (ok (forms_of nested))
unfolding nesting_all
parse-tokens_of_all_example = parse-tokens_of_all nested (omega arith)

-- The outer list covers all seven bytes.
spans_test :
    forms_of nested
    ≡ cons
        (sexpr
          (Parser.list (
            cons (sexpr (Parser.atom (97 ∷ [])) (byte 1)) (
              cons
                (sexpr
                  (Parser.list (cons (sexpr (Parser.atom (98 ∷ [])) (byte 4)) nil))
                  (record { start = 3; end = 6; line = 1; column = 4 }))
                nil)))
          (record { start = 0; end = 7; line = 1; column = 1 }))
        nil
unfolding forms_of
spans_test = refl

abbrev broken : List Token
broken =
    record { kind = right_paren; span = here }
    ∷ record { kind = left_paren; span = here }
    ∷ record { kind = Parser.atom (97 ∷ []); span = here }
    ∷ []

parse-Judges_example : (r : CompileResult) × (parse broken ≡ some r) × Judges broken r
parse-Judges_example = parse-Judges broken

-- Both parentheses are reported.
parse_test :
    parse broken
    ≡ some (
        err (
          record { code = unexpected_close; span = here }
          ∷ record { code = unclosed_list; span = here }
          ∷ []))
unfolding parse
parse_test = refl
