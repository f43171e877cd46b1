-- ===== src/Parser/Written.antt =====
-- Source text as the lexer hands it to crates/slopic-core/src/parser.rs: trees that keep the span of
-- every token, those of the two parentheses of a list included.
use slopium.Base.{ℕ, suc, min, max, List, [], ◌∷◌, ◌++◌}
use slopium.Mir.{Text, Span}
use slopium.Parser
use slopium.Parser.{Token, left_paren, right_paren, SExpr, sexpr, SExprs, nil, cons}

mutual
  pub data Written : Type 0 where
    word : Text → Span → Written
    quoted : List ℕ → Span → Written
    group : Span → AllWritten → Span → Written

  pub data AllWritten : Type 0 where
    nothing : AllWritten
    also : Written → AllWritten → AllWritten

-- The tokens in the order in which they are written.
unfoldable mutual
  pub tokens_of : Written → List Token
  tokens_of (word value span) = record { kind = Parser.atom value; span = span } ∷ []
  tokens_of (quoted value span) = record { kind = Parser.string value; span = span } ∷ []
  tokens_of (group opening ws closing) =
      record { kind = left_paren; span = opening } ∷ tokens_of_all ws
      ++ record { kind = right_paren; span = closing } ∷ []

  pub tokens_of_all : AllWritten → List Token
  tokens_of_all nothing = []
  tokens_of_all (also w ws) = tokens_of w ++ tokens_of_all ws

-- All that two spans cover; the position is the first one's.
abbrev pub covering : Span → Span → Span
covering a b = record {
  start = min a.start b.start;
  end = max a.end b.end;
  line = a.line;
  column = a.column;
}

-- The forms that are meant: a list covers what stands from its one parenthesis to the other.
unfoldable mutual
  pub form_of : Written → SExpr
  form_of (word value span) = sexpr (Parser.atom value) span
  form_of (quoted value span) = sexpr (Parser.string value) span
  form_of (group opening ws closing) = sexpr (Parser.list (forms_of ws)) (covering opening closing)

  pub forms_of : AllWritten → SExprs
  forms_of nothing = nil
  forms_of (also w ws) = cons (form_of w) (forms_of ws)

-- The lists that are open at once, at most.
unfoldable mutual
  pub nesting : Written → ℕ
  nesting (word value span) = 0
  nesting (quoted value span) = 0
  nesting (group opening ws closing) = suc (nesting_all ws)

  pub nesting_all : AllWritten → ℕ
  nesting_all nothing = 0
  nesting_all (also w ws) = max (nesting w) (nesting_all ws)
