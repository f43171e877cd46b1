-- ===== src/Parser.antt =====
-- crates/slopic-core/src/parser.rs: tokens to S-expressions. The rest of the tokens stands for the
-- cursor. A diagnostic keeps its code and span; its message, help and suggestion are fixed texts.
pub mod Written
pub mod Reads
pub mod Accepted
pub mod Printed
pub mod Judged
use slopium.Base.{
  ℕ, zero, suc, ◌+◌, ◌-◌, ◌*◌, max, Bool, true, false, Option, none, some, List, [], ◌∷◌, ◌++◌, leb,
  if◌then◌else◌, length,
}
use slopium.Mir.{Text, Span, join}

-- crates/slopic-core/src/lexer.rs.
pub data TokenKind : Type 0 where
  left_paren : TokenKind
  right_paren : TokenKind
  atom : Text → TokenKind
  string : List ℕ → TokenKind

pub record Token : Type 0 where
  pub kind : TokenKind
  pub span : Span

mutual
  pub data SExpr : Type 0 where
    sexpr : SExprKind → Span → SExpr

  pub data SExprKind : Type 0 where
    atom : Text → SExprKind
    string : List ℕ → SExprKind
    list : SExprs → SExprKind

  pub data SExprs : Type 0 where
    nil : SExprs
    cons : SExpr → SExprs → SExprs

abbrev pub max_nesting_depth : ℕ
max_nesting_depth = 256

pub data Code : Type 0 where
  unexpected_close : Code
  unclosed_list : Code
  max_nesting : Code

pub record Diagnostic : Type 0 where
  pub code : Code
  pub span : Span

pub record Parser : Type 0 where
  pub rest : List Token
  pub depth : ℕ
  pub reported_nesting : Bool
  pub diagnostics : List Diagnostic

abbrev pub report : Code → Span → Parser → Parser
report code span p = record p {
  diagnostics = p.diagnostics ++ record { code = code; span = span } ∷ [];
}

-- The loop of `skip_balanced`, with the lists that are open; its depth starts at one.
unfoldable pub skip_balanced : ℕ → List Token → List Token
skip_balanced zero ts = ts
skip_balanced (suc depth) [] = []
skip_balanced (suc depth) (t ∷ ts) = elim t.kind [
  | left_paren ↦ skip_balanced (suc (suc depth)) ts
  | right_paren ↦ skip_balanced depth ts
  | _ ↦ skip_balanced (suc depth) ts
]

-- A list that is nested too deep; only the first is reported.
unfoldable pub too_deep : Span → Parser → Parser
unfolding skip_balanced
too_deep span p =
    let q =
      if p.reported_nesting
      then p
      else report max_nesting span (record p { reported_nesting = true }) in
    record q { rest = skip_balanced 1 q.rest }

-- Behind the forms of a list that opened at the span.
unfoldable pub close_list : Span → SExprs → Parser → Option SExpr × Parser
unfolding join
close_list span forms p = elim p.rest [
  | [] ↦ (none, report unclosed_list span (record p { depth = p.depth - 1 }))
  | closing ∷ ts ↦ (
    some (sexpr (list forms) (join span closing.span)),
    record p { rest = ts; depth = p.depth - 1 },
  )
]

abbrev pub is_right_paren : TokenKind → Bool
is_right_paren right_paren = true
is_right_paren _ = false

abbrev pub push : Option SExpr → SExprs → SExprs
push none es = es
push (some e) es = cons e es

-- `form`, and the loop in it over the forms of a list; `none` means that the fuel ran out.
unfoldable mutual
  unfolding too_deep close_list

  pub form : ℕ → Parser → Option (Option SExpr × Parser)
  form zero p = none
  form (suc fuel) p = elim p.rest [
    | [] ↦ some (none, p)
    | t ∷ ts ↦ elim t.kind [
      | atom value ↦ some (some (sexpr (atom value) t.span), record p { rest = ts })
      | string value ↦ some (some (sexpr (string value) t.span), record p { rest = ts })
      | right_paren ↦ some (none, report unexpected_close t.span (record p { rest = ts }))
      | left_paren ↦
          if leb max_nesting_depth p.depth
          then some (none, too_deep t.span (record p { rest = ts }))
          else elim (forms fuel (record p { rest = ts; depth = p.depth + 1 })) [
            | none ↦ none
            | some (es, q) ↦ some (close_list t.span es q)
          ]
    ]
  ]

  pub forms : ℕ → Parser → Option (SExprs × Parser)
  forms zero p = none
  forms (suc fuel) p = elim p.rest [
    | [] ↦ some (nil, p)
    | t ∷ ts ↦ if is_right_paren t.kind then some (nil, p) else elim (form fuel p) [
      | none ↦ none
      | some (e, q) ↦ elim (forms fuel q) [ none ↦ none | some (es, q') ↦ some (push e es, q') ]
    ]
  ]

-- The loop of `parse`.
unfoldable pub parse_from : ℕ → Parser → Option (SExprs × Parser)
unfolding form
parse_from zero p = none
parse_from (suc fuel) p = elim p.rest [
  | [] ↦ some (nil, p)
  | t ∷ ts ↦
      if is_right_paren t.kind
      then parse_from fuel (report unexpected_close t.span (record p { rest = ts }))
      else elim (form (2 * length p.rest) p) [
        | none ↦ none
        | some (e, q) ↦ elim (parse_from fuel q) [
          | none ↦ none
          | some (es, q') ↦ some (push e es, q')
        ]
      ]
]

pub data CompileResult : Type 0 where
  ok : SExprs → CompileResult
  err : List Diagnostic → CompileResult

abbrev pub result : SExprs → List Diagnostic → CompileResult
result es [] = ok es
result es (d ∷ ds) = err (d ∷ ds)

abbrev pub initial_parser : List Token → Parser
initial_parser tokens = record {
  rest = tokens;
  depth = 0;
  reported_nesting = false;
  diagnostics = [];
}

unfoldable pub parse : List Token → Option CompileResult
unfolding parse_from
parse tokens = elim (parse_from (length tokens + 1) (initial_parser tokens)) [
  | none ↦ none
  | some (es, q) ↦ some (result es q.diagnostics)
]
