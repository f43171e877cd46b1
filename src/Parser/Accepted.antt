-- ===== src/Parser/Accepted.antt =====
-- crates/slopic-core/src/parser.rs: `form` and the loops around it end, and what they accept.
use slopium.Base.{
  ℕ, zero, suc, ◌+◌, ◌*◌, ◌≤◌, ◌<◌, ◌≡◌, inl, inr, refl, sym, ap, subst, true, none, some, List, [],
  ◌∷◌, leb, length, arith, Bool-cases,
}
use slopium.Mir.{Span}
use slopium.Parser.{
  TokenKind, left_paren, right_paren, Token, SExpr, sexpr, SExprs, nil, cons, Parser, Diagnostic,
  Code, unexpected_close, unclosed_list, max_nesting, max_nesting_depth, report, skip_balanced,
  too_deep, close_list, is_right_paren, push, form, forms, parse_from, initial_parser, parse,
  CompileResult, ok, err,
}
use slopium.Parser.Written.{word, quoted, nothing, tokens_of, form_of, nesting}
use slopium.Parser
use slopium.Parser.Reads.{
  IsHonest, at_tokens, ReadsFormAt, ReadsFormsAt, append_one_ne, too_deep-IsSkipped, told-ReadsForm,
  entered, more-ReadsForms, list-ReadsForm,
}

is_right_paren_lem : (k : TokenKind) → is_right_paren k ≡ true → k ≡ right_paren
is_right_paren_lem left_paren h = absurd cc
is_right_paren_lem right_paren h = refl
is_right_paren_lem (TokenKind.atom v) h = absurd cc
is_right_paren_lem (TokenKind.string v) h = absurd cc

-- `form`, for the kind of the first token.
form-ReadsForm :
    (n : ℕ) (k : TokenKind) (span : Span) (ts : List Token) (p : Parser)
    → ((q : Parser)
        → IsHonest q
        → q.depth ≤ max_nesting_depth
        → 2 * length q.rest + 1 ≤ n
        → ReadsFormsAt n q)
    → IsHonest p
    → p.depth ≤ max_nesting_depth
    → 2 * suc (length ts) ≤ suc n
    → ReadsFormAt (suc n) (at_tokens p (record { kind = k; span = span } ∷ ts))
unfolding form tokens_of form_of nesting
form-ReadsForm n (TokenKind.atom v) span ts p ih h d fuel = (
  some (sexpr (Parser.atom v) span),
  at_tokens p ts,
  refl,
  record {
    shorter = omega arith;
    depth_kept = refl;
    honest = h;
    earlier = λ e. e;
    read = λ e. (word v span, refl, refl, omega arith);
  },
)
form-ReadsForm n (TokenKind.string v) span ts p ih h d fuel = (
  some (sexpr (Parser.string v) span),
  at_tokens p ts,
  refl,
  record {
    shorter = omega arith;
    depth_kept = refl;
    honest = h;
    earlier = λ e. e;
    read = λ e. (quoted v span, refl, refl, omega arith);
  },
)
form-ReadsForm n right_paren span ts p ih h d fuel = (
  none,
  report unexpected_close span (at_tokens p ts),
  refl,
  told-ReadsForm (at_tokens p (record { kind = right_paren; span = span } ∷ ts))
      (report unexpected_close span (at_tokens p ts)) (omega arith) refl
      (append_one_ne p.diagnostics (record { code = unexpected_close; span = span })),
)
form-ReadsForm n left_paren span ts p ih h d fuel =
    elim (Bool-cases (leb max_nesting_depth p.depth)) [
      | inl q ↦
          let skipped = too_deep-IsSkipped span (at_tokens p ts) h in
          rw (q, form)
            (
              none,
              too_deep span (at_tokens p ts),
              refl,
              told-ReadsForm (at_tokens p (record { kind = left_paren; span = span } ∷ ts))
                  (too_deep span (at_tokens p ts)) (omega (arith, skipped.no_longer))
                  skipped.depth_kept skipped.told,
            )
      | inr q ↦
          let bound : p.depth < max_nesting_depth = ground arith in
          let (es, r, got, g) = ih (entered p ts) h (omega arith) (omega arith) in
          rw (q, form, got)
            (
              (close_list span es r).0,
              (close_list span es r).1,
              refl,
              list-ReadsForm p span ts es r g r.rest refl,
            )
    ]

-- The loop over the forms of a list, for its first token.
forms-ReadsForms :
    (n : ℕ) (ts : List Token) (p : Parser)
    → ((t : Token) (us : List Token) → ts ≡ t ∷ us → ReadsFormAt n (at_tokens p ts))
    → ((q : Parser)
        → IsHonest q
        → q.depth ≤ max_nesting_depth
        → 2 * length q.rest + 1 ≤ n
        → ReadsFormsAt n q)
    → IsHonest p
    → p.depth ≤ max_nesting_depth
    → 2 * length ts + 1 ≤ suc n
    → ReadsFormsAt (suc n) (at_tokens p ts)
unfolding form tokens_of form_of nesting
forms-ReadsForms n [] p one ih h d fuel = (
  nil,
  at_tokens p [],
  refl,
  record {
    no_longer = omega arith;
    depth_kept = refl;
    honest = h;
    earlier = λ e. e;
    stops = tt;
    read = λ e. (nothing, refl, refl, omega arith);
  },
)
forms-ReadsForms n (t ∷ ts) p one ih h d fuel = elim (Bool-cases (is_right_paren t.kind)) [
  | inl q ↦
      rw (q, form)
        (
          nil,
          at_tokens p (t ∷ ts),
          refl,
          record {
            no_longer = omega arith;
            depth_kept = refl;
            honest = h;
            earlier = λ e. e;
            stops = is_right_paren_lem t.kind q;
            read = λ e. (nothing, refl, refl, omega arith);
          },
        )
  | inr q ↦
      let (r, p1, got, g) = one t ts refl in
      let (es, p2, gots, gs) =
        ih p1 g.honest (omega (arith, g.depth_kept)) (omega (arith, g.shorter)) in
      rw (q, form, got, gots)
        (push r es, p2, refl, more-ReadsForms (at_tokens p (t ∷ ts)) r p1 es p2 g gs)
]

mutual
  pub reads_form :
      (n : ℕ) (t : Token) (ts : List Token) (p : Parser)
      → IsHonest p
      → p.depth ≤ max_nesting_depth
      → 2 * suc (length ts) ≤ n
      → ReadsFormAt n (at_tokens p (t ∷ ts))
  reads_form zero t ts p h d fuel = absurd (omega arith)
  reads_form (suc n) t ts p h d fuel =
      form-ReadsForm n t.kind t.span ts p (λ q hq dq lt. reads_forms n q hq dq lt) h d fuel

  reads_forms :
      (n : ℕ) (p : Parser)
      → IsHonest p
      → p.depth ≤ max_nesting_depth
      → 2 * length p.rest + 1 ≤ n
      → ReadsFormsAt n p
  reads_forms zero p h d fuel = absurd (omega arith)
  reads_forms (suc n) p h d fuel =
      forms-ReadsForms n p.rest p
        (λ t us e.
          subst (λ ts. ReadsFormAt n (at_tokens p ts)) (sym e)
            (reads_form n t us p h d (omega (arith, ap length e))))
        (λ q hq dq lt. reads_forms n q hq dq lt) h d fuel
