-- ===== src/Parser/Judged.antt =====
-- crates/slopic-core/src/parser.rs: `parse` as a whole.
use slopium.Base.{
  ℕ, zero, suc, ◌+◌, ◌*◌, ◌≤◌, ◌≡◌, ◌≢◌, inl, inr, refl, sym, ◌∙◌, ap, Option, some, List, [], ◌∷◌,
  length, arith, Bool-cases, append-nil,
}
use slopium.Parser.{
  Token, SExpr, SExprs, nil, Parser, Diagnostic, unexpected_close, max_nesting_depth, report,
  is_right_paren, push, parse_from, initial_parser, result, parse, CompileResult, ok, err,
}
use slopium.Parser.Written.{
  AllWritten, nothing, tokens_of, tokens_of_all, form_of, forms_of, nesting, nesting_all,
}
use slopium.Parser.Reads.{IsHonest, ReadsForm, more-read, append_one_ne}
use slopium.Parser.Accepted.{reads_form}
use slopium.Parser.Printed.{parse-tokens_of_all}

record ReadsAll (p : Parser) (es : SExprs) (q : Parser) : Type 0 where
  earlier : q.diagnostics ≡ [] → p.diagnostics ≡ []
  read :
      q.diagnostics ≡ []
      → (ws : AllWritten) × (es ≡ forms_of ws)
        × (p.rest ≡ tokens_of_all ws)
        × (p.depth + nesting_all ws ≤ max_nesting_depth)

abbrev at_tokens : Parser → List Token → Parser
at_tokens p ts = record p { rest = ts }

abbrev ReadsAllAt : ℕ → Parser → Type 0
ReadsAllAt n p = (es : SExprs) × (q : Parser) × (parse_from n p ≡ some (es, q)) × ReadsAll p es q

more-ReadsAll :
    (p : Parser) (r : Option SExpr) (p1 : Parser) (es : SExprs) (p2 : Parser)
    → ReadsForm p r p1
    → ReadsAll p1 es p2
    → ReadsAll p (push r es) p2
more-ReadsAll p r p1 es p2 g gs = record {
  earlier = λ clean. g.earlier (gs.earlier clean);
  read = λ clean.
      let (ws, are, same, deep) = gs.read clean in
      let (all, as_read, tokens, bound) =
        more-read p r p1 es [] g (gs.earlier clean)
          (ws, are, same ∙ sym (append-nil (tokens_of_all ws)), deep) in
      (all, as_read, tokens ∙ append-nil (tokens_of_all all), bound);
}

parse_from-ReadsAll :
    (n : ℕ) (ts : List Token) (p : Parser)
    → IsHonest p
    → p.depth ≤ max_nesting_depth
    → length ts + 1 ≤ n
    → ReadsAllAt n (at_tokens p ts)
unfolding parse_from tokens_of form_of nesting
parse_from-ReadsAll zero ts p h d fuel = absurd (omega arith)
parse_from-ReadsAll (suc n) [] p h d fuel = (
  nil,
  at_tokens p [],
  refl,
  record { earlier = λ e. e; read = λ e. (nothing, refl, refl, omega arith) },
)
parse_from-ReadsAll (suc n) (t ∷ ts) p h d fuel = elim (Bool-cases (is_right_paren t.kind)) [
  | inl q ↦
      let told = append_one_ne p.diagnostics (record { code = unexpected_close; span = t.span }) in
      let (es, q', got, g) =
        parse_from-ReadsAll n ts (report unexpected_close t.span p) (λ _. told) d (omega arith) in
      rw (q, parse_from, got)
        (
          es,
          q',
          refl,
          record {
            earlier = λ e. absurd (told (g.earlier e));
            read = λ e. absurd (told (g.earlier e));
          },
        )
  | inr q ↦
      let (r, p1, got, g) = reads_form (2 * suc (length ts)) t ts p h d (omega arith) in
      let (es, p2, gots, gs) =
        parse_from-ReadsAll n p1.rest p1 g.honest (omega (arith, g.depth_kept))
          (omega (arith, g.shorter)) in
      rw (q, parse_from, got, gots)
        (push r es, p2, refl, more-ReadsAll (at_tokens p (t ∷ ts)) r p1 es p2 g gs)
]

clash :
    (d : Diagnostic) (ds : List Diagnostic) (es : SExprs)
    → ¬ (◌≡◌ {A = Option CompileResult} (some (err (d ∷ ds))) (some (ok es)))
clash d ds es h = absurd cc

-- What a result of `parse` says of the tokens.
abbrev pub Judges : List Token → CompileResult → Type 0
Judges tokens (ok es) =
    (ws : AllWritten) × (es ≡ forms_of ws)
    × (tokens ≡ tokens_of_all ws)
    × (nesting_all ws ≤ max_nesting_depth)
Judges tokens (err ds) =
    (ds ≢ []) × ((ws : AllWritten) → nesting_all ws ≤ max_nesting_depth → tokens ≢ tokens_of_all ws)

-- The parser returns for every list of tokens. Where it accepts, the tokens, spans included, are those
-- of written forms that open at most 256 lists at once, each parenthesis with its own span, and it
-- returns these forms; where it refuses, it reports something, and no such forms are written with the
-- tokens.
pub parse-Judges :
    (tokens : List Token) → (r : CompileResult) × (parse tokens ≡ some r) × Judges tokens r
unfolding parse
parse-Judges tokens =
    let (es, q, got, g) =
      parse_from-ReadsAll (length tokens + 1) tokens (initial_parser tokens) (λ e. absurd cc)
        (omega arith) (omega arith) in
    rw (got, parse)
      (result es q.diagnostics, refl, judged tokens es q.diagnostics (rw (got, parse) refl) g.read)
  where
    judged :
        (tokens : List Token) (es : SExprs) (ds : List Diagnostic)
        → parse tokens ≡ some (result es ds)
        → (ds ≡ []
            → (ws : AllWritten) × (es ≡ forms_of ws)
              × (tokens ≡ tokens_of_all ws)
              × (0 + nesting_all ws ≤ max_nesting_depth))
        → Judges tokens (result es ds)
    judged tokens es [] got read =
        let (ws, are, same, deep) = read refl in (ws, are, same, omega arith)
    judged tokens es (d ∷ ds) got read = (
      (λ e. absurd cc),
      λ ws deep same.
          let back = parse-tokens_of_all ws deep in
          clash d ds (forms_of ws) (sym got ∙ ap parse same ∙ back),
    )
