-- ===== src/Parser/Reads.antt =====
-- crates/slopic-core/src/parser.rs: what `form` does to the parser, by the tokens that it takes.
use slopium.Base.{
  ℕ, zero, suc, ◌+◌, ◌-◌, ◌≤◌, ◌<◌, ◌≡◌, ◌≢◌, inl, inr, refl, sym, ◌∙◌, ap, subst, true, Option,
  none, some, List, [], ◌∷◌, ◌++◌, length, arith, Bool-cases, append_assoc,
}
use slopium.Mir.{Span, join}
use slopium.Parser.{
  TokenKind, left_paren, right_paren, Token, SExpr, sexpr, SExprs, nil, cons, Parser, Diagnostic,
  Code, unexpected_close, unclosed_list, max_nesting, max_nesting_depth, report, skip_balanced,
  too_deep, close_list, is_right_paren, push, form, forms, parse_from, initial_parser, parse,
}
use slopium.Parser.Written.{
  Written, group, AllWritten, also, tokens_of, tokens_of_all, covering, form_of, forms_of, nesting,
  nesting_all,
}
use slopium.Parser

-- A nesting that has been reported is among the diagnostics.
abbrev pub IsHonest : Parser → Type 0
IsHonest p = p.reported_nesting ≡ true → p.diagnostics ≢ []

-- What `form` does to the parser: it takes tokens, and where no diagnostic comes of it, they are those
-- of the form that it returns.
pub record ReadsForm (p : Parser) (r : Option SExpr) (q : Parser) : Type 0 where
  pub shorter : length q.rest < length p.rest
  pub depth_kept : q.depth ≡ p.depth
  pub honest : IsHonest q
  pub earlier : q.diagnostics ≡ [] → p.diagnostics ≡ []
  pub read :
      q.diagnostics ≡ []
      → (w : Written) × (r ≡ some (form_of w))
        × (p.rest ≡ tokens_of w ++ q.rest)
        × (p.depth + nesting w ≤ max_nesting_depth)

abbrev pub Stops : List Token → Type 0
Stops [] = Unit
Stops (t ∷ ts) = t.kind ≡ right_paren

pub record ReadsForms (p : Parser) (es : SExprs) (q : Parser) : Type 0 where
  pub no_longer : length q.rest ≤ length p.rest
  pub depth_kept : q.depth ≡ p.depth
  pub honest : IsHonest q
  pub earlier : q.diagnostics ≡ [] → p.diagnostics ≡ []
  pub stops : Stops q.rest
  pub read :
      q.diagnostics ≡ []
      → (ws : AllWritten) × (es ≡ forms_of ws)
        × (p.rest ≡ tokens_of_all ws ++ q.rest)
        × (p.depth + nesting_all ws ≤ max_nesting_depth)

abbrev pub at_tokens : Parser → List Token → Parser
at_tokens p ts = record p { rest = ts }

abbrev pub ReadsFormAt : ℕ → Parser → Type 0
ReadsFormAt n p = (r : Option SExpr) × (q : Parser) × (form n p ≡ some (r, q)) × ReadsForm p r q

abbrev pub ReadsFormsAt : ℕ → Parser → Type 0
ReadsFormsAt n p = (es : SExprs) × (q : Parser) × (forms n p ≡ some (es, q)) × ReadsForms p es q

pub append_one_ne : {A : Type 0} (xs : List A) (x : A) → (xs ++ x ∷ []) ≢ []
append_one_ne [] x h = absurd cc
append_one_ne (y ∷ ys) x h = absurd cc

skip_balanced-le : (depth : ℕ) (ts : List Token) → length (skip_balanced depth ts) ≤ length ts
unfolding skip_balanced
skip_balanced-le zero ts = omega arith
skip_balanced-le (suc d) [] = omega arith
skip_balanced-le (suc d) (t ∷ ts) = go (λ k. skip_balanced-le k ts) t.kind
  where
    go :
        ((k : ℕ) → length (skip_balanced k ts) ≤ length ts)
        → (k : TokenKind)
        → length (elim k [
          | left_paren ↦ skip_balanced (suc (suc d)) ts
          | right_paren ↦ skip_balanced d ts
          | _ ↦ skip_balanced (suc d) ts
        ])
          ≤ suc (length ts)
    go ih left_paren = omega (arith, ih (suc (suc d)))
    go ih right_paren = omega (arith, ih d)
    go ih (TokenKind.atom v) = omega (arith, ih (suc d))
    go ih (TokenKind.string v) = omega (arith, ih (suc d))

-- What is kept of a list that is nested too deep.
pub record IsSkipped (p q : Parser) : Type 0 where
  pub no_longer : length q.rest ≤ length p.rest
  pub depth_kept : q.depth ≡ p.depth
  pub told : q.diagnostics ≢ []

pub too_deep-IsSkipped : (span : Span) (p : Parser) → IsHonest p → IsSkipped p (too_deep span p)
unfolding too_deep
too_deep-IsSkipped span p h = elim (Bool-cases p.reported_nesting) [
  | inl q ↦
      rw (q, too_deep)
        (record { no_longer = skip_balanced-le 1 p.rest; depth_kept = refl; told = h q })
  | inr q ↦
      rw (q, too_deep)
        (record {
          no_longer = skip_balanced-le 1 p.rest;
          depth_kept = refl;
          told = append_one_ne p.diagnostics (record { code = max_nesting; span = span });
        })
]

pub told-ReadsForm :
    (p q : Parser)
    → length q.rest < length p.rest
    → q.depth ≡ p.depth
    → q.diagnostics ≢ []
    → ReadsForm p none q
told-ReadsForm p q lt d told = record {
  shorter = lt;
  depth_kept = d;
  honest = λ _. told;
  earlier = λ e. absurd (told e);
  read = λ e. absurd (told e);
}

-- The parser behind an opening parenthesis.
abbrev pub entered : Parser → List Token → Parser
entered p ts = record p { rest = ts; depth = p.depth + 1 }

pub group_tokens :
    (a : Span) (ws : AllWritten) (b : Span) (us : List Token)
    → tokens_of (group a ws b) ++ us
      ≡ record { kind = left_paren; span = a }
        ∷ (tokens_of_all ws ++ (record { kind = right_paren; span = b } ∷ us))
unfolding tokens_of
group_tokens a ws b us =
    ap (λ ts. record { kind = left_paren; span = a } ∷ ts)
      (append_assoc (tokens_of_all ws) (record { kind = right_paren; span = b } ∷ []) us)

group_nesting :
    (depth : ℕ) (a : Span) (ws : AllWritten) (b : Span)
    → depth + 1 + nesting_all ws ≤ max_nesting_depth
    → depth + nesting (group a ws b) ≤ max_nesting_depth
unfolding nesting
group_nesting depth a ws b h = omega arith

form_of-group :
    (es : SExprs) (a : Span) (ws : AllWritten) (b : Span)
    → es ≡ forms_of ws
    → sexpr (Parser.list es) (join a b) ≡ form_of (group a ws b)
unfolding form_of join
form_of-group es a ws b e = ap (λ fs. sexpr (Parser.list fs) (covering a b)) e

also_nesting :
    (depth : ℕ) (w : Written) (ws : AllWritten)
    → depth + nesting w ≤ max_nesting_depth
    → depth + nesting_all ws ≤ max_nesting_depth
    → depth + nesting_all (also w ws) ≤ max_nesting_depth
unfolding nesting
also_nesting depth w ws a b = omega arith

pub also_tokens :
    (w : Written) (ws : AllWritten) (us : List Token)
    → tokens_of_all (also w ws) ++ us ≡ tokens_of w ++ (tokens_of_all ws ++ us)
unfolding tokens_of
also_tokens w ws us = append_assoc (tokens_of w) (tokens_of_all ws) us

push-form_of :
    (r : Option SExpr) (es : SExprs) (w : Written) (ws : AllWritten)
    → r ≡ some (form_of w)
    → es ≡ forms_of ws
    → push r es ≡ forms_of (also w ws)
unfolding form_of
push-form_of r es w ws p q = rw (p, q) refl

-- The trees that a form and the forms behind it were written as.
pub more-read :
    (p : Parser) (r : Option SExpr) (p1 : Parser) (es : SExprs) (ts : List Token)
    → ReadsForm p r p1
    → p1.diagnostics ≡ []
    → ((ws : AllWritten) × (es ≡ forms_of ws)
        × (p1.rest ≡ tokens_of_all ws ++ ts)
        × (p1.depth + nesting_all ws ≤ max_nesting_depth))
    → (ws : AllWritten) × (push r es ≡ forms_of ws)
      × (p.rest ≡ tokens_of_all ws ++ ts)
      × (p.depth + nesting_all ws ≤ max_nesting_depth)
more-read p r p1 es ts g clean (ws, are, same, deep) =
    let (w, is, first, bound) = g.read clean in
    let deep' : p.depth + nesting_all ws ≤ max_nesting_depth = omega (arith, g.depth_kept) in
    (
      also w ws,
      push-form_of r es w ws is are,
      first ∙ ap (λ us. tokens_of w ++ us) same ∙ sym (also_tokens w ws ts),
      also_nesting p.depth w ws bound deep',
    )

pub more-ReadsForms :
    (p : Parser) (r : Option SExpr) (p1 : Parser) (es : SExprs) (p2 : Parser)
    → ReadsForm p r p1
    → ReadsForms p1 es p2
    → ReadsForms p (push r es) p2
more-ReadsForms p r p1 es p2 g gs = record {
  no_longer = omega (arith, g.shorter, gs.no_longer);
  depth_kept = gs.depth_kept ∙ g.depth_kept;
  honest = gs.honest;
  earlier = λ clean. g.earlier (gs.earlier clean);
  stops = gs.stops;
  read = λ clean. more-read p r p1 es p2.rest g (gs.earlier clean) (gs.read clean);
}

-- A list, from its forms.
pub list-ReadsForm :
    (p : Parser) (span : Span) (ts : List Token) (es : SExprs) (q : Parser)
    → ReadsForms (entered p ts) es q
    → (rest : List Token) → q.rest ≡ rest
    → ReadsForm
        (at_tokens p (record { kind = left_paren; span = span } ∷ ts))
        (close_list span es q).0
        (close_list span es q).1
unfolding close_list
list-ReadsForm p span ts es q g [] e =
    rw (e, close_list)
      (told-ReadsForm (at_tokens p (record { kind = left_paren; span = span } ∷ ts))
        (report unclosed_list span (record q { depth = q.depth - 1 }))
        (omega (arith, g.no_longer, ap length e)) (omega (arith, g.depth_kept))
        (append_one_ne q.diagnostics (record { code = unclosed_list; span = span })))
list-ReadsForm p span ts es q g (c ∷ rest) e =
    let size : length q.rest ≡ suc (length rest) = ap length e in
    let closing : c ≡ record { kind = right_paren; span = c.span } =
      ap (λ k. record { kind = k; span = c.span }) (subst Stops e g.stops) in
    rw (e, close_list)
      (record {
        shorter = omega (arith, g.no_longer);
        depth_kept = omega (arith, g.depth_kept);
        honest = g.honest;
        earlier = g.earlier;
        read = λ clean.
            let (ws, are, same, deep) = g.read clean in
            (
              group span ws c.span,
              ap some (form_of-group es span ws c.span are),
              ap (λ us. record { kind = left_paren; span = span } ∷ us)
                    (same ∙ ap (λ us. tokens_of_all ws ++ us) (e ∙ ap (λ k. k ∷ rest) closing))
                  ∙ sym (group_tokens span ws c.span rest),
              group_nesting p.depth span ws c.span deep,
            );
      })
