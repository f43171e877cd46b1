-- ===== src/Parser/Printed.antt =====
-- crates/slopic-core/src/parser.rs: expressions that are written out are parsed back.
use slopium.Base.{
  length-append, ℕ, zero, suc, ◌+◌, ◌-◌, ◌*◌, ◌≤◌, ◌<◌, ◌≡◌, refl, sym, ◌∙◌, ap, subst, false, some,
  List, [], ◌∷◌, ◌++◌, leb, length, arith, append-nil,
}
use slopium.Mir.{Text, Span, join}
use slopium.Parser
use slopium.Parser.{
  left_paren, right_paren, Token, SExpr, sexpr, SExprs, nil, cons, Parser, max_nesting_depth,
  close_list, is_right_paren, push, form, forms, parse_from, initial_parser, parse, CompileResult,
  ok,
}
use slopium.Parser.Written.{
  Written, word, quoted, group, AllWritten, nothing, also, tokens_of, tokens_of_all, covering,
  form_of, forms_of, nesting, nesting_all,
}
use slopium.Parser.Reads.{Stops, group_tokens, also_tokens}

abbrev at_tokens : Parser → List Token → Parser
at_tokens p ts = record p { rest = ts }

-- A tree starts with a token that closes nothing.
record Starts (w : Written) : Type 0 where
  first : Token
  others : List Token
  tokens : tokens_of w ≡ first ∷ others
  opens : is_right_paren first.kind ≡ false

tokens_of-Starts : (w : Written) → Starts w
unfolding tokens_of
tokens_of-Starts (word v s) = record { first = _; others = _; tokens = refl; opens = refl }
tokens_of-Starts (quoted v s) = record { first = _; others = _; tokens = refl; opens = refl }
tokens_of-Starts (group a ws b) = record { first = _; others = _; tokens = refl; opens = refl }

forms-step :
    (n : ℕ) (t : Token) (ts : List Token) (p q q' : Parser) (e : SExpr) (es : SExprs)
    → is_right_paren t.kind ≡ false
    → form n (at_tokens p (t ∷ ts)) ≡ some (some e, q)
    → forms n q ≡ some (es, q')
    → forms (suc n) (at_tokens p (t ∷ ts)) ≡ some (cons e es, q')
unfolding form
forms-step n t ts p q q' e es opens one all = rw (opens, form, one, all) refl

forms-stop :
    (n : ℕ) (p : Parser) (us : List Token)
    → Stops us
    → forms (suc n) (at_tokens p us) ≡ some (nil, at_tokens p us)
unfolding form
forms-stop n p [] h = refl
forms-stop n p (u ∷ us) h = rw (h, form) refl

join-covering : (a b : Span) → join a b ≡ covering a b
unfolding join
join-covering a b = refl

list-step :
    (n : ℕ) (p : Parser) (a b : Span) (ts us : List Token) (es : SExprs)
    → p.depth < max_nesting_depth
    → forms n (record p { rest = ts; depth = p.depth + 1 })
      ≡ some (
        es,
        record p { rest = record { kind = right_paren; span = b } ∷ us; depth = p.depth + 1 },
      )
    → form (suc n) (at_tokens p (record { kind = left_paren; span = a } ∷ ts))
      ≡ some (some (sexpr (Parser.list es) (covering a b)), at_tokens p us)
unfolding form close_list
list-step n p a b ts us es lt h =
    let shallow : leb max_nesting_depth p.depth ≡ false = ground arith in
    let back : p.depth + 1 - 1 ≡ p.depth = omega arith in
    rw (shallow, form, h, join-covering a b, back) refl

length-group :
    (a : Span) (ws : AllWritten) (b : Span)
    → length (tokens_of (group a ws b)) ≡ length (tokens_of_all ws) + 2
unfolding tokens_of
length-group a ws b =
    let sum = length-append (tokens_of_all ws) (record { kind = right_paren; span = b } ∷ []) in
    omega arith

length-also :
    (w : Written) (ws : AllWritten)
    → length (tokens_of_all (also w ws)) ≡ length (tokens_of w) + length (tokens_of_all ws)
unfolding tokens_of
length-also w ws = length-append (tokens_of w) (tokens_of_all ws)

nesting-group :
    (depth : ℕ) (a : Span) (ws : AllWritten) (b : Span)
    → depth + nesting (group a ws b) ≤ max_nesting_depth
    → (depth < max_nesting_depth) × (depth + 1 + nesting_all ws ≤ max_nesting_depth)
unfolding nesting
nesting-group depth a ws b h = (omega arith, omega arith)

nesting-also :
    (depth : ℕ) (w : Written) (ws : AllWritten)
    → depth + nesting_all (also w ws) ≤ max_nesting_depth
    → (depth + nesting w ≤ max_nesting_depth) × (depth + nesting_all ws ≤ max_nesting_depth)
unfolding nesting
nesting-also depth w ws h = (omega arith, omega arith)

length-positive : (w : Written) → 1 ≤ length (tokens_of w)
length-positive w = let s = tokens_of-Starts w in omega (arith, ap length s.tokens)

atom-step :
    (n : ℕ) (p : Parser) (v : Text) (s : Span) (us : List Token)
    → form (suc n) (at_tokens p (tokens_of (word v s) ++ us))
      ≡ some (some (form_of (word v s)), at_tokens p us)
unfolding form tokens_of form_of
atom-step n p v s us = refl

string-step :
    (n : ℕ) (p : Parser) (v : List ℕ) (s : Span) (us : List Token)
    → form (suc n) (at_tokens p (tokens_of (quoted v s) ++ us))
      ≡ some (some (form_of (quoted v s)), at_tokens p us)
unfolding form tokens_of form_of
string-step n p v s us = refl

nothing_tokens : (us : List Token) → tokens_of_all nothing ++ us ≡ us
unfolding tokens_of
nothing_tokens us = refl

mutual
  unfolding form_of

  form-tokens_of :
      (w : Written) (n : ℕ) (p : Parser) (us : List Token)
      → p.depth + nesting w ≤ max_nesting_depth
      → 2 * length (tokens_of w) ≤ n
      → form n (at_tokens p (tokens_of w ++ us)) ≡ some (some (form_of w), at_tokens p us)
  form-tokens_of w zero p us d fuel = absurd (omega (arith, length-positive w))
  form-tokens_of (word v s) (suc n) p us d fuel = atom-step n p v s us
  form-tokens_of (quoted v s) (suc n) p us d fuel = string-step n p v s us
  form-tokens_of (group a ws b) (suc n) p us d fuel =
      let (shallow, deep) = nesting-group p.depth a ws b d in
      let closing = record { kind = right_paren; span = b } ∷ us in
      subst
        (λ ts. form (suc n) (at_tokens p ts) ≡ some (some (form_of (group a ws b)), at_tokens p us))
        (sym (group_tokens a ws b us))
        (list-step n p a b (tokens_of_all ws ++ closing) us (forms_of ws) shallow (
          forms-tokens_of ws n (record p { depth = p.depth + 1 }) closing refl deep
            (omega (arith, length-group a ws b))))

  forms-tokens_of :
      (ws : AllWritten) (n : ℕ) (p : Parser) (us : List Token)
      → Stops us
      → p.depth + nesting_all ws ≤ max_nesting_depth
      → 2 * length (tokens_of_all ws) + 1 ≤ n
      → forms n (at_tokens p (tokens_of_all ws ++ us)) ≡ some (forms_of ws, at_tokens p us)
  forms-tokens_of ws zero p us stop d fuel = absurd (omega arith)
  forms-tokens_of nothing (suc n) p us stop d fuel =
      subst (λ ts. forms (suc n) (at_tokens p ts) ≡ some (nil, at_tokens p us))
        (sym (nothing_tokens us)) (forms-stop n p us stop)
  forms-tokens_of (also w ws) (suc n) p us stop d fuel =
      let (shallow, deep) = nesting-also p.depth w ws d in
      let s = tokens_of-Starts w in
      let behind = tokens_of_all ws ++ us in
      let size = length-also w ws in
      subst (λ ts. forms (suc n) (at_tokens p ts) ≡ some (forms_of (also w ws), at_tokens p us))
        (sym (also_tokens w ws us ∙ ap (λ ts. ts ++ behind) s.tokens))
        (forms-step n s.first (s.others ++ behind) p (at_tokens p behind) (at_tokens p us)
          (form_of w) (forms_of ws) s.opens
          (subst
            (λ ts.
              form n (at_tokens p (ts ++ behind)) ≡ some (some (form_of w), at_tokens p behind))
            s.tokens (form-tokens_of w n p behind shallow (omega arith)))
          (forms-tokens_of ws n p us stop deep (omega (arith, length-positive w))))

parse_from-step :
    (n : ℕ) (t : Token) (ts : List Token) (p q q' : Parser) (e : SExpr) (es : SExprs)
    → is_right_paren t.kind ≡ false
    → form (2 * length (t ∷ ts)) (at_tokens p (t ∷ ts)) ≡ some (some e, q)
    → parse_from n q ≡ some (es, q')
    → parse_from (suc n) (at_tokens p (t ∷ ts)) ≡ some (cons e es, q')
unfolding parse_from
parse_from-step n t ts p q q' e es opens one all = rw (opens, parse_from, one, all) refl

parse_from-tokens_of :
    (ws : AllWritten) (n : ℕ) (p : Parser)
    → p.depth + nesting_all ws ≤ max_nesting_depth
    → length (tokens_of_all ws) + 1 ≤ n
    → parse_from n (at_tokens p (tokens_of_all ws)) ≡ some (forms_of ws, at_tokens p [])
unfolding parse_from form_of
parse_from-tokens_of ws zero p d fuel = absurd (omega arith)
parse_from-tokens_of nothing (suc n) p d fuel =
    subst (λ ts. parse_from (suc n) (at_tokens p ts) ≡ some (nil, at_tokens p []))
      (sym (sym (append-nil (tokens_of_all nothing)) ∙ nothing_tokens [])) refl
parse_from-tokens_of (also w ws) (suc n) p d fuel =
    let (shallow, deep) = nesting-also p.depth w ws d in
    let s = tokens_of-Starts w in
    let behind = tokens_of_all ws in
    let size = length-also w ws in
    let all : tokens_of_all (also w ws) ≡ s.first ∷ (s.others ++ behind) =
      sym (append-nil (tokens_of_all (also w ws)))
      ∙ also_tokens w ws []
      ∙ ap (λ ts. tokens_of w ++ ts) (append-nil behind)
      ∙ ap (λ ts. ts ++ behind) s.tokens in
    let total : length (tokens_of_all (also w ws)) ≡ suc (length (s.others ++ behind)) =
      ap length all in
    subst (λ ts. parse_from (suc n) (at_tokens p ts) ≡ some (forms_of (also w ws), at_tokens p []))
      (sym all)
      (parse_from-step n s.first (s.others ++ behind) p (at_tokens p behind) (at_tokens p [])
        (form_of w) (forms_of ws) s.opens
        (subst
          (λ ts.
            form (2 * suc (length (s.others ++ behind))) (at_tokens p (ts ++ behind))
            ≡ some (some (form_of w), at_tokens p behind))
          s.tokens
          (form-tokens_of w (2 * suc (length (s.others ++ behind))) p behind shallow (omega arith)))
        (parse_from-tokens_of ws n p deep (omega (arith, length-positive w))))

-- The tokens of written forms, each parenthesis with a span of its own, are parsed to those forms with
-- all their spans, if they open at most 256 lists at once. A list spans from its opening parenthesis to
-- its closing one.
pub parse-tokens_of_all :
    (ws : AllWritten)
    → nesting_all ws ≤ max_nesting_depth
    → parse (tokens_of_all ws) ≡ some (ok (forms_of ws))
unfolding parse
parse-tokens_of_all ws deep =
    let all =
      parse_from-tokens_of ws (length (tokens_of_all ws) + 1) (initial_parser []) (omega arith)
        (omega arith) in
    rw (all, parse) refl
