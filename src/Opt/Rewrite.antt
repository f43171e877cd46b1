-- ===== src/Opt/Rewrite.antt =====
-- crates/slopic-core/src/opt.rs: `rewrite_with_constants` at one block, from a state that describes the
-- words at its start.
use mathlib.Core.Path.{fun_ext}
use slopium.Base.{
  ◌≡◌, inl, inr, refl, sym, ◌∙◌, ap, subst, Bool, true, false, Option, none, some, List, [], ◌∷◌,
  map, keep, In, get_or, Bool-cases, Option-cases, ==_iff, eq-or-ne, if◌then◌else◌,
}
use slopium.Mir.{
  LocalId, Ty, BinaryOp, Instruction, assign, binary, Terminator, return, goto, branch, unreachable,
  Statement,
}
use slopium.Cfg.DefUse.{defs, uses}
use slopium.Opt.Fold.{Constant, int, bool, float, instruction_of, Floats, fold_binary}
use slopium.Opt.MeaningCorrect.{fold_binary-meaning}
use slopium.Opt.Constants.{
  Value, unknown, known, varying, value_of, apply, rewrite_instruction, is_self_assign,
  rewrite_statements, rewrite_terminator,
}
use slopium.Opt.ConstantsCorrect.{Env, Of, Describes, Runs, Computes, apply-Describes, Exposes}
use slopium.Opt.Execution.{ReadsWritten, Executes, done, next, Takes, is_event, events}

-- A local that the state calls constant has that word once it is written.
value_of-Describes :
    (st : List Value) (e : Env) (l : LocalId) (c : Constant)
    → value_of st l ≡ some c
    → Describes st e
    → (x : Constant) × (e l ≡ some x)
    → e l ≡ some c
unfolding value_of
value_of-Describes st e l c h d (x, w) =
    elim (subst (λ k. Of k (e l)) (known_of (get_or st l varying) h) (d l)) [
      | inl n ↦ absurd (cc (n, w))
      | inr o ↦ o
    ]
  where
    known_of : (v : Value) → (elim v [ known k ↦ some k | _ ↦ none ]) ≡ some c → v ≡ known c
    known_of (known k) q = cc
    known_of unknown q = absurd cc
    known_of varying q = absurd cc

constant-Runs :
    {fl : Floats} {i : Instruction} {e e' : Env} (c : Constant) (dst : LocalId)
    → defs i ≡ some dst
    → ((l : LocalId) → ¬ Exposes i l)
    → e' dst ≡ some c
    → Runs fl i e e'
    → Runs fl (instruction_of c dst) e e'
unfolding instruction_of defs
constant-Runs (int v) dst q x w r = record {
  frame = λ l n z. r.frame l (λ p. n (sym q ∙ p)) (x l);
  result = w;
}
constant-Runs (bool v) dst q x w r = record {
  frame = λ l n z. r.frame l (λ p. n (sym q ∙ p)) (x l);
  result = w;
}
constant-Runs (float v) dst q x w r = record {
  frame = λ l n z. r.frame l (λ p. n (sym q ∙ p)) (x l);
  result = w;
}

folded_word :
    (fl : Floats) (op : BinaryOp) (ty : Ty) (a b : Option Constant) (l r c : Constant)
    (o : Option Constant)
    → a ≡ some l
    → b ≡ some r
    → fold_binary fl op ty l r ≡ some c
    → Computes fl op ty a b o
    → o ≡ some c
folded_word fl op ty none b l r c o p q h k = absurd cc
folded_word fl op ty (some a) none l r c o p q h k = absurd cc
folded_word fl op ty (some a) (some b) l r c o p q h (x, means, leaves) =
    let folded : fold_binary fl op ty a b ≡ some c = cc in
    let agrees = fold_binary-meaning fl op ty a b in cc

uses-constant : (c : Constant) (dst l : LocalId) → ¬ In l (uses (instruction_of c dst))
unfolding uses instruction_of
uses-constant (int v) dst l m = m
uses-constant (bool v) dst l m = m
uses-constant (float v) dst l m = m

-- A folded operation ran as the constant would have.
folded-Runs :
    (fl : Floats) (dst lhs rhs : LocalId) (op : BinaryOp) (ty : Ty) (st : List Value) (e e' : Env)
    (l r c : Constant)
    → value_of st lhs ≡ some l
    → value_of st rhs ≡ some r
    → fold_binary fl op ty l r ≡ some c
    → Describes st e
    → ReadsWritten (binary dst op lhs rhs ty) e
    → Runs fl (binary dst op lhs rhs ty) e e'
    → Runs fl (instruction_of c dst) e e'
unfolding defs uses
folded-Runs fl dst lhs rhs op ty st e e' l r c p q h d w run =
    constant-Runs c dst refl (λ l z. z)
      (folded_word fl op ty (e lhs) (e rhs) l r c (e' dst)
        (value_of-Describes st e lhs l p d (w lhs (inl refl)))
        (value_of-Describes st e rhs r q d (w rhs (inr (inl refl)))) h run.result)
      run

-- The instruction that is left of `i`.
abbrev pub left_of : Floats → List Value → Instruction → Instruction
left_of fl st i = elim (rewrite_instruction fl st i) [ none ↦ i | some j ↦ j ]

-- What is left of an instruction runs as it did, and reads nothing unwritten.
record Same (fl : Floats) (j : Instruction) (e e' : Env) : Type 0 where
  runs : Runs fl j e e'
  reads : ReadsWritten j e

binary-Same :
    (fl : Floats) (dst lhs rhs : LocalId) (op : BinaryOp) (ty : Ty) (st : List Value) (e e' : Env)
    → Describes st e
    → ReadsWritten (binary dst op lhs rhs ty) e
    → Runs fl (binary dst op lhs rhs ty) e e'
    → Same fl (left_of fl st (binary dst op lhs rhs ty)) e e'
unfolding rewrite_instruction
binary-Same fl dst lhs rhs op ty st e e' d w run = elim (Option-cases (value_of st lhs)) [
  | inl p ↦ subst (λ j. Same fl j e e') (ap left (sym (ap first p))) as_it_was
  | inr (l, p) ↦ elim (Option-cases (value_of st rhs)) [
    | inl q ↦ subst (λ j. Same fl j e e') (ap left (sym (ap first p ∙ ap (second l) q))) as_it_was
    | inr (r, q) ↦ elim (Option-cases (fold_binary fl op ty l r)) [
      | inl h ↦
          subst (λ j. Same fl j e e') (ap left (sym (ap first p ∙ ap (second l) q ∙ ap third h)))
            as_it_was
      | inr (c, h) ↦
          subst (λ j. Same fl j e e') (ap left (sym (ap first p ∙ ap (second l) q ∙ ap third h)))
            (record {
              runs = folded-Runs fl dst lhs rhs op ty st e e' l r c p q h d w run;
              reads = λ k m. absurd (uses-constant c dst k m);
            })
    ]
  ]
]
  where
    as_it_was : Same fl (binary dst op lhs rhs ty) e e'
    as_it_was = record { runs = run; reads = w }

    left : Option Instruction → Instruction
    left o = elim o [ none ↦ binary dst op lhs rhs ty | some j ↦ j ]

    third : Option Constant → Option Instruction
    third o = elim o [ none ↦ none | some folded ↦ some (instruction_of folded dst) ]

    second : Constant → Option Constant → Option Instruction
    second l o = elim o [ none ↦ none | some r ↦ third (fold_binary fl op ty l r) ]

    first : Option Constant → Option Instruction
    first o = elim o [ none ↦ none | some l ↦ second l (value_of st rhs) ]

left_of-Same :
    (fl : Floats) (i : Instruction) (st : List Value) (e e' : Env)
    → Describes st e
    → ReadsWritten i e
    → Runs fl i e e'
    → Same fl (left_of fl st i) e e'
unfolding rewrite_instruction
left_of-Same fl (binary dst op lhs rhs ty) st e e' d w r =
    binary-Same fl dst lhs rhs op ty st e e' d w r
left_of-Same fl _ st e e' d w r = record { runs = r; reads = w }

-- An assignment of a local to itself changes no word.
self_assign-same :
    (fl : Floats) (i : Instruction) (e e' : Env) → is_self_assign i ≡ true → Runs fl i e e' → e' ≡ e
unfolding is_self_assign defs
self_assign-same fl (assign dst src) e e' h r = fun_ext (λ l. elim (eq-or-ne l dst) [
  | inl q ↦ ap e' q ∙ r.result ∙ ap e (sym ((==_iff dst src).0 h)) ∙ ap e (sym q)
  | inr n ↦ r.frame l (λ p. n (value_of_some (sym p))) (λ z. z)
])
  where
    value_of_some : {x y : LocalId} → some x ≡ some y → x ≡ y
    value_of_some p = cc
self_assign-same fl _ e e' h r = absurd cc

abbrev pub code_in : List Statement → List Instruction
code_in ss = map (λ s. s.instruction) ss

-- What is kept of a block's statements runs as they did, and the state behind it describes the end.
pub record Kept (fl : Floats) (ss : List Statement) (after : List Value) (e e' : Env) : Type 0 where
  pub executes : Executes fl (code_in ss) e e'
  pub describes : Describes after e'

pub rewrite_statements-Kept :
    (fl : Floats) (ss : List Statement) (st : List Value) (e e' : Env)
    → Describes st e
    → Executes fl (code_in ss) e e'
    → Kept fl (rewrite_statements fl ss st).0 (rewrite_statements fl ss st).1 e e'
unfolding rewrite_statements
rewrite_statements-Kept fl [] st e e' d (done _) = record { executes = done e; describes = d }
rewrite_statements-Kept fl (s ∷ ss) st e e' d (next _ _ m w r x) =
    let j = left_of fl st s.instruction in
    let same = left_of-Same fl s.instruction st e m d w r in
    let k =
      rewrite_statements-Kept fl ss (apply fl j st) m e' (apply-Describes fl j st e m d same.runs)
        x in
    elim (Bool-cases (is_self_assign j)) [
      | inl a ↦ rw a (
          subst
            (λ y.
              Kept fl (rewrite_statements fl ss (apply fl j st)).0
                (rewrite_statements fl ss (apply fl j st)).1 y e')
            (self_assign-same fl j e m a same.runs) k)
      | inr b ↦ rw b (record {
        executes = next j e m same.reads same.runs k.executes;
        describes = k.describes;
      })
    ]

-- A branch whose condition is known goes where it would have gone.
jump-Takes :
    (after : List Value) (e : Env) (cond t s c : LocalId) (taken : Bool)
    → Describes after e
    → value_of after cond ≡ some (bool taken)
    → Takes e (branch cond t s) c
    → Takes e (goto (if taken then t else s)) c
jump-Takes after e cond t s c true d h (inl (p, q)) = q
jump-Takes after e cond t s c true d h (inr (p, q)) =
    absurd (cc (value_of-Describes after e cond (bool true) h d (bool false, p), p))
jump-Takes after e cond t s c false d h (inl (p, q)) =
    absurd (cc (value_of-Describes after e cond (bool false) h d (bool true, p), p))
jump-Takes after e cond t s c false d h (inr (p, q)) = q

branch_jump : LocalId → LocalId → Option Constant → Option Terminator
branch_jump t s o = elim o [ some (bool taken) ↦ some (goto (if taken then t else s)) | _ ↦ none ]

branch-Takes :
    (after : List Value) (e : Env) (cond t s c : LocalId) (u : Terminator) (k : Option Constant)
    → Describes after e
    → value_of after cond ≡ k
    → branch_jump t s k ≡ some u
    → Takes e (branch cond t s) c
    → Takes e u c
unfolding branch_jump
branch-Takes after e cond t s c u (some (bool taken)) d h q x =
    subst (λ y. Takes e y c) (value_of_jump q) (jump-Takes after e cond t s c taken d h x)
  where
    value_of_jump : {x y : Terminator} → some x ≡ some y → x ≡ y
    value_of_jump p = cc
branch-Takes after e cond t s c u (some (int v)) d h q x = absurd cc
branch-Takes after e cond t s c u (some (float v)) d h q x = absurd cc
branch-Takes after e cond t s c u none d h q x = absurd cc

pub rewrite_terminator-Takes :
    (after : List Value) (e : Env) (t u : Terminator) (c : LocalId)
    → Describes after e
    → rewrite_terminator after t ≡ some u
    → Takes e t c
    → Takes e u c
unfolding rewrite_terminator branch_jump
rewrite_terminator-Takes after e (branch cond t s) u c d q x =
    branch-Takes after e cond t s c u (value_of after cond) d refl q x
rewrite_terminator-Takes after e (goto t) u c d q x = absurd cc
rewrite_terminator-Takes after e (return o) u c d q x = absurd cc
rewrite_terminator-Takes after e unreachable u c d q x = absurd cc

-- A return is never rewritten.
pub rewrite_terminator-return :
    (after : List Value) (o : Option LocalId) → rewrite_terminator after (return o) ≡ none
unfolding rewrite_terminator
rewrite_terminator-return after o = refl

constant-is_event : (c : Constant) (dst : LocalId) → is_event (instruction_of c dst) ≡ false
unfolding instruction_of is_event
constant-is_event (int v) dst = refl
constant-is_event (bool v) dst = refl
constant-is_event (float v) dst = refl

folded-is_event :
    (dst : LocalId) (o : Option Constant) (j : Instruction)
    → (elim o [ none ↦ none | some c ↦ some (instruction_of c dst) ]) ≡ some j
    → is_event j ≡ false
folded-is_event dst none j h = absurd cc
folded-is_event dst (some c) j h = cc (constant-is_event c dst)

rewritten-is_event :
    (fl : Floats) (dst : LocalId) (op : BinaryOp) (ty : Ty) (l r : Option Constant)
    (j : Instruction)
    → (elim l [
      | none ↦ none
      | some a ↦ elim r [
        | none ↦ none
        | some b ↦ elim (fold_binary fl op ty a b) [
          | none ↦ none
          | some c ↦ some (instruction_of c dst)
        ]
      ]
    ])
      ≡ some j
    → is_event j ≡ false
rewritten-is_event fl dst op ty none r j h = absurd cc
rewritten-is_event fl dst op ty (some a) none j h = absurd cc
rewritten-is_event fl dst op ty (some a) (some b) j h =
    folded-is_event dst (fold_binary fl op ty a b) j h

left_of-is_event :
    (fl : Floats) (st : List Value) (i : Instruction) → is_event (left_of fl st i) ≡ is_event i
unfolding rewrite_instruction is_event
left_of-is_event fl st (binary dst op lhs rhs ty) =
    either (rewrite_instruction fl st (binary dst op lhs rhs ty))
      (rewritten-is_event fl dst op ty (value_of st lhs) (value_of st rhs))
  where
    either :
        (o : Option Instruction)
        → ((j : Instruction) → o ≡ some j → is_event j ≡ false)
        → is_event (elim o [ none ↦ binary dst op lhs rhs ty | some j ↦ j ]) ≡ false
    either none h = refl
    either (some j) h = h j refl
left_of-is_event fl st _ = refl

left_of_event :
    (fl : Floats) (st : List Value) (i : Instruction) → is_event i ≡ true → left_of fl st i ≡ i
unfolding rewrite_instruction is_event
left_of_event fl st (binary dst op lhs rhs ty) h = absurd cc
left_of_event fl st _ h = refl

keep-cons :
    (i j : Instruction) (is js : List Instruction)
    → is_event j ≡ is_event i
    → (is_event i ≡ true → j ≡ i)
    → keep is_event js ≡ keep is_event is
    → keep is_event (j ∷ js) ≡ keep is_event (i ∷ is)
keep-cons i j is js e h ih = elim (Bool-cases (is_event i)) [
  | inl q ↦ let same = h q in rw (e, q) (cc)
  | inr q ↦ rw (e, q) ih
]

self_assign-is_event : (i : Instruction) → is_self_assign i ≡ true → is_event i ≡ false
unfolding is_self_assign is_event
self_assign-is_event (assign _ _) h = refl
self_assign-is_event _ h = absurd cc

-- The rewriting keeps every event.
pub rewrite_statements-events :
    (fl : Floats) (ss : List Statement) (st : List Value)
    → events (code_in (rewrite_statements fl ss st).0) ≡ events (code_in ss)
unfolding rewrite_statements
rewrite_statements-events fl [] st = refl
rewrite_statements-events fl (s ∷ ss) st =
    let j = left_of fl st s.instruction in
    let ih = rewrite_statements-events fl ss (apply fl j st) in
    let as_before = left_of-is_event fl st s.instruction in
    elim (Bool-cases (is_self_assign j)) [
      | inl a ↦ rw (a, sym as_before ∙ self_assign-is_event j a) ih
      | inr b ↦ rw b (
          keep-cons s.instruction j (code_in ss)
            (code_in (rewrite_statements fl ss (apply fl j st)).0) as_before
            (left_of_event fl st s.instruction) ih)
    ]
