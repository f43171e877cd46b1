-- ===== src/Opt/Blocks.antt =====
-- crates/slopic-core/src/opt.rs: `rewrite_with_constants` over the blocks of a function.
use slopium.Base.{
  zero, suc, ◌≡◌, inl, inr, refl, sym, ◌∙◌, ap, subst, Option, none, some, List, [], ◌∷◌, map,
  length, get_elem?, Option-cases,
}
use slopium.Mir.{LocalId, BlockId, Terminator, return, unreachable, BasicBlock, instructions}
use slopium.Cfg.Liveness.{code_of, terminator_of}
use slopium.Opt.Fold.{Floats}
use slopium.Opt.Constants.{
  Value, rewrite_statements, rewrite_terminator, rewrite_block, rewrite_blocks,
}
use slopium.Opt.ConstantsCorrect.{Env, Describes}
use slopium.Opt.Rounds.{States, state_at}
use slopium.Opt.Execution.{events, Executes, Takes}
use slopium.Opt.Rewrite.{
  rewrite_statements-events, rewrite_statements-Kept, rewrite_terminator-Takes,
  rewrite_terminator-return,
}

-- One block of the rewritten function.
rewrite_blocks-at :
    (fl : Floats) (bs : List BasicBlock) (E : States) (b : BlockId)
    → get_elem? (rewrite_blocks fl bs E).0 b ≡ (elim (get_elem? bs b) [
      | none ↦ none
      | some k ↦ some (rewrite_block fl k (state_at E b)).0
    ])
unfolding rewrite_blocks
rewrite_blocks-at fl [] E b = refl
rewrite_blocks-at fl (k ∷ bs) [] zero = refl
rewrite_blocks-at fl (k ∷ bs) (x ∷ E) zero = refl
rewrite_blocks-at fl (k ∷ bs) [] (suc b) = rewrite_blocks-at fl bs [] b
rewrite_blocks-at fl (k ∷ bs) (x ∷ E) (suc b) = rewrite_blocks-at fl bs E b

pub length-rewrite_blocks :
    (fl : Floats) (bs : List BasicBlock) (E : States)
    → length (rewrite_blocks fl bs E).0 ≡ length bs
unfolding rewrite_blocks
length-rewrite_blocks fl [] E = refl
length-rewrite_blocks fl (k ∷ bs) [] = ap suc (length-rewrite_blocks fl bs [])
length-rewrite_blocks fl (k ∷ bs) (x ∷ E) = ap suc (length-rewrite_blocks fl bs E)

-- A block that is rewritten from a state.
pub record IsRewritten (fl : Floats) (st : List Value) (k k' : BasicBlock) : Type 0 where
  pub code : k'.statements ≡ (rewrite_statements fl k.statements st).0
  pub exit :
      k'.terminator
      ≡ (elim (rewrite_terminator (rewrite_statements fl k.statements st).1 k.terminator) [
        | none ↦ k.terminator
        | some t ↦ t
      ])

pub rewrite_block-IsRewritten :
    (fl : Floats) (k : BasicBlock) (st : List Value)
    → IsRewritten fl st k (rewrite_block fl k (some st)).0
unfolding rewrite_block
rewrite_block-IsRewritten fl k st =
    elim (Option-cases
      (rewrite_terminator (rewrite_statements fl k.statements st).1 k.terminator)) [
        | inl q ↦ rw (q, rewrite_block) (record { code = refl; exit = rw q refl })
        | inr (t, q) ↦ rw (q, rewrite_block) (record { code = refl; exit = rw q refl })
      ]

-- What the rewritten block does wherever the old one runs.
pub record Follows (fl : Floats) (old new_blocks : List BasicBlock) (b : BlockId) (e e' : Env)
    : Type 0 where
  pub executes : Executes fl (code_of new_blocks b) e e'
  pub same_events : events (code_of new_blocks b) ≡ events (code_of old b)
  pub takes :
      (c : BlockId) → Takes e' (terminator_of old b) c → Takes e' (terminator_of new_blocks b) c
  pub returns :
      (o : Option LocalId) → terminator_of old b ≡ return o → terminator_of new_blocks b ≡ return o

exit-Takes :
    (after : List Value) (e : Env) (t : Terminator) (c : BlockId)
    → Describes after e
    → Takes e t c
    → Takes e (elim (rewrite_terminator after t) [ none ↦ t | some u ↦ u ]) c
exit-Takes after e t c d x = elim (Option-cases (rewrite_terminator after t)) [
  | inl q ↦ rw q x
  | inr (u, q) ↦ rw q (rewrite_terminator-Takes after e t u c d q x)
]

exit-return :
    (after : List Value) (t : Terminator) (o : Option LocalId)
    → t ≡ return o
    → (elim (rewrite_terminator after t) [ none ↦ t | some u ↦ u ]) ≡ return o
exit-return after t o q =
    let kept : rewrite_terminator after t ≡ none =
      ap (rewrite_terminator after) q ∙ rewrite_terminator-return after o in
    rw kept q

pub code_of-at :
    (bs : List BasicBlock) (b : BlockId) (k : BasicBlock)
    → get_elem? bs b ≡ some k
    → code_of bs b ≡ map (λ s. s.instruction) k.statements
unfolding code_of instructions
code_of-at bs b k q = rw (q, code_of) refl

pub terminator_of-at :
    (bs : List BasicBlock) (b : BlockId) (k : BasicBlock)
    → get_elem? bs b ≡ some k
    → terminator_of bs b ≡ k.terminator
unfolding terminator_of
terminator_of-at bs b k q = rw (q, terminator_of) refl

pub code_of-none : (bs : List BasicBlock) (b : BlockId) → get_elem? bs b ≡ none → code_of bs b ≡ []
unfolding code_of
code_of-none bs b q = rw (q, code_of) refl

pub terminator_of-none :
    (bs : List BasicBlock) (b : BlockId) → get_elem? bs b ≡ none → terminator_of bs b ≡ unreachable
unfolding terminator_of
terminator_of-none bs b q = rw (q, terminator_of) refl

block-Follows :
    (fl : Floats) (k k' : BasicBlock) (st : List Value) (old news : List BasicBlock) (b : BlockId)
    (e e' : Env)
    → IsRewritten fl st k k'
    → get_elem? old b ≡ some k
    → get_elem? news b ≡ some k'
    → Describes st e
    → Executes fl (code_of old b) e e'
    → Follows fl old news b e e'
block-Follows fl k k' st old news b e e' w p q d x =
    let ran = subst (λ is. Executes fl is e e') (code_of-at old b k p) x in
    let kept = rewrite_statements-Kept fl k.statements st e e' d ran in
    let new_code = code_of-at news b k' q ∙ ap (map (λ s. s.instruction)) w.code in
    let new_exit = terminator_of-at news b k' q ∙ w.exit in
    let old_exit = terminator_of-at old b k p in
    record {
      executes = subst (λ is. Executes fl is e e') (sym new_code) kept.executes;
      same_events =
          ap events new_code
          ∙ rewrite_statements-events fl k.statements st
          ∙ ap events (sym (code_of-at old b k p));
      takes = λ c t.
          subst (λ u. Takes e' u c) (sym new_exit)
            (exit-Takes (rewrite_statements fl k.statements st).1 e' k.terminator c kept.describes
              (subst (λ u. Takes e' u c) old_exit t));
      returns = λ o t.
          new_exit
          ∙ exit-return (rewrite_statements fl k.statements st).1 k.terminator o (sym old_exit ∙ t);
    }

missing-Follows :
    (fl : Floats) (old news : List BasicBlock) (b : BlockId) (e e' : Env)
    → get_elem? old b ≡ none
    → get_elem? news b ≡ none
    → Executes fl (code_of old b) e e'
    → Follows fl old news b e e'
missing-Follows fl old news b e e' p q x =
    let same_exit = terminator_of-none old b p ∙ sym (terminator_of-none news b q) in
    record {
      executes =
          subst (λ is. Executes fl is e e') (code_of-none old b p ∙ sym (code_of-none news b q)) x;
      same_events = ap events (code_of-none news b q ∙ sym (code_of-none old b p));
      takes = λ c t. subst (λ u. Takes e' u c) same_exit t;
      returns = λ o t. sym same_exit ∙ t;
    }

rewrite_blocks-some :
    (fl : Floats) (bs : List BasicBlock) (E : States) (b : BlockId) (k : BasicBlock)
    (st : List Value)
    → get_elem? bs b ≡ some k
    → state_at E b ≡ some st
    → get_elem? (rewrite_blocks fl bs E).0 b ≡ some (rewrite_block fl k (some st)).0
rewrite_blocks-some fl bs E b k st p q = rewrite_blocks-at fl bs E b ∙ rw (p, q) refl

rewrite_blocks-none :
    (fl : Floats) (bs : List BasicBlock) (E : States) (b : BlockId)
    → get_elem? bs b ≡ none
    → get_elem? (rewrite_blocks fl bs E).0 b ≡ none
rewrite_blocks-none fl bs E b p = rewrite_blocks-at fl bs E b ∙ rw p refl

pub known-Follows :
    (fl : Floats) (bs : List BasicBlock) (E : States) (b : BlockId) (st : List Value) (e e' : Env)
    → state_at E b ≡ some st
    → Describes st e
    → Executes fl (code_of bs b) e e'
    → Follows fl bs (rewrite_blocks fl bs E).0 b e e'
known-Follows fl bs E b st e e' q d x = elim (Option-cases (get_elem? bs b)) [
  | inl p ↦
      missing-Follows fl bs (rewrite_blocks fl bs E).0 b e e' p (rewrite_blocks-none fl bs E b p) x
  | inr (k, p) ↦
      block-Follows fl k (rewrite_block fl k (some st)).0 st bs (rewrite_blocks fl bs E).0 b e e'
        (rewrite_block-IsRewritten fl k st) p (rewrite_blocks-some fl bs E b k st p q) d x
]
