-- ===== src/Opt/Known.antt =====
-- crates/slopic-core/src/opt.rs: the settled states of the propagation describe every execution.
use slopium.Base.{
  ℕ, zero, suc, ◌<◌, ◌≡◌, inl, inr, refl, sym, ◌∙◌, ap, subst, Option, none, some, List, [], ◌∷◌,
  length, get_or, set, replicate, In, eq-or-ne, length-set, length-replicate, get_or-replicate,
  get_or-set_ne, get_or-set_self,
}
use slopium.Mir.{LocalId, BlockId, Instruction, MirFunction}
use slopium.Cfg.Graph.{new}
use slopium.Cfg.Liveness.{code_of}
use slopium.Cfg.Correct.{is_reachable-iff-path}
use slopium.Opt.Fold.{Constant, Floats}
use slopium.Opt.Constants.{Value, unknown, varying, transfer, set_varying, first_states}
use slopium.Opt.ConstantsCorrect.{Env, Of, Describes, RunsAll, transfer-Describes, varying_at}
use slopium.Opt.Meet.{not_lowered-Describes, length-transfer}
use slopium.Opt.Rounds.{States, state_at, set-either, IsFlow, IsSettled}
use slopium.Opt.Execution.{
  Starts, Executes, Takes, Comes, start, step, Returns, events, Takes-targets, Comes-PathTo,
}
use slopium.Opt.Execution

Executes-RunsAll :
    {fl : Floats} {is : List Instruction} {e e' : Env} → Executes fl is e e' → RunsAll fl is e e'
Executes-RunsAll (Execution.done e) = RunsAll.done e
Executes-RunsAll (Execution.next i e e' w r x) = RunsAll.next i e e' r (Executes-RunsAll x)

set_varying-Of :
    (ps : List LocalId) (st : List Value) (e : Env)
    → ((l : LocalId) → ¬ In l ps → Of (get_or st l varying) (e l))
    → Describes (set_varying ps st) e
unfolding set_varying
set_varying-Of [] st e h = λ l. h l (λ m. m)
set_varying-Of (p ∷ ps) st e h = set_varying-Of ps (set st p varying) e (λ l n.
    elim (eq-or-ne p l) [
      | inl q ↦
          subst (λ k. Of (get_or (set st p varying) k varying) (e k)) q
            (subst (λ w. Of w (e p)) (sym (varying_at st p)) tt)
      | inr m ↦
          subst (λ w. Of w (e l)) (sym (get_or-set_ne st p l varying varying m))
            (h l (λ k. elim k [ inl q ↦ m (sym q) | inr o ↦ n o ]))
    ])

length-set_varying : (ps : List LocalId) (st : List Value) → length (set_varying ps st) ≡ length st
unfolding set_varying
length-set_varying [] st = refl
length-set_varying (p ∷ ps) st = length-set_varying ps (set st p varying) ∙ length-set st p varying

fresh-Of :
    (n : ℕ) (l : LocalId) (o : Option Constant)
    → o ≡ none
    → Of (get_or (replicate n unknown) l varying) o
fresh-Of zero l o h = tt
fresh-Of (suc n) zero o h = h
fresh-Of (suc n) (suc l) o h = fresh-Of n l o h

pub first_states-IsFlow :
    (f : MirFunction)
    → f.entry < length f.blocks
    → IsFlow (length f.locals) f.entry (Starts f) (length f.blocks) (first_states f)
unfolding first_states
first_states-IsFlow f lt = record {
  covers =
      length-set (replicate (length f.blocks) none) f.entry _
      ∙ length-replicate (length f.blocks) none;
  sized = λ b {st} q. elim (set-either (replicate (length f.blocks) none) f.entry b first q) [
    | inl p ↦
        ap length (sym p)
        ∙ length-set_varying f.params fresh
        ∙ length-replicate (length f.locals) unknown
    | inr p ↦
        let gone : state_at (replicate (length f.blocks) none) b ≡ none =
          get_or-replicate (length f.blocks) b none in
        absurd (cc (gone, p))
  ];
  started = (
    first,
    get_or-set_self (replicate (length f.blocks) none) f.entry (some first) none
        (subst (λ n. f.entry < n) (sym (length-replicate (length f.blocks) none)) lt),
    λ e s. set_varying-Of f.params fresh e (λ l n. fresh-Of (length f.locals) l (e l) (s l n)),
  );
}
  where
    fresh : List Value
    fresh = replicate (length f.locals) unknown

    first : List Value
    first = set_varying f.params fresh

module _ (fl : Floats) (f : MirFunction) (lt : f.entry < length f.blocks) (E : States)
    (settled : IsSettled fl f.blocks
      (new f).reverse_postorder
      (length f.locals)
      f.entry
      (Starts f)
      E) where
  -- The state of a block that an execution comes to describes the words there.
  pub record IsKnown (b : BlockId) (e : Env) : Type 0 where
    pub state : List Value
    pub there : state_at E b ≡ some state
    pub describes : Describes state e

  pub Comes-IsKnown :
      {b : BlockId} {e : Env} {trace : List Instruction} → Comes fl f b e trace → IsKnown b e
  Comes-IsKnown (start e s) =
      let (st, there, says) = settled.flow.started in
      record { state = st; there = there; describes = says e s }
  Comes-IsKnown (step {b = b} {c = c} {e = e} {e' = e'} r x t inside) =
      let k = Comes-IsKnown r in
      let reach = is_reachable-iff-path f lt b in
      let ordered = reach.1.1 (reach.0.1 (Comes-PathTo r)) in
      let met =
        (settled.stable b ordered).flows k.there c (Takes-targets f.blocks b c e' t) inside in
      record {
        state = met.old;
        there = met.there;
        describes =
            not_lowered-Describes met.old (transfer fl (code_of f.blocks b) k.state) e'
              (settled.flow.sized c met.there
                ∙ sym (
                    length-transfer fl (code_of f.blocks b) k.state ∙ settled.flow.sized b k.there))
              met.same
              (transfer-Describes fl (code_of f.blocks b) k.state e e' k.describes
                (Executes-RunsAll x));
      }
