-- ===== src/Opt/ConstantsCorrect.antt =====
-- crates/slopic-core/src/opt.rs: `apply` and `transfer` follow what the instructions do to the locals.
use slopium.Base.{
  ℕ, zero, suc, ◌≡◌, ◌≢◌, ◌⊎◌, inl, inr, refl, sym, ◌∙◌, subst, Option, none, some, List, [], ◌∷◌,
  Option-cases, get_or, set, eq-or-ne, get_or-set_ne,
}
use slopium.Mir.{
  LocalId, Ty, BinaryOp, Instruction, const_int, const_float, const_bool, string_new, assign,
  address_of, binary, call, fn_addr, call_value, drop, struct_new, field_load, load, field_addr,
  enum_new, enum_tag, enum_field_load, enum_field_addr, field_store, enum_field_store, free,
  volatile_load, volatile_store,
}
use slopium.Cfg.DefUse.{defs}
use slopium.Opt.Fold.{Constant, int, bool, float, Floats, fold_binary}
use slopium.Opt.Meaning.{meaning}
use slopium.Opt.MeaningCorrect.{fold_binary-meaning}
use slopium.Opt.Constants.{Value, unknown, known, varying, folded_value, apply, transfer}

-- The word of each local; a local that nothing has written has none.
abbrev pub Env : Type 0
Env = LocalId → Option Constant

-- What a lattice value says of a word.
abbrev pub Of : Value → Option Constant → Type 0
Of unknown o = o ≡ none
Of (known c) o = (o ≡ none) ⊎ (o ≡ some c)
Of varying o = Unit

abbrev pub Describes : List Value → Env → Type 0
Describes state env = (l : LocalId) → Of (get_or state l varying) (env l)

-- An operation leaves what it means; one that traps, or that its type lacks, does not run to its end.
-- Without both operands there is no word.
abbrev pub Computes :
    Floats → BinaryOp → Ty → Option Constant → Option Constant → Option Constant → Type 0
Computes fl op ty (some a) (some b) o =
    (c : Constant) × (meaning fl op ty a b ≡ some c) × (o ≡ some c)
Computes fl op ty _ _ o = o ≡ none

-- The word that an instruction leaves in the local that it writes.
abbrev pub Result : Floats → Instruction → Env → Env → Type 0
Result fl (const_int dst v) e e' = e' dst ≡ some (int v)
Result fl (const_bool dst v) e e' = e' dst ≡ some (bool v)
Result fl (const_float dst v) e e' = e' dst ≡ some (float v)
Result fl (assign dst src) e e' = e' dst ≡ e src
Result fl (binary dst op lhs rhs ty) e e' = Computes fl op ty (e lhs) (e rhs) (e' dst)
Result fl _ e e' = Unit

-- What is written to a local through an address counts as written when the address is taken.
abbrev pub Exposes : Instruction → LocalId → Type 0
Exposes (address_of dst src) l = src ≡ l
Exposes _ l = ⊥

-- One instruction runs to its end.
pub record Runs (fl : Floats) (i : Instruction) (e e' : Env) : Type 0 where
  pub frame : (l : LocalId) → defs i ≢ some l → ¬ Exposes i l → e' l ≡ e l
  pub result : Result fl i e e'

set_at :
    (xs : List Value) (i : ℕ) (v d : Value)
    → (get_or (set xs i v) i d ≡ v) ⊎ (get_or (set xs i v) i d ≡ d)
set_at [] i v d = inr refl
set_at (x ∷ xs) zero v d = inl refl
set_at (x ∷ xs) (suc i) v d = set_at xs i v d

wrote :
    (state : List Value) (dst : LocalId) (v : Value) (e e' : Env)
    → ((l : LocalId) → l ≢ dst → e' l ≡ e l)
    → Of v (e' dst)
    → Describes state e
    → Describes (set state dst v) e'
wrote state dst v e e' frame o d l = elim (eq-or-ne l dst) [
  | inl q ↦ elim (set_at state dst v varying) [
    | inl p ↦
        subst (λ k. Of (get_or (set state dst v) k varying) (e' k)) (sym q)
          (subst (λ w. Of w (e' dst)) (sym p) o)
    | inr p ↦
        subst (λ k. Of (get_or (set state dst v) k varying) (e' k)) (sym q)
          (subst (λ w. Of w (e' dst)) (sym p) tt)
  ]
  | inr n ↦
      subst (λ w. Of w (e' l)) (sym (get_or-set_ne state dst l v varying (λ q. n (sym q))))
        (subst (Of (get_or state l varying)) (sym (frame l n)) (d l))
]

pub varying_at : (xs : List Value) (i : ℕ) → get_or (set xs i varying) i varying ≡ varying
varying_at xs i = elim (set_at xs i varying varying) [ inl p ↦ p | inr p ↦ p ]

-- Both ends of a borrow may hold any word.
exposed :
    (state : List Value) (dst src : LocalId) (e e' : Env)
    → ((l : LocalId) → dst ≢ l → src ≢ l → e' l ≡ e l)
    → Describes state e
    → Describes (set (set state src varying) dst varying) e'
exposed state dst src e e' frame d l = elim (eq-or-ne dst l) [
  | inl p ↦
      subst (λ k. Of (get_or (set (set state src varying) dst varying) k varying) (e' k)) p
        (subst (λ w. Of w (e' dst)) (sym (varying_at (set state src varying) dst)) tt)
  | inr n ↦
      subst (λ w. Of w (e' l)) (sym (get_or-set_ne (set state src varying) dst l varying varying n))
        (elim (eq-or-ne src l) [
          | inl p ↦
              subst (λ k. Of (get_or (set state src varying) k varying) (e' k)) p
                (subst (λ w. Of w (e' src)) (sym (varying_at state src)) tt)
          | inr m ↦
              subst (λ w. Of w (e' l)) (sym (get_or-set_ne state src l varying varying m))
                (subst (Of (get_or state l varying)) (sym (frame l n m)) (d l))
        ])
]

folded_value-none :
    (fl : Floats) (op : BinaryOp) (ty : Ty) (l r : Constant)
    → fold_binary fl op ty l r ≡ none
    → folded_value fl op ty (known l) (known r) ≡ varying
unfolding folded_value
folded_value-none fl op ty l r q = rw (q, folded_value) refl

folded_value-some :
    (fl : Floats) (op : BinaryOp) (ty : Ty) (l r c : Constant)
    → fold_binary fl op ty l r ≡ some c
    → folded_value fl op ty (known l) (known r) ≡ known c
unfolding folded_value
folded_value-some fl op ty l r c q = rw (q, folded_value) refl

computed :
    (fl : Floats) (op : BinaryOp) (ty : Ty) (l r x : Constant) (a b o : Option Constant)
    → fold_binary fl op ty l r ≡ some x
    → Of (known l) a
    → Of (known r) b
    → Computes fl op ty a b o
    → Of (known x) o
computed fl op ty l r x none b o q h k c = inl c
computed fl op ty l r x (some a) none o q h k c = inl c
computed fl op ty l r x (some a) (some b) o q (inr h) (inr k) (w, means, leaves) =
    let folded : fold_binary fl op ty a b ≡ some x = cc in
    let agrees = fold_binary-meaning fl op ty a b in inr cc
computed fl op ty l r x (some a) (some b) o q (inl h) k c = absurd cc
computed fl op ty l r x (some a) (some b) o q (inr h) (inl k) c = absurd cc

folded_value-Of :
    (fl : Floats) (op : BinaryOp) (ty : Ty) (l r : Value) (a b o : Option Constant)
    → Of l a
    → Of r b
    → Computes fl op ty a b o
    → Of (folded_value fl op ty l r) o
unfolding folded_value
folded_value-Of fl op ty (known l) (known r) a b o h k c =
    elim (Option-cases (fold_binary fl op ty l r)) [
      | inl q ↦ subst (λ w. Of w o) (sym (folded_value-none fl op ty l r q)) tt
      | inr (x, q) ↦
          subst (λ w. Of w o) (sym (folded_value-some fl op ty l r x q))
            (computed fl op ty l r x a b o q h k c)
    ]
folded_value-Of fl op ty _ _ a b o h k c = tt

value_of_some : {x y : LocalId} → some x ≡ some y → x ≡ y
value_of_some e = cc

frame_of :
    {fl : Floats} {i : Instruction} {e e' : Env} (dst : LocalId)
    → defs i ≡ some dst
    → ((l : LocalId) → ¬ Exposes i l)
    → Runs fl i e e'
    → (l : LocalId) → l ≢ dst
    → e' l ≡ e l
frame_of dst q x r l n = r.frame l (λ p. n (value_of_some (sym p ∙ q))) (x l)

-- One instruction: what the state says stays true of the locals.
pub apply-Describes :
    (fl : Floats) (i : Instruction) (state : List Value) (e e' : Env)
    → Describes state e
    → Runs fl i e e'
    → Describes (apply fl i state) e'
unfolding apply defs
apply-Describes fl (const_int dst v) state e e' d r =
    wrote state dst (known (int v)) e e' (frame_of dst refl (λ l z. z) r) (inr r.result) d
apply-Describes fl (const_bool dst v) state e e' d r =
    wrote state dst (known (bool v)) e e' (frame_of dst refl (λ l z. z) r) (inr r.result) d
apply-Describes fl (const_float dst v) state e e' d r =
    wrote state dst (known (float v)) e e' (frame_of dst refl (λ l z. z) r) (inr r.result) d
apply-Describes fl (assign dst src) state e e' d r =
    wrote state dst (get_or state src varying) e e' (frame_of dst refl (λ l z. z) r)
      (subst (Of (get_or state src varying)) (sym r.result) (d src)) d
apply-Describes fl (binary dst op lhs rhs ty) state e e' d r =
    wrote state dst (folded_value fl op ty (get_or state lhs varying) (get_or state rhs varying)) e
      e' (frame_of dst refl (λ l z. z) r)
      (folded_value-Of fl op ty (get_or state lhs varying) (get_or state rhs varying) (e lhs)
        (e rhs) (e' dst) (d lhs) (d rhs) r.result)
      d
apply-Describes fl (address_of dst src) state e e' d r =
    exposed state dst src e e' (λ l n m. r.frame l (λ p. n (value_of_some p)) m) d
apply-Describes fl (drop l ty) state e e' d r =
    λ k. subst (Of (get_or state k varying)) (sym (r.frame k (λ p. cc) (λ z. z))) (d k)
apply-Describes fl (free l) state e e' d r =
    λ k. subst (Of (get_or state k varying)) (sym (r.frame k (λ p. cc) (λ z. z))) (d k)
apply-Describes fl (field_store a b c) state e e' d r =
    λ k. subst (Of (get_or state k varying)) (sym (r.frame k (λ p. cc) (λ z. z))) (d k)
apply-Describes fl (enum_field_store a b c) state e e' d r =
    λ k. subst (Of (get_or state k varying)) (sym (r.frame k (λ p. cc) (λ z. z))) (d k)
apply-Describes fl (volatile_store a b c) state e e' d r =
    λ k. subst (Of (get_or state k varying)) (sym (r.frame k (λ p. cc) (λ z. z))) (d k)
apply-Describes fl (volatile_load dst a b) state e e' d r =
    wrote state dst varying e e' (frame_of dst refl (λ l z. z) r) tt d
apply-Describes fl (string_new dst a) state e e' d r =
    wrote state dst varying e e' (frame_of dst refl (λ l z. z) r) tt d
apply-Describes fl (call dst a b c f) state e e' d r =
    wrote state dst varying e e' (frame_of dst refl (λ l z. z) r) tt d
apply-Describes fl (fn_addr dst a) state e e' d r =
    wrote state dst varying e e' (frame_of dst refl (λ l z. z) r) tt d
apply-Describes fl (call_value dst a b c f) state e e' d r =
    wrote state dst varying e e' (frame_of dst refl (λ l z. z) r) tt d
apply-Describes fl (struct_new dst a b) state e e' d r =
    wrote state dst varying e e' (frame_of dst refl (λ l z. z) r) tt d
apply-Describes fl (field_load dst a b) state e e' d r =
    wrote state dst varying e e' (frame_of dst refl (λ l z. z) r) tt d
apply-Describes fl (load dst a) state e e' d r =
    wrote state dst varying e e' (frame_of dst refl (λ l z. z) r) tt d
apply-Describes fl (field_addr dst a b) state e e' d r =
    wrote state dst varying e e' (frame_of dst refl (λ l z. z) r) tt d
apply-Describes fl (enum_new dst a b c) state e e' d r =
    wrote state dst varying e e' (frame_of dst refl (λ l z. z) r) tt d
apply-Describes fl (enum_tag dst a) state e e' d r =
    wrote state dst varying e e' (frame_of dst refl (λ l z. z) r) tt d
apply-Describes fl (enum_field_load dst a b) state e e' d r =
    wrote state dst varying e e' (frame_of dst refl (λ l z. z) r) tt d
apply-Describes fl (enum_field_addr dst a b) state e e' d r =
    wrote state dst varying e e' (frame_of dst refl (λ l z. z) r) tt d

-- A run of a block's instructions, one environment after the other.
pub data RunsAll (fl : Floats) : List Instruction → Env → Env → Type 0 where
  done : (e : Env) → RunsAll fl [] e e
  next :
      (i : Instruction) {is : List Instruction} (e e' : Env) {e'' : Env}
      → Runs fl i e e'
      → RunsAll fl is e' e''
      → RunsAll fl (i ∷ is) e e''

-- A run of a block's statements in which no operation traps takes an environment that the state
-- describes to one that the state behind the block describes: a local that the state says is constant
-- has that word or none. An operation leaves in a run what it means, which is not defined by the folds,
-- and a local that is written through its address counts as written when the address is taken.
pub transfer-Describes :
    (fl : Floats) (is : List Instruction) (state : List Value) (e e' : Env)
    → Describes state e
    → RunsAll fl is e e'
    → Describes (transfer fl is state) e'
unfolding transfer
transfer-Describes fl [] state e e' d (done _) = d
transfer-Describes fl (i ∷ is) state e e' d (next _ _ m r rs) =
    transfer-Describes fl is (apply fl i state) m e' (apply-Describes fl i state e m d r) rs
