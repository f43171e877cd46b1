-- ===== src/Opt/Meet.antt =====
-- crates/slopic-core/src/opt.rs: what `meet_states` does to what a state says of the locals.
use slopium.Base.{
  zero, suc, ◌≡◌, inl, inr, refl, sym, ◌∙◌, ap, subst, Bool, true, false, ◌||◌, not, Option, List,
  [], ◌∷◌, arith, Bool-cases, length, get_or, set, length-set,
}
use slopium.Mir.{
  LocalId, Instruction, address_of, drop, field_store, enum_field_store, free, volatile_store,
}
use slopium.Opt.Fold.{Constant, int, bool, float, Floats}
use slopium.Opt.Constants.{
  Value, unknown, known, varying, eq_constant, eq_value, meet, meet_states, apply, transfer,
}
use slopium.Opt.ConstantsCorrect.{Env, Of, Describes}

eq_constant→≡ : (a b : Constant) → eq_constant a b ≡ true → a ≡ b
unfolding eq_constant
eq_constant→≡ (int a) (int b) h = ground arith
eq_constant→≡ (bool true) (bool b) h = ap bool (sym h)
eq_constant→≡ (bool false) (bool true) h = absurd cc
eq_constant→≡ (bool false) (bool false) h = refl
eq_constant→≡ (float a) (float b) h = ground arith
eq_constant→≡ _ _ h = absurd cc

eq_value→≡ : (a b : Value) → eq_value a b ≡ true → a ≡ b
unfolding eq_value
eq_value→≡ unknown unknown h = refl
eq_value→≡ (known a) (known b) h = ap known (eq_constant→≡ a b h)
eq_value→≡ varying varying h = refl
eq_value→≡ _ _ h = absurd cc

-- Lowering a value keeps what it says true.
meet-Of : (v w : Value) (o : Option Constant) → Of v o → Of (meet v w) o
unfolding meet
meet-Of unknown unknown o h = h
meet-Of unknown (known c) o h = inl h
meet-Of unknown varying o h = tt
meet-Of varying w o h = tt
meet-Of (known a) unknown o h = h
meet-Of (known a) (known b) o h = elim (Bool-cases (eq_constant a b)) [
  | inl e ↦ rw e h
  | inr e ↦ rw e tt
]
meet-Of (known a) varying o h = tt

same_constant :
    (a b : Constant) (o : Option Constant)
    → eq_value (meet (known a) (known b)) (known a) ≡ true
    → Of (known b) o
    → Of (known a) o
unfolding meet eq_value
same_constant a b o = elim (Bool-cases (eq_constant a b)) [
  | inl q ↦ λ e h. subst (λ c. Of (known c) o) (sym (eq_constant→≡ a b q)) h
  | inr q ↦ rw q (λ e h. absurd cc)
]

-- A value that the meet leaves as it is says all that the other one says.
not_lowered-Of :
    (v w : Value) (o : Option Constant) → eq_value (meet v w) v ≡ true → Of w o → Of v o
unfolding meet eq_value
not_lowered-Of unknown unknown o e h = h
not_lowered-Of unknown (known c) o e h = absurd cc
not_lowered-Of unknown varying o e h = absurd cc
not_lowered-Of varying w o e h = tt
not_lowered-Of (known a) unknown o e h = inl h
not_lowered-Of (known a) (known b) o e h = same_constant a b o e h
not_lowered-Of (known a) varying o e h = absurd cc

pub length-meet_states : (a b : List Value) → length (meet_states a b).0 ≡ length a
unfolding meet_states
length-meet_states [] b = refl
length-meet_states (v ∷ a) [] = refl
length-meet_states (v ∷ a) (w ∷ b) = ap suc (length-meet_states a b)

slot-Of :
    (a b : List Value) (l : LocalId) (o : Option Constant)
    → Of (get_or a l varying) o
    → Of (get_or (meet_states a b).0 l varying) o
unfolding meet_states
slot-Of [] b l o h = h
slot-Of (v ∷ a) [] l o h = h
slot-Of (v ∷ a) (w ∷ b) zero o h = meet-Of v w o h
slot-Of (v ∷ a) (w ∷ b) (suc l) o h = slot-Of a b l o h

pub meet_states-Describes :
    (a b : List Value) (e : Env) → Describes a e → Describes (meet_states a b).0 e
meet_states-Describes a b e d l = slot-Of a b l (e l) (d l)

or-false : {a b : Bool} → (a || b) ≡ false → (a ≡ false) × (b ≡ false)
or-false h = ground (arith, h)

not-false : {a : Bool} → not a ≡ false → a ≡ true
not-false h = ground (arith, h)

not_lowered_slot :
    (a b : List Value) (l : LocalId) (o : Option Constant)
    → length a ≡ length b
    → (meet_states a b).1 ≡ false
    → Of (get_or b l varying) o
    → Of (get_or a l varying) o
unfolding meet_states
not_lowered_slot [] b l o n e h = tt
not_lowered_slot (v ∷ a) [] l o n e h = absurd (omega arith)
not_lowered_slot (v ∷ a) (w ∷ b) zero o n e h = not_lowered-Of v w o (not-false (or-false e).0) h
not_lowered_slot (v ∷ a) (w ∷ b) (suc l) o n e h =
    not_lowered_slot a b l o (omega arith) (or-false e).1 h

-- A state that a meet leaves as it is says all that the other one says.
pub not_lowered-Describes :
    (a b : List Value) (e : Env)
    → length a ≡ length b
    → (meet_states a b).1 ≡ false
    → Describes b e
    → Describes a e
not_lowered-Describes a b e n h d l = not_lowered_slot a b l (e l) n h (d l)

pub not_lowered-same : (a b : List Value) → (meet_states a b).1 ≡ false → (meet_states a b).0 ≡ a
unfolding meet_states
not_lowered-same [] b h = refl
not_lowered-same (v ∷ a) [] h = refl
not_lowered-same (v ∷ a) (w ∷ b) h =
    cons_cong (eq_value→≡ (meet v w) v (not-false (or-false h).0))
      (not_lowered-same a b (or-false h).1)
  where
    cons_cong : {x y : Value} {xs ys : List Value} → x ≡ y → xs ≡ ys → x ∷ xs ≡ y ∷ ys
    cons_cong p q = cc

length-apply : (fl : Floats) (i : Instruction) (s : List Value) → length (apply fl i s) ≡ length s
unfolding apply
length-apply fl (address_of dst src) s =
    length-set (set s src varying) dst varying ∙ length-set s src varying
length-apply fl (drop _ _) s = refl
length-apply fl (free _) s = refl
length-apply fl (field_store _ _ _) s = refl
length-apply fl (enum_field_store _ _ _) s = refl
length-apply fl (volatile_store _ _ _) s = refl
length-apply fl _ s = length-set s _ _

pub length-transfer :
    (fl : Floats) (is : List Instruction) (s : List Value) → length (transfer fl is s) ≡ length s
unfolding transfer
length-transfer fl [] s = refl
length-transfer fl (i ∷ is) s = length-transfer fl is (apply fl i s) ∙ length-apply fl i s
