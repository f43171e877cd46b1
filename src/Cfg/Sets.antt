-- ===== src/Cfg/Sets.antt =====
-- crates/slopic-core/src/cfg.rs: sets of locals as vectors of flags, and their order.
use slopium.Base.{
  ℕ, zero, suc, ◌≤◌, ◌<◌, ◌≡◌, refl, ap, Bool, true, false, ◌||◌, List, [], ◌∷◌, arith, inl, length,
  get_or, set, replicate,
}

-- `out[local] |= live` for each flag of `entry`.
unfoldable pub or_into : List Bool → List Bool → List Bool
or_into [] entry = []
or_into (o ∷ out) [] = o ∷ out
or_into (o ∷ out) (e ∷ entry) = (o || e) ∷ or_into out entry

-- `==` on vectors of flags.
unfoldable pub eq_flags : List Bool → List Bool → Bool
eq_flags [] [] = true
eq_flags (true ∷ a) (true ∷ b) = eq_flags a b
eq_flags (false ∷ a) (false ∷ b) = eq_flags a b
eq_flags _ _ = false

pub eq_flags_lem : (a b : List Bool) → eq_flags a b ≡ true → a ≡ b
unfolding eq_flags
eq_flags_lem [] [] h = refl
eq_flags_lem (true ∷ a) (true ∷ b) h = ap (λ r. true ∷ r) (eq_flags_lem a b h)
eq_flags_lem (false ∷ a) (false ∷ b) h = ap (λ r. false ∷ r) (eq_flags_lem a b h)
eq_flags_lem [] (x ∷ b) h = cc
eq_flags_lem (x ∷ a) [] h = ground arith
eq_flags_lem (true ∷ a) (false ∷ b) h = cc
eq_flags_lem (false ∷ a) (true ∷ b) h = cc

-- `a` has no flag that `b` lacks, and they are as long.
abbrev pub Below : List Bool → List Bool → Type 0
Below [] [] = Unit
Below (x ∷ a) (y ∷ b) = (x ≡ true → y ≡ true) × Below a b
Below _ _ = ⊥

pub Below-refl : (a : List Bool) → Below a a
Below-refl [] = tt
Below-refl (x ∷ a) = ((λ h. h), Below-refl a)

pub Below-trans : (a b c : List Bool) → Below a b → Below b c → Below a c
Below-trans [] [] [] h k = tt
Below-trans [] [] (z ∷ c) h k = absurd k
Below-trans [] (y ∷ b) c h k = absurd h
Below-trans (x ∷ a) [] c h k = absurd h
Below-trans (x ∷ a) (y ∷ b) [] h k = absurd k
Below-trans (x ∷ a) (y ∷ b) (z ∷ c) h k = ((λ p. k.0 (h.0 p)), Below-trans a b c h.1 k.1)

pub Below-get :
    (a b : List Bool) (l : ℕ) → Below a b → get_or a l false ≡ true → get_or b l false ≡ true
Below-get [] b l h e = cc
Below-get (x ∷ a) [] l h e = absurd h
Below-get (x ∷ a) (y ∷ b) zero h e = h.0 e
Below-get (x ∷ a) (y ∷ b) (suc l) h e = Below-get a b l h.1 e

pub Below-length : (a b : List Bool) → Below a b → length a ≡ length b
Below-length [] [] h = refl
Below-length [] (y ∷ b) h = absurd h
Below-length (x ∷ a) [] h = absurd h
Below-length (x ∷ a) (y ∷ b) h = ap suc (Below-length a b h.1)

pub Below-none : (n : ℕ) (b : List Bool) → length b ≡ n → Below (replicate n false) b
Below-none zero [] h = tt
Below-none zero (y ∷ b) h = absurd (omega arith)
Below-none (suc n) [] h = absurd (omega arith)
Below-none (suc n) (y ∷ b) h = ((λ p. cc), Below-none n b (omega arith))

pub Below-set : (a b : List Bool) (l : ℕ) (v : Bool) → Below a b → Below (set a l v) (set b l v)
Below-set [] [] l v h = tt
Below-set [] (y ∷ b) l v h = absurd h
Below-set (x ∷ a) [] l v h = absurd h
Below-set (x ∷ a) (y ∷ b) zero v h = ((λ p. p), h.1)
Below-set (x ∷ a) (y ∷ b) (suc l) v h = (h.0, Below-set a b l v h.1)

or_mono :
    (x y e f : Bool)
    → (x ≡ true → y ≡ true)
    → (e ≡ true → f ≡ true)
    → (x || e) ≡ true
    → (y || f) ≡ true
or_mono x y e f h k p = ground arith

pub Below-or_into :
    (a b e f : List Bool) → Below a b → Below e f → Below (or_into a e) (or_into b f)
unfolding or_into
Below-or_into [] [] e f h k = tt
Below-or_into [] (y ∷ b) e f h k = absurd h
Below-or_into (x ∷ a) [] e f h k = absurd h
Below-or_into (x ∷ a) (y ∷ b) [] [] h k = h
Below-or_into (x ∷ a) (y ∷ b) [] (f ∷ fs) h k = absurd k
Below-or_into (x ∷ a) (y ∷ b) (e ∷ es) [] h k = absurd k
Below-or_into (x ∷ a) (y ∷ b) (e ∷ es) (f ∷ fs) h k =
    (or_mono x y e f h.0 k.0, Below-or_into a b es fs h.1 k.1)

pub length-or_into : (a e : List Bool) → length (or_into a e) ≡ length a
unfolding or_into
length-or_into [] e = refl
length-or_into (x ∷ a) [] = refl
length-or_into (x ∷ a) (y ∷ e) = ap suc (length-or_into a e)

-- A flag of a union is a flag of a part.
pub or_into-split :
    (a e : List Bool) (l : ℕ)
    → get_or (or_into a e) l false ≡ true
    → mathlib.Core.Logic.◌⊎◌ (get_or a l false ≡ true) (get_or e l false ≡ true)
unfolding or_into
or_into-split [] e l h = cc
or_into-split (x ∷ a) [] l h = inl h
or_into-split (x ∷ a) (y ∷ e) zero h = ground arith
or_into-split (x ∷ a) (y ∷ e) (suc l) h = or_into-split a e l h

pub or_into-left :
    (a e : List Bool) (l : ℕ) → get_or a l false ≡ true → get_or (or_into a e) l false ≡ true
unfolding or_into
or_into-left [] e l h = h
or_into-left (x ∷ a) [] l h = h
or_into-left (x ∷ a) (y ∷ e) zero h = ground arith
or_into-left (x ∷ a) (y ∷ e) (suc l) h = or_into-left a e l h

pub or_into-right :
    (a e : List Bool) (l : ℕ)
    → l < length a
    → get_or e l false ≡ true
    → get_or (or_into a e) l false ≡ true
unfolding or_into
or_into-right [] e l lt h = absurd (omega arith)
or_into-right (x ∷ a) [] l lt h = cc
or_into-right (x ∷ a) (y ∷ e) zero lt h = ground arith
or_into-right (x ∷ a) (y ∷ e) (suc l) lt h = or_into-right a e l (omega arith) h

-- The number of flags.
unfoldable pub flags : List Bool → ℕ
flags [] = 0
flags (true ∷ a) = suc (flags a)
flags (false ∷ a) = flags a

pub flags-le : (a : List Bool) → flags a ≤ length a
unfolding flags
flags-le [] = omega arith
flags-le (true ∷ a) = omega (arith, flags-le a)
flags-le (false ∷ a) = omega (arith, flags-le a)

pub flags-Below : (a b : List Bool) → Below a b → flags a ≤ flags b
unfolding flags
flags-Below [] [] h = omega arith
flags-Below [] (y ∷ b) h = absurd h
flags-Below (x ∷ a) [] h = absurd h
flags-Below (true ∷ a) (true ∷ b) h = omega (arith, flags-Below a b h.1)
flags-Below (true ∷ a) (false ∷ b) h = cc (h.0 refl)
flags-Below (false ∷ a) (true ∷ b) h = omega (arith, flags-Below a b h.1)
flags-Below (false ∷ a) (false ∷ b) h = omega (arith, flags-Below a b h.1)

-- A greater set that is another set has more flags.
pub flags-grow : (a b : List Bool) → Below a b → eq_flags b a ≡ false → flags a < flags b
unfolding flags eq_flags
flags-grow [] [] h e = cc
flags-grow [] (y ∷ b) h e = absurd h
flags-grow (x ∷ a) [] h e = absurd h
flags-grow (true ∷ a) (true ∷ b) h e = omega (arith, flags-grow a b h.1 e)
flags-grow (true ∷ a) (false ∷ b) h e = cc (h.0 refl)
flags-grow (false ∷ a) (true ∷ b) h e = omega (arith, flags-Below a b h.1)
flags-grow (false ∷ a) (false ∷ b) h e = omega (arith, flags-grow a b h.1 e)
