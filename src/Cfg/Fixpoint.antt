-- ===== src/Cfg/Fixpoint.antt =====
-- crates/slopic-core/src/cfg.rs: the liveness loop ends, and what it ends at is a fixpoint.
use slopium.Base.{
  ℕ, zero, suc, ◌+◌, ◌*◌, ◌≤◌, ◌<◌, ◌≡◌, refl, ◌∙◌, subst, Bool, true, false, Option, none, some,
  List, [], ◌∷◌, arith, length, get_or, set, replicate, length-set, length-replicate,
}
use slopium.Mir.{BlockId, LocalId, Instruction, BasicBlock}
use slopium.Cfg.DefUse.{defs, uses, terminator_uses}
use slopium.Cfg.Graph.{targets_of}
use slopium.Cfg.Sets.{
  Below, Below-refl, Below-set, Below-or_into, or_into, length-or_into, flags, flags-le,
}
use slopium.Cfg.Liveness.{
  Liveness, add_uses, clear_def, before, backwards, union_of, code_of, terminator_of, out_set,
  in_set,
}

abbrev pub row : List (List Bool) → ℕ → List Bool
row m b = get_or m b []

-- Every row of `m` is below the row of `n`.
abbrev pub Grows : List (List Bool) → List (List Bool) → Type 0
Grows m n = (b : ℕ) → Below (row m b) (row n b)

Below-add_uses :
    (ls : List LocalId) (a b : List Bool) → Below a b → Below (add_uses ls a) (add_uses ls b)
unfolding add_uses
Below-add_uses [] a b h = h
Below-add_uses (l ∷ ls) a b h =
    Below-add_uses ls (set a l true) (set b l true) (Below-set a b l true h)

Below-clear_def :
    (o : Option LocalId) (a b : List Bool) → Below a b → Below (clear_def o a) (clear_def o b)
unfolding clear_def
Below-clear_def none a b h = h
Below-clear_def (some l) a b h = Below-set a b l false h

Below-backwards :
    (is : List Instruction) (a b : List Bool) → Below a b → Below (backwards is a) (backwards is b)
unfolding backwards before
Below-backwards [] a b h = h
Below-backwards (i ∷ is) a b h =
    Below-add_uses (uses i) _ _ (Below-clear_def (defs i) _ _ (Below-backwards is a b h))

Below-union_of :
    (m n : List (List Bool)) (ts : List BlockId) (a b : List Bool)
    → Grows m n
    → Below a b
    → Below (union_of m ts a) (union_of n ts b)
unfolding union_of
Below-union_of m n [] a b g h = h
Below-union_of m n (t ∷ ts) a b g h =
    Below-union_of m n ts (or_into a (row m t)) (or_into b (row n t)) g
      (Below-or_into a b (row m t) (row n t) h (g t))

pub length-add_uses : (ls : List LocalId) (a : List Bool) → length (add_uses ls a) ≡ length a
unfolding add_uses
length-add_uses [] a = refl
length-add_uses (l ∷ ls) a = length-add_uses ls (set a l true) ∙ length-set a l true

pub length-clear_def : (o : Option LocalId) (a : List Bool) → length (clear_def o a) ≡ length a
unfolding clear_def
length-clear_def none a = refl
length-clear_def (some l) a = length-set a l false

pub length-backwards : (is : List Instruction) (a : List Bool) → length (backwards is a) ≡ length a
unfolding backwards before
length-backwards [] a = refl
length-backwards (i ∷ is) a =
    length-add_uses (uses i) (clear_def (defs i) (backwards is a))
    ∙ length-clear_def (defs i) (backwards is a)
    ∙ length-backwards is a

length-union_of :
    (m : List (List Bool)) (ts : List BlockId) (a : List Bool) → length (union_of m ts a) ≡ length a
unfolding union_of
length-union_of m [] a = refl
length-union_of m (t ∷ ts) a =
    length-union_of m ts (or_into a (row m t)) ∙ length-or_into a (row m t)

-- The number of flags of all rows.
unfoldable pub total : List (List Bool) → ℕ
total [] = 0
total (r ∷ m) = flags r + total m

pub total-set :
    (m : List (List Bool)) (b : ℕ) (r : List Bool)
    → b < length m
    → total (set m b r) + flags (row m b) ≡ total m + flags r
unfolding total
total-set [] b r h = absurd (omega arith)
total-set (x ∷ m) zero r h = omega arith
total-set (x ∷ m) (suc b) r h = omega (arith, total-set m b r (omega arith))

total-le :
    (width : ℕ) (m : List (List Bool))
    → ((b : ℕ) → b < length m → length (row m b) ≡ width)
    → total m ≤ length m * width
unfolding total
total-le width [] h = omega arith
total-le width (x ∷ m) h =
    omega (arith, flags-le x, h 0 (omega arith), total-le width m (λ b lt. h (suc b) (omega arith)))

module _ (blocks : List BasicBlock) (locals : ℕ) where
  pub Below-out_set :
      (m n : List (List Bool)) (b : BlockId)
      → Grows m n
      → Below (out_set blocks locals m b) (out_set blocks locals n b)
  unfolding out_set
  Below-out_set m n b g =
      Below-union_of m n (targets_of blocks b) (replicate locals false) (replicate locals false) g
        (Below-refl (replicate locals false))

  pub Below-in_set :
      (m n : List (List Bool)) (b : BlockId)
      → Grows m n
      → Below (in_set blocks locals m b) (in_set blocks locals n b)
  unfolding in_set
  Below-in_set m n b g =
      Below-backwards (code_of blocks b) _ _
        (Below-add_uses (terminator_uses (terminator_of blocks b)) _ _ (Below-out_set m n b g))

  pub length-out_set :
      (m : List (List Bool)) (b : BlockId) → length (out_set blocks locals m b) ≡ locals
  unfolding out_set
  length-out_set m b =
      length-union_of m (targets_of blocks b) (replicate locals false)
      ∙ length-replicate locals false

  pub length-in_set :
      (m : List (List Bool)) (b : BlockId) → length (in_set blocks locals m b) ≡ locals
  unfolding in_set
  length-in_set m b =
      length-backwards (code_of blocks b) _
      ∙ length-add_uses (terminator_uses (terminator_of blocks b)) _
      ∙ length-out_set m b

  -- No set has a flag that the next visit would not set.
  pub record IsGrowing (l : Liveness) : Type 0 where
    pub in_size : length l.live_in ≡ length blocks
    pub out_size : length l.live_out ≡ length blocks
    pub in_rows : (b : ℕ) → b < length blocks → length (row l.live_in b) ≡ locals
    pub out_rows : (b : ℕ) → b < length blocks → length (row l.live_out b) ≡ locals
    pub in_below :
        (b : ℕ) → b < length blocks → Below (row l.live_in b) (in_set blocks locals l.live_in b)
    pub out_below :
        (b : ℕ) → b < length blocks → Below (row l.live_out b) (out_set blocks locals l.live_in b)

  pub record IsStable (l : Liveness) (b : BlockId) : Type 0 where
    pub in_fixed : row l.live_in b ≡ in_set blocks locals l.live_in b
    pub out_fixed : row l.live_out b ≡ out_set blocks locals l.live_in b

  unfoldable pub size : Liveness → ℕ
  unfolding total
  size l = total l.live_in + total l.live_out

  pub size-le : (l : Liveness) → IsGrowing l → size l ≤ 2 * (length blocks * locals)
  unfolding size
  size-le l g =
      let a : total l.live_in ≤ length blocks * locals =
        subst (λ k. total l.live_in ≤ k * locals) g.in_size
          (total-le locals l.live_in (λ b lt. g.in_rows b (subst (λ k. b < k) g.in_size lt))) in
      let c : total l.live_out ≤ length blocks * locals =
        subst (λ k. total l.live_out ≤ k * locals) g.out_size
          (total-le locals l.live_out (λ b lt. g.out_rows b (subst (λ k. b < k) g.out_size lt))) in
      omega arith
