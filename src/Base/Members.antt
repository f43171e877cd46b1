-- ===== src/Base/Members.antt =====
-- Membership and predicates on lists by recursion, which proofs take apart by cases.
use Prim.Native.Nat.{ℕ, zero, suc}
use mathlib.Core.Path.{◌≡◌, refl, sym, ◌∙◌, ap, subst}
use mathlib.Core.Logic.{◌≢◌, ◌⊎◌, inl, inr}
use mathlib.Core.List.{List, [], ◌∷◌, ◌++◌}
use mathlib.Core.Option.{some}
use mathlib.Core.Bool.{Bool, true}
use slopium.Base.Lists.{get_elem?, remove}
use slopium.Base.Tests.{if◌then◌else◌, Bool-cases}

abbrev pub All {ℓ κ} : {A : Type ℓ} → (A → Type κ) → List A → Type κ
All P [] = Unit
All P (x ∷ xs) = P x × All P xs

-- `x` stands in the list.
abbrev pub In : {A : Type 0} → A → List A → Type 0
In x [] = ⊥
In x (y ∷ ys) = (x ≡ y) ⊎ In x ys

-- No two entries have the same key.
abbrev pub Distinct : {A : Type 0} → (A → ℕ) → List A → Type 0
Distinct key [] = Unit
Distinct key (x ∷ xs) = All (λ y. key x ≢ key y) xs × Distinct key xs

module _ {A : Type 0} where
  pub All-in : (P : A → Type 0) {x : A} (xs : List A) → All P xs → In x xs → P x
  All-in P [] h m = absurd m
  All-in P (y ∷ ys) h (inl e) = subst P (sym e) h.0
  All-in P (y ∷ ys) h (inr m) = All-in P ys h.1 m

  pub In-append : (x : A) (xs ys : List A) → In x (xs ++ ys) → In x xs ⊎ In x ys
  In-append x [] ys m = inr m
  In-append x (y ∷ xs) ys (inl e) = inl (inl e)
  In-append x (y ∷ xs) ys (inr m) = elim (In-append x xs ys m) [
    | inl a ↦ inl (inr a)
    | inr b ↦ inr b
  ]

  pub In-append_left : (x : A) (xs ys : List A) → In x xs → In x (xs ++ ys)
  In-append_left x [] ys m = absurd m
  In-append_left x (y ∷ xs) ys (inl e) = inl e
  In-append_left x (y ∷ xs) ys (inr m) = inr (In-append_left x xs ys m)

  pub In-append_right : (x : A) (xs ys : List A) → In x ys → In x (xs ++ ys)
  In-append_right x [] ys m = m
  In-append_right x (y ∷ xs) ys m = inr (In-append_right x xs ys m)

  pub In-remove : (x : A) (xs : List A) (k : ℕ) → In x (remove xs k) → In x xs
  In-remove x [] k m = m
  In-remove x (y ∷ xs) zero m = inr m
  In-remove x (y ∷ xs) (suc k) (inl e) = inl e
  In-remove x (y ∷ xs) (suc k) (inr m) = inr (In-remove x xs k m)

  pub In-get_elem? : {o : A} (xs : List A) (k : ℕ) → get_elem? xs k ≡ some o → In o xs
  In-get_elem? [] k h = cc
  In-get_elem? (y ∷ xs) zero h = inl (cc)
  In-get_elem? (y ∷ xs) (suc k) h = inr (In-get_elem? xs k h)

  -- What is in the list is the removed entry or still there.
  pub In-remove_or :
      {x o : A} (xs : List A) (k : ℕ)
      → get_elem? xs k ≡ some o
      → In x xs
      → (x ≡ o) ⊎ In x (remove xs k)
  In-remove_or [] k h m = absurd m
  In-remove_or (y ∷ xs) zero h (inl e) = inl (cc)
  In-remove_or (y ∷ xs) zero h (inr m) = inr m
  In-remove_or (y ∷ xs) (suc k) h (inl e) = inr (inl e)
  In-remove_or (y ∷ xs) (suc k) h (inr m) = elim (In-remove_or xs k h m) [
    | inl e ↦ inl e
    | inr n ↦ inr (inr n)
  ]

module _ {A : Type 0} (key : A → ℕ) where
  pub All-remove : (P : A → Type 0) (xs : List A) (k : ℕ) → All P xs → All P (remove xs k)
  All-remove P [] k h = h
  All-remove P (y ∷ xs) zero h = h.1
  All-remove P (y ∷ xs) (suc k) h = (h.0, All-remove P xs k h.1)

  pub Distinct-remove : (xs : List A) (k : ℕ) → Distinct key xs → Distinct key (remove xs k)
  Distinct-remove [] k h = h
  Distinct-remove (y ∷ xs) zero h = h.1
  Distinct-remove (y ∷ xs) (suc k) h =
      (All-remove (λ z. key y ≢ key z) xs k h.0, Distinct-remove xs k h.1)

  -- A removed entry's key is gone.
  pub remove-key_ne :
      {x o : A} (xs : List A) (k : ℕ)
      → Distinct key xs
      → get_elem? xs k ≡ some o
      → In x (remove xs k)
      → key x ≢ key o
  remove-key_ne [] k d h m = absurd m
  remove-key_ne {x} {o} (y ∷ xs) zero d h m =
      λ e. All-in (λ z. key y ≢ key z) xs d.0 m (ap key (some_inj h) ∙ sym e)
    where
      some_inj : some y ≡ some o → y ≡ o
      some_inj p = cc
  remove-key_ne {x} {o} (y ∷ xs) (suc k) d h (inl e) =
      λ q. All-in (λ z. key y ≢ key z) xs d.0 (In-get_elem? xs k h) (ap key (sym e) ∙ q)
  remove-key_ne (y ∷ xs) (suc k) d h (inr m) = remove-key_ne xs k d.1 h m

  All-append_one : (P : A → Type 0) (xs : List A) (y : A) → All P xs → P y → All P (xs ++ y ∷ [])
  All-append_one P [] y h p = (p, tt)
  All-append_one P (x ∷ xs) y h p = (h.0, All-append_one P xs y h.1 p)

  pub Distinct-append_one :
      (xs : List A) (y : A)
      → Distinct key xs
      → ((x : A) → In x xs → key x ≢ key y)
      → Distinct key (xs ++ y ∷ [])
  Distinct-append_one [] y d h = (tt, tt)
  Distinct-append_one (x ∷ xs) y d h = (
    All-append_one (λ z. key x ≢ key z) xs y d.0 (h x (inl refl)),
    Distinct-append_one xs y d.1 (λ z m. h z (inr m)),
  )

  pub Distinct-in :
      {x y : A} (xs : List A) → Distinct key xs → In x xs → In y xs → key x ≡ key y → x ≡ y
  Distinct-in [] d m n e = absurd m
  Distinct-in (z ∷ xs) d (inl p) (inl q) e = p ∙ sym q
  Distinct-in (z ∷ xs) d (inl p) (inr n) e =
      absurd (All-in (λ w. key z ≢ key w) xs d.0 n (ap key (sym p) ∙ e))
  Distinct-in (z ∷ xs) d (inr m) (inl q) e =
      absurd (All-in (λ w. key z ≢ key w) xs d.0 m (ap key (sym q) ∙ sym e))
  Distinct-in (z ∷ xs) d (inr m) (inr n) e = Distinct-in xs d.1 m n e

-- The entries that pass a test, in their order: `Vec::retain`.
abbrev pub keep : {A : Type 0} → (A → Bool) → List A → List A
keep p [] = []
keep p (x ∷ xs) = let rest = keep p xs in if p x then x ∷ rest else rest

module _ {A : Type 0} (p : A → Bool) where
  pub In-keep_lem : (x : A) (xs : List A) → In x (keep p xs) → In x xs × (p x ≡ true)
  In-keep_lem x [] = λ m. absurd m
  In-keep_lem x (y ∷ xs) = elim (Bool-cases (p y)) [
    | inl e ↦ rw e (elim [
      | inl q ↦ (inl q, ap p q ∙ e)
      | inr m ↦ (inr (In-keep_lem x xs m).0, (In-keep_lem x xs m).1)
    ])
    | inr e ↦ rw e (λ m. (inr (In-keep_lem x xs m).0, (In-keep_lem x xs m).1))
  ]

  pub In-keep_of : (x : A) (xs : List A) → p x ≡ true → In x xs → In x (keep p xs)
  In-keep_of x [] h m = absurd m
  In-keep_of x (y ∷ xs) h (inl q) = rw (ap p (sym q) ∙ h) (inl q)
  In-keep_of x (y ∷ xs) h (inr m) = elim (Bool-cases (p y)) [
    | inl e ↦ rw e (inr (In-keep_of x xs h m))
    | inr e ↦ rw e (In-keep_of x xs h m)
  ]

  pub All-keep : (P : A → Type 0) (xs : List A) → All P xs → All P (keep p xs)
  All-keep P [] h = tt
  All-keep P (y ∷ xs) h = elim (Bool-cases (p y)) [
    | inl e ↦ rw e (h.0, All-keep P xs h.1)
    | inr e ↦ rw e (All-keep P xs h.1)
  ]

  pub Distinct-keep : (key : A → ℕ) (xs : List A) → Distinct key xs → Distinct key (keep p xs)
  Distinct-keep key [] h = tt
  Distinct-keep key (y ∷ xs) h = elim (Bool-cases (p y)) [
    | inl e ↦ rw e (All-keep (λ z. key y ≢ key z) xs h.0, Distinct-keep key xs h.1)
    | inr e ↦ rw e (Distinct-keep key xs h.1)
  ]
