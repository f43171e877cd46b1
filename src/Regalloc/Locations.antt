-- ===== src/Regalloc/Locations.antt =====
-- crates/slopic-core/src/regalloc.rs: the numbering of frame slots and the list of used registers.
use slopium.Base.{
  ℕ, zero, suc, ◌+◌, ◌≤◌, ◌<◌, ◌≡◌, ◌≢◌, ◌⊎◌, inl, inr, refl, sym, ◌∙◌, ap, Bool, true, false,
  Option, none, some, List, [], ◌∷◌, arith, ltb, ltb→lt, ◌==◌, ==_iff, if◌then◌else◌, Bool-cases,
  length, get_or, In, All,
}
use slopium.Regalloc.Defs.{
  Location, register, memory, place_locals, count_memory, insert_register, used,
}
use slopium.Regalloc.Invariant.{some-inj}

pub place-register :
    (regs : List (Option ℕ)) (slot l r : ℕ) (d : Location)
    → get_or regs l none ≡ some r
    → get_or (place_locals regs slot) l d ≡ register r
unfolding place_locals
place-register [] slot l r d h = cc
place-register (some q ∷ regs) slot zero r d h = cc
place-register (none ∷ regs) slot zero r d h = cc
place-register (some q ∷ regs) slot (suc l) r d h = place-register regs slot l r d h
place-register (none ∷ regs) slot (suc l) r d h = place-register regs (slot + 1) l r d h

-- A local with no register gets a slot from `slot` on, below the number of such locals.
pub record Slot (regs : List (Option ℕ)) (slot l : ℕ) (d : Location) : Type 0 where
  pub index : ℕ
  pub located : get_or (place_locals regs slot) l d ≡ memory index
  pub low : slot ≤ index
  pub high : index < slot + count_memory regs

pub place-Slot :
    (regs : List (Option ℕ)) (slot l : ℕ) (d : Location)
    → l < length regs
    → get_or regs l none ≡ none
    → Slot regs slot l d
unfolding place_locals count_memory
place-Slot [] slot l d lt h = absurd (omega arith)
place-Slot (some q ∷ regs) slot zero d lt h = cc
place-Slot (none ∷ regs) slot zero d lt h = record {
  index = slot;
  located = refl;
  low = omega arith;
  high = omega arith;
}
place-Slot (some q ∷ regs) slot (suc l) d lt h =
    let s = place-Slot regs slot l d (omega arith) h in
    record { index = s.index; located = s.located; low = s.low; high = s.high }
place-Slot (none ∷ regs) slot (suc l) d lt h =
    let s = place-Slot regs (slot + 1) l d (omega arith) h in
    record { index = s.index; located = s.located; low = omega arith; high = omega arith }

memory-inj : {a b : ℕ} → memory a ≡ memory b → a ≡ b
memory-inj h = cc

-- The slot of the first local is below those of the later ones.
first_apart :
    (regs : List (Option ℕ)) (slot l : ℕ) (d : Location)
    → Slot regs (slot + 1) l d
    → memory slot ≢ get_or (place_locals regs (slot + 1)) l d
first_apart regs slot l d s e =
    let same : slot ≡ s.index = memory-inj (e ∙ s.located) in absurd (omega (arith, s.low))

pub place-inj :
    (regs : List (Option ℕ)) (slot l m : ℕ) (d e : Location)
    → l < length regs
    → m < length regs
    → get_or regs l none ≡ none
    → get_or regs m none ≡ none
    → get_or (place_locals regs slot) l d ≡ get_or (place_locals regs slot) m e
    → l ≡ m
unfolding place_locals
place-inj [] slot l m d e p q hl hm h = absurd (omega arith)
place-inj (some r ∷ regs) slot zero m d e p q hl hm h = cc
place-inj (some r ∷ regs) slot (suc l) zero d e p q hl hm h = cc
place-inj (some r ∷ regs) slot (suc l) (suc m) d e p q hl hm h =
    ap suc (place-inj regs slot l m d e (omega arith) (omega arith) hl hm h)
place-inj (none ∷ regs) slot zero zero d e p q hl hm h = refl
place-inj (none ∷ regs) slot zero (suc m) d e p q hl hm h =
    absurd (first_apart regs slot m e (place-Slot regs (slot + 1) m e (omega arith) hm) h)
place-inj (none ∷ regs) slot (suc l) zero d e p q hl hm h =
    absurd (first_apart regs slot l d (place-Slot regs (slot + 1) l d (omega arith) hl) (sym h))
place-inj (none ∷ regs) slot (suc l) (suc m) d e p q hl hm h =
    ap suc (place-inj regs (slot + 1) l m d e (omega arith) (omega arith) hl hm h)

-- Every slot below the number of locals in memory is some local's.
pub place-onto :
    (regs : List (Option ℕ)) (slot k : ℕ) (d : ℕ → Location)
    → k < count_memory regs
    → (l : ℕ) × (l < length regs) × (get_or (place_locals regs slot) l (d l) ≡ memory (slot + k))
unfolding place_locals count_memory
place-onto [] slot k d h = absurd (omega arith)
place-onto (some r ∷ regs) slot k d h =
    let (l, lt, e) = place-onto regs slot k (λ i. d (suc i)) h in (suc l, omega arith, e)
place-onto (none ∷ regs) slot zero d h =
    let here : slot ≡ slot + 0 = omega arith in (0, omega arith, ap memory here)
place-onto (none ∷ regs) slot (suc k) d h =
    let (l, lt, e) = place-onto regs (slot + 1) k (λ i. d (suc i)) (omega arith) in
    let there : slot + 1 + k ≡ slot + suc k = omega arith in
    (suc l, omega arith, e ∙ ap memory there)

pub length-place_locals :
    (regs : List (Option ℕ)) (slot : ℕ) → length (place_locals regs slot) ≡ length regs
unfolding place_locals
length-place_locals [] slot = refl
length-place_locals (some r ∷ regs) slot = ap suc (length-place_locals regs slot)
length-place_locals (none ∷ regs) slot = ap suc (length-place_locals regs (slot + 1))

-- Each entry is below the next.
abbrev pub IsAscending : List ℕ → Type 0
IsAscending [] = Unit
IsAscending (r ∷ rs) = All (λ q. r < q) rs × IsAscending rs

module _ (p : ℕ) where
  insert-All :
      (r : ℕ) (qs : List ℕ) → p < r → All (λ q. p < q) qs → All (λ q. p < q) (insert_register r qs)
  unfolding insert_register
  insert-All r [] h a = (h, tt)
  insert-All r (q ∷ qs) h a = ground (arith, insert-All r qs h a.1)

  All-lower : (q : ℕ) (qs : List ℕ) → p < q → All (λ x. q < x) qs → All (λ x. p < x) qs
  All-lower q [] h a = tt
  All-lower q (x ∷ qs) h a = (omega arith, All-lower q qs h a.1)

insert-IsAscending : (r : ℕ) (qs : List ℕ) → IsAscending qs → IsAscending (insert_register r qs)
unfolding insert_register
insert-IsAscending r [] a = (tt, tt)
insert-IsAscending r (q ∷ qs) a = elim (Bool-cases (ltb r q)) [
  | inl e ↦ rw e ((ltb→lt r q e, All-lower r q qs (ltb→lt r q e) a.0), a)
  | inr e ↦ rw e (elim (Bool-cases (r == q)) [
    | inl s ↦ rw s a
    | inr s ↦ rw s (insert-All q r qs (ground arith) a.0, insert-IsAscending r qs a.1)
  ])
]

pub used-IsAscending : (regs : List (Option ℕ)) → IsAscending (used regs)
unfolding used
used-IsAscending [] = tt
used-IsAscending (none ∷ regs) = used-IsAscending regs
used-IsAscending (some r ∷ regs) = insert-IsAscending r (used regs) (used-IsAscending regs)

In-insert_register : (x r : ℕ) (qs : List ℕ) → In x (insert_register r qs) → (x ≡ r) ⊎ In x qs
unfolding insert_register
In-insert_register x r [] m = m
In-insert_register x r (q ∷ qs) m = go (In-insert_register x r qs) (ltb r q) (r == q) m
  where
    go :
        (In x (insert_register r qs) → (x ≡ r) ⊎ In x qs)
        → (b c : Bool)
        → In x (if b then r ∷ q ∷ qs else if c then q ∷ qs else q ∷ insert_register r qs)
        → (x ≡ r) ⊎ In x (q ∷ qs)
    go ih true c n = n
    go ih false true n = inr n
    go ih false false (inl e) = inr (inl e)
    go ih false false (inr n) = elim (ih n) [ inl e ↦ inl e | inr k ↦ inr (inr k) ]

In-insert_register_of : (x r : ℕ) (qs : List ℕ) → (x ≡ r) ⊎ In x qs → In x (insert_register r qs)
unfolding insert_register
In-insert_register_of x r [] m = m
In-insert_register_of x r (q ∷ qs) m = elim (Bool-cases (ltb r q)) [
  | inl e ↦ rw e m
  | inr e ↦ rw e (elim (Bool-cases (r == q)) [
    | inl s ↦ rw s (elim m [ inl p ↦ inl (p ∙ (==_iff r q).0 s) | inr n ↦ n ])
    | inr s ↦ rw s (elim m [
      | inl p ↦ inr (In-insert_register_of x r qs (inl p))
      | inr (inl p) ↦ inl p
      | inr (inr n) ↦ inr (In-insert_register_of x r qs (inr n))
    ])
  ])
]

-- A register is listed exactly if it is some local's.
pub used_sound :
    (regs : List (Option ℕ)) (r : ℕ) → In r (used regs) → (l : ℕ) × (get_or regs l none ≡ some r)
unfolding used
used_sound [] r m = absurd m
used_sound (none ∷ regs) r m = let (l, e) = used_sound regs r m in (suc l, e)
used_sound (some q ∷ regs) r m = elim (In-insert_register r q (used regs) m) [
  | inl e ↦ (0, ap some (sym e))
  | inr n ↦ let (l, e) = used_sound regs r n in (suc l, e)
]

pub used_complete :
    (regs : List (Option ℕ)) (l r : ℕ) → get_or regs l none ≡ some r → In r (used regs)
unfolding used
used_complete [] l r h = cc
used_complete (none ∷ regs) zero r h = cc
used_complete (some q ∷ regs) zero r h =
    In-insert_register_of r q (used regs) (inl (sym (some-inj h)))
used_complete (none ∷ regs) (suc l) r h = used_complete regs l r h
used_complete (some q ∷ regs) (suc l) r h =
    In-insert_register_of r q (used regs) (inr (used_complete regs l r h))
