-- ===== src/Cfg/Hull.antt =====
-- crates/slopic-core/src/cfg.rs: the positions at which a block's locals are covered.
use slopium.Base.{
  ℕ, zero, suc, ◌+◌, ◌≤◌, ◌<◌, ◌≡◌, inl, inr, sym, subst, Bool, true, false, Option, none, some,
  List, [], ◌∷◌, arith, if◌then◌else◌, eq-or-ne, In,
}
use slopium.Mir.{BlockId, LocalId, Instruction}
use slopium.Cfg.DefUse.{defs, uses}
use slopium.Cfg.Liveness.{Liveness, is_live_in, is_live_out}
use slopium.Cfg.Intervals.{Ranges, mark, mark_all, mark_def, mark_live, mark_code}
use slopium.Cfg.Marks.{Covers, IsRanges, Extends, mark-IsRanges, mark-Covers, mark-Extends}

-- The ranges keep their sizes and all that they cover.
pub record Grew (locals : ℕ) (r r' : Ranges) : Type 0 where
  pub sized : IsRanges locals r'
  pub extends : Extends r r'

module _ (locals : ℕ) where
  pub Grew-refl : (r : Ranges) → IsRanges locals r → Grew locals r r
  Grew-refl r h = record { sized = h; extends = λ l at c. c }

  pub Grew-trans : (r s t : Ranges) → Grew locals r s → Grew locals s t → Grew locals r t
  Grew-trans r s t g h = record {
    sized = h.sized;
    extends = λ l at c. h.extends l at (g.extends l at c);
  }

  mark-Grew : (l at : ℕ) (r : Ranges) → IsRanges locals r → Grew locals r (mark l at r)
  mark-Grew l at r h = record {
    sized = mark-IsRanges locals l at r h;
    extends = mark-Extends locals l at r h;
  }

  pub mark_all-Grew :
      (ls : List LocalId) (at : ℕ) (r : Ranges)
      → IsRanges locals r
      → Grew locals r (mark_all ls at r)
  unfolding mark_all
  mark_all-Grew [] at r h = Grew-refl r h
  mark_all-Grew (l ∷ ls) at r h =
      Grew-trans r (mark l at r) _ (mark-Grew l at r h)
        (mark_all-Grew ls at (mark l at r) (mark-IsRanges locals l at r h))

  pub mark_all-Covers :
      (ls : List LocalId) (at : ℕ) (r : Ranges) (l : LocalId)
      → IsRanges locals r
      → l < locals
      → In l ls
      → Covers (mark_all ls at r) l at
  unfolding mark_all
  mark_all-Covers [] at r l h lt m = absurd m
  mark_all-Covers (x ∷ ls) at r l h lt (inr m) =
      mark_all-Covers ls at (mark x at r) l (mark-IsRanges locals x at r h) lt m
  mark_all-Covers (x ∷ ls) at r l h lt (inl e) =
      (mark_all-Grew ls at (mark x at r) (mark-IsRanges locals x at r h)).extends l at
        (subst (λ k. Covers (mark k at r) l at) e (mark-Covers locals l at r h lt))

  mark_def-Grew :
      (o : Option LocalId) (at : ℕ) (r : Ranges)
      → IsRanges locals r
      → Grew locals r (mark_def o at r)
  unfolding mark_def
  mark_def-Grew none at r h = Grew-refl r h
  mark_def-Grew (some l) at r h = mark-Grew l at r h

  if-Grew :
      (b : Bool) (l at : ℕ) (r : Ranges)
      → IsRanges locals r
      → Grew locals r (if b then mark l at r else r)
  if-Grew true l at r h = mark-Grew l at r h
  if-Grew false l at r h = Grew-refl r h

  module _ (live : Liveness) (block : BlockId) (start terminator : ℕ) where
    abbrev entered : LocalId → Ranges → Ranges
    entered local r = if is_live_in live block local then mark local start r else r

    abbrev left : LocalId → Ranges → Ranges
    left local r = if is_live_out live block local then mark local terminator r else r

    pub mark_live-Grew :
        (n local : ℕ) (r : Ranges)
        → IsRanges locals r
        → Grew locals r (mark_live live block start terminator n local r)
    unfolding mark_live
    mark_live-Grew zero local r h = Grew-refl r h
    mark_live-Grew (suc n) local r h =
        let a = if-Grew (is_live_in live block local) local start r h in
        let b = if-Grew (is_live_out live block local) local terminator (entered local r) a.sized in
        Grew-trans r (entered local r) _ a (
          Grew-trans (entered local r) (left local (entered local r)) _ b
            (mark_live-Grew n (local + 1) (left local (entered local r)) b.sized))

    -- A local in a live set is covered at the end of the block where the set is.
    pub record LiveMarked (r : Ranges) (l : LocalId) : Type 0 where
      pub at_start : is_live_in live block l ≡ true → Covers r l start
      pub at_end : is_live_out live block l ≡ true → Covers r l terminator

    pub mark_live-Covers :
        (n local : ℕ) (r : Ranges) (l : LocalId)
        → IsRanges locals r
        → l < locals
        → local ≤ l
        → l < local + n
        → LiveMarked (mark_live live block start terminator n local r) l
    unfolding mark_live
    mark_live-Covers zero local r l h lt lo hi = absurd (omega arith)
    mark_live-Covers (suc n) local r l h lt lo hi =
        let a = if-Grew (is_live_in live block local) local start r h in
        let b = if-Grew (is_live_out live block local) local terminator (entered local r) a.sized in
        elim (eq-or-ne local l) [
          | inr ne ↦
              mark_live-Covers n (local + 1) (left local (entered local r)) l b.sized lt
                (omega arith) (omega arith)
          | inl e ↦
              (let rest = mark_live-Grew n (local + 1) (left local (entered local r)) b.sized in
                let local_lt : local < locals = subst (λ k. k < locals) (sym e) lt in
                record {
                  at_start =
                      λ q. rest.extends l start (b.extends l start (now_start r h e local_lt q));
                  at_end = λ q.
                      rest.extends l terminator (now_end (entered local r) a.sized e local_lt q);
                })
        ]
      where
        now_start :
            (s : Ranges)
            → IsRanges locals s
            → local ≡ l
            → local < locals
            → is_live_in live block l ≡ true
            → Covers (entered local s) l start
        now_start s hs e local_lt q = rw (subst (λ k. is_live_in live block k ≡ true) (sym e) q) (
            subst (λ k. Covers (mark local start s) k start) e
              (mark-Covers locals local start s hs local_lt))

        now_end :
            (s : Ranges)
            → IsRanges locals s
            → local ≡ l
            → local < locals
            → is_live_out live block l ≡ true
            → Covers (left local s) l terminator
        now_end s hs e local_lt q = rw (subst (λ k. is_live_out live block k ≡ true) (sym e) q) (
            subst (λ k. Covers (mark local terminator s) k terminator) e
              (mark-Covers locals local terminator s hs local_lt))

  -- Every read and write of the code is covered at its position.
  abbrev pub CodeMarked : Ranges → ℕ → List Instruction → Type 0
  CodeMarked r at [] = Unit
  CodeMarked r at (i ∷ is) =
      ((l : LocalId) → l < locals → In l (uses i) → Covers r l at)
      × ((l : LocalId) → l < locals → defs i ≡ some l → Covers r l at)
      × CodeMarked r (at + 1) is

  pub CodeMarked-Extends :
      (r r' : Ranges) (at : ℕ) (is : List Instruction)
      → Extends r r'
      → CodeMarked r at is
      → CodeMarked r' at is
  CodeMarked-Extends r r' at [] g m = tt
  CodeMarked-Extends r r' at (i ∷ is) g m = (
    (λ l lt u. g l at (m.0 l lt u)),
    (λ l lt u. g l at (m.1 l lt u)),
    CodeMarked-Extends r r' (at + 1) is g m.2,
  )

  pub mark_code-Grew :
      (is : List Instruction) (at : ℕ) (r : Ranges)
      → IsRanges locals r
      → Grew locals r (mark_code is at r)
  unfolding mark_code
  mark_code-Grew [] at r h = Grew-refl r h
  mark_code-Grew (i ∷ is) at r h =
      let a = mark_all-Grew (uses i) at r h in
      let b = mark_def-Grew (defs i) at (mark_all (uses i) at r) a.sized in
      Grew-trans r (mark_all (uses i) at r) _ a (
        Grew-trans (mark_all (uses i) at r) (mark_def (defs i) at (mark_all (uses i) at r)) _ b
          (mark_code-Grew is (at + 1) (mark_def (defs i) at (mark_all (uses i) at r)) b.sized))

  mark_def-Covers :
      (o : Option LocalId) (at : ℕ) (r : Ranges) (l : LocalId)
      → IsRanges locals r
      → l < locals
      → o ≡ some l
      → Covers (mark_def o at r) l at
  mark_def-Covers o at r l h lt e =
      subst (λ k. Covers (mark_def k at r) l at) (sym e)
        (unfold mark_def in mark-Covers locals l at r h lt)

  pub mark_code-CodeMarked :
      (is : List Instruction) (at : ℕ) (r : Ranges)
      → IsRanges locals r
      → CodeMarked (mark_code is at r) at is
  unfolding mark_code
  mark_code-CodeMarked [] at r h = tt
  mark_code-CodeMarked (i ∷ is) at r h =
      let a = mark_all-Grew (uses i) at r h in
      let b = mark_def-Grew (defs i) at (mark_all (uses i) at r) a.sized in
      let c = mark_code-Grew is (at + 1) (mark_def (defs i) at (mark_all (uses i) at r)) b.sized in
      (
        (λ l lt u. c.extends l at (b.extends l at (mark_all-Covers (uses i) at r l h lt u))),
        (λ l lt e.
            c.extends l at (mark_def-Covers (defs i) at (mark_all (uses i) at r) l a.sized lt e)),
        mark_code-CodeMarked is (at + 1) (mark_def (defs i) at (mark_all (uses i) at r)) b.sized,
      )
