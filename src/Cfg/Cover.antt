-- ===== src/Cfg/Cover.antt =====
-- crates/slopic-core/src/cfg.rs: a local is covered wherever it is live.
use slopium.Base.{
  ℕ, zero, suc, ◌+◌, ◌≤◌, ◌<◌, ◌≡◌, ◌≢◌, ◌⊎◌, inl, inr, refl, sym, ◌∙◌, ap, subst, true, false,
  Option, none, some, List, [], ◌∷◌, ◌++◌, arith, Bool-cases, eq-or-ne, length, get_or,
  length-append, In, All, Distinct,
}
use slopium.Mir.{BlockId, LocalId, Instruction, MirFunction}
use slopium.Cfg.DefUse.{defs, terminator_uses}
use slopium.Cfg.Graph.{targets_of}
use slopium.Cfg.Interval.{Interval}
use slopium.Cfg.Liveness.{Liveness, is_live_in, is_live_out, code_of, terminator_of}
use slopium.Cfg.Live.{LiveAt, read, pass, end, flow}
use slopium.Cfg.Intervals.{Ranges, mark_live, mark_code, mark_block, mark_blocks, collect}
use slopium.Cfg.Marks.{Covers, IsRanges, Extends}
use slopium.Cfg.Hull.{
  Grew, Grew-refl, Grew-trans, mark_all-Grew, mark_all-Covers, mark_live-Grew, mark_live-Covers,
  CodeMarked, CodeMarked-Extends, mark_code-Grew, mark_code-CodeMarked,
}

module _ (f : MirFunction) (live : Liveness) where
  abbrev locals : ℕ
  locals = length f.locals

  abbrev pub code : BlockId → List Instruction
  code b = code_of f.blocks b

  -- The block `b`, laid out from position `p` on, is covered.
  pub record BlockMarked (r : Ranges) (b : BlockId) (p : ℕ) : Type 0 where
    pub live_ins : (l : LocalId) → l < length f.locals → is_live_in live b l ≡ true → Covers r l p
    pub live_outs :
        (l : LocalId)
        → l < length f.locals
        → is_live_out live b l ≡ true
        → Covers r l (p + length (code_of f.blocks b))
    pub inside : CodeMarked (length f.locals) r p (code_of f.blocks b)
    pub last_uses :
        (l : LocalId)
        → l < length f.locals
        → In l (terminator_uses (terminator_of f.blocks b))
        → Covers r l (p + length (code_of f.blocks b))

  BlockMarked-Extends :
      (r r' : Ranges) (b : BlockId) (p : ℕ) → Extends r r' → BlockMarked r b p → BlockMarked r' b p
  BlockMarked-Extends r r' b p g m = record {
    live_ins = λ l lt e. g l p (m.live_ins l lt e);
    live_outs = λ l lt e. g l (p + length (code_of f.blocks b)) (m.live_outs l lt e);
    inside = CodeMarked-Extends (length f.locals) r r' p (code_of f.blocks b) g m.inside;
    last_uses = λ l lt e. g l (p + length (code_of f.blocks b)) (m.last_uses l lt e);
  }

  module _ (b : BlockId) (p : ℕ) (r : Ranges) (h : IsRanges (length f.locals) r) where
    terminator : ℕ
    terminator = p + length (code_of f.blocks b)

    after_live : Ranges
    unfolding terminator
    after_live = mark_live live b p terminator (length f.locals) 0 r

    live-Grew : Grew (length f.locals) r after_live
    unfolding after_live
    live-Grew = mark_live-Grew (length f.locals) live b p terminator (length f.locals) 0 r h

    code-Grew : Grew (length f.locals) after_live (mark_code (code_of f.blocks b) p after_live)
    code-Grew = mark_code-Grew (length f.locals) (code_of f.blocks b) p after_live live-Grew.sized

    ends-Grew :
        Grew
          (length f.locals)
          (mark_code (code_of f.blocks b) p after_live)
          (mark_block f live b p r)
    unfolding mark_block after_live
    ends-Grew =
        mark_all-Grew (length f.locals) (terminator_uses (terminator_of f.blocks b)) terminator
          (mark_code (code_of f.blocks b) p after_live) code-Grew.sized

    mark_block-Grew : Grew (length f.locals) r (mark_block f live b p r)
    mark_block-Grew =
        Grew-trans (length f.locals) r after_live (mark_block f live b p r) live-Grew (
          Grew-trans (length f.locals) after_live (mark_code (code_of f.blocks b) p after_live)
            (mark_block f live b p r) code-Grew ends-Grew)

    later : Extends after_live (mark_block f live b p r)
    later l at c = ends-Grew.extends l at (code-Grew.extends l at c)

    mark_block-BlockMarked : BlockMarked (mark_block f live b p r) b p
    unfolding after_live
    mark_block-BlockMarked = record {
      live_ins = λ l lt e. later l p (
          (mark_live-Covers (length f.locals) live b p terminator (length f.locals) 0 r l h lt
              (omega arith) (omega arith)).at_start
            e);
      live_outs = λ l lt e. later l terminator (
          (mark_live-Covers (length f.locals) live b p terminator (length f.locals) 0 r l h lt
              (omega arith) (omega arith)).at_end
            e);
      inside =
          CodeMarked-Extends (length f.locals) (mark_code (code_of f.blocks b) p after_live)
            (mark_block f live b p r) p (code_of f.blocks b) ends-Grew.extends
            (mark_code-CodeMarked (length f.locals) (code_of f.blocks b) p after_live
              live-Grew.sized);
      last_uses = λ l lt m.
          unfold mark_block in
          mark_all-Covers (length f.locals) (terminator_uses (terminator_of f.blocks b)) terminator
            (mark_code (code_of f.blocks b) p after_live) l code-Grew.sized lt m;
    }

  mark_blocks-Grew :
      (bs : List BlockId) (at : ℕ) (r : Ranges)
      → IsRanges (length f.locals) r
      → Grew (length f.locals) r (mark_blocks f live bs at r)
  unfolding mark_blocks
  mark_blocks-Grew [] at r h = Grew-refl (length f.locals) r h
  mark_blocks-Grew (b ∷ bs) at r h =
      Grew-trans (length f.locals) r (mark_block f live b at r) _ (mark_block-Grew b at r h) (
        mark_blocks-Grew bs (at + length (code_of f.blocks b) + 1) (mark_block f live b at r)
          (mark_block-Grew b at r h).sized)

  -- Every block of the order is covered from some position on.
  pub mark_blocks-BlockMarked :
      (bs : List BlockId) (at : ℕ) (r : Ranges) (b : BlockId)
      → IsRanges (length f.locals) r
      → In b bs
      → (p : ℕ) × BlockMarked (mark_blocks f live bs at r) b p
  unfolding mark_blocks
  mark_blocks-BlockMarked [] at r b h m = absurd m
  mark_blocks-BlockMarked (x ∷ bs) at r b h (inr m) =
      mark_blocks-BlockMarked bs (at + length (code_of f.blocks x) + 1) (mark_block f live x at r) b
        (mark_block-Grew x at r h).sized m
  mark_blocks-BlockMarked (x ∷ bs) at r b h (inl e) = (
    at,
    BlockMarked-Extends (mark_block f live x at r) _ b at
        (mark_blocks-Grew bs (at + length (code_of f.blocks x) + 1) (mark_block f live x at r)
          (mark_block-Grew x at r h).sized).extends
        (subst (λ k. BlockMarked (mark_block f live x at r) k at) (sym e)
          (mark_block-BlockMarked x at r h)),
  )

  -- Below: a block `b` that is covered from `p` on in the ranges `r`, and a local `l`.
  module _ (r : Ranges) (b : BlockId) (l : LocalId) (lt : l < length f.locals)
      (live_out_found : (c : BlockId)
        → In c (targets_of f.blocks b)
        → LiveAt f.blocks l c (code_of f.blocks c)
        → is_live_out live b l ≡ true) where
    -- A covered position at `p` or behind it.
    abbrev Above : ℕ → Type 0
    Above p = (q : ℕ) × (p ≤ q) × Covers r l q

    abbrev Under : ℕ → Type 0
    Under p = (q : ℕ) × (q ≤ p) × Covers r l q

    -- Where the local is live there is a mark to come.
    above :
        (is : List Instruction) (p : ℕ)
        → CodeMarked (length f.locals) r p is
        → (In l (terminator_uses (terminator_of f.blocks b)) → Covers r l (p + length is))
        → (is_live_out live b l ≡ true → Covers r l (p + length is))
        → LiveAt f.blocks l b is
        → Above p
    above (i ∷ is) p m t o (read u) = (p, omega arith, m.0 l lt u)
    above (i ∷ is) p m t o (pass n v) =
        let same : p + suc (length is) ≡ p + 1 + length is = omega arith in
        let (q, le, c) =
          above is (p + 1) m.2 (λ u. subst (Covers r l) same (t u))
            (λ e. subst (Covers r l) same (o e)) v in
        (q, omega arith, c)
    above [] p m t o (end u) = (p + 0, omega arith, t u)
    above [] p m t o (flow {c = c} u v) = (p + 0, omega arith, o (live_out_found c u v))

    -- Behind some code, the local was live before it or is written in it.
    back_to :
        (pre post : List Instruction) (p : ℕ)
        → CodeMarked (length f.locals) r p (pre ++ post)
        → LiveAt f.blocks l b post
        → LiveAt f.blocks l b (pre ++ post)
          ⊎ ((q : ℕ) × (p ≤ q) × (q < p + length pre) × Covers r l q)
    back_to [] post p m v = inl v
    back_to (i ∷ pre) post p m v = elim (back_to pre post (p + 1) m.2 v) [
      | inr (q, lo, hi, c) ↦ inr (q, omega arith, omega arith, c)
      | inl w ↦ elim (defines (defs i) refl) [
        | inl e ↦ inr (p, omega arith, omega arith, m.1 l lt e)
        | inr ne ↦ inl (pass ne w)
      ]
    ]
      where
        defines : (o : Option LocalId) → defs i ≡ o → (defs i ≡ some l) ⊎ (defs i ≢ some l)
        defines none e = inr (λ q. cc)
        defines (some d) e = elim (eq-or-ne d l) [
          | inl same ↦ inl (e ∙ ap some same)
          | inr ne ↦ inr (λ q. ne (inj (sym e ∙ q)))
        ]
          where
            inj : some d ≡ some l → d ≡ l
            inj q = cc

    split-CodeMarked :
        (pre post : List Instruction) (p : ℕ)
        → CodeMarked (length f.locals) r p (pre ++ post)
        → CodeMarked (length f.locals) r (p + length pre) post
    split-CodeMarked [] post p m =
        let same : p ≡ p + 0 = omega arith in
        subst (λ k. CodeMarked (length f.locals) r k post) same m
    split-CodeMarked (i ∷ pre) post p m =
        let same : p + 1 + length pre ≡ p + suc (length pre) = omega arith in
        subst (λ k. CodeMarked (length f.locals) r k post) same
          (split-CodeMarked pre post (p + 1) m.2)

    between : (p a c : ℕ) → a ≤ p → p ≤ c → Covers r l a → Covers r l c → Covers r l p
    between p a c le le' ca cc' = record {
      opened = ca.opened;
      from = omega (arith, ca.from);
      to = omega (arith, cc'.to);
    }

    -- A local is covered at each point of the block where it is live.
    pub live-Covers :
        (p : ℕ) (pre post : List Instruction)
        → BlockMarked r b p
        → (LiveAt f.blocks l b (code_of f.blocks b) → is_live_in live b l ≡ true)
        → code_of f.blocks b ≡ pre ++ post
        → LiveAt f.blocks l b post
        → Covers r l (p + length pre)
    live-Covers p pre post m found e v =
        let inside = subst (CodeMarked (length f.locals) r p) e m.inside in
        let size : length (code_of f.blocks b) ≡ length pre + length post =
          ap length e ∙ length-append pre post in
        let total : p + length (code_of f.blocks b) ≡ p + length pre + length post = omega arith in
        let up =
          above post (p + length pre) (split-CodeMarked pre post p inside)
            (λ u. subst (Covers r l) total (m.last_uses l lt u))
            (λ o. subst (Covers r l) total (m.live_outs l lt o)) v in
        elim (back_to pre post p inside v) [
          | inl w ↦
              between (p + length pre) p up.0 (omega arith) up.1
                (m.live_ins l lt (found (subst (LiveAt f.blocks l b) (sym e) w))) up.2
          | inr (q, lo, hi, c) ↦ between (p + length pre) q up.0 (omega arith) up.1 c up.2
        ]

    -- A local is covered where it is written.
    pub write-Covers :
        (p : ℕ) (pre post : List Instruction) (i : Instruction)
        → BlockMarked r b p
        → code_of f.blocks b ≡ pre ++ i ∷ post
        → defs i ≡ some l
        → Covers r l (p + length pre)
    write-Covers p pre post i m e d =
        (split-CodeMarked pre (i ∷ post) p (subst (CodeMarked (length f.locals) r p) e m.inside)).1
          l lt d

-- The interval that is collected for a covered local.
pub collect-in :
    (r : Ranges) (n local l at : ℕ)
    → local ≤ l
    → l < local + n
    → Covers r l at
    → (i : Interval) × In i (collect r n local) × (i.local ≡ l) × (i.start ≤ at) × (at ≤ i.end)
unfolding collect
collect-in r zero local l at lo hi c = absurd (omega arith)
collect-in r (suc n) local l at lo hi c = elim (eq-or-ne local l) [
  | inl e ↦ (
    record { local = local; start = get_or r.first local 0; end = get_or r.last local 0 },
    rw (subst (λ k. get_or r.seen k false ≡ true) (sym e) c.opened) (inl refl),
    e,
    subst (λ k. get_or r.first k 0 ≤ at) (sym e) c.from,
    subst (λ k. at ≤ get_or r.last k 0) (sym e) c.to,
  )
  | inr ne ↦
      let (i, m, e, a, b) = collect-in r n (local + 1) l at (omega arith) (omega arith) c in
      (
        i,
        elim (Bool-cases (get_or r.seen local false)) [ inl s ↦ rw s (inr m) | inr s ↦ rw s m ],
        e,
        a,
        b,
      )
]

collect-All :
    (P : Interval → Type 0) (r : Ranges) (n local : ℕ)
    → ((i : Interval) → local ≤ i.local → i.local < local + n → P i)
    → All P (collect r n local)
unfolding collect
collect-All P r zero local h = tt
collect-All P r (suc n) local h = elim (Bool-cases (get_or r.seen local false)) [
  | inl s ↦ rw s (
    h _ (omega arith) (omega arith),
    collect-All P r n (local + 1) (λ i lo hi. h i (omega arith) (omega arith)),
  )
  | inr s ↦ rw s (collect-All P r n (local + 1) (λ i lo hi. h i (omega arith) (omega arith)))
]

collect-Distinct :
    (r : Ranges) (n local : ℕ) → Distinct (λ (i : Interval). i.local) (collect r n local)
unfolding collect
collect-Distinct r zero local = tt
collect-Distinct r (suc n) local = elim (Bool-cases (get_or r.seen local false)) [
  | inl s ↦ rw s (
    collect-All (λ i. local ≢ i.local) r n (local + 1) (λ i lo hi. omega arith),
    collect-Distinct r n (local + 1),
  )
  | inr s ↦ rw s (collect-Distinct r n (local + 1))
]

-- One interval for a local, and each for a local of the function.
pub record AreIntervals (count : ℕ) (xs : List Interval) : Type 0 where
  pub distinct : Distinct (λ (i : Interval). i.local) xs
  pub bounded : All (λ (i : Interval). i.local < count) xs

pub collect-AreIntervals : (r : Ranges) (n : ℕ) → AreIntervals n (collect r n 0)
collect-AreIntervals r n = record {
  distinct = collect-Distinct r n 0;
  bounded = collect-All (λ i. i.local < n) r n 0 (λ i lo hi. omega arith);
}
