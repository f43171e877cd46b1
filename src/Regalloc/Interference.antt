-- ===== src/Regalloc/Interference.antt =====
-- crates/slopic-core/src/regalloc.rs with crates/slopic-core/src/cfg.rs: what the allocation of a
-- function promises of the running code.
use slopium.Base.{
  ℕ, ◌+◌, ◌<◌, ◌≡◌, ◌≢◌, refl, sym, ◌∙◌, subst, Bool, true, false, some, List, ◌∷◌, ◌++◌, arith,
  length, length-replicate,
}
use slopium.Mir.{BlockId, LocalId, Instruction, MirFunction}
use slopium.Cfg.DefUse.{defs}
use slopium.Cfg.Graph.{searched, new, is_reachable}
use slopium.Cfg.Reach.{IsMarked}
use slopium.Cfg.Correct.{marked_in_order}
use slopium.Cfg.Liveness.{code_of}
use slopium.Cfg.Live.{LiveAt, pass}
use slopium.Cfg.Analysis.{Analysed, analysed, IsExact, analysed-IsExact}
use slopium.Cfg.Interval.{Interval}
use slopium.Cfg.Intervals.{Ranges, mark_blocks, no_ranges, collect, live_intervals, usize_max}
use slopium.Cfg.Marks.{Covers, IsRanges}
use slopium.Cfg.Cover.{
  BlockMarked, mark_blocks-BlockMarked, live-Covers, write-Covers, collect-in, AreIntervals,
  collect-AreIntervals,
}
use slopium.Regalloc.Defs.{Allocation, location, allocate, allocate_function}
use slopium.Regalloc.Correct.{allocate_safe}

module _ (f : MirFunction) (lt : f.entry < length f.blocks) where
  facts : Analysed f (analysed f lt).0
  facts = (analysed f lt).1

  ranges : Ranges
  ranges = mark_blocks f (analysed f lt).0 (searched f).order 0 (no_ranges (length f.locals))

  intervals : List Interval
  unfolding ranges
  intervals = collect ranges (length f.locals) 0

  intervals-AreIntervals : AreIntervals (length f.locals) intervals
  unfolding intervals
  intervals-AreIntervals = collect-AreIntervals ranges (length f.locals)

  intervals_lem : live_intervals f (new f) ≡ some intervals
  intervals_lem = unfold live_intervals in rw facts.result (unfold intervals new in refl)

  start-IsRanges : IsRanges (length f.locals) (no_ranges (length f.locals))
  unfolding no_ranges
  start-IsRanges = record {
    firsts = length-replicate (length f.locals) usize_max;
    lasts = length-replicate (length f.locals) 0;
    seens = length-replicate (length f.locals) false;
  }

  module _ (b : BlockId) (reached : IsMarked (searched f) b) where
    laid_out : (p : ℕ) × BlockMarked f (analysed f lt).0 ranges b p
    unfolding ranges
    laid_out =
        mark_blocks-BlockMarked f (analysed f lt).0 (searched f).order 0
          (no_ranges (length f.locals)) b start-IsRanges (marked_in_order f lt b reached)

    exact : (x : LocalId) → x < length f.locals → IsExact f (analysed f lt).0 b x
    exact x x_lt = analysed-IsExact f lt (analysed f lt).0 facts b reached x x_lt

    -- The interval of a local that is live behind `pre`.
    live_here :
        (l : LocalId) (pre post : List Instruction)
        → l < length f.locals
        → code_of f.blocks b ≡ pre ++ post
        → LiveAt f.blocks l b post
        → Covers ranges l (laid_out.0 + length pre)
    live_here l pre post l_lt e v =
        live-Covers f (analysed f lt).0 ranges b l l_lt (λ c m w. (exact l l_lt).at_end.1 (c, m, w))
          laid_out.0 pre post laid_out.1 (exact l l_lt).at_start.1 e v

    -- The interval of a local that the instruction behind `pre` writes.
    written_here :
        (d : LocalId) (pre post : List Instruction) (i : Instruction)
        → d < length f.locals
        → code_of f.blocks b ≡ pre ++ i ∷ post
        → defs i ≡ some d
        → Covers ranges d (laid_out.0 + length pre)
    written_here d pre post i d_lt e h =
        write-Covers f (analysed f lt).0 ranges b d d_lt
          (λ c m w. (exact d d_lt).at_end.1 (c, m, w)) laid_out.0 pre post i laid_out.1 e h

  -- Two locals that are covered at one position have different locations.
  covered_apart :
      (registers : ℕ) (pinned : List Bool) (l m at : ℕ)
      → l < length f.locals
      → m < length f.locals
      → l ≢ m
      → Covers ranges l at
      → Covers ranges m at
      → location (allocate (length f.locals) registers pinned intervals) l
        ≢ location (allocate (length f.locals) registers pinned intervals) m
  unfolding intervals
  covered_apart registers pinned l m at l_lt m_lt ne cl cm same =
      let (i, mi, ei, si, ti) =
        collect-in ranges (length f.locals) 0 l at (omega arith) (omega arith) cl in
      let (j, mj, ej, sj, tj) =
        collect-in ranges (length f.locals) 0 m at (omega arith) (omega arith) cm in
      allocate_safe (length f.locals) registers pinned intervals intervals-AreIntervals i j mi mj
        (λ e. ne (sym ei ∙ e ∙ ej)) (record { fst_before = omega arith; snd_before = omega arith })
        (subst
          (λ k.
            location (allocate (length f.locals) registers pinned intervals) k
            ≡ location (allocate (length f.locals) registers pinned intervals) j.local)
          (sym ei)
          (subst
            (λ k.
              location (allocate (length f.locals) registers pinned intervals) l
              ≡ location (allocate (length f.locals) registers pinned intervals) k)
            (sym ej) same))

-- What a safe allocation promises at a reachable block: behind the instructions `pre`, two locals
-- that are live together are apart, and the local that the next instruction writes is apart from
-- every other local that is live behind that instruction.
pub record IsSafe (f : MirFunction) (a : Allocation) (b : BlockId) : Type 0 where
  pub live_apart :
      (pre post : List Instruction) (l m : LocalId)
      → code_of f.blocks b ≡ pre ++ post
      → l < length f.locals
      → m < length f.locals
      → l ≢ m
      → LiveAt f.blocks l b post
      → LiveAt f.blocks m b post
      → location a l ≢ location a m
  pub write_apart :
      (pre post : List Instruction) (i : Instruction) (d l : LocalId)
      → code_of f.blocks b ≡ pre ++ i ∷ post
      → defs i ≡ some d
      → d < length f.locals
      → l < length f.locals
      → d ≢ l
      → LiveAt f.blocks l b post
      → location a d ≢ location a l

-- For a function whose entry is one of its blocks, and whatever the number of registers and the
-- pinned locals, the allocation comes to an end, and at every reachable block it is safe: locals
-- that are live at one point never share a register or a frame slot, and no instruction writes
-- into the place of another local whose value some path still reads.
pub allocate_function-IsSafe :
    (f : MirFunction)
    → f.entry < length f.blocks
    → (registers : ℕ) (pinned : List Bool)
    → (a : Allocation) × (allocate_function f (new f) registers pinned ≡ some a)
      × ((b : BlockId) → is_reachable (new f) b ≡ true → IsSafe f a b)
unfolding is_reachable new
allocate_function-IsSafe f lt registers pinned = (
  allocate (length f.locals) registers pinned (intervals f lt),
  unfold allocate_function in rw (intervals_lem f lt),
  λ b reached. record {
    live_apart = λ pre post l m e l_lt m_lt ne vl vm.
        covered_apart f lt registers pinned l m ((laid_out f lt b reached).0 + length pre) l_lt m_lt
          ne (live_here f lt b reached l pre post l_lt e vl)
          (live_here f lt b reached m pre post m_lt e vm);
    write_apart = λ pre post i d l e h d_lt l_lt ne v.
        covered_apart f lt registers pinned d l ((laid_out f lt b reached).0 + length pre) d_lt l_lt
          ne (written_here f lt b reached d pre post i d_lt e h)
          (live_here f lt b reached l pre (i ∷ post) l_lt e (pass (λ q. ne (inj (sym h ∙ q))) v));
  },
)
  where
    inj : {d l : ℕ} → some d ≡ some l → d ≡ l
    inj q = cc
