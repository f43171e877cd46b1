-- ===== src/Regalloc/Defs.antt =====
-- crates/slopic-core/src/regalloc.rs: the allocator's data and its loop.
use slopium.Base.{
  ℕ, zero, suc, ◌+◌, Bool, true, false, ◌&&◌, ◌||◌, Option, none, some, List, [], ◌∷◌, ◌++◌, ltb,
  leb, ◌==◌, if◌then◌else◌, ◌>>=◌, length, get_or, set, replicate, remove,
}
use slopium.Mir.{MirFunction}
use slopium.Cfg.Graph.{Cfg}
use slopium.Cfg.Interval.{Interval}
use slopium.Cfg.Intervals.{live_intervals}

pub data Location : Type 0 where
  register : ℕ → Location
  memory : ℕ → Location

pub record Allocation : Type 0 where
  pub locations : List Location
  pub used_registers : List ℕ
  pub memory_slots : ℕ

memory_from : ℕ → ℕ → List Location
memory_from zero i = []
memory_from (suc n) i = memory i ∷ memory_from n (i + 1)

unfoldable pub stack_only : ℕ → Allocation
unfolding memory_from
stack_only locals = record {
  locations = memory_from locals 0;
  used_registers = [];
  memory_slots = locals;
}

unfoldable pub location : Allocation → ℕ → Location
location a local = get_or a.locations local (memory local)

-- The variables of the scan's loop.
pub record Scan : Type 0 where
  pub assigned : List (Option ℕ)
  pub busy : List Bool
  pub active : List Interval

-- `busy[register] = false`, if the interval has a register.
unfoldable pub release : List (Option ℕ) → List Bool → Interval → List Bool
release assigned busy other = elim (get_or assigned other.local none) [
  | none ↦ busy
  | some r ↦ set busy r false
]

-- `active.retain(…)`: intervals that ended before `start` give their registers back.
unfoldable pub expire : ℕ → List (Option ℕ) → List Bool → List Interval → List Bool × List Interval
unfolding release
expire start assigned busy [] = (busy, [])
expire start assigned busy (other ∷ rest) =
    let stays = leb start other.end in
    let (busy', kept) =
      expire start assigned (if stays then busy else release assigned busy other) rest in
    (busy', if stays then other ∷ kept else kept)

-- `(0..registers).find(|register| !busy[*register])`, from index `i`.
unfoldable pub find_free : List Bool → ℕ → Option ℕ
find_free [] i = none
find_free (b ∷ busy) i = let rest = find_free busy (i + 1) in if b then rest else some i

-- `(a.end, a.local) <= (b.end, b.local)`
unfoldable pub key_le : Interval → Interval → Bool
key_le a b = ltb a.end b.end || (a.end == b.end && leb a.local b.local)

-- `active.iter().enumerate().max_by_key(…)`: the last of the greatest, with its index.
unfoldable pub max_from : ℕ → ℕ × Interval → List Interval → ℕ × Interval
unfolding key_le
max_from i best [] = best
max_from i best (x ∷ xs) = max_from (i + 1) (if key_le best.1 x then (i, x) else best) xs

unfoldable pub victim : List Interval → Option (ℕ × Interval)
unfolding max_from
victim [] = none
victim (x ∷ xs) = some (max_from 1 (0, x) xs)

-- A free register: `busy[register] = true`, the interval is assigned and becomes active.
unfoldable pub take_register : Interval → Scan → ℕ → Scan
take_register interval s r = record {
  assigned = set s.assigned interval.local (some r);
  busy = set s.busy r true;
  active = s.active ++ interval ∷ [];
}

-- The register of `other`, which stands at `index`, goes to the newcomer.
unfoldable pub steal_register : Interval → Scan → ℕ → Interval → ℕ → Scan
steal_register interval s index other r = record {
  assigned = set (set s.assigned other.local none) interval.local (some r);
  busy = s.busy;
  active = remove s.active index ++ interval ∷ [];
}

-- Every register is taken.
unfoldable pub spill : Interval → Scan → Scan
unfolding victim steal_register
spill interval s = elim (victim s.active) [
  | none ↦ s
  | some (index, other) ↦
      if leb other.end interval.end then s else elim (get_or s.assigned other.local none) [
        | none ↦ s
        | some r ↦ steal_register interval s index other r
      ]
]

unfoldable pub expired : Interval → Scan → Scan
unfolding expire
expired interval s =
    let (busy, active) = expire interval.start s.assigned s.busy s.active in
    record { assigned = s.assigned; busy = busy; active = active }

unfoldable pub place : Interval → Scan → Scan
unfolding find_free take_register spill
place interval s = elim (find_free s.busy 0) [
  | some r ↦ take_register interval s r
  | none ↦ spill interval s
]

-- One round of `for interval in intervals`.
unfoldable pub scan_step : Scan → Interval → Scan
unfolding expired place
scan_step s interval = place interval (expired interval s)

unfoldable pub scan : Scan → List Interval → Scan
unfolding scan_step
scan s [] = s
scan s (x ∷ xs) = scan (scan_step s x) xs

-- `(a.start, a.end, a.local) <= (b.start, b.end, b.local)`
unfoldable pub order_le : Interval → Interval → Bool
unfolding key_le
order_le a b = ltb a.start b.start || (a.start == b.start && key_le a b)

-- `sort_unstable_by_key`: the keys hold the local, so no two are equal and any sort does.
unfoldable pub insert : Interval → List Interval → List Interval
unfolding order_le
insert x [] = x ∷ []
insert x (y ∷ ys) = let rest = insert x ys in if order_le x y then x ∷ y ∷ ys else y ∷ rest

unfoldable pub sort : List Interval → List Interval
unfolding insert
sort [] = []
sort (x ∷ xs) = insert x (sort xs)

-- `intervals.retain(…)`: pinned locals take no part.
unfoldable pub unpinned : List Bool → List Interval → List Interval
unpinned pinned [] = []
unpinned pinned (x ∷ xs) =
    let rest = unpinned pinned xs in if get_or pinned x.local false then rest else x ∷ rest

-- The locations of the locals, the next frame slot being `slot`.
unfoldable pub place_locals : List (Option ℕ) → ℕ → List Location
place_locals [] slot = []
place_locals (some r ∷ rest) slot = register r ∷ place_locals rest slot
place_locals (none ∷ rest) slot = memory slot ∷ place_locals rest (slot + 1)

unfoldable pub count_memory : List (Option ℕ) → ℕ
count_memory [] = 0
count_memory (some r ∷ rest) = count_memory rest
count_memory (none ∷ rest) = suc (count_memory rest)

-- `sort_unstable` then `dedup`: each insertion keeps the list ascending and drops an equal.
unfoldable pub insert_register : ℕ → List ℕ → List ℕ
insert_register r [] = r ∷ []
insert_register r (q ∷ qs) =
    let rest = insert_register r qs in
    if ltb r q then r ∷ q ∷ qs else if r == q then q ∷ qs else q ∷ rest

unfoldable pub used : List (Option ℕ) → List ℕ
unfolding insert_register
used [] = []
used (none ∷ rest) = used rest
used (some r ∷ rest) = insert_register r (used rest)

unfoldable pub initial : ℕ → ℕ → Scan
initial count registers = record {
  assigned = replicate count none;
  busy = replicate registers false;
  active = [];
}

unfoldable pub assign_registers : ℕ → ℕ → List Bool → List Interval → Scan
unfolding initial scan sort unpinned
assign_registers count registers pinned intervals =
    scan (initial count registers) (sort (unpinned pinned intervals))

-- `allocate`, with the intervals that `live_intervals` gives and the number of locals.
unfoldable pub allocate : ℕ → ℕ → List Bool → List Interval → Allocation
unfolding assign_registers place_locals count_memory used
allocate count registers pinned intervals =
    let assigned = (assign_registers count registers pinned intervals).assigned in
    record {
      locations = place_locals assigned 0;
      used_registers = used assigned;
      memory_slots = count_memory assigned;
    }

-- `allocate` on a function and its control flow.
unfoldable pub allocate_function : MirFunction → Cfg → ℕ → List Bool → Option Allocation
unfolding allocate
allocate_function f cfg registers pinned = do
  intervals ← live_intervals f cfg
  some (allocate (length f.locals) registers pinned intervals)
