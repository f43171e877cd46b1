-- ===== src/Verify/Definedness.antt =====
-- crates/slopic-core/src/verify.rs: the complaints, and `check_initialization`.
use slopium.Base.{
  ℕ, zero, suc, ◌+◌, ◌*◌, Bool, true, false, ◌||◌, ◌&&◌, not, Option, none, some, List, [], ◌∷◌,
  ◌++◌, ltb, if◌then◌else◌, length, get_or, set, replicate,
}
use slopium.Mir.{LocalId, BlockId, Instruction, BasicBlock, MirFunction}
use slopium.Cfg.DefUse.{defs, uses, terminator_uses}
use slopium.Cfg.Graph.{Cfg, targets_of}
use slopium.Cfg.Liveness.{code_of, terminator_of}
use slopium.Cfg.Sets.{eq_flags}

pub data Complaint : Type 0 where
  no_blocks : Complaint
  entry_out_of_range : Complaint
  entry_not_first : Complaint
  parameter_out_of_range : ℕ → Complaint
  parameter_not_leading : ℕ → Complaint
  parameter_not_flagged : LocalId → Complaint
  target_out_of_range : ℕ → BlockId → Complaint
  operand_out_of_range : ℕ → ℕ → LocalId → Complaint
  exit_out_of_range : ℕ → LocalId → Complaint
  argument_count : ℕ → ℕ → Complaint
  operand_type : ℕ → ℕ → Complaint
  read_undefined : BlockId → ℕ → LocalId → Complaint
  exit_undefined : BlockId → LocalId → Complaint

pub data Merge : Type 0 where
  any all : Merge

abbrev pub updated : Merge → Bool → Bool → Bool
updated any slot incoming = slot || incoming
updated all slot incoming = slot && incoming

-- The locals that are defined at the start of each block.
abbrev pub Entries : Type 0
Entries = List (Option (List Bool))

-- The loop over `existing.iter_mut().zip(defined.iter())`.
unfoldable pub merge_slots : Merge → List Bool → List Bool → List Bool
merge_slots m [] incoming = []
merge_slots m (slot ∷ slots) [] = slot ∷ slots
merge_slots m (slot ∷ slots) (x ∷ incoming) = updated m slot x ∷ merge_slots m slots incoming

-- `defined` after an instruction; a write past the end changes nothing.
unfoldable pub define : Option LocalId → List Bool → List Bool
define none defined = defined
define (some l) defined = set defined l true

unfoldable pub define_all : List Instruction → List Bool → List Bool
unfolding define
define_all [] defined = defined
define_all (i ∷ is) defined = define_all is (define (defs i) defined)

unfoldable pub flow_target : Merge → ℕ → List Bool → BlockId → Entries → Bool → Entries × Bool
unfolding merge_slots eq_flags
flow_target m count defined target entries changed =
    if ltb target count
    then elim (get_or entries target none) [
      | none ↦ (set entries target (some defined), true)
      | some existing ↦ (
        set entries target (some (merge_slots m existing defined)),
        changed || not (eq_flags (merge_slots m existing defined) existing),
      )
    ]
    else (entries, changed)

unfoldable pub flow_targets : Merge → ℕ → List Bool → List BlockId → Entries → Bool → Entries × Bool
unfolding flow_target
flow_targets m count defined [] entries changed = (entries, changed)
flow_targets m count defined (t ∷ ts) entries changed =
    let (entries', changed') = flow_target m count defined t entries changed in
    flow_targets m count defined ts entries' changed'

unfoldable pub flow_from : Merge → List BasicBlock → BlockId → Entries → Bool → Entries × Bool
unfolding flow_targets define_all
flow_from m blocks block entries changed = elim (get_or entries block none) [
  | none ↦ (entries, changed)
  | some defined ↦
      flow_targets m (length blocks) (define_all (code_of blocks block) defined)
        (targets_of blocks block) entries changed
]

unfoldable pub flow_all : Merge → List BasicBlock → List BlockId → Entries → Bool → Entries × Bool
unfolding flow_from
flow_all m blocks [] entries changed = (entries, changed)
flow_all m blocks (b ∷ bs) entries changed =
    let (entries', changed') = flow_from m blocks b entries changed in
    flow_all m blocks bs entries' changed'

-- `while changed`; `none` means that the fuel ran out.
unfoldable pub settle_entries :
    Merge → List BasicBlock → List BlockId → ℕ → Entries → Option Entries
unfolding flow_all
settle_entries m blocks order zero entries = none
settle_entries m blocks order (suc fuel) entries =
    let (entries', changed) = flow_all m blocks order entries false in
    let rest = settle_entries m blocks order fuel entries' in
    if changed then rest else some entries'

-- `defined` has a flag for each local.
unfoldable pub read_complaints : (LocalId → Complaint) → List LocalId → List Bool → List Complaint
read_complaints c [] defined = []
read_complaints c (l ∷ ls) defined =
    let rest = read_complaints c ls defined in
    if ltb l (length defined) && not (get_or defined l false) then c l ∷ rest else rest

unfoldable pub code_complaints : BlockId → ℕ → List Instruction → List Bool → List Complaint
unfolding read_complaints define
code_complaints block position [] defined = []
code_complaints block position (i ∷ is) defined =
    read_complaints (read_undefined block position) (uses i) defined
    ++ code_complaints block (position + 1) is (define (defs i) defined)

unfoldable pub block_complaints : List BasicBlock → BlockId → Entries → List Complaint
unfolding code_complaints read_complaints define_all
block_complaints blocks block entries = elim (get_or entries block none) [
  | none ↦ []
  | some defined ↦
      code_complaints block 0 (code_of blocks block) defined
      ++ read_complaints (exit_undefined block) (terminator_uses (terminator_of blocks block))
          (define_all (code_of blocks block) defined)
]

unfoldable pub all_complaints : List BasicBlock → List BlockId → Entries → List Complaint
unfolding block_complaints
all_complaints blocks [] entries = []
all_complaints blocks (b ∷ bs) entries =
    block_complaints blocks b entries ++ all_complaints blocks bs entries

unfoldable pub define_params : List LocalId → List Bool → List Bool
define_params [] defined = defined
define_params (p ∷ ps) defined = define_params ps (set defined p true)

unfoldable pub first_entries : MirFunction → Entries
unfolding define_params
first_entries f =
    set (replicate (length f.blocks) none) f.entry
      (some (define_params f.params (replicate (length f.locals) false)))

-- Each round but the last fills an entry or changes one of its flags.
abbrev pub settle_fuel : ℕ → ℕ → ℕ
settle_fuel blocks locals = blocks * (locals + 1) + 1

unfoldable pub check_initialization : MirFunction → Cfg → Merge → Option (List Complaint)
unfolding settle_entries all_complaints first_entries
check_initialization f cfg m =
    elim (settle_entries m f.blocks cfg.reverse_postorder
      (settle_fuel (length f.blocks) (length f.locals)) (first_entries f)) [
        | none ↦ none
        | some entries ↦ some (all_complaints f.blocks cfg.reverse_postorder entries)
      ]
