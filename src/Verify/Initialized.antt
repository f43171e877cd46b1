-- ===== src/Verify/Initialized.antt =====
-- crates/slopic-core/src/verify.rs: what `check_initialization` shows when it requires a definition on
-- every path.
use slopium.Base.{
  ℕ, ◌+◌, ◌<◌, ◌≡◌, inl, inr, refl, sym, ◌∙◌, subst, Bool, true, false, ◌&&◌, not, Option, none,
  some, List, [], ◌∷◌, ltb, lt→ltb, length, get_or, Bool-cases, In, length-set, append_nothing,
}
use slopium.Mir.{LocalId, BlockId, Instruction, BasicBlock, MirFunction}
use slopium.Cfg.DefUse.{defs, uses, terminator_uses}
use slopium.Cfg.Graph.{new}
use slopium.Cfg.Reach.{PathTo, here}
use slopium.Cfg.Correct.{is_reachable-iff-path}
use slopium.Cfg.Liveness.{code_of, terminator_of}
use slopium.Verify.Definedness.{
  Complaint, all, Entries, define, define_all, read_complaints, code_complaints, block_complaints,
  all_complaints, check_initialization,
}
use slopium.Verify.Progress.{length-define_all}
use slopium.Verify.Settles.{IsSettled, length-first_entries, first_entries-Settles}
use slopium.Verify.Paths.{
  after, Arrives, start, step, ReadsInOrder, Within, define-Within, define_all-Within,
  merge_slots-second, Started, round-Started, first_entries-Begins,
}

set_flag : (a b : Bool) → a ≡ true → (a && not b) ≡ false → b ≡ true
set_flag true true p h = refl
set_flag true false p h = absurd cc
set_flag false b p h = absurd cc

pub read_complaints-cons :
    (c : LocalId → Complaint) (l : LocalId) (ls : List LocalId) (d : List Bool)
    → read_complaints c (l ∷ ls) d ≡ []
    → (l < length d → get_or d l false ≡ true) × (read_complaints c ls d ≡ [])
unfolding read_complaints
read_complaints-cons c l ls d = elim (Bool-cases (ltb l (length d) && not (get_or d l false))) [
  | inl q ↦ rw (q, read_complaints) (λ h. absurd cc)
  | inr q ↦
      rw (q, read_complaints)
        (λ h.
          ((λ lt. set_flag (ltb l (length d)) (get_or d l false) (lt→ltb l (length d) lt) q), h))
]

read_complaints-none :
    (c : LocalId → Complaint) (ls : List LocalId) (d : List Bool) (ws : List LocalId)
    → Within d ws
    → read_complaints c ls d ≡ []
    → (l : LocalId) → In l ls
    → l < length d
    → In l ws
read_complaints-none c [] d ws w h l i lt = absurd i
read_complaints-none c (k ∷ ls) d ws w h l i lt =
    let (first, others) = read_complaints-cons c k ls d h in
    elim i [
      | inl e ↦ w l (subst (λ x. x < length d → get_or d x false ≡ true) (sym e) first lt)
      | inr m ↦ read_complaints-none c ls d ws w others l m lt
    ]

pub length-define : (o : Option LocalId) (d : List Bool) → length (define o d) ≡ length d
unfolding define
length-define none d = refl
length-define (some l) d = length-set d l true

code-ReadsInOrder :
    (locals : ℕ) (block : BlockId) (position : ℕ) (is : List Instruction) (exit : List LocalId)
    (c : LocalId → Complaint) (d : List Bool) (ws : List LocalId)
    → length d ≡ locals
    → Within d ws
    → code_complaints block position is d ≡ []
    → read_complaints c exit (define_all is d) ≡ []
    → ReadsInOrder locals is exit ws
unfolding code_complaints define_all ReadsInOrder
code-ReadsInOrder locals block position [] exit c d ws size w h k =
    λ l i lt. read_complaints-none c exit d ws w k l i (subst (λ n. l < n) (sym size) lt)
code-ReadsInOrder locals block position (x ∷ is) exit c d ws size w h k =
    let (first, behind) =
      append_nothing (read_complaints (Complaint.read_undefined block position) (uses x) d)
        (code_complaints block (position + 1) is (define (defs x) d)) h in
    (
      λ l i lt.
          read_complaints-none (Complaint.read_undefined block position) (uses x) d ws w first l i
            (subst (λ n. l < n) (sym size) lt),
      code-ReadsInOrder locals block (position + 1) is exit c (define (defs x) d)
          (after (defs x) ws) (length-define (defs x) d ∙ size) (define-Within (defs x) d ws w)
          behind k,
    )

-- The block of which nothing is complained, with its entry.
block-ReadsInOrder :
    (blocks : List BasicBlock) (locals : ℕ) (b : BlockId) (ds : Entries) (d : List Bool)
    (ws : List LocalId)
    → get_or ds b none ≡ some d
    → length d ≡ locals
    → Within d ws
    → block_complaints blocks b ds ≡ []
    → ReadsInOrder locals (code_of blocks b) (terminator_uses (terminator_of blocks b)) ws
unfolding block_complaints
block-ReadsInOrder blocks locals b ds d ws at size w =
    rw (at, block_complaints)
      (λ h.
        let (code, exit) =
          append_nothing (code_complaints b 0 (code_of blocks b) d)
            (read_complaints (Complaint.exit_undefined b) (terminator_uses (terminator_of blocks b))
              (define_all (code_of blocks b) d))
            h in
        code-ReadsInOrder locals b 0 (code_of blocks b) (terminator_uses (terminator_of blocks b))
          (Complaint.exit_undefined b) d ws size w code exit)

pub all_complaints-none :
    (blocks : List BasicBlock) (order : List BlockId) (ds : Entries)
    → all_complaints blocks order ds ≡ []
    → (b : BlockId) → In b order
    → block_complaints blocks b ds ≡ []
unfolding all_complaints
all_complaints-none blocks [] ds h b i = absurd i
all_complaints-none blocks (u ∷ us) ds h b i =
    let (one, others) =
      append_nothing (block_complaints blocks u ds) (all_complaints blocks us ds) h in
    elim i [
      | inl e ↦ subst (λ k. block_complaints blocks k ds ≡ []) (sym e) one
      | inr m ↦ all_complaints-none blocks us ds others b m
    ]

Arrives-PathTo :
    {f : MirFunction} {b : BlockId} {ws : List LocalId} → Arrives f b ws → PathTo f.blocks f.entry b
Arrives-PathTo start = here
Arrives-PathTo (step r i lt) = PathTo.step (Arrives-PathTo r) i lt

module _ (f : MirFunction) (inside : f.entry < length f.blocks) (ds : Entries)
    (settled : IsSettled all f.blocks
      (new f).reverse_postorder
      (length f.locals)
      (Started f)
      ds) where
  in_order : {b : BlockId} {ws : List LocalId} → Arrives f b ws → In b (new f).reverse_postorder
  in_order {b} r =
      let (reach, ordered, _) = is_reachable-iff-path f inside b in
      ordered.1 (reach.1 (Arrives-PathTo r))

  -- The entries are below what any path has written.
  Arrives-Within :
      {b : BlockId} {ws : List LocalId}
      → Arrives f b ws
      → (d : List Bool) × (get_or ds b none ≡ some d) × Within d ws
  Arrives-Within start = settled.kept.1
  Arrives-Within (step {b = b} {c = c} {ws = ws} r i lt) =
      let (d, at, w) = Arrives-Within r in
      let (e, there, merged) = settled.quiet b (in_order r) d at c i lt in
      let defined = define_all (code_of f.blocks b) d in
      let size : length e ≡ length defined =
        settled.sized c e there
        ∙ sym (length-define_all (code_of f.blocks b) d ∙ settled.sized b d at) in
      (
        e,
        there,
        λ l h. define_all-Within (code_of f.blocks b) d ws w l (
            merge_slots-second e defined l size
              (subst (λ x. get_or x l false ≡ true) (sym merged) h)),
      )

  Arrives-ReadsInOrder :
      all_complaints f.blocks (new f).reverse_postorder ds ≡ []
      → (b : BlockId) (ws : List LocalId) → Arrives f b ws
      → ReadsInOrder
          (length f.locals)
          (code_of f.blocks b)
          (terminator_uses (terminator_of f.blocks b))
          ws
  Arrives-ReadsInOrder h b ws r =
      let (d, at, w) = Arrives-Within r in
      block-ReadsInOrder f.blocks (length f.locals) b ds d ws at (settled.sized b d at) w
        (all_complaints-none f.blocks (new f).reverse_postorder ds h b (in_order r))

-- No path reads a local before it has been written.
abbrev pub IsInitialized : MirFunction → Type 0
IsInitialized f =
    (b : BlockId) (ws : List LocalId)
    → Arrives f b ws
    → ReadsInOrder (length f.locals) (code_of f.blocks b)
        (terminator_uses (terminator_of f.blocks b)) ws

-- For a function whose entry is one of its blocks, the strict check ends, and where it has no
-- complaint, no instruction and no terminator on any path from the entry reads a local of the
-- function that is no parameter and that nothing before it on the path writes.
pub check_initialization-IsInitialized :
    (f : MirFunction)
    → f.entry < length f.blocks
    → (cs : List Complaint) × (check_initialization f (new f) all ≡ some cs)
      × (cs ≡ [] → IsInitialized f)
unfolding check_initialization
check_initialization-IsInitialized f inside =
    let (ds, ends, settled) =
      first_entries-Settles f all (new f).reverse_postorder (Started f)
        (λ ds size h. round-Started f (new f).reverse_postorder ds false h)
        (length-first_entries f, first_entries-Begins f inside) in
    rw (ends, check_initialization)
      (
        all_complaints f.blocks (new f).reverse_postorder ds,
        refl,
        λ none_left. Arrives-ReadsInOrder f inside ds settled none_left,
      )
