-- ===== src/Verify/Lenient.antt =====
-- crates/slopic-core/src/verify.rs: the lenient form of `check_initialization`, which the verifier uses.
use slopium.Base.{
  ℕ, ◌+◌, ◌<◌, ◌≡◌, ◌⊎◌, inl, inr, refl, sym, ◌∙◌, subst, Bool, false, none, some, List, [], ◌∷◌,
  length, get_or, replicate, length-replicate, get_or-replicate, get_or-set_self, get_or-set_either,
  In, append_nothing,
}
use slopium.Mir.{LocalId, BlockId, Instruction, MirFunction}
use slopium.Cfg.DefUse.{defs, uses, terminator_uses}
use slopium.Cfg.Graph.{new}
use slopium.Cfg.Reach.{PathTo, here}
use slopium.Cfg.Correct.{is_reachable-iff-path}
use slopium.Cfg.Liveness.{code_of, terminator_of}
use slopium.Verify.Definedness.{
  Complaint, any, Entries, define, define_all, read_complaints, code_complaints, block_complaints,
  all_complaints, define_params, first_entries, check_initialization,
}
use slopium.Verify.Settles.{IsSettled, first_entries-Settles}
use slopium.Verify.Paths.{Arrives, define_params-In}
use slopium.Verify.Initialized.{read_complaints-cons, length-define, all_complaints-none}
use slopium.Verify.Defined.{MayWrite, Flagged, define-flag, IsJustified, round-IsJustified}

-- What the instructions read has been written before them, or has the property.
unfoldable pub ReadsOnly : ℕ → List Instruction → List LocalId → (LocalId → Type 0) → Type 0
ReadsOnly locals [] exit P = (l : LocalId) → In l exit → l < locals → P l
ReadsOnly locals (i ∷ is) exit P =
    ((l : LocalId) → In l (uses i) → l < locals → P l)
    × ReadsOnly locals is exit (λ l. P l ⊎ (defs i ≡ some l))

read_flags :
    (c : LocalId → Complaint) (ls : List LocalId) (d : List Bool)
    → read_complaints c ls d ≡ []
    → (l : LocalId) → In l ls
    → l < length d
    → Flagged d l
read_flags c [] d h l i lt = absurd i
read_flags c (k ∷ ls) d h l i lt =
    let (first, others) = read_complaints-cons c k ls d h in
    elim i [
      | inl e ↦ subst (λ x. x < length d → Flagged d x) (sym e) first lt
      | inr m ↦ read_flags c ls d others l m lt
    ]

code-ReadsOnly :
    (locals : ℕ) (block : BlockId) (position : ℕ) (is : List Instruction) (exit : List LocalId)
    (c : LocalId → Complaint) (d : List Bool) (P : LocalId → Type 0)
    → length d ≡ locals
    → ((l : LocalId) → Flagged d l → P l)
    → code_complaints block position is d ≡ []
    → read_complaints c exit (define_all is d) ≡ []
    → ReadsOnly locals is exit P
unfolding code_complaints define_all ReadsOnly
code-ReadsOnly locals block position [] exit c d P size w h k =
    λ l i lt. w l (read_flags c exit d k l i (subst (λ n. l < n) (sym size) lt))
code-ReadsOnly locals block position (x ∷ is) exit c d P size w h k =
    let (first, behind) =
      append_nothing (read_complaints (Complaint.read_undefined block position) (uses x) d)
        (code_complaints block (position + 1) is (define (defs x) d)) h in
    (
      λ l i lt. w l (
          read_flags (Complaint.read_undefined block position) (uses x) d first l i
            (subst (λ n. l < n) (sym size) lt)),
      code-ReadsOnly locals block (position + 1) is exit c (define (defs x) d)
          (λ l. P l ⊎ (defs x ≡ some l)) (length-define (defs x) d ∙ size)
          (λ l flag. elim (define-flag (defs x) d l flag) [ inl m ↦ inl (w l m) | inr e ↦ inr e ])
          behind k,
    )

first_entries-IsJustified :
    (f : MirFunction) → f.entry < length f.blocks → IsJustified f (first_entries f)
unfolding first_entries
first_entries-IsJustified f lt =
    let initial = define_params f.params (replicate (length f.locals) false) in
    record {
      begun = (
        initial,
        get_or-set_self (replicate (length f.blocks) none) f.entry (some initial) none
            (subst (λ n. f.entry < n) (sym (length-replicate (length f.blocks) none)) lt),
      );
      justified = λ b d l at flag.
          elim (get_or-set_either (replicate (length f.blocks) none) f.entry b (some initial)
            none) [
              | inr e ↦
                  let clash = sym (get_or-replicate (length f.blocks) b none) ∙ sym e ∙ at in
                  absurd cc
              | inl e ↦
                  let same : d ≡ initial = cc in
                  elim (define_params-In f.params (replicate (length f.locals) false) l
                    (subst (λ x. Flagged x l) same flag)) [
                      | inl m ↦ subst (λ k. MayWrite f k l) e.0 (f.params, Arrives.start, m)
                      | inr m ↦
                          let clash = sym (get_or-replicate (length f.locals) l false) ∙ m in
                          absurd cc
                    ]
            ];
    }

reached :
    (f : MirFunction)
    → f.entry < length f.blocks
    → (b : BlockId) → In b (new f).reverse_postorder
    → PathTo f.blocks f.entry b
reached f inside b i =
    let (reach, ordered, _) = is_reachable-iff-path f inside b in reach.0 (ordered.0 i)

module _ (f : MirFunction) (inside : f.entry < length f.blocks) (ds : Entries)
    (settled : IsSettled any f.blocks
      (new f).reverse_postorder
      (length f.locals)
      (IsJustified f)
      ds) where
  path_in_order : {b : BlockId} → PathTo f.blocks f.entry b → In b (new f).reverse_postorder
  path_in_order {b} p =
      let (reach, ordered, _) = is_reachable-iff-path f inside b in ordered.1 (reach.1 p)

  -- Every block that a path comes to has an entry.
  filled : {b : BlockId} → PathTo f.blocks f.entry b → (d : List Bool) × (get_or ds b none ≡ some d)
  filled here = settled.kept.begun
  filled (PathTo.step {b = b} {c = c} p i lt) =
      let (d, at) = filled p in
      let (e, there, _) = settled.quiet b (path_in_order p) d at c i lt in (e, there)

  entry-ReadsOnly :
      (b : BlockId) (d : List Bool)
      → get_or ds b none ≡ some d
      → block_complaints f.blocks b ds ≡ []
      → ReadsOnly
          (length f.locals)
          (code_of f.blocks b)
          (terminator_uses (terminator_of f.blocks b))
          (MayWrite f b)
  unfolding block_complaints
  entry-ReadsOnly b d at =
      rw (at, block_complaints)
        (λ h.
          let (code, exit) =
            append_nothing (code_complaints b 0 (code_of f.blocks b) d)
              (read_complaints (Complaint.exit_undefined b)
                (terminator_uses (terminator_of f.blocks b)) (define_all (code_of f.blocks b) d))
              h in
          code-ReadsOnly (length f.locals) b 0 (code_of f.blocks b)
            (terminator_uses (terminator_of f.blocks b)) (Complaint.exit_undefined b) d
            (MayWrite f b) (settled.sized b d at) (λ l flag. settled.kept.justified b d l at flag)
            code exit)

  path-ReadsOnly :
      all_complaints f.blocks (new f).reverse_postorder ds ≡ []
      → (b : BlockId) → PathTo f.blocks f.entry b
      → ReadsOnly
          (length f.locals)
          (code_of f.blocks b)
          (terminator_uses (terminator_of f.blocks b))
          (MayWrite f b)
  path-ReadsOnly h b p =
      let (d, at) = filled p in
      entry-ReadsOnly b d at
        (all_complaints-none f.blocks (new f).reverse_postorder ds h b (path_in_order p))

-- No path comes to a read of a local that is no parameter and that nothing writes on any path to it.
abbrev pub IsDefined : MirFunction → Type 0
IsDefined f =
    (b : BlockId)
    → PathTo f.blocks f.entry b
    → ReadsOnly (length f.locals) (code_of f.blocks b) (terminator_uses (terminator_of f.blocks b))
        (MayWrite f b)

-- For a function whose entry is one of its blocks, the lenient check ends, and where it has no
-- complaint, each local of the function that an instruction or a terminator of a block on a path from
-- the entry reads is a parameter, is written on some path to the block, or is written before the read
-- in the block itself.
pub check_initialization-IsDefined :
    (f : MirFunction)
    → f.entry < length f.blocks
    → (cs : List Complaint) × (check_initialization f (new f) any ≡ some cs)
      × (cs ≡ [] → IsDefined f)
unfolding check_initialization
check_initialization-IsDefined f inside =
    let (ds, ends, settled) =
      first_entries-Settles f any (new f).reverse_postorder (IsJustified f)
        (λ ds size h. round-IsJustified f (new f).reverse_postorder ds false (reached f inside) h)
        (first_entries-IsJustified f inside) in
    rw (ends, check_initialization)
      (
        all_complaints f.blocks (new f).reverse_postorder ds,
        refl,
        λ none_left. path-ReadsOnly f inside ds settled none_left,
      )
