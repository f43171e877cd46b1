-- ===== src/Verify/Shape.antt =====
-- crates/slopic-core/src/verify.rs: what a function without complaints looks like.
use slopium.Base.{
  ℕ, zero, suc, ◌+◌, ◌<◌, ◌≡◌, ◌↔◌, inl, inr, refl, sym, ◌∙◌, ap, subst, Bool, true, false, not,
  some, List, [], ◌∷◌, ◌++◌, ltb, lt→ltb, ltb→lt, ◌==◌, length, get_elem?, get_elem?-lt, arith,
  Bool-cases, Option-cases, In, append_nothing,
}
use slopium.Mir.{LocalId, BlockId, Instruction, BasicBlock, instructions, MirFunction}
use slopium.Cfg.DefUse.{uses, terminator_uses, successors}
use slopium.Cfg.Graph.{targets_of, new}
use slopium.Opt.Thread.{IsClosed}
use slopium.Verify.{
  complain, written_by, out_of_range, verify_instructions, verify_instruction_shape,
  verify_block_operands, verify_targets, verify_blocks, verify_param, verify_params,
  verify_function, targets_from, check_block_targets,
}
use slopium.Verify.Definedness
use slopium.Verify.Definedness.{Complaint, target_out_of_range, any, check_initialization}
use slopium.Verify.Settles.{first_entries-Settles}

complain-none : (b : Bool) (c : Complaint) → complain (not b) c ≡ [] → b ≡ true
complain-none true c h = refl
complain-none false c h = absurd cc

complain-true : (b : Bool) (c : Complaint) → b ≡ true → complain (not b) c ≡ []
complain-true true c h = refl
complain-true false c h = absurd cc

verify_targets_iff :
    (n index : ℕ) (ts : List BlockId)
    → (verify_targets n index ts ≡ []) ↔ ((t : BlockId) → In t ts → t < n)
unfolding verify_targets
verify_targets_iff n index [] = ((λ h t i. absurd i), (λ h. refl))
verify_targets_iff n index (u ∷ ts) =
    let (to, from) = verify_targets_iff n index ts in
    (
      (λ h t i.
          let (one, others) =
            append_nothing (complain (not (ltb u n)) (target_out_of_range index u))
              (verify_targets n index ts) h in
          elim i [
            | inl e ↦
                subst (λ k. k < n) (sym e)
                  (ltb→lt u n (complain-none (ltb u n) (target_out_of_range index u) one))
            | inr m ↦ to others t m
          ]),
      (λ h.
          ap (λ cs. cs ++ verify_targets n index ts)
            (complain-true (ltb u n) (target_out_of_range index u) (lt→ltb u n (h u (inl refl))))
          ∙ from (λ t m. h t (inr m))),
    )

targets_from_iff :
    (n index : ℕ) (bs : List BasicBlock)
    → (targets_from n index bs ≡ []) ↔ ((b t : BlockId) → In t (targets_of bs b) → t < n)
unfolding targets_from targets_of
targets_from_iff n index [] = ((λ h b t i. absurd i), (λ h. refl))
targets_from_iff n index (k ∷ bs) =
    let (to, from) = targets_from_iff n (index + 1) bs in
    let (one_to, one_from) = verify_targets_iff n index (successors k.terminator) in
    (
      (λ h.
          let (one, others) =
            append_nothing (verify_targets n index (successors k.terminator))
              (targets_from n (index + 1) bs) h in
          split k bs n (one_to one) (to others)),
      (λ h.
          ap (λ cs. cs ++ targets_from n (index + 1) bs) (one_from (λ t i. h 0 t i))
          ∙ from (λ b t i. h (suc b) t i)),
    )
  where
    split :
        (k : BasicBlock) (bs : List BasicBlock) (n : ℕ)
        → ((t : BlockId) → In t (successors k.terminator) → t < n)
        → ((b t : BlockId) → In t (targets_of bs b) → t < n)
        → (b t : BlockId) → In t (targets_of (k ∷ bs) b)
        → t < n
    split k bs n one others zero t i = one t i
    split k bs n one others (suc b) t i = others b t i

-- The check of the targets has no complaint exactly if the entry and all targets are blocks of the
-- function.
pub check_block_targets_iff :
    (f : MirFunction)
    → (check_block_targets f ≡ []) ↔ ((f.entry < length f.blocks) × IsClosed f.blocks)
unfolding check_block_targets
check_block_targets_iff f =
    let (to, from) = targets_from_iff (length f.blocks) 0 f.blocks in
    let inside = ltb f.entry (length f.blocks) in
    (
      (λ h.
          let (one, others) =
            append_nothing (complain (not inside) Definedness.entry_out_of_range)
              (targets_from (length f.blocks) 0 f.blocks) h in
          (
            ltb→lt f.entry (length f.blocks)
                (complain-none inside Definedness.entry_out_of_range one),
            to others,
          )),
      (λ h.
          ap (λ cs. cs ++ targets_from (length f.blocks) 0 f.blocks)
            (complain-true inside Definedness.entry_out_of_range
              (lt→ltb f.entry (length f.blocks) h.0))
          ∙ from h.1),
    )

out_of_range-none :
    (n : ℕ) (c : LocalId → Complaint) (ls : List LocalId)
    → out_of_range n c ls ≡ []
    → (l : LocalId) → In l ls
    → l < n
unfolding out_of_range
out_of_range-none n c [] h l i = absurd i
out_of_range-none n c (k ∷ ls) h l i =
    let (one, others) = append_nothing (complain (not (ltb k n)) (c k)) (out_of_range n c ls) h in
    elim i [
      | inl e ↦ subst (λ x. x < n) (sym e) (ltb→lt k n (complain-none (ltb k n) (c k) one))
      | inr m ↦ out_of_range-none n c ls others l m
    ]

-- All the locals of the instruction are locals of the function.
abbrev pub IsRanged : ℕ → Instruction → Type 0
IsRanged locals i = (l : LocalId) → In l (uses i ++ written_by i) → l < locals

verify_instructions-none :
    (index position locals : ℕ) (is : List Instruction)
    → verify_instructions index position locals is ≡ []
    → (i : Instruction) → In i is
    → IsRanged locals i
unfolding verify_instructions
verify_instructions-none index position locals [] h i m = absurd m
verify_instructions-none index position locals (x ∷ is) h i m =
    let ranged =
      out_of_range locals (Definedness.operand_out_of_range index position)
        (uses x ++ written_by x) in
    let shaped = verify_instruction_shape index position x in
    let behind = verify_instructions index (position + 1) locals is in
    let (front, others) = append_nothing (ranged ++ shaped) behind h in
    let (one, _) = append_nothing ranged shaped front in
    elim m [
      | inl e ↦ subst (IsRanged locals) (sym e) (
          out_of_range-none locals (Definedness.operand_out_of_range index position)
            (uses x ++ written_by x) one)
      | inr k ↦ verify_instructions-none index (position + 1) locals is others i k
    ]

-- The block's operands are locals of the function.
pub record IsRangedBlock (locals : ℕ) (b : BasicBlock) : Type 0 where
  pub code : (i : Instruction) → In i (instructions b) → IsRanged locals i
  pub exit : (l : LocalId) → In l (terminator_uses b.terminator) → l < locals

verify_blocks-none :
    (f : MirFunction) (index : ℕ) (bs : List BasicBlock)
    → verify_blocks f index bs ≡ []
    → (targets_from (length f.blocks) index bs ≡ [])
      × ((b : BasicBlock) → In b bs → IsRangedBlock (length f.locals) b)
unfolding verify_blocks targets_from verify_block_operands
verify_blocks-none f index [] h = (refl, λ b i. absurd i)
verify_blocks-none f index (k ∷ bs) h =
    let targets = verify_targets (length f.blocks) index (successors k.terminator) in
    let operands = verify_block_operands index k (length f.locals) in
    let (front, others) = append_nothing (targets ++ operands) (verify_blocks f (index + 1) bs) h in
    let (closed, ranged) = append_nothing targets operands front in
    let (code, exit) =
      append_nothing (verify_instructions index 0 (length f.locals) (instructions k))
        (out_of_range (length f.locals) (Definedness.exit_out_of_range index)
          (terminator_uses k.terminator))
        ranged in
    let (all_closed, all_ranged) = verify_blocks-none f (index + 1) bs others in
    (
      ap (λ cs. cs ++ targets_from (length f.blocks) (index + 1) bs) closed ∙ all_closed,
      λ b i. elim i [
        | inl e ↦ subst (IsRangedBlock (length f.locals)) (sym e) (record {
          code = verify_instructions-none index 0 (length f.locals) (instructions k) code;
          exit =
              out_of_range-none (length f.locals) (Definedness.exit_out_of_range index)
                (terminator_uses k.terminator) exit;
        })
        | inr m ↦ all_ranged b m
      ],
    )

param-lead :
    (f : MirFunction) (index : ℕ) (p : LocalId)
    → verify_param f index p ≡ []
    → (p ≡ index) × (p < length f.locals)
unfolding verify_param
param-lead f index p = elim (Option-cases (get_elem? f.locals p)) [
  | inl q ↦ rw (q, verify_param) (λ h. absurd cc)
  | inr (l, q) ↦
      rw (q, verify_param)
        (λ h.
          let (one, _) =
            append_nothing (complain (not (p == index)) (Definedness.parameter_not_leading index))
              (complain (not l.is_param) (Definedness.parameter_not_flagged p)) h in
          let same = complain-none (p == index) (Definedness.parameter_not_leading index) one in
          (ground arith, get_elem?-lt f.locals p l q))
]

-- The parameters are the first locals, in order.
params-lead :
    (f : MirFunction) (index : ℕ) (ps : List LocalId)
    → verify_params f index ps ≡ []
    → (k p : ℕ) → get_elem? ps k ≡ some p
    → (p ≡ index + k) × (p < length f.locals)
unfolding verify_params
params-lead f index [] h k p q = cc
params-lead f index (x ∷ ps) h zero p q =
    let (one, _) = append_nothing (verify_param f index x) (verify_params f (index + 1) ps) h in
    let (same, lt) = param-lead f index x one in
    let e : x ≡ p = cc in (omega arith, subst (λ n. n < length f.locals) e lt)
params-lead f index (x ∷ ps) h (suc k) p q =
    let (_, others) = append_nothing (verify_param f index x) (verify_params f (index + 1) ps) h in
    let (same, lt) = params-lead f (index + 1) ps others k p q in (omega arith, lt)

-- What code generation and the passes rely on.
pub record IsWellFormed (f : MirFunction) : Type 0 where
  pub first : f.entry ≡ 0
  pub inside : f.entry < length f.blocks
  pub closed : IsClosed f.blocks
  pub ranged : (b : BasicBlock) → In b f.blocks → IsRangedBlock (length f.locals) b
  pub params : (k p : ℕ) → get_elem? f.params k ≡ some p → (p ≡ k) × (p < length f.locals)

accepted-IsWellFormed :
    (f : MirFunction) (undefined : List Complaint)
    → f.entry < length f.blocks
    → complain (not (f.entry == 0)) Definedness.entry_not_first
        ++ verify_params f 0 f.params
        ++ verify_blocks f 0 f.blocks
        ++ undefined
      ≡ []
    → IsWellFormed f
accepted-IsWellFormed f undefined inside h =
    let entry = complain (not (f.entry == 0)) Definedness.entry_not_first in
    let (a, _) =
      append_nothing (entry ++ verify_params f 0 f.params ++ verify_blocks f 0 f.blocks) undefined
        h in
    let (b, blocks) =
      append_nothing (entry ++ verify_params f 0 f.params) (verify_blocks f 0 f.blocks) a in
    let (c, params) = append_nothing entry (verify_params f 0 f.params) b in
    let zeroth = complain-none (f.entry == 0) Definedness.entry_not_first c in
    let (closed, ranged) = verify_blocks-none f 0 f.blocks blocks in
    record {
      first = ground arith;
      inside = inside;
      closed = (targets_from_iff (length f.blocks) 0 f.blocks).0 closed;
      ranged = ranged;
      params = λ k p q. let (same, lt) = params-lead f 0 f.params params k p q in (omega arith, lt);
    }

-- The verifier returns for every function. Where it has no complaint, the entry is block 0 and a block
-- of the function, as all targets are; every local that an instruction or a terminator names is one of
-- the function's; and the parameters are its first locals, in order.
pub verify_function-IsWellFormed :
    (f : MirFunction)
    → (cs : List Complaint) × (verify_function f ≡ some cs) × (cs ≡ [] → IsWellFormed f)
unfolding verify_function check_initialization
verify_function-IsWellFormed f = elim (Bool-cases (length f.blocks == 0)) [
  | inl q ↦ rw (q, verify_function) (Definedness.no_blocks ∷ [], refl, λ h. absurd cc)
  | inr q ↦ elim (Bool-cases (ltb f.entry (length f.blocks))) [
    | inr o ↦ rw (q, verify_function, o) (Definedness.entry_out_of_range ∷ [], refl, λ h. absurd cc)
    | inl o ↦
        let (ds, ends, _) =
          first_entries-Settles f any (new f).reverse_postorder (λ _. Unit) (λ ds size h. tt) tt in
        rw (q, verify_function, o, ends)
          (_, refl, λ h. accepted-IsWellFormed f _ (ltb→lt f.entry (length f.blocks) o) h)
  ]
]
