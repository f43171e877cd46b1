-- ===== src/Lib.antt =====
-- Parts of slopium: the parser of S-expressions, the compiler's mid-level representation with its
-- verifier, three passes of the optimiser, liveness and register allocation, the integer types, and of
-- the package manager the versions and the digest.
--
-- A function in the mid-level representation (crates/slopic-core/src/mir.rs) is a list of basic
-- blocks over numbered locals. crates/slopic-core/src/cfg.rs finds the blocks that can be reached,
-- iterates backward liveness to a fixpoint and turns it into one interval of positions per local.
-- crates/slopic-core/src/regalloc.rs scans the intervals and gives each local a register or a frame
-- slot. Before that crates/slopic-core/src/opt.rs propagates constants, simplifies the graph of the
-- blocks and drops dead code, and crates/slopic-core/src/verify.rs checks what a pass leaves.
-- crates/slopic-core/src/ast.rs says how an integer of each type sits in a 64-bit word.
--
-- Apart from these, crates/slopic-core/src/parser.rs turns tokens into trees,
-- crates/slopium-manifest/src/version.rs orders the versions of packages and matches them with
-- requirements, and crates/slopium-manifest/src/sha256.rs digests archives.
--
-- Files:
--   Base          names from the libraries, Boolean tests, lists over the native numbers, members
--   Mir           the data of mir.rs, with `Type` of ast.rs and `Span` of diagnostic.rs
--   Cfg.DefUse    `successors`, `defs`, `uses`, `terminator_uses`
--   Cfg.Graph     `Cfg::new`: the search is an explicit stack, one function per part of its loop
--   Cfg.Found, Cfg.Reach, Cfg.Correct    the search's invariant, its end, and paths
--   Cfg.Liveness  `liveness`: one function per loop, the outer loop on fuel
--   Cfg.Sets, Cfg.Fixpoint, Cfg.Rounds   sets of flags grow, so the rounds end
--   Cfg.Live, Cfg.Exact, Cfg.Analysis    liveness by paths, and that the analysis decides it
--   Cfg.Intervals `Ranges` and `live_intervals`
--   Cfg.Marks, Cfg.Hull, Cfg.Cover       what the intervals cover
--   Regalloc.Defs `Allocation` and `allocate`, the loop's state as the record `Scan`
--   Regalloc.Invariant, Regalloc.Steps, Regalloc.Scan    the loop's invariant
--   Regalloc.Order, Regalloc.Place, Regalloc.Locations   sorting, frame slots, saved registers
--   Regalloc.Correct, Regalloc.Interference              what the allocation promises
--   Integers      `IntKind`, `IntLiteral` and `codegen::regime`
--   Opt.Dead      `eliminate_dead_code`, `is_pure` and `volatile_count` of
--                 crates/slopic-core/src/opt.rs, the loop on fuel
--   Opt.Effects   what each instruction does besides writing its local, apart from `is_pure`
--   Opt.Thinned, Opt.Sweep, Opt.DeadCorrect, Opt.DeadEffects    what the dead code pass leaves
--   Opt.Fold, Opt.FoldCorrect    `fold_binary`, with Rust's operations on `f64` as a parameter
--   Opt.Meaning   what a binary operation leaves, or that it traps, as docs/language.md has it, with
--                 the numbers, ranges and widths of the types written out apart from `fold_binary`
--   Opt.MeaningCorrect           `fold_binary` against it
--   Opt.Constants `apply`, the lattice, `propagate_constants_within`, `rewrite_with_constants`
--   Opt.ConstantsCorrect         what instructions do to the locals, and what `transfer` says of it
--   Opt.Meet, Opt.Rounds         the fixpoint of the lattice
--   Opt.Execution executions of a function: what they come to, what they return, and their events
--   Opt.Rewrite, Opt.Known, Opt.Blocks, Opt.Propagate    the rewritten function follows the given one
--   Opt.Simplify  `simplify_cfg` with `thread_gotos`, `merge_linear_chains` and
--                 `remove_unreachable_blocks`
--   Opt.Thread, Opt.Mergeable, Opt.Merge, Opt.Unreachable    what a pass does with an execution
--   Opt.ThreadBack, Opt.MergeBack, Opt.UnreachableBack       where an execution comes from
--   Opt.SimplifyCorrect, Opt.Entry                           the three passes together
--   Verify        `verify_function` and `check_block_targets`, complaints as data
--   Verify.Definedness           `check_initialization`, the outer loop on fuel
--   Verify.Progress, Verify.Settles    its rounds come to an end
--   Verify.Paths, Verify.Initialized   paths, and the strict form of the check
--   Verify.Defined, Verify.Lenient     the lenient form
--   Verify.Shape  the other checks of a function
--   Cfg.Edges     the table of predecessors
--   Parser        `parse`, `Parser::form` and its loops, on fuel
--   Parser.Written               written trees, every token with its own span
--   Parser.Reads, Parser.Accepted      what is read, and that the reading ends
--   Parser.Printed, Parser.Judged      what is read back, and `parse` as a whole
--   Sha256        `Sha256` with `update`, `finish` and `compress`
--   Sha256.Blocks, Sha256.Update, Sha256.Digests    a message in pieces, and its padded blocks
--   Sha256.Hex    `Digest::parse` and its printing
--   Version.Text  Rust's operations on text, on lists of code points
--   Version.Defs  `Version` of crates/slopium-manifest/src/version.rs: parsing and order
--   Version.Requirement          `Comparator` and `VersionReq`: matching and parsing
--   Version.Matches              the order, and what caret and tilde requirements match
--   Tests         the theorems at small inputs, with Tests.Passes, Tests.Reading, Tests.Digests
--
-- The source's names are kept; a loop's body has a name of its own. A `usize` is a number without
-- bound, but for `usize::MAX`, which `live_intervals` starts its minima at. An `i64` is an integer,
-- and where bits matter the 64-bit pattern is written out. `allocate` takes the intervals and the
-- number of locals, and `allocate_function` computes them from the function as the source does. The
-- unstable sort is by keys that no two intervals share, so it is modelled as an insertion sort.
-- Indexing out of range gives a default; the theorems on the graph have the entry in range.
--
-- Fuel: the search of `Cfg::new` has three steps for each block, since a block has at most two
-- successors and so is on top of the stack at most three times. The liveness loop has one round more
-- than there are flags in the live-in and live-out sets, since each round but the last sets one.
-- Dead code elimination has one turn more than the function has statements, since each turn but the
-- last removes one. The rounds of the constant propagation are bounded in the source itself.
--
-- The merging of chains has one turn more than the function has gotos, since each merge takes one away.
-- `check_initialization` has one round more than there are flags and entries, since each round but the
-- last fills an entry or changes a flag. The parser's `form` has two rounds for each token that is left,
-- one for the form and one for the loop around it, and the loop of `parse` one turn more than there are
-- tokens. The padding of a message takes fewer than 64 zeros.
--
-- An execution follows the words of the locals, where an instruction may leave any word that its kind
-- allows. A binary operation leaves what Opt.Meaning says and does not run to its end where that traps,
-- so an execution is one without a trap. Its events are the calls, releases, stores and volatile
-- accesses, by Opt.Effects. One assumption is built in: what is written to a local through an address,
-- as a C function with an out-parameter does, counts as written when the address is taken, which is
-- where the source gives up what it knows of the local; a write through it that comes after the local
-- has been written again is outside the model.
--
-- A `u64` is held in the word with its bits, so the word of a large one is a negative `i64`; the bounds
-- in Integers.Canonical are those of the words.
--
-- Not modelled: lexing, type checking, lowering, inlining and the other passes over several functions,
-- the verifier's checks of a module, the backends' encoders, the package manager but for its versions
-- and its digest, the tools.
-- They are large, or input and output; the theorems here rest on none of them.
pub mod Base
pub mod Cfg
pub mod Integers
pub mod Mir
pub mod Opt
pub mod Parser
pub mod Regalloc
pub mod Sha256
pub mod Tests
pub mod Verify
pub mod Version
