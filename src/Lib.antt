-- ===== src/Lib.antt =====
-- Verification of qbt, an optimizing middle and back end: the passes over the intermediate language.
--
-- The driver (src/main.c) parses a file and gives each function to `optimize` (src/opt.c), which
-- runs `correct`, `ssa`, `abi0` and `regalloc` over it; `output` (src/asm.c) prints the result. The
-- passes share the data of include/qbt/nodes.h, kept in the vectors of src/vec.c.
--
-- - Prelude: numbers, lists, integers, and `Result`, a value or the way in which the program stops
--   (a failed assertion, `abort`, an access out of bounds).
-- - Seq, Vec: include/qbt/vec.h and src/vec.c. `Seq` is the list that the users of a vector see;
--   `Vec` is the structure with its buffer, `Vec.Ops` shows that it behaves as the list.
-- - Nodes: values, instructions, blocks and functions of include/qbt/nodes.h. Register numbers,
--   temporaries and block pointers are ℕ; immediates are integers. `Nodes.Names` is `idalloc` and
--   `idmatch` of src/nodes.c, with strings compared by their characters; `Nodes.Build` are the other
--   functions, by which the parser builds a function; `Nodes.Build.Actions` is src/parser.y: the
--   helpers of the grammar and its rule for labels, which the other rules call in any order;
--   `Nodes.Blocks` are the blocks as a store.
-- - Abi: src/abi.c and the register numbers of include/qbt/abi.h. `lower` is the body of the loop of
--   `abi0`.
-- - Rules: the tables from temporaries to values that src/regalloc.c, src/ssa.c and src/correct.c
--   each define.
-- - Regalloc: src/regalloc.c. `Lifetimes` is `collect_lifetimes`; `Scan` is `build_rmap` with what
--   it calls; `Rewrite` is `do_rewrites`; `Calls` is `do_call_saves`; `Regalloc.regalloc` is the
--   loop over the blocks.
-- - Correct: src/correct.c. `Correct.Expand` is what one instruction becomes, `Correct.Loop` compares
--   the loop over the growing list with it.
-- - Ssa: src/ssa.c and src/unreachable.c. `Params` is the second visit of a block in `build_params`
--   and in `collect_params`; `Walk` is the loop that both make over an explicit stack of blocks, with
--   the marks in `visited`; `Pass` is `build_params`, `remove_unvisited`, `collect_params` and `ssa`.
--   The renaming (`rename_temps`) is in Ssa.antt itself. `Params.Equation` compares the parameters of
--   a block with liveness, `Walk.Ends` gives the rule for the loop, `Walk.Reaches` the blocks that it
--   meets, `Walk.Order` and `Walk.Acyclic` the order in which it meets them without cycles.
-- - Opt: src/opt.c, the sequence of the passes.
-- - Asm: src/asm.c. A line of assembly is a value of `Asm.Syntax.Line`, one constructor to a format
--   string. `Frame` is the stack frame with `save_state` and `restore_state`, `Select` the lines of
--   an instruction, `Moves` is `output_moves` with `move_one`, and `Asm.output` is the whole. A
--   block pointer is followed by a search for the identifier.
--
-- Loops are recursions on lists or on the number of rounds that the source makes. Only `move_one`,
-- which calls itself for an argument not yet moved, the two traversals of src/ssa.c, and
-- the loop of src/correct.c over a list that grows take fuel.
-- move_one has one more than there are arguments; a traversal of n blocks has 3 n + 1, as a round
-- either enters a block and puts at most two more on the stack, or takes one off it. The loop of
-- src/correct.c has 16 rounds for each instruction; an instruction that takes no address
-- needs at most three, one for each operand that is put in a temporary and one more.
-- Machine integers do not wrap: the numbers of temporaries, instructions and registers stay below
-- 2^63, and immediates are only moved. Memory allocation succeeds.
--
-- Not modelled: the lexer and the grammar but for its actions (generated parsers), printing of diagnostics and dumps, and
-- the driver.
pub mod Prelude
pub mod Seq
pub mod Vec
pub mod Nodes
pub mod Abi
pub mod Rules
pub mod Regalloc
pub mod Ssa
pub mod Correct
pub mod Opt
pub mod Asm
