-- ===== src/Lib.antt =====
-- A model of the title registry that verifies Winterfell STARK proofs on the Internet Computer, and
-- proofs of what it promises.
--
-- The repository has four crates. air/src/lib.rs fixes a permutation, a hash over it, and the layout
-- of a trace that proves ownership of a registered title. canister/src/lib.rs keeps the registry as a
-- sparse Merkle tree under that hash, issues challenges, and verifies proofs against them, marking
-- challenges as consumed and nullifiers as spent. prover/src/lib.rs builds traces, and
-- test-harness/air_test/src holds reference functions.
--
--   Prelude    Boolean tests, lists, finite maps (`HashMap`), and machine words. A u64 is a natural
--              number, an i64 its two's-complement pattern. Arithmetic wraps as in the release
--              profile, where overflow checks are off.
--   Field      the field element of the crate winterfell, as a parameter with named laws.
--   Air        air/src/lib.rs: Layout has the constants and rows, Permutation the rounds and `hash`,
--              Inputs the public inputs, Context what Winterfell's `ProofOptions` and `AirContext` do,
--              Constraints the transition constraints, the assertions and `TitleAir::new`. A row is a
--              function from columns. Degrees relates the constraints to the declared degrees; Facts,
--              Ranged, Job, Typed, Shape and Sound have proofs.
--   Canister   canister/src/lib.rs, one module for a group of its methods. Outcome has the results:
--              each error text is a constructor, and `trap` is a panic. Text reads and prints field
--              elements; State has the data types; Admin, Tree, Throttle, Challenges and Verify have
--              the operations under their names in the source, the state passed explicitly; System
--              delivers one message after the other, as the replica does; Upgrade has the hooks.
--   Harness    test-harness/air_test/src: the reference `recompute_root`, in Options the constraint
--              system of the demonstration, in Tree and Trace the tree and the trace builder of
--              e2e_support.rs, in Fuzz the search of fuzz_support.rs, and in Report the checks
--              of bin/e2e_harness.rs, a run of which is its exit code. Built and Refines relate the
--              tree to its leaves, Agrees the builder to the prover's.
--   Prover     prover/src: Tree has `SparseTree` of lib.rs, Trace the witness and `build_trace`; the
--              columns are a function of column and row. Cli has main.rs up to the trace, with the
--              arguments as texts. Mirror, Jobs, Statement, Demo and Registered have proofs, and
--              Honest, step by step, what the builder writes into which cells.
--   Examples   concrete instances of the parameters, the fields of two and of five elements and
--              the polynomials over the first among them, and the theorems at them.
--
-- A principal is a type with equality and an anonymous element. The crate winterfell decodes and
-- verifies proofs: a parameter too, of which nothing is assumed, and which may fail or panic. Its
-- `ProofOptions::new` and `AirContext::new` are parameters as well, which may panic; what their
-- documentation says of that is the record of laws in Air/Context, a hypothesis where it is used. A
-- trace's shape stands as its width and length.
-- A loop is recursion on the rounds that it has left: TREE_DEPTH for the climbs in the tree, and
-- MAX_PRUNE_PER_HEARTBEAT for pruning, as in the source. Printing an integer has 39 rounds of fuel,
-- one for each digit of a u128.
--
-- Not modelled: the system interface (time, caller, logging, instruction counts), candid encoding,
-- stable memory itself, Winterfell's prover traits and the call of its prover, what the command line
-- and the harness's binaries print or write, and `fuzz_no_panics`, which counts the panics of an
-- evaluation that is total in the model.
pub mod Prelude
pub mod Field
pub mod Air
pub mod Canister
pub mod Harness
pub mod Prover
pub mod Examples
