-- ===== src/Examples/Harness.antt =====
-- The theorems on the harness and on the command line, over the field of two elements.
use yaqeen_stark_winterfell.Prelude.{
  ℕ, ◌-◌, ◌^◌, ◌<◌, ◌≤◌, ◌≡◌, refl, Bool, true, false, none, some, List, [], ◌∷◌, All, nat_eq,
  contains, if◌then◌else◌, arith,
}
use yaqeen_stark_winterfell.Air.Layout.{tree_depth, trace_length}
use yaqeen_stark_winterfell.Air.Inputs.{PublicInputs}
use yaqeen_stark_winterfell.Air.Constraints.{Steps, get_assertions}
use yaqeen_stark_winterfell.Canister.Outcome.{Text, ok}
use yaqeen_stark_winterfell.Canister.Text.{fe_to_string, parse_u128}
use yaqeen_stark_winterfell.Canister.Admin.{is_admin}
use yaqeen_stark_winterfell.Canister.Tree.{submit_record_impl}
use yaqeen_stark_winterfell.Harness.{recompute_root}
use yaqeen_stark_winterfell.Harness.Tree.{harness_new, harness_root, harness_proof}
use yaqeen_stark_winterfell.Harness.Built.{write_leaves, leaves_after, all_in_range, merkle_root_of}
use yaqeen_stark_winterfell.Harness.Refines.{harness_tree_refines}
use yaqeen_stark_winterfell.Harness.Trace.{harness_build_trace}
use yaqeen_stark_winterfell.Harness.Agrees.{accepts, harness_build_trace_lem}
use yaqeen_stark_winterfell.Harness.Fuzz.{fuzz_boolean_violations_are_caught}
use yaqeen_stark_winterfell.Harness.Fuzz.Caught.{fuzz_misses_nothing}
use yaqeen_stark_winterfell.Harness.Report.{honest_report, e2e_main}
use yaqeen_stark_winterfell.Harness.Report.Main.{honest_report_passes, e2e_main_passes}
use yaqeen_stark_winterfell.Prover.Tree.{SparseTree}
use yaqeen_stark_winterfell.Prover.Trace.{Columns, build_trace}
use yaqeen_stark_winterfell.Prover.Statement.{owner_commitment_of}
use yaqeen_stark_winterfell.Prover.Cli.{
  current_timestamp_arg, license_expiry_arg, request_nonce_arg, cli_trace, parse_u64,
}
use yaqeen_stark_winterfell.Prover.Demo.{IsDemo, demo_leaves, cli_trace_lem}
use yaqeen_stark_winterfell.Prover.Registered.{demo_record, new_registry, cli_root_registered}
use yaqeen_stark_winterfell.Prover.Honest.Vanish.{rows_of}
use yaqeen_stark_winterfell.Prover.Honest.Complete.{build_trace_complete}
use yaqeen_stark_winterfell.Examples.Circuit.{owner}
use yaqeen_stark_winterfell.Examples.Contexts.{small_winter, small_winter-Documented}
use yaqeen_stark_winterfell.Examples.Instances.{bits, bits-Encoding, bits-Arithmetic, accounts}

-- Leaf 3 is written twice.
abbrev written : List (ℕ × Bool)
written = (3, false) ∷ (0, true) ∷ (3, true) ∷ []

harness_tree_refines_example :
    (let leaves = leaves_after written (λ j. false) in
      let root = merkle_root_of tree_depth 0 leaves in
      (all_in_range written ≡ true
        → (t : SparseTree Bool) × (write_leaves written harness_new ≡ some t)
          × (harness_root t ≡ some root)
          × ((index : ℕ)
              → index < 2 ^ tree_depth
              → (siblings : List Bool) × (path : List Bool) × (harness_proof t index
                  ≡ some (siblings, path))
                × (recompute_root (leaves index) siblings path ≡ some root)))
      × (all_in_range written ≡ false → write_leaves written harness_new ≡ none))
harness_tree_refines_example = harness_tree_refines written

harness_build_trace_lem_example :
    harness_build_trace owner ≡ (if accepts owner then build_trace owner else none)
harness_build_trace_lem_example = harness_build_trace_lem owner

fuzz_misses_nothing_example :
    fuzz_boolean_violations_are_caught Bool small_winter 0xc0ffee 2000 ≡ some 0
fuzz_misses_nothing_example =
    fuzz_misses_nothing bits-Arithmetic small_winter small_winter-Documented 0xc0ffee 2000

build_trace_complete_example :
    (cols : Columns Bool) × (inputs : PublicInputs Bool) × (build_trace owner ≡ some (cols, inputs))
    × ((r : ℕ) → r < trace_length - 1 → Steps inputs (rows_of cols) r)
    × All (λ a. cols a.column a.step ≡ a.value) (get_assertions inputs)
build_trace_complete_example =
    build_trace_complete bits-Arithmetic owner refl refl (omega arith) (omega arith) (omega arith)

-- The program's name, and a time stamp of 7.
abbrev arguments : List Text
arguments = (b'p' ∷ []) ∷ (b'7' ∷ []) ∷ []

seven : current_timestamp_arg arguments ≡ some 7
unfolding current_timestamp_arg parse_u64 parse_u128
seven = refl

default_expiry : license_expiry_arg arguments ≡ some 1_785_536_000
unfolding license_expiry_arg
default_expiry = refl

default_nonce : request_nonce_arg arguments ≡ some 7
unfolding request_nonce_arg
default_nonce = refl

cli_trace_lem_example :
    (7 < 1_785_536_000
      → (trace : Columns Bool) × (inputs : PublicInputs Bool) × (cli_trace arguments
          ≡ some (trace, inputs))
        × IsDemo 7 7 (merkle_root_of tree_depth 0 (demo_leaves 1_785_536_000)) inputs)
    × (1_785_536_000 ≤ 7 → cli_trace {F = Bool} arguments ≡ none)
cli_trace_lem_example = cli_trace_lem arguments 7 1_785_536_000 7 seven default_expiry default_nonce

abbrev staff : List ℕ
staff = 4 ∷ 5 ∷ []

five_is_admin : is_admin (new_registry {F = Bool} staff) 5 ≡ true
unfolding is_admin contains
five_is_admin = refl

cli_root_registered_example :
    (trace : Columns Bool) × (inputs : PublicInputs Bool) × (cli_trace arguments
      ≡ some (trace, inputs))
    × ((submit_record_impl
          (new_registry {F = Bool} staff)
          5
          (demo_record (owner_commitment_of (bits.new 0xa11ce) (bits.new 42)) 44 1_785_536_000)).0
        ≡ ok (fe_to_string inputs.merkle_root))
cli_root_registered_example =
    cli_root_registered bits-Encoding bits-Arithmetic staff 5 44 arguments 7 1_785_536_000 7
      five_is_admin seven default_expiry default_nonce (omega arith)

honest_report_passes_example :
    (cols : Columns Bool) × (inputs : PublicInputs Bool) × (harness_build_trace owner
      ≡ some (cols, inputs))
    × (honest_report small_winter owner cols inputs ≡ some 0)
honest_report_passes_example =
    honest_report_passes bits-Arithmetic small_winter small_winter-Documented owner refl refl
      (omega arith) (omega arith) (omega arith)

e2e_main_passes_example : e2e_main Bool small_winter ≡ some 0
e2e_main_passes_example = e2e_main_passes bits-Arithmetic small_winter small_winter-Documented
