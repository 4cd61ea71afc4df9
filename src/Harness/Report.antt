-- ===== src/Harness/Report.antt =====
-- The checks of test-harness/air_test/src/bin/e2e_harness.rs, with `eval_all_constraints` and
-- `demo_witness` of e2e_support.rs. `none` is a panic; a report is the process's exit code.
pub mod Counts
pub mod Passes
pub mod Main
use yaqeen_stark_winterfell.Prelude.{
  ℕ, zero, suc, ◌+◌, ◌-◌, ◌*◌, ◌%◌, Bool, true, false, not, ◌&&◌, ◌||◌, Option, none, some, List,
  [], ◌∷◌, ◌++◌, map, length, get_or, take, tabulate, nat_beq, ◌==◌, if◌then◌else◌,
}
use yaqeen_stark_winterfell.Field.{FieldOps, ◌⊕◌, field_eq}
use yaqeen_stark_winterfell.Air.Layout.{
  domain_leaf, domain_owner_commitment, rounds, state_width, trace_width, trace_length, job_leaf,
  job_start_row, aux_b, s0,
}
use yaqeen_stark_winterfell.Air.Permutation.{round_constants, lane, run_rounds, hash}
use yaqeen_stark_winterfell.Air.Inputs.{PublicInputs}
use yaqeen_stark_winterfell.Air.Context.{WinterAir}
use yaqeen_stark_winterfell.Air.Constraints.{
  Assertion, TitleAir, evaluate_transition, get_assertions, get_periodic_column_values,
}
use yaqeen_stark_winterfell.Prover.Tree.{SparseTree}
use yaqeen_stark_winterfell.Prover.Trace.{Witness, Columns, put}
use yaqeen_stark_winterfell.Harness.Tree.{
  harness_new, harness_insert_leaf, harness_root, harness_proof,
}
use yaqeen_stark_winterfell.Harness.Options.{or_panic, demo_air}
use yaqeen_stark_winterfell.Harness.Trace.{harness_build_trace}

-- The demonstration's times: a licence of one year.
abbrev pub demo_timestamp : ℕ
demo_timestamp = 1_754_000_000

abbrev pub demo_expiry : ℕ
demo_expiry = demo_timestamp + 365 * 24 * 3600

module _ {F : Type 0} ⦃o : FieldOps F⦄ where
  -- The results at one row, with the row after the last wrapped to the first.
  unfoldable pub eval_row : {Context : Type 0} → TitleAir F Context → Columns F → ℕ → List F
  unfolding evaluate_transition get_periodic_column_values
  eval_row air cols step =
      let next_step = (step + 1) % trace_length in
      let cycle_pos = step % rounds in
      evaluate_transition air.pub_inputs (λ c. cols c step) (λ c. cols c next_step)
        (map (λ col. lane col (cycle_pos % length col)) get_periodic_column_values)

  unfoldable pub eval_all_constraints :
      {Context : Type 0} → TitleAir F Context → Columns F → List (List F)
  unfolding eval_row
  eval_all_constraints air cols = tabulate trace_length 0 (eval_row air cols)

  -- The demonstration's witness, given a Merkle proof.
  abbrev pub witness_with : List F × List Bool → Witness F
  witness_with (siblings, bits) = record {
    registry_id = o.new 1;
    purpose = o.new 1;
    request_nonce = o.new 7;
    current_timestamp = demo_timestamp;
    owner_secret = o.new 0xa11ce;
    property_id = o.new 42;
    license_expiry = demo_expiry;
    merkle_siblings = siblings;
    merkle_bits = bits;
  }

  unfoldable pub registered_leaf : Option F
  unfolding hash
  registered_leaf =
      or_panic (hash (o.new domain_owner_commitment ∷ o.new 0xa11ce ∷ o.new 42 ∷ []))
        (λ owner_commitment. hash (
          o.new domain_leaf
          ∷ o.new 1
          ∷ owner_commitment
          ∷ o.zero_fe
          ∷ o.one_fe
          ∷ o.new demo_expiry
          ∷ []))

  -- The witness, and the root computed by the tree.
  unfoldable pub demo_witness : Option (Witness F × F)
  unfolding registered_leaf
  demo_witness = or_panic registered_leaf (λ leaf.
      or_panic (harness_insert_leaf harness_new 0 leaf) (λ tree.
        or_panic (harness_proof tree 0)
          (λ path. or_panic (harness_root tree) (λ root. some (witness_with path, root)))))

  -- The count of results that are not zero.
  unfoldable pub count_nonzero : List F → ℕ
  count_nonzero [] = 0
  count_nonzero (v ∷ vs) = let rest = count_nonzero vs in if v == o.zero_fe then rest else rest + 1

  unfoldable pub nonzero_results : List (List F) → ℕ
  unfolding count_nonzero
  nonzero_results [] = 0
  nonzero_results (r ∷ results) = count_nonzero r + nonzero_results results

  -- `flatten().any(|v| v != ZERO)`
  unfoldable pub any_nonzero : List (List F) → Bool
  unfolding count_nonzero
  any_nonzero [] = false
  any_nonzero (r ∷ results) = not (nat_beq (count_nonzero r) 0) || any_nonzero results

  -- The count of assertions that fail.
  unfoldable pub failed_assertions : Columns F → List (Assertion F) → ℕ
  failed_assertions cols [] = 0
  failed_assertions cols (a ∷ assertions) =
      let rest = failed_assertions cols assertions in
      if cols a.column a.step == a.value then rest else rest + 1

  -- The value asserted of a cell; `none` where `unwrap` panics.
  unfoldable pub asserted_value : List (Assertion F) → ℕ → ℕ → Option F
  asserted_value [] column step = none
  asserted_value (a ∷ assertions) column step =
      let rest = asserted_value assertions column step in
      if nat_beq a.column column && nat_beq a.step step then some a.value else rest

  -- Step 7: the rounds by hand against `hash`.
  unfoldable pub rounds_agree : Witness F → Option Bool
  unfolding hash
  rounds_agree w =
      let state =
        o.new domain_owner_commitment
        ∷ w.owner_secret
        ∷ w.property_id
        ∷ o.zero_fe
        ∷ o.zero_fe
        ∷ o.zero_fe
        ∷ o.zero_fe
        ∷ o.zero_fe
        ∷ [] in
      let manual = run_rounds state (take (rounds - 1) round_constants) in
      or_panic (hash (o.new domain_owner_commitment ∷ w.owner_secret ∷ w.property_id ∷ []))
        (λ via_hash. some (lane manual 0 == via_hash))

  -- Steps 5 to 7: the two tampered traces, and the cross-check.
  unfoldable pub tamper_report :
      {Context : Type 0} → TitleAir F Context → Witness F → Columns F → Option ℕ
  unfolding asserted_value any_nonzero eval_all_constraints rounds_agree job_start_row
      get_assertions
  tamper_report air w cols =
      let leaf_start = job_start_row job_leaf in
      let tampered = put aux_b leaf_start o.one_fe cols in
      let twice = put s0 3 (tampered s0 3 ⊕ o.one_fe) tampered in
      or_panic (asserted_value (get_assertions air.pub_inputs) aux_b leaf_start) (λ expected.
        if tampered aux_b leaf_start == expected
        then some 1
        else if any_nonzero (eval_all_constraints air twice)
        then or_panic (rounds_agree w) (λ agree. some (if agree then 0 else 1))
        else some 1)

  -- Steps 3 and 4: the constraints and the assertions on the honest trace.
  unfoldable pub honest_report :
      {Options Context : Type 0}
      → WinterAir Options Context
      → Witness F
      → Columns F
      → PublicInputs F
      → Option ℕ
  unfolding tamper_report failed_assertions demo_air
  honest_report winter w cols pub_inputs = or_panic (demo_air winter pub_inputs) (λ air.
      if nat_beq (nonzero_results (eval_all_constraints air cols)) 0
      then if nat_beq (failed_assertions cols (get_assertions air.pub_inputs)) 0
        then tamper_report air w cols
        else some 1
      else some 1)

  abbrev pub root_report :
      {Options Context : Type 0}
      → WinterAir Options Context
      → Witness F × F
      → Columns F × PublicInputs F
      → Option ℕ
  root_report winter (w, independent_root) (cols, pub_inputs) =
      if pub_inputs.merkle_root == independent_root
      then honest_report winter w cols pub_inputs
      else some 1

-- `main`: the exit code. The field is an explicit argument: the result does not show it.
unfoldable pub e2e_main :
    (F : Type 0) ⦃o : FieldOps F⦄ {Options Context : Type 0} → WinterAir Options Context → Option ℕ
unfolding demo_witness
e2e_main F winter =
    or_panic (demo_witness {F = F})
      (λ demo. or_panic (harness_build_trace demo.0) (λ built. root_report winter demo built))
