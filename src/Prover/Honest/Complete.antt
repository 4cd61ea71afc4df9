-- ===== src/Prover/Honest/Complete.antt =====
-- Completeness: an honest trace meets every constraint and assertion of the AIR.
use yaqeen_stark_winterfell.Prelude.{
  ℕ, ◌-◌, ◌^◌, ◌<◌, ◌≡◌, ap, sym, ◌∙◌, some, length, All, All-tabulate_intro, tabulate, nat_beq,
  if◌then◌else◌, arith,
}
use yaqeen_stark_winterfell.Field.{FieldOps, Arithmetic}
use yaqeen_stark_winterfell.Air.Layout.{
  tree_depth, range_bits, trace_length, job_count, job_type_column, job_start_row, row_leaf_first,
  row_merkle_last_output, row_nullifier_first, row_nullifier_output, job_last_row,
}
use yaqeen_stark_winterfell.Air.Inputs.{PublicInputs}
use yaqeen_stark_winterfell.Air.Constraints.{Assertion, get_assertions, Steps}
use yaqeen_stark_winterfell.Prover.Trace.{Witness, Columns, build_trace}
use yaqeen_stark_winterfell.Prover.Honest.Kinds.{kind_of, kind_of-column, JobOk}
use yaqeen_stark_winterfell.Prover.Honest.Whole.{HonestTrace, build_trace-HonestTrace}
use yaqeen_stark_winterfell.Prover.Honest.Vanish.{in_types, rows_of, Steps-vanish}

module _ {F : Type 0} ⦃o : FieldOps F⦄ (w : Witness F) (cols : Columns F) (inputs : PublicInputs F)
    (honest : HonestTrace w cols inputs) where
  type_holds : (j : ℕ) → j < job_count → cols (job_type_column j) (job_start_row j) ≡ o.one_fe
  unfolding job_start_row
  type_holds j h =
      (honest.stage.jobs j h).type_of (job_type_column j) (in_types j).0 (in_types j).1
      ∙ ap (λ c. if nat_beq (job_type_column j) c then o.one_fe else o.zero_fe) (kind_of-column w j)
      ∙ ground arith

  -- The asserted cells hold what is asserted of them.
  pub assertions_hold : All (λ a. cols a.column a.step ≡ a.value) (get_assertions inputs)
  unfolding get_assertions row_leaf_first row_merkle_last_output row_nullifier_first
      row_nullifier_output job_start_row job_last_row
  assertions_hold =
      let leaf : JobOk cols 1 (kind_of w 1) (cols 0 7) = honest.stage.jobs 1 (omega arith) in
      let last : JobOk cols 27 (kind_of w 27) (cols 0 215) = honest.stage.jobs 27 (omega arith) in
      let Holds : Assertion F → Type 0 = λ a. cols a.column a.step ≡ a.value in
      let typed : ℕ → Assertion F = λ job. record {
        column = job_type_column job;
        step = job_start_row job;
        value = o.one_fe;
      } in
      let types : All Holds (tabulate job_count 0 typed) =
        All-tabulate_intro Holds job_count 0 typed (λ j a b. type_holds j (omega arith)) in
      (
        leaf.aux 0 (omega arith) ∙ sym honest.registry_id,
        (
          leaf.aux 1 (omega arith),
          (
            leaf.aux 2 (omega arith),
            (
              honest.root,
              (
                last.aux 0 (omega arith) ∙ sym honest.purpose,
                (last.aux 1 (omega arith) ∙ sym honest.request_nonce, (honest.nullifier, types)),
              ),
            ),
          ),
        ),
      )

module _ {F : Type 0} ⦃o : FieldOps F⦄ (laws : Arithmetic F) where
  -- For a witness with TREE_DEPTH siblings and bits, whose licence expires after its time stamp
  -- by at most 2 ^ 32 seconds and at a `u64`, `build_trace` returns a trace and public inputs
  -- such that every transition constraint vanishes on every row but the last, and every assertion
  -- holds. The field's arithmetic is lawful.
  pub build_trace_complete :
      (w : Witness F)
      → length w.merkle_siblings ≡ tree_depth
      → length w.merkle_bits ≡ tree_depth
      → w.current_timestamp < w.license_expiry
      → w.license_expiry - w.current_timestamp - 1 < 2 ^ range_bits
      → w.license_expiry < 2 ^ 64
      → (cols : Columns F) × (inputs : PublicInputs F) × (build_trace w ≡ some (cols, inputs))
        × ((r : ℕ) → r < trace_length - 1 → Steps inputs (rows_of cols) r)
        × All (λ a. cols a.column a.step ≡ a.value) (get_assertions inputs)
  build_trace_complete w a b later fits small =
      let (cols, inputs, built, honest) = build_trace-HonestTrace w a b later in
      (
        cols,
        inputs,
        built,
        Steps-vanish laws w cols inputs honest later fits small,
        assertions_hold w cols inputs honest,
      )
