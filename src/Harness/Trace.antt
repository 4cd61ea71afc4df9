-- ===== src/Harness/Trace.antt =====
-- `build_trace` of test-harness/air_test/src/e2e_support.rs, with `to_bits_le` and `run_job`. Its
-- witness has the fields of the prover's, and its columns are a function of column and row, as there.
-- `none` is a panic.
use yaqeen_stark_winterfell.Prelude.{
  ℕ, zero, suc, ◌+◌, ◌-◌, ◌/◌, ◌%◌, ◌^◌, Option, none, some, List, [], ◌∷◌, length, get_elem?,
  get_or, tabulate, nat_beq, ltb, if◌then◌else◌,
}
use yaqeen_stark_winterfell.Field.{FieldOps}
use yaqeen_stark_winterfell.Air.Layout.{
  domain_leaf, domain_owner_commitment, domain_nullifier, domain_node, tree_depth, rounds,
  job_count, trace_length, job_owner, job_leaf, job_merkle_first, job_nullifier, job_start_row,
  job_type_column, aux_a, held_secret, held_pid, rc_bit_0, range_bits,
}
use yaqeen_stark_winterfell.Air.Permutation.{round_constants, lane, apply_round}
use yaqeen_stark_winterfell.Air.Inputs.{PublicInputs}
use yaqeen_stark_winterfell.Prover.Trace.{Witness, Columns, fill, put_all}

module _ {F : Type 0} ⦃o : FieldOps F⦄ where
  -- Bits at or above position `n` are dropped.
  unfoldable pub harness_to_bits_le : ℕ → ℕ → List F
  harness_to_bits_le v n = tabulate n 0 (λ i. o.new (v / 2 ^ i % 2))

  -- The loop of `run_job` over its last `n` rounds: the first lane at its end, and the columns.
  unfoldable pub harness_rounds : List (List F) → ℕ → ℕ → ℕ → List F → Columns F → F × Columns F
  harness_rounds rcs start zero r state cols = (lane state 0, cols)
  harness_rounds rcs start (suc n) r state cols =
      let state' = apply_round state (get_or rcs r []) in
      harness_rounds rcs start n (suc r) state' (put_all 0 (start + r + 1) state' cols)

  unfoldable pub harness_run_job : Columns F → List (List F) → ℕ → List F → List F → F × Columns F
  harness_run_job cols rcs job initial_state aux =
      let start = job_start_row job in
      let typed = fill (job_type_column job) start rounds o.one_fe cols in
      let with_aux = put_all aux_a start aux typed in
      harness_rounds rcs start (rounds - 1) 0 initial_state (put_all 0 start initial_state with_aux)

  -- The zero columns with the two held ones, then the owner commitment's job.
  unfoldable pub harness_owner_job : Witness F → F × Columns F
  harness_owner_job w =
      let held = fill held_secret 0 trace_length w.owner_secret (λ c r. o.zero_fe) in
      harness_run_job (fill held_pid 0 trace_length w.property_id held) round_constants job_owner
        (o.new domain_owner_commitment
          ∷ w.owner_secret
          ∷ w.property_id
          ∷ o.zero_fe
          ∷ o.zero_fe
          ∷ o.zero_fe
          ∷ o.zero_fe
          ∷ o.zero_fe
          ∷ [])
        (o.zero_fe ∷ o.zero_fe ∷ o.zero_fe ∷ o.zero_fe ∷ [])

  unfoldable pub harness_leaf_job : Witness F → F × Columns F → F × Columns F
  harness_leaf_job w (owner_commitment, cols) =
      let license_expiry_fe = o.new w.license_expiry in
      harness_run_job cols round_constants job_leaf
        (o.new domain_leaf
          ∷ w.registry_id
          ∷ owner_commitment
          ∷ o.zero_fe
          ∷ o.one_fe
          ∷ license_expiry_fe
          ∷ o.zero_fe
          ∷ o.zero_fe
          ∷ [])
        (w.registry_id ∷ o.zero_fe ∷ o.one_fe ∷ license_expiry_fe ∷ [])

  -- `checked_sub` twice, and the assertion that the range check has room for the result.
  abbrev pub harness_diff : Witness F → Option ℕ
  harness_diff w =
      if ltb w.current_timestamp w.license_expiry
      then (let diff = w.license_expiry - w.current_timestamp - 1 in
          if ltb diff (2 ^ range_bits) then some diff else none)
      else none

  abbrev pub harness_with_bits : Option ℕ → F × Columns F → Option (F × Columns F)
  harness_with_bits none done = none
  harness_with_bits (some diff) (leaf, cols) =
      some
        (leaf, put_all rc_bit_0 (job_start_row job_leaf) (harness_to_bits_le diff range_bits) cols)

  -- The Merkle jobs, with `n` levels to go: the root and the columns.
  unfoldable pub harness_merkle_jobs : Witness F → ℕ → ℕ → F × Columns F → Option (F × Columns F)
  harness_merkle_jobs w zero level done = some done
  harness_merkle_jobs w (suc n) level (current, cols) = elim (get_elem? w.merkle_siblings level) [
    | none ↦ none
    | some sibling ↦ elim (get_elem? w.merkle_bits level) [
      | none ↦ none
      | some bit_flag ↦
          let bit = if bit_flag then o.one_fe else o.zero_fe in
          let left = if bit_flag then sibling else current in
          let right = if bit_flag then current else sibling in
          harness_merkle_jobs w n (level + 1) (
            harness_run_job cols round_constants (job_merkle_first + level)
              (o.new domain_node
                ∷ left
                ∷ right
                ∷ o.zero_fe
                ∷ o.zero_fe
                ∷ o.zero_fe
                ∷ o.zero_fe
                ∷ o.zero_fe
                ∷ [])
              (sibling ∷ bit ∷ o.zero_fe ∷ o.zero_fe ∷ []))
    ]
  ]

  abbrev pub harness_merkle_part : Witness F → Option (F × Columns F) → Option (F × Columns F)
  harness_merkle_part w none = none
  harness_merkle_part w (some done) = harness_merkle_jobs w tree_depth 0 done

  unfoldable pub harness_nullifier_job : Witness F → Columns F → F × Columns F
  harness_nullifier_job w cols =
      harness_run_job cols round_constants job_nullifier
        (o.new domain_nullifier
          ∷ w.owner_secret
          ∷ w.property_id
          ∷ w.purpose
          ∷ w.request_nonce
          ∷ o.zero_fe
          ∷ o.zero_fe
          ∷ o.zero_fe
          ∷ [])
        (w.purpose ∷ w.request_nonce ∷ o.zero_fe ∷ o.zero_fe ∷ [])

  -- The padding jobs, `n` of them from `job`.
  unfoldable pub harness_padding : ℕ → ℕ → F × Columns F → Columns F
  harness_padding zero job (pad, cols) = cols
  harness_padding (suc n) job (pad, cols) = harness_padding n (job + 1) (
      harness_run_job cols round_constants job
        (o.new domain_node
          ∷ pad
          ∷ o.zero_fe
          ∷ o.zero_fe
          ∷ o.zero_fe
          ∷ o.zero_fe
          ∷ o.zero_fe
          ∷ o.zero_fe
          ∷ [])
        (o.zero_fe ∷ o.zero_fe ∷ o.zero_fe ∷ o.zero_fe ∷ []))

  -- What follows the Merkle jobs, given the root.
  abbrev pub harness_finish :
      Witness F → Option (F × Columns F) → Option (Columns F × PublicInputs F)
  harness_finish w none = none
  harness_finish w (some (merkle_root, cols)) =
      let nullified = harness_nullifier_job w cols in
      some (
        harness_padding (job_count - (job_nullifier + 1)) (job_nullifier + 1) nullified,
        record {
          registry_id = w.registry_id;
          merkle_root = merkle_root;
          purpose = w.purpose;
          request_nonce = w.request_nonce;
          current_timestamp = o.new w.current_timestamp;
          nullifier = nullified.0;
        },
      )

  unfoldable pub harness_build_trace : Witness F → Option (Columns F × PublicInputs F)
  harness_build_trace w =
      if nat_beq (length w.merkle_siblings) tree_depth
      then if nat_beq (length w.merkle_bits) tree_depth
        then harness_finish w (
            harness_merkle_part w
              (harness_with_bits (harness_diff w) (harness_leaf_job w (harness_owner_job w))))
        else none
      else none
