-- ===== src/Prover/Trace.antt =====
-- `build_trace` of prover/src/lib.rs, with `Witness`, `to_bits_le` and `run_job`. The columns
-- `cols[c][r]` are a function of column and row; indices into them are in range. `none` is a panic.
use yaqeen_stark_winterfell.Prelude.{
  ℕ, zero, suc, ◌+◌, ◌-◌, ◌/◌, ◌%◌, ◌^◌, Bool, ◌&&◌, Option, none, some, List, [], ◌∷◌, get_elem?,
  get_or, tabulate, nat_beq, ltb, if◌then◌else◌,
}
use yaqeen_stark_winterfell.Field.{FieldOps}
use yaqeen_stark_winterfell.Air.Layout.{
  domain_leaf, domain_owner_commitment, domain_nullifier, domain_node, tree_depth, rounds,
  job_count, trace_length, job_owner, job_leaf, job_merkle_first, job_nullifier, job_start_row,
  job_type_column, aux_a, held_secret, held_pid, rc_bit_0, range_bits,
}
use yaqeen_stark_winterfell.Air.Permutation.{round_constants, lane, apply_round}
use yaqeen_stark_winterfell.Air.Inputs.{PublicInputs}

pub record Witness (F : Type 0) : Type 0 where
  pub registry_id : F
  pub purpose : F
  pub request_nonce : F
  pub current_timestamp : ℕ
  pub owner_secret : F
  pub property_id : F
  pub license_expiry : ℕ
  pub merkle_siblings : List F
  pub merkle_bits : List Bool

-- The columns of a trace, by column and row.
abbrev pub Columns : Type 0 → Type 0
Columns F = ℕ → ℕ → F

module _ {F : Type 0} where
  -- `cols[c][r] = v`
  abbrev pub put : ℕ → ℕ → F → Columns F → Columns F
  put c r v cols = λ c' r'. if nat_beq c' c && nat_beq r' r then v else cols c' r'

  -- `for r in start..start + n { cols[c][r] = v }`
  unfoldable pub fill : ℕ → ℕ → ℕ → F → Columns F → Columns F
  fill c start zero v cols = cols
  fill c start (suc n) v cols = fill c (start + 1) n v (put c start v cols)

  -- `cols[c + i][r] = vs[i]` for every element.
  unfoldable pub put_all : ℕ → ℕ → List F → Columns F → Columns F
  put_all c r [] cols = cols
  put_all c r (v ∷ vs) cols = put_all (c + 1) r vs (put c r v cols)

module _ {F : Type 0} ⦃o : FieldOps F⦄ where
  unfoldable pub to_bits_le : ℕ → ℕ → List F
  to_bits_le v n = tabulate n 0 (λ i. o.new (v / 2 ^ i % 2))

  -- The loop of `run_job` over its last `n` rounds: the first lane at its end, and the columns.
  unfoldable pub job_rounds : ℕ → ℕ → ℕ → List F → Columns F → F × Columns F
  job_rounds start zero r state cols = (lane state 0, cols)
  job_rounds start (suc n) r state cols =
      let state' = apply_round state (get_or round_constants r []) in
      job_rounds start n (suc r) state' (put_all 0 (start + r + 1) state' cols)

  unfoldable pub run_job : Columns F → ℕ → List F → List F → F × Columns F
  run_job cols job initial_state aux =
      let start = job_start_row job in
      let typed = fill (job_type_column job) start rounds o.one_fe cols in
      let with_aux = put_all aux_a start aux typed in
      job_rounds start (rounds - 1) 0 initial_state (put_all 0 start initial_state with_aux)

  -- `license_expiry - current_timestamp - 1`, by `checked_sub` twice.
  abbrev pub expiry_diff : Witness F → Option ℕ
  expiry_diff w =
      if ltb w.current_timestamp w.license_expiry
      then some (w.license_expiry - w.current_timestamp - 1)
      else none

  -- The Merkle jobs, with `n` levels to go: the root and the columns.
  unfoldable pub merkle_jobs : Witness F → ℕ → ℕ → F × Columns F → Option (F × Columns F)
  merkle_jobs w zero level done = some done
  merkle_jobs w (suc n) level (current, cols) = elim (get_elem? w.merkle_siblings level) [
    | none ↦ none
    | some sibling ↦ elim (get_elem? w.merkle_bits level) [
      | none ↦ none
      | some bit ↦
          let left = if bit then sibling else current in
          let right = if bit then current else sibling in
          merkle_jobs w n (level + 1) (
            run_job cols (job_merkle_first + level)
              (o.new domain_node
                ∷ left
                ∷ right
                ∷ o.zero_fe
                ∷ o.zero_fe
                ∷ o.zero_fe
                ∷ o.zero_fe
                ∷ o.zero_fe
                ∷ [])
              (sibling ∷ (if bit then o.one_fe else o.zero_fe) ∷ o.zero_fe ∷ o.zero_fe ∷ []))
    ]
  ]

  -- The padding jobs, `n` of them from `job`.
  unfoldable pub padding_jobs : ℕ → ℕ → F × Columns F → Columns F
  padding_jobs zero job (pad, cols) = cols
  padding_jobs (suc n) job (pad, cols) = padding_jobs n (job + 1) (
      run_job cols job
        (o.new domain_node
          ∷ pad
          ∷ o.zero_fe
          ∷ o.zero_fe
          ∷ o.zero_fe
          ∷ o.zero_fe
          ∷ o.zero_fe
          ∷ o.zero_fe
          ∷ [])
        (o.zero_fe ∷ o.zero_fe ∷ o.zero_fe ∷ o.zero_fe ∷ []))

  -- The zero columns with the two held ones.
  unfoldable pub initial_columns : Witness F → Columns F
  unfolding fill
  initial_columns w =
      fill held_pid 0 trace_length w.property_id
        (fill held_secret 0 trace_length w.owner_secret (λ c r. o.zero_fe))

  unfoldable pub owner_job : Witness F → F × Columns F
  owner_job w =
      run_job (initial_columns w) job_owner
        (o.new domain_owner_commitment
          ∷ w.owner_secret
          ∷ w.property_id
          ∷ o.zero_fe
          ∷ o.zero_fe
          ∷ o.zero_fe
          ∷ o.zero_fe
          ∷ o.zero_fe
          ∷ [])
        (o.zero_fe ∷ o.zero_fe ∷ o.zero_fe ∷ o.zero_fe ∷ [])

  unfoldable pub leaf_job : Witness F → F × Columns F → F × Columns F
  leaf_job w (owner_commitment, cols) =
      let license_expiry_fe = o.new w.license_expiry in
      run_job cols job_leaf
        (o.new domain_leaf
          ∷ w.registry_id
          ∷ owner_commitment
          ∷ o.zero_fe
          ∷ o.one_fe
          ∷ license_expiry_fe
          ∷ o.zero_fe
          ∷ o.zero_fe
          ∷ [])
        (w.registry_id ∷ o.zero_fe ∷ o.one_fe ∷ license_expiry_fe ∷ [])

  -- The leaf job's range-check bits.
  abbrev pub with_bits : Option ℕ → F × Columns F → Option (F × Columns F)
  with_bits none done = none
  with_bits (some diff) (leaf, cols) =
      some (leaf, put_all rc_bit_0 (job_start_row job_leaf) (to_bits_le diff range_bits) cols)

  unfoldable pub nullifier_job : Witness F → Columns F → F × Columns F
  nullifier_job w cols =
      run_job cols job_nullifier
        (o.new domain_nullifier
          ∷ w.owner_secret
          ∷ w.property_id
          ∷ w.purpose
          ∷ w.request_nonce
          ∷ o.zero_fe
          ∷ o.zero_fe
          ∷ o.zero_fe
          ∷ [])
        (w.purpose ∷ w.request_nonce ∷ o.zero_fe ∷ o.zero_fe ∷ [])

  -- What follows the Merkle jobs, given the root.
  abbrev pub finish_trace : Witness F → Option (F × Columns F) → Option (Columns F × PublicInputs F)
  finish_trace w none = none
  finish_trace w (some (merkle_root, cols)) =
      let nullified = nullifier_job w cols in
      some (
        padding_jobs (job_count - (job_nullifier + 1)) (job_nullifier + 1) nullified,
        record {
          registry_id = w.registry_id;
          merkle_root = merkle_root;
          purpose = w.purpose;
          request_nonce = w.request_nonce;
          current_timestamp = o.new w.current_timestamp;
          nullifier = nullified.0;
        },
      )

  abbrev pub merkle_part : Witness F → Option (F × Columns F) → Option (F × Columns F)
  merkle_part w none = none
  merkle_part w (some done) = merkle_jobs w tree_depth 0 done

  unfoldable pub build_trace : Witness F → Option (Columns F × PublicInputs F)
  build_trace w =
      finish_trace w (merkle_part w (with_bits (expiry_diff w) (leaf_job w (owner_job w))))
