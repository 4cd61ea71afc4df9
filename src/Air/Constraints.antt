-- ===== src/Air/Constraints.antt =====
-- `TitleAir` of air/src/lib.rs: the transition constraints, the assertions and the periodic columns.
-- A row of the trace is a function from columns. The constraints are evaluated in the base field (the
-- source is generic in an extension `E` of it).
use yaqeen_stark_winterfell.Prelude.{
  Option, none, some, ℕ, zero, suc, ◌+◌, ◌-◌, ◌%◌, ◌^◌, ◌≡◌, List, [], ◌∷◌, ◌++◌, get_or, tabulate,
  All, nat_beq, if◌then◌else◌,
}
use yaqeen_stark_winterfell.Field.{FieldOps, ◌⊕◌, ◌⊖◌, ◌⊗◌}
use yaqeen_stark_winterfell.Air.Layout.{
  trace_length, trace_width, domain_leaf, domain_owner_commitment, domain_nullifier, domain_node,
  state_width, rounds, job_count, job_start_row, job_type_column, row_leaf_first,
  row_merkle_last_output, row_nullifier_first, row_nullifier_output, s0, aux_a, aux_b, aux_c, aux_d,
  held_secret, held_pid, t_owner, t_leaf, t_merkle, t_nullifier, rc_bit_0, range_bits,
}
use yaqeen_stark_winterfell.Air.Permutation.{round_constants, lane, apply_round}
use yaqeen_stark_winterfell.Air.Inputs.{PublicInputs}
use yaqeen_stark_winterfell.Air.Context.{Degree, plain, with_cycles, WinterAir}

-- `Assertion::single`
pub record Assertion (F : Type 0) : Type 0 where
  pub column : ℕ
  pub step : ℕ
  pub value : F

module _ {F : Type 0} ⦃o : FieldOps F⦄ where
  -- The eight columns of round constants, `is_first` and `is_last`, over one cycle of eight rows.
  unfoldable pub get_periodic_column_values : List (List F)
  unfolding round_constants
  get_periodic_column_values =
      tabulate state_width 0 (λ l. tabulate rounds 0 (λ r. lane (get_or round_constants r []) l))
      ++ tabulate rounds 0 (λ r. if nat_beq r 0 then o.one_fe else o.zero_fe)
        ∷ tabulate rounds 0 (λ r. if nat_beq r (rounds - 1) then o.one_fe else o.zero_fe)
        ∷ []

  -- The lanes of the first eight columns.
  abbrev pub state_of : (ℕ → F) → List F
  state_of row = tabulate state_width 0 row

  -- The first row of a job, from the digest of the one before and the new row's own columns.
  unfoldable pub boundary : (ℕ → F) → (ℕ → F) → List F
  boundary cur nxt =
      let left = nxt aux_b ⊗ nxt aux_a ⊕ (o.one_fe ⊖ nxt aux_b) ⊗ cur s0 in
      let right = nxt aux_b ⊗ cur s0 ⊕ (o.one_fe ⊖ nxt aux_b) ⊗ nxt aux_a in
      let boundary_s0 =
        nxt t_owner ⊗ o.new domain_owner_commitment
        ⊕ nxt t_leaf ⊗ o.new domain_leaf
        ⊕ nxt t_merkle ⊗ o.new domain_node
        ⊕ nxt t_nullifier ⊗ o.new domain_nullifier in
      let boundary_s1 =
        nxt t_owner ⊗ cur held_secret
        ⊕ nxt t_leaf ⊗ nxt aux_a
        ⊕ nxt t_merkle ⊗ left
        ⊕ nxt t_nullifier ⊗ cur held_secret in
      let boundary_s2 =
        nxt t_owner ⊗ cur held_pid
        ⊕ nxt t_leaf ⊗ cur s0
        ⊕ nxt t_merkle ⊗ right
        ⊕ nxt t_nullifier ⊗ cur held_pid in
      let boundary_s3 = nxt t_leaf ⊗ nxt aux_b ⊕ nxt t_nullifier ⊗ nxt aux_a in
      let boundary_s4 = nxt t_leaf ⊗ nxt aux_c ⊕ nxt t_nullifier ⊗ nxt aux_b in
      let boundary_s5 = nxt t_leaf ⊗ nxt aux_d in
      boundary_s0 ∷ boundary_s1 ∷ boundary_s2 ∷ boundary_s3 ∷ boundary_s4 ∷ boundary_s5 ∷ o.zero_fe
      ∷ o.zero_fe ∷ []

  -- `weighted`, for the last `n` bits.
  unfoldable pub weighted_sum : (ℕ → F) → ℕ → ℕ → F → F
  weighted_sum cur zero i acc = acc
  weighted_sum cur (suc n) i acc =
      weighted_sum cur n (suc i) (acc ⊕ cur (rc_bit_0 + i) ⊗ o.new (2 ^ i))

  -- One lane's constraint: the round's formula within a job, the boundary's at its end.
  abbrev pub state_result : (ℕ → F) → (ℕ → F) → List F → ℕ → F
  state_result cur nxt periodic_values i =
      let rc = tabulate state_width 0 (lane periodic_values) in
      let is_last = lane periodic_values (state_width + 1) in
      let not_last = o.one_fe ⊖ is_last in
      let round_next = apply_round (state_of cur) rc in
      nxt i ⊖ (not_last ⊗ lane round_next i ⊕ is_last ⊗ lane (boundary cur nxt) i)

  -- `result[8]` and `result[9]`
  abbrev pub held_results : (ℕ → F) → (ℕ → F) → List F
  held_results cur nxt = (nxt held_secret ⊖ cur held_secret) ∷ (nxt held_pid ⊖ cur held_pid) ∷ []

  -- `result[10]` to `result[15]`
  abbrev pub type_results : (ℕ → F) → F → List F
  type_results cur is_first =
      is_first ⊗ (cur t_owner ⊗ cur t_owner ⊖ cur t_owner)
      ∷ is_first ⊗ (cur t_leaf ⊗ cur t_leaf ⊖ cur t_leaf)
      ∷ is_first ⊗ (cur t_merkle ⊗ cur t_merkle ⊖ cur t_merkle)
      ∷ is_first ⊗ (cur t_nullifier ⊗ cur t_nullifier ⊖ cur t_nullifier)
      ∷ is_first ⊗ (cur t_owner ⊕ cur t_leaf ⊕ cur t_merkle ⊕ cur t_nullifier ⊖ o.one_fe)
      ∷ is_first ⊗ cur t_merkle ⊗ (cur aux_b ⊗ cur aux_b ⊖ cur aux_b)
      ∷ []

  abbrev pub bit_result : (ℕ → F) → ℕ → F
  bit_result cur i = let b = cur (rc_bit_0 + i) in b ⊗ b ⊖ b

  -- The last one, of the range check.
  abbrev pub range_result : PublicInputs F → (ℕ → F) → F → F
  range_result pub_inputs cur is_first =
      let weighted = weighted_sum cur range_bits 0 o.zero_fe in
      let diff = cur aux_d ⊖ pub_inputs.current_timestamp ⊖ o.one_fe in
      is_first ⊗ cur t_leaf ⊗ (weighted ⊖ diff)

  -- The results, in the order in which the source writes them.
  unfoldable pub evaluate_transition : PublicInputs F → (ℕ → F) → (ℕ → F) → List F → List F
  evaluate_transition pub_inputs cur nxt periodic_values =
      let is_first = lane periodic_values state_width in
      tabulate state_width 0 (state_result cur nxt periodic_values)
      ++ held_results cur nxt
      ++ type_results cur is_first
      ++ tabulate range_bits 0 (bit_result cur)
      ++ range_result pub_inputs cur is_first ∷ []

  unfoldable pub get_assertions : PublicInputs F → List (Assertion F)
  unfolding row_leaf_first row_merkle_last_output row_nullifier_first row_nullifier_output
      job_start_row job_type_column
  get_assertions pub_inputs =
      record { column = aux_a; step = row_leaf_first; value = pub_inputs.registry_id }
      ∷ record { column = aux_b; step = row_leaf_first; value = o.zero_fe }
      ∷ record { column = aux_c; step = row_leaf_first; value = o.one_fe }
      ∷ record { column = s0; step = row_merkle_last_output; value = pub_inputs.merkle_root }
      ∷ record { column = aux_a; step = row_nullifier_first; value = pub_inputs.purpose }
      ∷ record { column = aux_b; step = row_nullifier_first; value = pub_inputs.request_nonce }
      ∷ record { column = s0; step = row_nullifier_output; value = pub_inputs.nullifier }
      ∷ tabulate job_count 0 (λ job. record {
        column = job_type_column job;
        step = job_start_row job;
        value = o.one_fe;
      })

  -- The periodic columns at a row: Winterfell repeats them over the trace.
  abbrev pub periodic_values_at : ℕ → List F
  periodic_values_at r =
      tabulate (state_width + 2) 0 (λ c. lane (get_or get_periodic_column_values c []) (r % rounds))

  -- What Winterfell enforces of a trace, given by row and column, at one row: every transition
  -- constraint vanishes.
  abbrev pub Steps : PublicInputs F → (ℕ → ℕ → F) → ℕ → Type 0
  Steps pub_inputs trace r =
      All (λ x. x ≡ o.zero_fe)
        (evaluate_transition pub_inputs (trace r) (trace (r + 1)) (periodic_values_at r))

-- `TitleAir`
pub record TitleAir (F Context : Type 0) : Type 0 where
  pub context : Context
  pub pub_inputs : PublicInputs F

unfoldable pub transition_degrees : List Degree
transition_degrees =
    tabulate state_width 0 (λ _. with_cycles 3 rounds)
    ++ plain 1 ∷ plain 1 ∷ tabulate 4 0 (λ _. with_cycles 2 rounds)
    ++ with_cycles 1 rounds ∷ with_cycles 3 rounds ∷ tabulate range_bits 0 (λ _. plain 2)
    ++ with_cycles 2 rounds ∷ []

module _ {F Context : Type 0} where
  -- The fields of the result, unless `AirContext::new` panicked.
  abbrev pub with_context : PublicInputs F → Option Context → Option (TitleAir F Context)
  with_context pub_inputs none = none
  with_context pub_inputs (some context) =
      some (record { context = context; pub_inputs = pub_inputs })

module _ {F Options Context : Type 0} where
  -- `TitleAir::new` on the width and length of a trace; `none` is a failed assertion.
  unfoldable pub new_air :
      WinterAir Options Context
      → (width rows : ℕ) → PublicInputs F
      → Options
      → Option (TitleAir F Context)
  unfolding transition_degrees
  new_air winter width rows pub_inputs options =
      let num_assertions = 7 + job_count in
      if nat_beq trace_width width
      then if nat_beq trace_length rows
        then with_context pub_inputs
            (winter.new_context width rows transition_degrees num_assertions options)
        else none
      else none
