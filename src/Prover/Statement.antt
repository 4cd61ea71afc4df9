-- ===== src/Prover/Statement.antt =====
-- Proofs about the public inputs of the traces that the prover builds.
use yaqeen_stark_winterfell.Prelude.{ℕ, ◌-◌, ◌<◌, ◌≡◌, refl, ap, ◌∙◌, some, [], ◌∷◌, length, arith}
use yaqeen_stark_winterfell.Field.{FieldOps}
use yaqeen_stark_winterfell.Air.Layout.{
  domain_leaf, domain_owner_commitment, domain_nullifier, tree_depth, job_leaf, job_start_row,
  rc_bit_0, range_bits,
}
use yaqeen_stark_winterfell.Air.Permutation.{absorb, digest}
use yaqeen_stark_winterfell.Air.Inputs.{PublicInputs}
use yaqeen_stark_winterfell.Harness.{recompute, recompute_root}
use yaqeen_stark_winterfell.Prover.Trace.{
  Witness, Columns, to_bits_le, padding_jobs, owner_job, leaf_job, nullifier_job, with_bits,
  expiry_diff, merkle_part, finish_trace, build_trace, put_all,
}
use yaqeen_stark_winterfell.Prover.Jobs.{run_job-digest, merkle_jobs-recompute}

module _ {F : Type 0} ⦃o : FieldOps F⦄ where
  -- The three hashes of the statement.
  unfoldable pub owner_commitment_of : F → F → F
  owner_commitment_of secret property_id =
      digest (o.new domain_owner_commitment ∷ secret ∷ property_id ∷ [])

  unfoldable pub leaf_of : F → F → F → F
  leaf_of registry_id owner license_expiry =
      digest (o.new domain_leaf ∷ registry_id ∷ owner ∷ o.zero_fe ∷ o.one_fe ∷ license_expiry ∷ [])

  unfoldable pub nullifier_of : F → F → F → F → F
  nullifier_of secret property_id purpose request_nonce =
      digest (o.new domain_nullifier ∷ secret ∷ property_id ∷ purpose ∷ request_nonce ∷ [])

  owner_job-digest :
      (w : Witness F) → (owner_job w).0 ≡ owner_commitment_of w.owner_secret w.property_id
  unfolding owner_job owner_commitment_of absorb
  owner_job-digest w =
      run_job-digest _ _ (o.new domain_owner_commitment ∷ w.owner_secret ∷ w.property_id ∷ []) _

  leaf_job-digest :
      (w : Witness F) (done : F × Columns F)
      → (leaf_job w done).0 ≡ leaf_of w.registry_id done.0 (o.new w.license_expiry)
  unfolding leaf_job leaf_of absorb
  leaf_job-digest w (owner, cols) =
      run_job-digest cols _
        (o.new domain_leaf
          ∷ w.registry_id
          ∷ owner
          ∷ o.zero_fe
          ∷ o.one_fe
          ∷ o.new w.license_expiry
          ∷ [])
        _

  nullifier_job-digest :
      (w : Witness F) (cols : Columns F)
      → (nullifier_job w cols).0
        ≡ nullifier_of w.owner_secret w.property_id w.purpose w.request_nonce
  unfolding nullifier_job nullifier_of absorb
  nullifier_job-digest w cols =
      run_job-digest cols _
        (o.new domain_nullifier ∷ w.owner_secret ∷ w.property_id ∷ w.purpose ∷ w.request_nonce ∷ [])
        _

  -- For a witness with TREE_DEPTH siblings and bits whose licence expires after its time stamp,
  -- `build_trace` returns a trace and public inputs: the Merkle root is what the reference
  -- `recompute_root` computes from the hash of the registry, the owner commitment, the two
  -- constants and the expiry; the nullifier is the hash of the secret, the property, the purpose
  -- and the nonce; the others are the witness's own.
  pub build_trace_lem :
      (w : Witness F)
      → length w.merkle_siblings ≡ tree_depth
      → length w.merkle_bits ≡ tree_depth
      → w.current_timestamp < w.license_expiry
      → (cols : Columns F) × (inputs : PublicInputs F) × (build_trace w ≡ some (cols, inputs))
        × (some inputs.merkle_root
            ≡ recompute_root
                (leaf_of w.registry_id
                  (owner_commitment_of w.owner_secret w.property_id)
                  (o.new w.license_expiry))
                w.merkle_siblings
                w.merkle_bits)
        × (inputs.nullifier ≡ nullifier_of w.owner_secret w.property_id w.purpose w.request_nonce)
        × (inputs.registry_id ≡ w.registry_id)
        × (inputs.purpose ≡ w.purpose)
        × (inputs.request_nonce ≡ w.request_nonce)
        × (inputs.current_timestamp ≡ o.new w.current_timestamp)
  unfolding build_trace recompute_root
  build_trace_lem w a b later =
      let owner : F × Columns F = owner_job w in
      let leaf : F × Columns F = leaf_job w owner in
      let diff : ℕ = w.license_expiry - w.current_timestamp - 1 in
      let positive : expiry_diff w ≡ some diff = ground arith in
      let ranged : Columns F =
        put_all rc_bit_0 (job_start_row job_leaf) (to_bits_le diff range_bits) leaf.1 in
      let (root, cols, ran, is_root) =
        merkle_jobs-recompute w tree_depth 0 leaf.0 ranged (omega arith) (omega arith) in
      let nullified : F × Columns F = nullifier_job w cols in
      let inputs : PublicInputs F = record {
        registry_id = w.registry_id;
        merkle_root = root;
        purpose = w.purpose;
        request_nonce = w.request_nonce;
        current_timestamp = o.new w.current_timestamp;
        nullifier = nullified.0;
      } in
      let hashed : leaf.0
          ≡ leaf_of w.registry_id (owner_commitment_of w.owner_secret w.property_id)
              (o.new w.license_expiry) =
        leaf_job-digest w owner
        ∙ ap (λ c. leaf_of w.registry_id c (o.new w.license_expiry)) (owner_job-digest w) in
      (
        padding_jobs 4 28 nullified,
        inputs,
        ap (λ d. finish_trace w (merkle_part w (with_bits d leaf))) positive
            ∙ ap (finish_trace w) ran,
        rw (a, b)
            (ap some (is_root ∙ ap (λ l. recompute l w.merkle_siblings w.merkle_bits) hashed)),
        nullifier_job-digest w cols,
        refl,
        refl,
        refl,
        refl,
      )
