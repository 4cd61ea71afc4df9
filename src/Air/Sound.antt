-- ===== src/Air/Sound.antt =====
-- Soundness: what a trace that meets the constraints and the assertions proves.
use yaqeen_stark_winterfell.Prelude.{
  ℕ, zero, suc, ◌+◌, ◌-◌, ◌*◌, ◌^◌, ◌<◌, ◌≤◌, ◌≡◌, inl, inr, refl, ap, sym, ◌∙◌, Bool, true, false,
  some, List, [], ◌∷◌, length, All, All-tabulate_zero, if◌then◌else◌, arith,
}
use yaqeen_stark_winterfell.Field.{FieldOps, Arithmetic, ◌⊕◌}
use yaqeen_stark_winterfell.Air.Layout.{
  rounds, range_bits, trace_length, job_count, job_start_row, job_last_row, job_type_column,
  domain_leaf, domain_nullifier, s0, aux_a, aux_d, held_secret, held_pid, t_merkle, row_leaf_first,
  row_merkle_last_output, row_nullifier_first, row_nullifier_output,
}
use yaqeen_stark_winterfell.Air.Permutation.{digest}
use yaqeen_stark_winterfell.Air.Inputs.{PublicInputs}
use yaqeen_stark_winterfell.Air.Constraints.{Assertion, Steps, get_assertions}
use yaqeen_stark_winterfell.Air.Typed.{HasType, typed_job_lem}
use yaqeen_stark_winterfell.Air.Facts.{IsLarge, typed_row, direction_row}
use yaqeen_stark_winterfell.Air.Ranged.{range_row, held_rows}
use yaqeen_stark_winterfell.Canister.State.{hash_node}
use yaqeen_stark_winterfell.Canister.Text.{fe}
use yaqeen_stark_winterfell.Harness.{recompute, recompute_root}
use yaqeen_stark_winterfell.Prover.Statement.{leaf_of, nullifier_of}

module _ {F : Type 0} ⦃o : FieldOps F⦄ (laws : Arithmetic F) (large : IsLarge F)
    (pub_inputs : PublicInputs F) (trace : ℕ → ℕ → F)
    (steps : (r : ℕ) → r < trace_length - 1 → Steps pub_inputs trace r)
    (asserted : All (λ a. trace a.step a.column ≡ a.value) (get_assertions pub_inputs)) where
  -- The asserted job types.
  pinned : (j : ℕ) → j < job_count → trace (j * 8) (job_type_column j) ≡ o.one_fe
  unfolding get_assertions job_start_row
  pinned j h =
      let (a, (b, (c, (d, (e, (f, (g, types))))))) = asserted in
      All-tabulate_zero (λ (x : Assertion F). trace x.step x.column ≡ x.value) job_count
        (λ job. record { column = job_type_column job; step = job_start_row job; value = o.one_fe })
        types j h

  job-Steps :
      (k : ℕ)
      → k < job_count - 1
      → (j : ℕ) → j < rounds
      → Steps pub_inputs trace (job_last_row k + j)
  unfolding job_last_row
  job-Steps k h j lt = steps (k * rounds + rounds - 1 + j) (omega arith)

  -- The digest of a job.
  abbrev digest_of : ℕ → F
  digest_of k = trace (job_last_row k) s0

  -- One level of the Merkle chain.
  level_step :
      (k : ℕ)
      → k + 1 < job_count
      → job_type_column (k + 1) ≡ t_merkle
      → (sibling : F) × (bit : Bool) × (digest_of (k + 1)
          ≡ (if bit then hash_node sibling (digest_of k) else hash_node (digest_of k) sibling))
  unfolding job_start_row hash_node fe
  level_step k h column =
      let start : ℕ = (k + 1) * 8 in
      let here : Steps pub_inputs trace start = steps start (omega arith) in
      let merkle : trace start t_merkle ≡ o.one_fe =
        ap (λ c. trace start c) (sym column) ∙ pinned (k + 1) h in
      let typed : HasType (trace start) o.zero_fe o.zero_fe o.one_fe o.zero_fe =
        (typed_row laws large pub_inputs trace start (omega arith) here).1 merkle in
      let chain = (typed_job_lem laws pub_inputs trace k (job-Steps k (omega arith))).1 typed in
      let sibling : F = trace start aux_a in
      elim (direction_row laws large pub_inputs trace start (omega arith) here merkle) [
        | inl off ↦ (sibling, false, chain.0 off)
        | inr on ↦ (sibling, true, chain.1 on)
      ]

  -- The Merkle levels after job `k`, `n` of them.
  levels :
      (n k : ℕ)
      → 1 ≤ k
      → k + n ≤ 26
      → (siblings : List F) × (bits : List Bool) × (length siblings ≡ n)
        × (length bits ≡ n)
        × (digest_of (k + n) ≡ recompute (digest_of k) siblings bits)
  unfolding recompute job_type_column
  levels zero k low high =
      let same : k + 0 ≡ k = omega arith in ([], [], refl, refl, ap digest_of same)
  levels (suc n) k low high =
      let (sibling, bit, step) = level_step k (omega arith) (ground arith) in
      let (siblings, bits, a, b, rest) = levels n (k + 1) (omega arith) (omega arith) in
      let next : k + suc n ≡ k + 1 + n = omega arith in
      (
        sibling ∷ siblings,
        bit ∷ bits,
        ap suc a,
        ap suc b,
        ap digest_of next ∙ rest ∙ ap (λ c. recompute c siblings bits) step,
      )

  abbrev expiry : F
  expiry = trace 8 aux_d

  leaf_digest : digest_of 1 ≡ leaf_of pub_inputs.registry_id (digest_of 0) expiry
  unfolding leaf_of get_assertions job_start_row job_last_row row_leaf_first job_type_column
  leaf_digest =
      let (a, (b, (c, rest))) = asserted in
      let typed : HasType (trace 8) o.zero_fe o.one_fe o.zero_fe o.zero_fe =
        (typed_row laws large pub_inputs trace 8 refl (steps 8 (omega arith))).0
          (pinned 1 (omega arith)) in
      (typed_job_lem laws pub_inputs trace 0 (job-Steps 0 (omega arith))).0 typed
      ∙ (λ i. digest (o.new domain_leaf ∷ a i ∷ trace 7 s0 ∷ b i ∷ c i ∷ expiry ∷ []))

  nullifier_digest :
      digest_of 27
      ≡ nullifier_of
          (trace 0 held_secret)
          (trace 0 held_pid)
          pub_inputs.purpose
          pub_inputs.request_nonce
  unfolding nullifier_of get_assertions job_start_row job_last_row row_nullifier_first
      job_type_column
  nullifier_digest =
      let (a, (b, (c, (d, (e, (f, rest)))))) = asserted in
      let typed : HasType (trace 216) o.zero_fe o.zero_fe o.zero_fe o.one_fe =
        (typed_row laws large pub_inputs trace 216 refl (steps 216 (omega arith))).2
          (pinned 27 (omega arith)) in
      let (secret, pid) = held_rows laws large pub_inputs trace steps 215 (omega arith) in
      (typed_job_lem laws pub_inputs trace 26 (job-Steps 26 (omega arith))).2 typed
      ∙ (λ i. digest (o.new domain_nullifier ∷ secret i ∷ pid i ∷ e i ∷ f i ∷ []))

  -- Whatever the trace holds, where all transition constraints vanish on every row but the last
  -- and all assertions hold, there are an owner commitment and an expiry, siblings and directions
  -- from which the reference `recompute_root` computes the public Merkle root, started at the
  -- leaf of the public registry, that owner and that expiry; the expiry is the public time stamp
  -- and one and an integer below 2 ^ 32; and the public nullifier is that of the secret and the
  -- property in the held columns, and of the public purpose and nonce. The owner commitment is
  -- what the trace's first job ends with. The field's arithmetic is lawful, and its
  -- characteristic above three.
  pub trace_sound :
      (owner expiry : F) × (siblings : List F) × (bits : List Bool) × (n : ℕ) × (owner
        ≡ trace (job_last_row 0) s0)
      × (recompute_root (leaf_of pub_inputs.registry_id owner expiry) siblings bits
          ≡ some pub_inputs.merkle_root)
      × (n < 2 ^ range_bits)
      × (expiry ≡ o.new n ⊕ o.one_fe ⊕ pub_inputs.current_timestamp)
      × (pub_inputs.nullifier
          ≡ nullifier_of
              (trace 0 held_secret)
              (trace 0 held_pid)
              pub_inputs.purpose
              pub_inputs.request_nonce)
  unfolding recompute_root get_assertions job_last_row row_merkle_last_output row_nullifier_output
      job_start_row job_type_column
  trace_sound =
      let (a, (b, (c, (root, (e, (f, (nullifier, rest))))))) = asserted in
      let (siblings, bits, len_s, len_b, chain) = levels 25 1 (omega arith) (omega arith) in
      let (n, lt, sum) =
        range_row laws large pub_inputs trace 8 refl (steps 8 (omega arith))
          (pinned 1 (omega arith)) in
      (
        digest_of 0,
        expiry,
        siblings,
        bits,
        n,
        refl,
        rw (len_s, len_b)
            (ap some (ap (λ c. recompute c siblings bits) (sym leaf_digest) ∙ sym chain ∙ root)),
        lt,
        sum,
        sym nullifier ∙ nullifier_digest,
      )
