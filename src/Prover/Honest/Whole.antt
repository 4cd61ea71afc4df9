-- ===== src/Prover/Honest/Whole.antt =====
-- The whole of `build_trace` as thirty-two jobs.
use yaqeen_stark_winterfell.Prelude.{
  ℕ, ◌+◌, ◌-◌, ◌*◌, ◌/◌, ◌%◌, ◌^◌, ◌<◌, ◌≤◌, ◌≡◌, inl, inr, refl, ap, sym, ◌∙◌, subst, some, List,
  length, get_or-tabulate_zero, length-tabulate, nat_beq, Bool-cases, if◌then◌else◌, arith,
}
use yaqeen_stark_winterfell.Field.{FieldOps}
use yaqeen_stark_winterfell.Air.Layout.{
  tree_depth, rc_bit_0, range_bits, t_nullifier, s0, job_start_row, job_count,
}
use yaqeen_stark_winterfell.Air.Inputs.{PublicInputs}
use yaqeen_stark_winterfell.Prover.Trace.{
  Witness, Columns, put_all, to_bits_le, expiry_diff, merkle_jobs, padding_jobs, initial_columns,
  owner_job, leaf_job, with_bits, merkle_part, finish_trace, build_trace,
}
use yaqeen_stark_winterfell.Prover.Honest.Cells.{put_all-other, put_all-cell}
use yaqeen_stark_winterfell.Prover.Honest.Kinds.{JobOk, kind_of}
use yaqeen_stark_winterfell.Prover.Honest.Stages.{Stage, JobOk-agree, next_job, next_job-Stage}
use yaqeen_stark_winterfell.Prover.Honest.Loops.{
  next_job-Onward, initial-Stage, initial-upper, owner_job-next, leaf_job-next, nullifier_job-next,
  merkle_jobs-Stage, padding_jobs-Stage,
}

module _ {F : Type 0} ⦃o : FieldOps F⦄ where
  -- What the licence has left after the time stamp, less one.
  abbrev pub diff_of : Witness F → ℕ
  diff_of w = w.license_expiry - w.current_timestamp - 1

  abbrev diff_bits : Witness F → List F
  diff_bits w = to_bits_le (diff_of w) range_bits

  length-diff_bits : (w : Witness F) → length (diff_bits w) ≡ range_bits
  unfolding to_bits_le
  length-diff_bits w = length-tabulate range_bits 0 (λ i. o.new (diff_of w / 2 ^ i % 2))

  -- The columns and public inputs of an honest run.
  pub record HonestTrace (w : Witness F) (cols : Columns F) (inputs : PublicInputs F) : Type 0 where
    pub digest : F
    pub stage : Stage w job_count (digest, cols)
    pub bits :
        (i r : ℕ)
        → i < range_bits
        → cols (rc_bit_0 + i) r ≡ (if nat_beq r 8 then o.new (diff_of w / 2 ^ i % 2) else o.zero_fe)
    pub root : cols s0 215 ≡ inputs.merkle_root
    pub nullifier : cols s0 223 ≡ inputs.nullifier
    pub registry_id : inputs.registry_id ≡ w.registry_id
    pub purpose : inputs.purpose ≡ w.purpose
    pub request_nonce : inputs.request_nonce ≡ w.request_nonce
    pub current_timestamp : inputs.current_timestamp ≡ o.new w.current_timestamp

  -- Columns that differ in the range-check bits only are at the same stage.
  Stage-bits :
      (w : Witness F) (n : ℕ) (d : F) (cols cols' : Columns F)
      → ((c r : ℕ) → c ≤ t_nullifier → cols' c r ≡ cols c r)
      → Stage w n (d, cols)
      → Stage w n (d, cols')
  Stage-bits w n d cols cols' same stage = record {
    last = λ h. same 0 (n * 8 - 1) (omega arith) ∙ stage.last h;
    jobs = λ j h.
        subst (λ b. JobOk cols' j (kind_of w j) b) (sym (same 0 (j * 8 - 1) (omega arith)))
          (JobOk-agree cols cols' j (kind_of w j) _ (λ c r a b. same c r a) (stage.jobs j h));
    clean = λ c r a b h. same c r b ∙ stage.clean c r a b h;
    held = λ r h. (
      same 12 r (omega arith) ∙ (stage.held r h).0,
      same 13 r (omega arith) ∙ (stage.held r h).1,
    );
  }

  module _ (w : Witness F) where
    -- The columns after the first two jobs, with the bits.
    abbrev two_jobs : F × Columns F
    two_jobs = next_job w 1 (next_job w 0 (o.zero_fe, initial_columns w))

    abbrev ranged : Columns F
    ranged = put_all rc_bit_0 8 (diff_bits w) two_jobs.1

    ranged-Stage : Stage w 2 (two_jobs.0, ranged)
    ranged-Stage =
        Stage-bits w 2 two_jobs.0 two_jobs.1 ranged
          (λ c r a.
            put_all-other rc_bit_0 8 (diff_bits w) two_jobs.1 c r (inr (inr (inl (omega arith)))))
          (next_job-Stage w 1 (next_job w 0 (o.zero_fe, initial_columns w))
            (next_job-Stage w 0 (o.zero_fe, initial_columns w) (initial-Stage w o.zero_fe)))

    two_jobs-upper : (c r : ℕ) → t_nullifier < c → two_jobs.1 c r ≡ o.zero_fe
    two_jobs-upper c r h =
        (next_job-Onward w 1 (next_job w 0 (o.zero_fe, initial_columns w))).upper c r h
        ∙ (next_job-Onward w 0 (o.zero_fe, initial_columns w)).upper c r h
        ∙ initial-upper w c r h

    ranged-bits :
        (i r : ℕ)
        → i < range_bits
        → ranged (rc_bit_0 + i) r
          ≡ (if nat_beq r 8 then o.new (diff_of w / 2 ^ i % 2) else o.zero_fe)
    unfolding to_bits_le
    ranged-bits i r h = elim (Bool-cases (nat_beq r 8)) [
      | inl e ↦
          let at : 8 ≡ r = ground arith in
          rw e (
            ap (λ k. ranged (rc_bit_0 + i) k) (sym at)
            ∙ put_all-cell rc_bit_0 8 (diff_bits w) two_jobs.1 i o.zero_fe
                (omega (arith, length-diff_bits w))
            ∙ get_or-tabulate_zero range_bits (λ k. o.new (diff_of w / 2 ^ k % 2)) i o.zero_fe h)
      | inr e ↦ rw e (
          put_all-other rc_bit_0 8 (diff_bits w) two_jobs.1 (rc_bit_0 + i) r (ground arith)
          ∙ two_jobs-upper (rc_bit_0 + i) r (omega arith))
    ]

    bits_done : with_bits (some (diff_of w)) two_jobs ≡ some (two_jobs.0, ranged)
    unfolding job_start_row
    bits_done = refl

    build_trace-opened :
        w.current_timestamp < w.license_expiry
        → build_trace w ≡ finish_trace w (merkle_jobs w tree_depth 0 (two_jobs.0, ranged))
    unfolding build_trace
    build_trace-opened later =
        let positive : expiry_diff w ≡ some (diff_of w) = ground arith in
        ap (λ d. finish_trace w (merkle_part w (with_bits d (leaf_job w (owner_job w))))) positive
        ∙ ap (λ p. finish_trace w (merkle_part w (with_bits (some (diff_of w)) p)))
            (leaf_job-next w (owner_job w) ∙ ap (next_job w 1) (owner_job-next w o.zero_fe))
        ∙ ap (λ p. finish_trace w (merkle_part w p)) bits_done

    -- On a witness with 25 siblings and bits whose licence expires after the time stamp.
    pub build_trace-HonestTrace :
        length w.merkle_siblings ≡ tree_depth
        → length w.merkle_bits ≡ tree_depth
        → w.current_timestamp < w.license_expiry
        → (cols : Columns F) × (inputs : PublicInputs F) × (build_trace w ≡ some (cols, inputs))
          × HonestTrace w cols inputs
    build_trace-HonestTrace a b later =
        let (q, ran, stage27, onward) =
          merkle_jobs-Stage w tree_depth 0 (two_jobs.0, ranged) refl a b ranged-Stage in
        let nullified : F × Columns F = next_job w 27 q in
        let stage28 : Stage w 28 nullified = next_job-Stage w 27 q stage27 in
        let (digest, stage, padded) = padding_jobs-Stage w 4 28 nullified (omega arith) stage28 in
        let cols : Columns F = padding_jobs 4 28 nullified in
        let inputs : PublicInputs F = record {
          registry_id = w.registry_id;
          merkle_root = q.0;
          purpose = w.purpose;
          request_nonce = w.request_nonce;
          current_timestamp = o.new w.current_timestamp;
          nullifier = nullified.0;
        } in
        (
          cols,
          inputs,
          build_trace-opened later
              ∙ ap (finish_trace w) ran
              ∙ ap (λ n. some (padding_jobs 4 28 n, record inputs { nullifier = n.0 }))
                  (nullifier_job-next w q),
          record {
            digest = digest;
            stage = stage;
            bits = λ i r h.
                padded.upper (rc_bit_0 + i) r (omega arith)
                ∙ (next_job-Onward w 27 q).upper (rc_bit_0 + i) r (omega arith)
                ∙ onward.upper (rc_bit_0 + i) r (omega arith)
                ∙ ranged-bits i r h;
            root =
                padded.agree s0 215 (omega arith) (omega arith)
                ∙ (next_job-Onward w 27 q).agree s0 215 (omega arith) (omega arith)
                ∙ stage27.last (omega arith);
            nullifier =
                padded.agree s0 223 (omega arith) (omega arith) ∙ stage28.last (omega arith);
            registry_id = refl;
            purpose = refl;
            request_nonce = refl;
            current_timestamp = refl;
          },
        )
