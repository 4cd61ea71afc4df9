-- ===== src/Harness/Agrees.antt =====
-- The harness's trace builder agrees with the prover's.
use yaqeen_stark_winterfell.Prelude.{
  ℕ, zero, suc, ◌+◌, ◌-◌, ◌^◌, ◌≡◌, refl, ap, ◌∙◌, Bool, true, false, ◌&&◌, Option, none, some,
  List, length, get_elem?, nat_beq, ltb, if◌then◌else◌, inl, inr, Option-cases,
}
use yaqeen_stark_winterfell.Field.{FieldOps}
use yaqeen_stark_winterfell.Air.Layout.{tree_depth, range_bits, job_count, job_nullifier}
use yaqeen_stark_winterfell.Air.Permutation.{round_constants}
use yaqeen_stark_winterfell.Prover.Trace.{
  Witness, Columns, to_bits_le, job_rounds, run_job, merkle_jobs, padding_jobs, initial_columns,
  owner_job, leaf_job, with_bits, nullifier_job, finish_trace, merkle_part, build_trace,
}
use yaqeen_stark_winterfell.Harness.Trace.{
  harness_to_bits_le, harness_rounds, harness_run_job, harness_owner_job, harness_leaf_job,
  harness_with_bits, harness_merkle_jobs, harness_merkle_part, harness_nullifier_job,
  harness_padding, harness_finish, harness_build_trace,
}

-- Nested guards, some before and some after a value is computed, are one guard.
guards :
    {X : Type 0} (a b c d : Bool) (n : ℕ) (f g : Option ℕ → Option X)
    → f none ≡ none
    → ((x : Option ℕ) → f x ≡ g x)
    → (if a then if b then f (if c then (if d then some n else none) else none) else none else none)
      ≡ (if a && b && c && d then g (if c then some n else none) else none)
guards false b c d n f g fails same = refl
guards true false c d n f g fails same = refl
guards true true false d n f g fails same = fails
guards true true true false n f g fails same = fails
guards true true true true n f g fails same = same (some n)

module _ {F : Type 0} ⦃o : FieldOps F⦄ where
  rounds-eq :
      (start n r : ℕ) (state : List F) (cols : Columns F)
      → harness_rounds round_constants start n r state cols ≡ job_rounds start n r state cols
  unfolding harness_rounds job_rounds
  rounds-eq start zero r state cols = refl
  rounds-eq start (suc n) r state cols = rounds-eq start n (suc r) _ _

  run_job-eq :
      (cols : Columns F) (job : ℕ) (state aux : List F)
      → harness_run_job cols round_constants job state aux ≡ run_job cols job state aux
  unfolding harness_run_job run_job
  run_job-eq cols job state aux = rounds-eq _ _ 0 state _

  owner-eq : (w : Witness F) → harness_owner_job w ≡ owner_job w
  unfolding harness_owner_job owner_job initial_columns
  owner-eq w = run_job-eq _ _ _ _

  leaf-eq : (w : Witness F) (p : F × Columns F) → harness_leaf_job w p ≡ leaf_job w p
  unfolding harness_leaf_job leaf_job
  leaf-eq w (commitment, cols) = run_job-eq _ _ _ _

  merkle-eq :
      (w : Witness F) (n level : ℕ) (p : F × Columns F)
      → harness_merkle_jobs w n level p ≡ merkle_jobs w n level p
  unfolding harness_merkle_jobs merkle_jobs
  merkle-eq w zero level p = refl
  merkle-eq w (suc n) level (current, cols) =
      elim (Option-cases (get_elem? w.merkle_siblings level)) [
        | inl e ↦ rw (e, harness_merkle_jobs, merkle_jobs) refl
        | inr (sibling, e) ↦ elim (Option-cases (get_elem? w.merkle_bits level)) [
          | inl f ↦ rw (e, f, harness_merkle_jobs, merkle_jobs) refl
          | inr (bit, f) ↦
              rw (e, f, harness_merkle_jobs, merkle_jobs)
                (merkle-eq w n (level + 1) _
                  ∙ ap (merkle_jobs w n (level + 1)) (run_job-eq _ _ _ _))
        ]
      ]

  padding-eq : (n job : ℕ) (p : F × Columns F) → harness_padding n job p ≡ padding_jobs n job p
  unfolding harness_padding padding_jobs
  padding-eq zero job (pad, cols) = refl
  padding-eq (suc n) job (pad, cols) =
      padding-eq n (job + 1) _ ∙ ap (padding_jobs n (job + 1)) (run_job-eq _ _ _ _)

  nullifier-eq :
      (w : Witness F) (cols : Columns F) → harness_nullifier_job w cols ≡ nullifier_job w cols
  unfolding harness_nullifier_job nullifier_job
  nullifier-eq w cols = run_job-eq _ _ _ _

  finish-eq : (w : Witness F) (x : Option (F × Columns F)) → harness_finish w x ≡ finish_trace w x
  finish-eq w none = refl
  finish-eq w (some (root, cols)) =
      rw (nullifier-eq w cols, padding-eq (job_count - (job_nullifier + 1)) (job_nullifier + 1) _)
        refl

  part-eq : (w : Witness F) (x : Option (F × Columns F)) → harness_merkle_part w x ≡ merkle_part w x
  part-eq w none = refl
  part-eq w (some p) = merkle-eq w tree_depth 0 p

  bits-eq : (d : Option ℕ) (p : F × Columns F) → harness_with_bits d p ≡ with_bits d p
  unfolding harness_to_bits_le to_bits_le
  bits-eq none p = refl
  bits-eq (some diff) (leaf, cols) = refl

  jobs-eq :
      (w : Witness F) (d : Option ℕ)
      → harness_finish w
          (harness_merkle_part w (harness_with_bits d (harness_leaf_job w (harness_owner_job w))))
        ≡ finish_trace w (merkle_part w (with_bits d (leaf_job w (owner_job w))))
  jobs-eq w d =
      rw (owner-eq w, leaf-eq w (owner_job w), bits-eq d (leaf_job w (owner_job w)))
        (finish-eq w _ ∙ ap (finish_trace w) (part-eq w _))

  -- What the harness asserts of a witness, the licence's period included.
  abbrev pub accepts : Witness F → Bool
  accepts w =
      nat_beq (length w.merkle_siblings) tree_depth
      && nat_beq (length w.merkle_bits) tree_depth
      && ltb w.current_timestamp w.license_expiry
      && ltb (w.license_expiry - w.current_timestamp - 1) (2 ^ range_bits)

  -- The harness's `build_trace` returns, on a witness with exactly 25 siblings and 25 bits whose
  -- expiry lies after the timestamp by at most 2 ^ 32 seconds, the columns and the public inputs
  -- that the prover's `build_trace` returns, and panics on every other witness.
  pub harness_build_trace_lem :
      (w : Witness F) → harness_build_trace w ≡ (if accepts w then build_trace w else none)
  unfolding harness_build_trace build_trace
  harness_build_trace_lem w =
      guards (nat_beq (length w.merkle_siblings) tree_depth)
        (nat_beq (length w.merkle_bits) tree_depth) (ltb w.current_timestamp w.license_expiry)
        (ltb (w.license_expiry - w.current_timestamp - 1) (2 ^ range_bits))
        (w.license_expiry - w.current_timestamp - 1)
        (λ d.
          harness_finish w (
            harness_merkle_part w (harness_with_bits d (harness_leaf_job w (harness_owner_job w)))))
        (λ d. finish_trace w (merkle_part w (with_bits d (leaf_job w (owner_job w))))) refl
        (jobs-eq w)
