-- ===== src/Prover/Jobs.antt =====
-- Proofs about the jobs of `build_trace`.
use yaqeen_stark_winterfell.Prelude.{
  ℕ, zero, suc, ◌+◌, ◌-◌, ◌<◌, ◌≡◌, refl, sym, ap, ◌∙◌, Bool, true, false, some, List, [], ◌∷◌,
  length, get_elem?, tabulate, if◌then◌else◌, arith,
}
use yaqeen_stark_winterfell.Field.{FieldOps}
use yaqeen_stark_winterfell.Air.Layout.{domain_node, rounds, job_merkle_first}
use yaqeen_stark_winterfell.Air.Permutation.{lane, apply_round, absorb, run_rounds, digest}
use yaqeen_stark_winterfell.Air.Job.{constants_of, take-round_constants}
use yaqeen_stark_winterfell.Canister.State.{hash_node}
use yaqeen_stark_winterfell.Canister.Text.{fe}
use yaqeen_stark_winterfell.Harness.{recompute}
use yaqeen_stark_winterfell.Prover.Trace.{Witness, Columns, job_rounds, run_job, merkle_jobs}

abbrev pub drop_first : {A : Type 0} → ℕ → List A → List A
drop_first zero xs = xs
drop_first (suc n) [] = []
drop_first (suc n) (x ∷ xs) = drop_first n xs

next_of :
    {A : Type 0} (xs : List A) (k : ℕ)
    → k < length xs
    → (x : A) × (get_elem? xs k ≡ some x) × (drop_first k xs ≡ x ∷ drop_first (suc k) xs)
next_of [] k lt = absurd (omega arith)
next_of (x ∷ xs) zero lt = (x, refl, refl)
next_of (x ∷ xs) (suc k) lt = next_of xs k (omega arith)

drop_first-all : {A : Type 0} (xs : List A) → drop_first (length xs) xs ≡ []
drop_first-all [] = refl
drop_first-all (x ∷ xs) = drop_first-all xs

module _ {F : Type 0} ⦃o : FieldOps F⦄ where
  pub job_rounds-run_rounds :
      (start n r : ℕ) (state : List F) (cols : Columns F)
      → (job_rounds start n r state cols).0 ≡ lane (run_rounds state (tabulate n r constants_of)) 0
  unfolding job_rounds run_rounds
  job_rounds-run_rounds start zero r state cols = refl
  job_rounds-run_rounds start (suc n) r state cols =
      job_rounds-run_rounds start n (suc r) (apply_round state (constants_of r)) _

  -- A job computes the hash of what its first row absorbs.
  pub run_job-digest :
      (cols : Columns F) (job : ℕ) (inputs aux : List F)
      → (run_job cols job (absorb inputs) aux).0 ≡ digest inputs
  unfolding run_job digest
  run_job-digest cols job inputs aux =
      job_rounds-run_rounds _ (rounds - 1) 0 (absorb inputs) _
      ∙ ap (λ l. lane (run_rounds (absorb inputs) l) 0) (sym take-round_constants)

  node_job :
      (cols : Columns F) (job : ℕ) (left right : F) (aux : List F)
      → (run_job cols job
          (o.new domain_node
            ∷ left
            ∷ right
            ∷ o.zero_fe
            ∷ o.zero_fe
            ∷ o.zero_fe
            ∷ o.zero_fe
            ∷ o.zero_fe
            ∷ [])
          aux).0
        ≡ hash_node left right
  unfolding hash_node absorb fe
  node_job cols job left right aux =
      run_job-digest cols job (o.new domain_node ∷ left ∷ right ∷ []) aux

  hash_node-order :
      (bit : Bool) (sibling current : F)
      → hash_node (if bit then sibling else current) (if bit then current else sibling)
        ≡ (if bit then hash_node sibling current else hash_node current sibling)
  hash_node-order true sibling current = refl
  hash_node-order false sibling current = refl

  pub merkle_jobs-recompute :
      (w : Witness F) (n level : ℕ) (current : F) (cols : Columns F)
      → level + n ≡ length w.merkle_siblings
      → level + n ≡ length w.merkle_bits
      → (root : F) × (cols' : Columns F) × (merkle_jobs w n level (current, cols)
          ≡ some (root, cols'))
        × (root
            ≡ recompute current
                (drop_first level w.merkle_siblings)
                (drop_first level w.merkle_bits))
  unfolding merkle_jobs recompute
  merkle_jobs-recompute w zero level current cols a b =
      let all : level ≡ length w.merkle_siblings = omega arith in
      let none_left : drop_first level w.merkle_siblings ≡ [] =
        ap (λ k. drop_first k w.merkle_siblings) all ∙ drop_first-all w.merkle_siblings in
      (
        current,
        cols,
        refl,
        ap (λ l. recompute current l (drop_first level w.merkle_bits)) (sym none_left),
      )
  merkle_jobs-recompute w (suc n) level current cols a b =
      let (sibling, e, d) = next_of w.merkle_siblings level (omega arith) in
      let (bit, e', d') = next_of w.merkle_bits level (omega arith) in
      let left : F = if bit then sibling else current in
      let right : F = if bit then current else sibling in
      let job : F × Columns F =
        run_job cols (job_merkle_first + level)
          (o.new domain_node
            ∷ left
            ∷ right
            ∷ o.zero_fe
            ∷ o.zero_fe
            ∷ o.zero_fe
            ∷ o.zero_fe
            ∷ o.zero_fe
            ∷ [])
          (sibling ∷ (if bit then o.one_fe else o.zero_fe) ∷ o.zero_fe ∷ o.zero_fe ∷ []) in
      let (root, cols', ran, is_root) =
        merkle_jobs-recompute w n (level + 1) job.0 job.1 (omega arith) (omega arith) in
      let up : job.0 ≡ (if bit then hash_node sibling current else hash_node current sibling) =
        node_job cols (job_merkle_first + level) left right _
        ∙ hash_node-order bit sibling current in
      let next : level + 1 ≡ suc level = omega arith in
      (
        root,
        cols',
        rw (e, e', merkle_jobs) ran,
        is_root
            ∙ ap
                (λ k. recompute job.0 (drop_first k w.merkle_siblings) (drop_first k w.merkle_bits))
                next
            ∙ ap
                (λ c.
                  recompute c (drop_first (suc level) w.merkle_siblings)
                    (drop_first (suc level) w.merkle_bits))
                up
            ∙ rw (d, d', recompute) refl,
      )
