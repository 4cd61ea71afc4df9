-- ===== src/Prover/Honest/Loops.antt =====
-- The loops of `build_trace` as sequences of jobs.
use yaqeen_stark_winterfell.Prelude.{
  ℕ, zero, suc, ◌+◌, ◌-◌, ◌<◌, ◌≤◌, ◌≡◌, inl, inr, refl, ap, sym, ◌∙◌, subst, Bool, false, some,
  List, [], ◌∷◌, length, get_or, get_elem?, arith,
}
use yaqeen_stark_winterfell.Field.{FieldOps}
use yaqeen_stark_winterfell.Air.Layout.{
  tree_depth, trace_length, held_secret, held_pid, t_nullifier, job_merkle_first, job_merkle_last,
}
use yaqeen_stark_winterfell.Prover.Trace.{
  Witness, Columns, fill, run_job, merkle_jobs, padding_jobs, initial_columns, owner_job, leaf_job,
  nullifier_job,
}
use yaqeen_stark_winterfell.Prover.Honest.Cells.{fill-other, fill-inside}
use yaqeen_stark_winterfell.Prover.Honest.Kinds.{merkle_kind, kind_init, kind_aux, kind_of}
use yaqeen_stark_winterfell.Prover.Honest.Stages.{
  Agree, Stage, next_job, next_job-Agree, next_job-other, next_job-Stage,
}

module _ {F : Type 0} where
  -- Later columns, in which the first jobs' rows and the range-check bits are as before.
  pub record Onward (n : ℕ) (cols cols' : Columns F) : Type 0 where
    pub agree : Agree n cols cols'
    pub upper : (c r : ℕ) → t_nullifier < c → cols' c r ≡ cols c r

  pub Onward-here : (n : ℕ) (cols : Columns F) → Onward n cols cols
  Onward-here n cols = record { agree = λ c r a b. refl; upper = λ c r a. refl }

  pub Onward-trans :
      (n m : ℕ) (a b c : Columns F) → n ≤ m → Onward n a b → Onward m b c → Onward n a c
  Onward-trans n m a b c le f g = record {
    agree = λ x r s t. g.agree x r s (omega arith) ∙ f.agree x r s t;
    upper = λ x r s. g.upper x r s ∙ f.upper x r s;
  }

  element_at : (xs : List F) (k : ℕ) (d : F) → k < length xs → get_elem? xs k ≡ some (get_or xs k d)
  element_at [] k d h = absurd (omega arith)
  element_at (x ∷ xs) zero d h = refl
  element_at (x ∷ xs) (suc k) d h = element_at xs k d (omega arith)

flag_at : (xs : List Bool) (k : ℕ) → k < length xs → get_elem? xs k ≡ some (get_or xs k false)
flag_at [] k h = absurd (omega arith)
flag_at (x ∷ xs) zero h = refl
flag_at (x ∷ xs) (suc k) h = flag_at xs k (omega arith)

module _ {F : Type 0} ⦃o : FieldOps F⦄ (w : Witness F) where
  pub next_job-Onward : (n : ℕ) (p : F × Columns F) → Onward n p.1 (next_job w n p).1
  next_job-Onward n p = record {
    agree = next_job-Agree w n p;
    upper = λ c r a. next_job-other w n p c r (inr (inr (inl a)));
  }

  pub initial-Stage : (b : F) → Stage w 0 (b, initial_columns w)
  unfolding initial_columns
  initial-Stage b =
      let held0 : Columns F = fill held_secret 0 trace_length w.owner_secret (λ c r. o.zero_fe) in
      record {
        last = λ h. absurd (omega arith);
        jobs = λ j h. absurd (omega arith);
        clean = λ c r low high h.
            fill-other held_pid 0 trace_length w.property_id held0 c r (inr (omega arith))
            ∙ fill-other held_secret 0 trace_length w.owner_secret (λ c r. o.zero_fe) c r
                (inr (omega arith));
        held = λ r h. (
          fill-other held_pid 0 trace_length w.property_id held0 held_secret r (inl (omega arith))
              ∙ fill-inside held_secret trace_length w.owner_secret (λ c r. o.zero_fe) r h,
          fill-inside held_pid trace_length w.property_id held0 r h,
        );
      }

  pub initial-upper : (c r : ℕ) → t_nullifier < c → initial_columns w c r ≡ o.zero_fe
  unfolding initial_columns
  initial-upper c r h =
      let held0 : Columns F = fill held_secret 0 trace_length w.owner_secret (λ c r. o.zero_fe) in
      fill-other held_pid 0 trace_length w.property_id held0 c r (inr (omega arith))
      ∙ fill-other held_secret 0 trace_length w.owner_secret (λ c r. o.zero_fe) c r
          (inr (omega arith))

  pub owner_job-next : (b : F) → owner_job w ≡ next_job w 0 (b, initial_columns w)
  unfolding owner_job
  owner_job-next b = refl

  pub leaf_job-next : (p : F × Columns F) → leaf_job w p ≡ next_job w 1 p
  unfolding leaf_job
  leaf_job-next p = refl

  pub nullifier_job-next : (p : F × Columns F) → nullifier_job w p.1 ≡ next_job w 27 p
  unfolding nullifier_job
  nullifier_job-next p = refl

  merkle_kind_of :
      (j : ℕ)
      → job_merkle_first ≤ j
      → j ≤ job_merkle_last
      → kind_of w j
        ≡ merkle_kind
            (get_or w.merkle_siblings (j - job_merkle_first) o.zero_fe)
            (get_or w.merkle_bits (j - job_merkle_first) false)
  merkle_kind_of j low high = ground arith

  padding_kind : (job : ℕ) → 28 ≤ job → kind_of w job ≡ merkle_kind o.zero_fe false
  padding_kind job h = ground arith

  -- The job of one level, as the loop runs it.
  abbrev level_job : ℕ → F → Bool → F × Columns F → F × Columns F
  level_job level sibling bit p =
      run_job p.1 (job_merkle_first + level) (kind_init p.0 (merkle_kind sibling bit))
        (kind_aux (merkle_kind sibling bit))

  level_job-next :
      (level : ℕ) (p : F × Columns F)
      → level < tree_depth
      → next_job w (job_merkle_first + level) p
        ≡ level_job level
            (get_or w.merkle_siblings level o.zero_fe)
            (get_or w.merkle_bits level false)
            p
  level_job-next level p h =
      let back : job_merkle_first + level - job_merkle_first ≡ level = omega arith in
      ap (λ k. run_job p.1 (job_merkle_first + level) (kind_init p.0 k) (kind_aux k))
        (merkle_kind_of (job_merkle_first + level) (omega arith) (omega arith)
          ∙ ap
              (λ i.
                merkle_kind (get_or w.merkle_siblings i o.zero_fe) (get_or w.merkle_bits i false))
              back)

  merkle_jobs-step :
      (n level : ℕ) (p : F × Columns F)
      → level < length w.merkle_siblings
      → level < length w.merkle_bits
      → merkle_jobs w (suc n) level p
        ≡ merkle_jobs w n (level + 1) (
            level_job level
              (get_or w.merkle_siblings level o.zero_fe)
              (get_or w.merkle_bits level false)
              p)
  unfolding merkle_jobs
  merkle_jobs-step n level p a b =
      rw
        (element_at w.merkle_siblings level o.zero_fe a, flag_at w.merkle_bits level b, merkle_jobs)
        refl

  pub merkle_jobs-Stage :
      (n level : ℕ) (p : F × Columns F)
      → level + n ≡ tree_depth
      → length w.merkle_siblings ≡ tree_depth
      → length w.merkle_bits ≡ tree_depth
      → Stage w (job_merkle_first + level) p
      → (q : F × Columns F) × (merkle_jobs w n level p ≡ some q)
        × Stage w (job_merkle_first + tree_depth) q
        × Onward (job_merkle_first + level) p.1 q.1
  unfolding merkle_jobs
  merkle_jobs-Stage zero level p e a b stage =
      let all : level ≡ tree_depth = omega arith in
      (p, refl, subst (λ l. Stage w (job_merkle_first + l) p) all stage, Onward-here _ p.1)
  merkle_jobs-Stage (suc n) level p e a b stage =
      let next : F × Columns F = next_job w (job_merkle_first + level) p in
      let up : job_merkle_first + level + 1 ≡ job_merkle_first + (level + 1) = omega arith in
      let staged : Stage w (job_merkle_first + (level + 1)) next =
        subst (λ m. Stage w m next) up (next_job-Stage w (job_merkle_first + level) p stage) in
      let (q, ran, done, onward) = merkle_jobs-Stage n (level + 1) next (omega arith) a b staged in
      (
        q,
        merkle_jobs-step n level p (omega arith) (omega arith)
            ∙ ap (merkle_jobs w n (level + 1)) (sym (level_job-next level p (omega arith)))
            ∙ ran,
        done,
        Onward-trans (job_merkle_first + level) (job_merkle_first + (level + 1)) p.1 next.1 q.1
            (omega arith) (next_job-Onward (job_merkle_first + level) p) onward,
      )

  pub padding_jobs-Stage :
      (n job : ℕ) (p : F × Columns F)
      → 28 ≤ job
      → Stage w job p
      → (digest : F) × Stage w (job + n) (digest, padding_jobs n job p)
        × Onward job p.1 (padding_jobs n job p)
  unfolding padding_jobs
  padding_jobs-Stage zero job p low stage =
      let same : job ≡ job + 0 = omega arith in
      (p.0, subst (λ m. Stage w m p) same stage, Onward-here job p.1)
  padding_jobs-Stage (suc n) job p low stage =
      let next : F × Columns F = next_job w job p in
      let (digest, done, onward) =
        padding_jobs-Stage n (job + 1) next (omega arith) (next_job-Stage w job p stage) in
      let step : padding_jobs n (job + 1) next ≡ padding_jobs (suc n) job p =
        ap (λ k. padding_jobs n (job + 1) (run_job p.1 job (kind_init p.0 k) (kind_aux k)))
          (padding_kind job low) in
      let same : job + 1 + n ≡ job + suc n = omega arith in
      (
        digest,
        subst (λ cols. Stage w (job + suc n) (digest, cols)) step
            (subst (λ m. Stage w m (digest, padding_jobs n (job + 1) next)) same done),
        subst (λ cols. Onward job p.1 cols) step
            (Onward-trans job (job + 1) p.1 next.1 (padding_jobs n (job + 1) next) (omega arith)
              (next_job-Onward job p) onward),
      )
