-- ===== src/Prover/Honest/Stages.antt =====
-- The columns after each job of `build_trace`.
use yaqeen_stark_winterfell.Prelude.{
  ℕ, zero, suc, ◌+◌, ◌-◌, ◌*◌, ◌<◌, ◌≤◌, ◌≡◌, ◌⊎◌, inl, inr, ap, sym, ◌∙◌, subst, List, ltb,
  Bool-cases, arith,
}
use yaqeen_stark_winterfell.Field.{FieldOps}
use yaqeen_stark_winterfell.Air.Layout.{
  rounds, trace_length, held_secret, held_pid, job_start_row, aux_a, t_owner, t_nullifier,
}
use yaqeen_stark_winterfell.Prover.Trace.{Witness, Columns, fill, put_all, job_rounds, run_job}
use yaqeen_stark_winterfell.Prover.Jobs.{job_rounds-run_rounds}
use yaqeen_stark_winterfell.Prover.Honest.Kinds.{
  Kind, kind_init, kind_aux, kind_column, kind_of, kind_of-column, JobOk, kind_init-eight,
  kind_aux-four, kind_column-range,
}
use yaqeen_stark_winterfell.Prover.Honest.Job.{
  after, after-other, after-init, after-aux, after-type, after-lanes,
}

module _ {F : Type 0} where
  -- The later columns have what the earlier ones have in the first jobs' rows.
  abbrev pub Agree : ℕ → Columns F → Columns F → Type 0
  Agree n cols cols' = (c r : ℕ) → c ≤ t_nullifier → r < n * 8 → cols' c r ≡ cols c r

module _ {F : Type 0} ⦃o : FieldOps F⦄ where
  pub JobOk-agree :
      (cols cols' : Columns F) (j : ℕ) (k : Kind F) (before : F)
      → Agree (suc j) cols cols'
      → JobOk cols j k before
      → JobOk cols' j k before
  JobOk-agree cols cols' j k before same ok = record {
    init = λ c h. same c (j * 8) (omega arith) (omega arith) ∙ ok.init c h;
    aux = λ i h. same (aux_a + i) (j * 8) (omega arith) (omega arith) ∙ ok.aux i h;
    type_of = λ c a b. same c (j * 8) (omega arith) (omega arith) ∙ ok.type_of c a b;
    lanes =
        λ m c h small. same c (j * 8 + m + 1) (omega arith) (omega arith) ∙ ok.lanes m c h small;
  }

  -- The columns after the first `n` jobs, with the last digest.
  pub record Stage (w : Witness F) (n : ℕ) (p : F × Columns F) : Type 0 where
    pub last : 0 < n → p.1 0 (n * 8 - 1) ≡ p.0
    pub jobs : (j : ℕ) → j < n → JobOk p.1 j (kind_of w j) (p.1 0 (j * 8 - 1))
    pub clean : (c r : ℕ) → t_owner ≤ c → c ≤ t_nullifier → n * 8 ≤ r → p.1 c r ≡ o.zero_fe
    pub held :
        (r : ℕ)
        → r < trace_length
        → (p.1 held_secret r ≡ w.owner_secret) × (p.1 held_pid r ≡ w.property_id)

  -- One more job.
  abbrev pub next_job : Witness F → ℕ → F × Columns F → F × Columns F
  next_job w n p = run_job p.1 n (kind_init p.0 (kind_of w n)) (kind_aux (kind_of w n))

  module _ (w : Witness F) (n : ℕ) (p : F × Columns F) where
    -- The columns after the job, as the lemmas on one job name them.
    abbrev job_columns : Columns F
    job_columns =
        after p.1 (n * 8) (kind_column (kind_of w n)) (kind_init p.0 (kind_of w n))
          (kind_aux (kind_of w n)) (kind_init-eight p.0 (kind_of w n)) (kind_aux-four (kind_of w n))
          (kind_column-range (kind_of w n)).0 (kind_column-range (kind_of w n)).1

    next_job-columns : (next_job w n p).1 ≡ job_columns
    unfolding run_job job_start_row
    next_job-columns =
        ap
          (λ t.
            (job_rounds (n * 8) (rounds - 1) 0 (kind_init p.0 (kind_of w n)) (
              put_all 0 (n * 8) (kind_init p.0 (kind_of w n)) (
                put_all aux_a (n * 8) (kind_aux (kind_of w n))
                  (fill t (n * 8) rounds o.one_fe p.1)))).1)
          (sym (kind_of-column w n))

    pub next_job-other :
        (c r : ℕ)
        → (r < n * 8) ⊎ ((n * 8 + 8 ≤ r) ⊎ ((t_nullifier < c) ⊎ ((12 ≤ c) × (c < t_owner))))
        → (next_job w n p).1 c r ≡ p.1 c r
    next_job-other c r h =
        ap (λ f. f c r) next_job-columns
        ∙ after-other p.1 (n * 8) (kind_column (kind_of w n)) (kind_init p.0 (kind_of w n))
            (kind_aux (kind_of w n)) (kind_init-eight p.0 (kind_of w n))
            (kind_aux-four (kind_of w n)) (kind_column-range (kind_of w n)).0
            (kind_column-range (kind_of w n)).1 c r h

    job_columns-JobOk :
        ((c : ℕ) → t_owner ≤ c → c ≤ t_nullifier → p.1 c (n * 8) ≡ o.zero_fe)
        → JobOk job_columns n (kind_of w n) p.0
    job_columns-JobOk clean =
        let k : Kind F = kind_of w n in
        let t : ℕ = kind_column k in
        let init : List F = kind_init p.0 k in
        let aux : List F = kind_aux k in
        let eight = kind_init-eight p.0 k in
        let four = kind_aux-four k in
        let (above, below) = kind_column-range k in
        record {
          init = after-init p.1 (n * 8) t init aux eight four above below;
          aux = after-aux p.1 (n * 8) t init aux eight four above below;
          type_of =
              λ c a b. after-type p.1 (n * 8) t init aux eight four above below c a (clean c a b);
          lanes = after-lanes p.1 (n * 8) t init aux eight four above below;
        }

    next_job-JobOk :
        ((c : ℕ) → t_owner ≤ c → c ≤ t_nullifier → p.1 c (n * 8) ≡ o.zero_fe)
        → JobOk (next_job w n p).1 n (kind_of w n) p.0
    next_job-JobOk clean =
        subst (λ cols. JobOk cols n (kind_of w n) p.0) (sym next_job-columns)
          (job_columns-JobOk clean)

    next_job-last : (next_job w n p).1 0 ((n + 1) * 8 - 1) ≡ (next_job w n p).0
    unfolding run_job job_start_row
    next_job-last =
        let k : Kind F = kind_of w n in
        let row : (n + 1) * 8 - 1 ≡ n * 8 + 6 + 1 = omega arith in
        ap (λ r. (next_job w n p).1 0 r) row
        ∙ ap (λ f. f 0 (n * 8 + 6 + 1)) next_job-columns
        ∙ after-lanes p.1 (n * 8) (kind_column k) (kind_init p.0 k) (kind_aux k)
            (kind_init-eight p.0 k) (kind_aux-four k) (kind_column-range k).0
            (kind_column-range k).1 6 0 (omega arith) (omega arith)
        ∙ sym (job_rounds-run_rounds (n * 8) (rounds - 1) 0 (kind_init p.0 k) _)

    pub next_job-Agree : Agree n p.1 (next_job w n p).1
    next_job-Agree c r a b = next_job-other c r (inl b)

  -- In place of the first job the digest before is not read.
  pub first-JobOk :
      (w : Witness F) (cols : Columns F) (before before' : F)
      → JobOk cols 0 (kind_of w 0) before
      → JobOk cols 0 (kind_of w 0) before'
  first-JobOk w cols before before' ok = record {
    init = ok.init;
    aux = ok.aux;
    type_of = ok.type_of;
    lanes = ok.lanes;
  }

  this_job :
      (w : Witness F) (n : ℕ) (p : F × Columns F)
      → Stage w n p
      → JobOk (next_job w n p).1 n (kind_of w n) ((next_job w n p).1 0 (n * 8 - 1))
  this_job w zero p stage =
      first-JobOk w (next_job w zero p).1 p.0 _
        (next_job-JobOk w zero p (λ c a b. stage.clean c (0 * 8) a b (omega arith)))
  this_job w (suc n) p stage =
      subst (λ b. JobOk (next_job w (suc n) p).1 (suc n) (kind_of w (suc n)) b)
        (sym (
          next_job-Agree w (suc n) p 0 (suc n * 8 - 1) (omega arith) (omega arith)
          ∙ stage.last (omega arith)))
        (next_job-JobOk w (suc n) p (λ c a b. stage.clean c (suc n * 8) a b (omega arith)))

  earlier_job :
      (w : Witness F) (n : ℕ) (p : F × Columns F)
      → Stage w n p
      → (j : ℕ) → j < n
      → JobOk (next_job w n p).1 j (kind_of w j) ((next_job w n p).1 0 (j * 8 - 1))
  earlier_job w n p stage j h =
      subst (λ b. JobOk (next_job w n p).1 j (kind_of w j) b)
        (sym (next_job-Agree w n p 0 (j * 8 - 1) (omega arith) (omega arith)))
        (JobOk-agree p.1 (next_job w n p).1 j (kind_of w j) _
          (λ c r a b. next_job-Agree w n p c r a (omega arith)) (stage.jobs j h))

  -- A job more makes the next stage, and leaves the rows of the jobs before it.
  pub next_job-Stage :
      (w : Witness F) (n : ℕ) (p : F × Columns F) → Stage w n p → Stage w (n + 1) (next_job w n p)
  next_job-Stage w n p stage = record {
    last = λ _. next_job-last w n p;
    jobs = λ j h. elim (Bool-cases (ltb j n)) [
      | inl e ↦ earlier_job w n p stage j (ground arith)
      | inr e ↦
          let same : n ≡ j = ground arith in
          subst (λ i. JobOk (next_job w n p).1 i (kind_of w i) ((next_job w n p).1 0 (i * 8 - 1)))
            same (this_job w n p stage)
    ];
    clean = λ c r a b h.
        next_job-other w n p c r (inr (inl (omega arith))) ∙ stage.clean c r a b (omega arith);
    held = λ r h. (
      next_job-other w n p held_secret r (inr (inr (inr (omega arith, omega arith))))
          ∙ (stage.held r h).0,
      next_job-other w n p held_pid r (inr (inr (inr (omega arith, omega arith))))
          ∙ (stage.held r h).1,
    );
  }
