-- ===== src/Harness/Report/Counts.antt =====
-- Proofs about the counts of the report.
use yaqeen_stark_winterfell.Prelude.{
  ℕ, zero, suc, ◌+◌, ◌%◌, ◌<◌, ◌≤◌, ◌≡◌, refl, ap, sym, ◌∙◌, subst, true, false, List, [], ◌∷◌,
  get_or, tabulate, All, nat_beq, ◌==◌, if◌then◌else◌, arith, inl, inr, Bool-cases,
}
use yaqeen_stark_winterfell.Field.{FieldOps, field_eq}
use yaqeen_stark_winterfell.Air.Layout.{rounds, trace_length}
use yaqeen_stark_winterfell.Air.Permutation.{lane}
use yaqeen_stark_winterfell.Air.Constraints.{
  Assertion, TitleAir, evaluate_transition, get_periodic_column_values, periodic_values_at,
}
use yaqeen_stark_winterfell.Prover.Trace.{Columns}
use yaqeen_stark_winterfell.Harness.Report.{
  eval_row, count_nonzero, nonzero_results, any_nonzero, failed_assertions,
}

module _ {F : Type 0} ⦃o : FieldOps F⦄ where
  pub same-true : (a b : F) → a ≡ b → (a == b) ≡ true
  same-true a b e = (o.eq.eq_iff a b).1 e

  count_nonzero-zero : (l : List F) → All (λ x. x ≡ o.zero_fe) l → count_nonzero l ≡ 0
  unfolding count_nonzero
  count_nonzero-zero [] h = refl
  count_nonzero-zero (x ∷ l) (e, h) = rw (same-true x o.zero_fe e) (count_nonzero-zero l h)

  zero-count_nonzero : (l : List F) → count_nonzero l ≡ 0 → All (λ x. x ≡ o.zero_fe) l
  unfolding count_nonzero
  zero-count_nonzero [] h = tt
  zero-count_nonzero (x ∷ l) h = elim (Bool-cases (x == o.zero_fe)) [
    | inl e ↦ (
      (o.eq.eq_iff x o.zero_fe).0 e,
      zero-count_nonzero l
          (sym (ap (λ b. if b then count_nonzero l else count_nonzero l + 1) e) ∙ h),
    )
    | inr e ↦ absurd (
        let more : count_nonzero l + 1 ≡ 0 =
          sym (ap (λ b. if b then count_nonzero l else count_nonzero l + 1) e) ∙ h in
        omega arith)
  ]

  pub nonzero_results-zero :
      (n i : ℕ) (f : ℕ → List F)
      → ((k : ℕ) → i ≤ k → k < i + n → All (λ x. x ≡ o.zero_fe) (f k))
      → nonzero_results (tabulate n i f) ≡ 0
  unfolding nonzero_results
  nonzero_results-zero zero i f h = refl
  nonzero_results-zero (suc n) i f h =
      let first = count_nonzero-zero (f i) (h i (omega arith) (omega arith)) in
      let rest = nonzero_results-zero n (suc i) f (λ k a b. h k (omega arith) (omega arith)) in
      omega (arith, first, rest)

  -- If no result is nonzero, all are zero.
  pub any_nonzero-All :
      (n i : ℕ) (f : ℕ → List F)
      → any_nonzero (tabulate n i f) ≡ false
      → (k : ℕ) → i ≤ k
      → k < i + n
      → All (λ x. x ≡ o.zero_fe) (f k)
  unfolding any_nonzero
  any_nonzero-All zero i f h k a b = absurd (omega arith)
  any_nonzero-All (suc n) i f h k a b = elim (Bool-cases (nat_beq i k)) [
    | inl e ↦
        let same : i ≡ k = ground arith in
        subst (λ j. All (λ x. x ≡ o.zero_fe) (f j)) same (zero-count_nonzero (f i) (ground arith))
    | inr e ↦ any_nonzero-All n (suc i) f (ground arith) k (ground arith) (omega arith)
  ]

  pub failed_assertions-zero :
      (cols : Columns F) (l : List (Assertion F))
      → All (λ a. cols a.column a.step ≡ a.value) l
      → failed_assertions cols l ≡ 0
  unfolding failed_assertions
  failed_assertions-zero cols [] h = refl
  failed_assertions-zero cols (a ∷ l) (e, h) =
      rw (same-true (cols a.column a.step) a.value e) (failed_assertions-zero cols l h)

  -- The harness takes the periodic values as Winterfell does.
  pub eval_row-eq :
      {Context : Type 0} (air : TitleAir F Context) (cols : Columns F) (step : ℕ)
      → eval_row air cols step
        ≡ evaluate_transition air.pub_inputs
            (λ c. cols c step)
            (λ c. cols c ((step + 1) % trace_length))
            (periodic_values_at step)
  unfolding eval_row get_periodic_column_values
  eval_row-eq air cols step =
      let same : step % rounds % rounds ≡ step % rounds = omega arith in
      ap
        (λ k.
          evaluate_transition air.pub_inputs (λ c. cols c step)
            (λ c. cols c ((step + 1) % trace_length))
            (tabulate 10 0 (λ c. lane (get_or get_periodic_column_values c []) k)))
        same
