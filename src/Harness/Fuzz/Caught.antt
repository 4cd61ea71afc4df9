-- ===== src/Harness/Fuzz/Caught.antt =====
-- Proofs about the search for unnoticed violations.
use yaqeen_stark_winterfell.Prelude.{
  ℕ, zero, suc, ◌≡◌, refl, ap, sym, ◌∙◌, false, ◌||◌, some, ◌==◌, arith, inl, inr, Bool-cases,
}
use yaqeen_stark_winterfell.Field.{FieldOps, Arithmetic, ◌⊖◌, ◌⊗◌, field_eq}
use yaqeen_stark_winterfell.Field.Algebra.{one-mul, zero_or_one}
use yaqeen_stark_winterfell.Air.Permutation.{lane}
use yaqeen_stark_winterfell.Air.Inputs.{PublicInputs}
use yaqeen_stark_winterfell.Air.Context.{WinterAir, Documented}
use yaqeen_stark_winterfell.Air.Constraints.{get_periodic_column_values}
use yaqeen_stark_winterfell.Harness.Options.{demo_air_made}
use yaqeen_stark_winterfell.Harness.Fuzz.{
  dummy_air, fuzz_results, count_missed, fuzz_rounds, run_fuzz, fuzz_boolean_violations_are_caught,
}

module _ {F : Type 0} ⦃o : FieldOps F⦄ (laws : Arithmetic F) where
  -- The result at index 15 is the constraint on the direction bit.
  fuzz_results-15 :
      (pub_inputs : PublicInputs F) (b : F)
      → lane (fuzz_results pub_inputs b) 15 ≡ o.one_fe ⊗ o.one_fe ⊗ (b ⊗ b ⊖ b)
  unfolding fuzz_results get_periodic_column_values
  fuzz_results-15 pub_inputs b = refl

  -- What is neither zero nor one is noticed.
  not_missed :
      (pub_inputs : PublicInputs F) (b : F)
      → (b == o.zero_fe || b == o.one_fe) ≡ false
      → (lane (fuzz_results pub_inputs b) 15 == o.zero_fe) ≡ false
  not_missed pub_inputs b bad =
      elim (Bool-cases (lane (fuzz_results pub_inputs b) 15 == o.zero_fe)) [
        | inr e ↦ e
        | inl e ↦
            let vanishes : o.one_fe ⊗ o.one_fe ⊗ (b ⊗ b ⊖ b) ≡ o.zero_fe =
              sym (fuzz_results-15 pub_inputs b)
              ∙ (o.eq.eq_iff (lane (fuzz_results pub_inputs b) 15) o.zero_fe).0 e in
            let boolean : b ⊗ b ⊖ b ≡ o.zero_fe =
              sym (one-mul laws (b ⊗ b ⊖ b))
              ∙ ap (λ x. x ⊗ (b ⊗ b ⊖ b)) (sym (one-mul laws o.one_fe))
              ∙ vanishes in
            elim (zero_or_one laws b boolean) [
              | inl z ↦ absurd (ground (arith, bad, (o.eq.eq_iff b o.zero_fe).1 z))
              | inr u ↦ absurd (ground (arith, bad, (o.eq.eq_iff b o.one_fe).1 u))
            ]
      ]

  count_missed-same :
      (pub_inputs : PublicInputs F) (b : F) (missed : ℕ) → count_missed pub_inputs b missed ≡ missed
  count_missed-same pub_inputs b missed = elim (Bool-cases (b == o.zero_fe || b == o.one_fe)) [
    | inl e ↦ rw e refl
    | inr e ↦ rw (e, not_missed pub_inputs b e) refl
  ]

  fuzz_rounds-same :
      (pub_inputs : PublicInputs F) (n s missed : ℕ) → fuzz_rounds pub_inputs n s missed ≡ missed
  unfolding fuzz_rounds
  fuzz_rounds-same pub_inputs zero s missed = refl
  fuzz_rounds-same pub_inputs (suc n) s missed =
      fuzz_rounds-same pub_inputs n _ _ ∙ count_missed-same pub_inputs _ missed

  -- For every seed and number of iterations, the search runs without a panic and misses nothing:
  -- each drawn value but zero and one makes the result at index 15 nonzero. The field's
  -- arithmetic is lawful. Winterfell makes options and contexts as its documentation says.
  pub fuzz_misses_nothing :
      {Options Context : Type 0} (winter : WinterAir Options Context)
      → Documented winter
      → (seed iterations : ℕ) → fuzz_boolean_violations_are_caught F winter seed iterations ≡ some 0
  unfolding fuzz_boolean_violations_are_caught dummy_air
  fuzz_misses_nothing winter documented seed iterations =
      let (context, made) = demo_air_made winter documented _ in
      ap (run_fuzz seed iterations) made ∙ ap some (fuzz_rounds-same _ iterations seed 0)
