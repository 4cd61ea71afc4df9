-- ===== src/Harness/Report/Passes.antt =====
-- The report's checks pass.
use yaqeen_stark_winterfell.Prelude.{
  ℕ, ◌+◌, ◌-◌, ◌%◌, ◌<◌, ◌≡◌, refl, ap, sym, ◌∙◌, subst, Bool, true, false, Option, some, [], ◌∷◌,
  tabulate, All, ltb, nat_beq, ◌==◌, if◌then◌else◌, arith, inl, inr, Bool-cases,
}
use yaqeen_stark_winterfell.Field.{FieldOps, Arithmetic, field_eq, ◌⊕◌}
use yaqeen_stark_winterfell.Field.Algebra.{add_cancel, zero-add}
use yaqeen_stark_winterfell.Air.Layout.{
  domain_owner_commitment, trace_length, job_start_row, aux_b, s0,
}
use yaqeen_stark_winterfell.Air.Permutation.{lane, apply_round, absorb, digest, hash}
use yaqeen_stark_winterfell.Air.Inputs.{PublicInputs}
use yaqeen_stark_winterfell.Air.Context.{WinterAir}
use yaqeen_stark_winterfell.Air.Constraints.{
  TitleAir, Steps, evaluate_transition, get_assertions, state_of, periodic_values_at,
}
use yaqeen_stark_winterfell.Air.Job.{constants_of, row_step}
use yaqeen_stark_winterfell.Prover.Trace.{Witness, Columns, put}
use yaqeen_stark_winterfell.Prover.Honest.Vanish.{rows_of}
use yaqeen_stark_winterfell.Harness.Options.{or_panic, demo_air}
use yaqeen_stark_winterfell.Harness.Report.{
  eval_row, eval_all_constraints, any_nonzero, nonzero_results, failed_assertions, asserted_value,
  rounds_agree, tamper_report, honest_report, or_panic,
}
use yaqeen_stark_winterfell.Harness.Report.Counts.{
  same-true, nonzero_results-zero, any_nonzero-All, failed_assertions-zero, eval_row-eq,
}

module _ {F : Type 0} ⦃o : FieldOps F⦄ (laws : Arithmetic F) where
  one-not-zero : (o.one_fe == o.zero_fe) ≡ false
  one-not-zero = elim (Bool-cases (o.one_fe == o.zero_fe)) [
    | inl e ↦ absurd (laws.one-ne-zero ((o.eq.eq_iff o.one_fe o.zero_fe).0 e))
    | inr e ↦ e
  ]

  module _ {Context : Type 0} (air : TitleAir F Context) (w : Witness F) (cols : Columns F)
      (steps : (r : ℕ) → r < trace_length - 1 → Steps air.pub_inputs (rows_of cols) r)
      (wraps : All
        (λ x. x ≡ o.zero_fe)
        (evaluate_transition air.pub_inputs
          (rows_of cols 255)
          (rows_of cols 0)
          (periodic_values_at 255)))
      (asserted : All (λ a. cols a.column a.step ≡ a.value) (get_assertions air.pub_inputs)) where
    abbrev tampered : Columns F
    tampered = put aux_b 8 o.one_fe cols

    abbrev twice : Columns F
    twice = put s0 3 (tampered s0 3 ⊕ o.one_fe) tampered

    -- A lane changed in the middle of a job breaks the round before it.
    tampering_noticed : any_nonzero (eval_all_constraints air twice) ≡ true
    unfolding eval_all_constraints
    tampering_noticed =
        elim (Bool-cases (any_nonzero (tabulate trace_length 0 (eval_row air twice)))) [
          | inl e ↦ e
          | inr e ↦
              let vanish : Steps air.pub_inputs (rows_of twice) 2 =
                subst (λ l. All (λ x. x ≡ o.zero_fe) l) (eval_row-eq air twice 2)
                  (any_nonzero-All trace_length 0 (eval_row air twice) e 2 (omega arith)
                    (omega arith)) in
              let broken : state_of (rows_of twice 3)
                  ≡ apply_round (state_of (rows_of twice 2)) (constants_of 2) =
                row_step laws air.pub_inputs (rows_of twice) 2 (omega arith) vanish in
              let whole : state_of (rows_of cols 3)
                  ≡ apply_round (state_of (rows_of cols 2)) (constants_of 2) =
                row_step laws air.pub_inputs (rows_of cols) 2 (omega arith)
                  (steps 2 (omega arith)) in
              let changed : cols s0 3 ⊕ o.one_fe ≡ cols s0 3 =
                ap (λ l. lane l 0) (broken ∙ sym whole) in
              absurd (
                laws.one-ne-zero (
                  add_cancel laws o.one_fe o.zero_fe (cols s0 3) (
                    laws.add_comm o.one_fe (cols s0 3)
                    ∙ changed
                    ∙ sym (zero-add laws (cols s0 3)))))
        ]

    all_vanish : nonzero_results (eval_all_constraints air cols) ≡ 0
    unfolding eval_all_constraints
    all_vanish = nonzero_results-zero trace_length 0 (eval_row air cols) (λ k a b.
        subst (λ l. All (λ x. x ≡ o.zero_fe) l) (sym (eval_row-eq air cols k)) (row_at k b))
      where
        row_at :
            (k : ℕ)
            → k < trace_length
            → All
                (λ x. x ≡ o.zero_fe)
                (evaluate_transition air.pub_inputs
                  (rows_of cols k)
                  (rows_of cols ((k + 1) % trace_length))
                  (periodic_values_at k))
        row_at k b = elim (Bool-cases (ltb k 255)) [
          | inl e ↦
              let next : k + 1 ≡ (k + 1) % trace_length = ground arith in
              subst
                (λ n.
                  All (λ x. x ≡ o.zero_fe)
                    (evaluate_transition air.pub_inputs (rows_of cols k) (rows_of cols n)
                      (periodic_values_at k)))
                next (steps k (ground arith))
          | inr e ↦
              let last : 255 ≡ k = ground arith in
              subst
                (λ n.
                  All (λ x. x ≡ o.zero_fe)
                    (evaluate_transition air.pub_inputs (rows_of cols n)
                      (rows_of cols ((n + 1) % trace_length)) (periodic_values_at n)))
                last wraps
        ]

    expected : asserted_value (get_assertions air.pub_inputs) aux_b 8 ≡ some o.zero_fe
    unfolding asserted_value get_assertions
    expected = refl

    hash_agrees : rounds_agree w ≡ some true
    unfolding rounds_agree hash digest absorb
    hash_agrees = ap some (
        same-true (digest (o.new domain_owner_commitment ∷ w.owner_secret ∷ w.property_id ∷ [])) _
          refl)

    tamper_passes : tamper_report air w cols ≡ some 0
    unfolding tamper_report job_start_row
    tamper_passes =
        let cross : Option ℕ = or_panic (rounds_agree w) (λ agree. some (if agree then 0 else 1)) in
        let noticed : Bool = any_nonzero (eval_all_constraints air twice) in
        let from_seven : Option ℕ = if noticed then cross else some 1 in
        ap (λ x. or_panic x (λ v. if o.one_fe == v then some 1 else from_seven)) expected
        ∙ ap (λ b. if b then some 1 else from_seven) one-not-zero
        ∙ ap (λ b. if b then cross else some 1) tampering_noticed
        ∙ ap (λ x. or_panic x (λ agree. some (if agree then 0 else 1))) hash_agrees

    pub checks_pass :
        {Options : Type 0} (winter : WinterAir Options Context) (inputs : PublicInputs F)
        → (demo_air winter inputs ≡ some air)
        → honest_report winter w cols inputs ≡ some 0
    unfolding honest_report
    checks_pass winter inputs made =
        let report : Option ℕ = tamper_report air w cols in
        let four : Option ℕ =
          if nat_beq (failed_assertions cols (get_assertions air.pub_inputs)) 0
          then report
          else some 1 in
        ap
          (λ x. or_panic x (λ (a : TitleAir F Context).
            if nat_beq (nonzero_results (eval_all_constraints a cols)) 0
            then if nat_beq (failed_assertions cols (get_assertions a.pub_inputs)) 0
              then tamper_report a w cols
              else some 1
            else some 1))
          made
        ∙ ap (λ n. if nat_beq n 0 then four else some 1) all_vanish
        ∙ ap (λ n. if nat_beq n 0 then report else some 1)
            (failed_assertions-zero cols (get_assertions air.pub_inputs) asserted)
        ∙ tamper_passes
