-- ===== src/Prover/Honest/Rounds.antt =====
-- The state constraints within a job of the honest trace.
use yaqeen_stark_winterfell.Prelude.{
  ℕ, zero, suc, ◌+◌, ◌-◌, ◌*◌, ◌%◌, ◌<◌, ◌≡◌, ap, sym, ◌∙◌, List, tabulate, get_or-tabulate_zero,
  arith,
}
use yaqeen_stark_winterfell.Field.{FieldOps, Arithmetic}
use yaqeen_stark_winterfell.Field.Algebra.{vanish_first}
use yaqeen_stark_winterfell.Air.Layout.{state_width, rounds}
use yaqeen_stark_winterfell.Air.Permutation.{lane, apply_round, run_rounds}
use yaqeen_stark_winterfell.Air.Constraints.{periodic_values_at, state_of, boundary, state_result}
use yaqeen_stark_winterfell.Air.Job.{
  constants_of, apply_round_lanes, periodic-constants, periodic-is_last,
}
use yaqeen_stark_winterfell.Prover.Trace.{Columns}
use yaqeen_stark_winterfell.Prover.Honest.Kinds.{Kind, kind_init, JobOk}

module _ {F : Type 0} ⦃o : FieldOps F⦄ where
  -- One round more.
  run_rounds-suc :
      (n i : ℕ) (state : List F)
      → run_rounds state (tabulate (suc n) i constants_of)
        ≡ apply_round (run_rounds state (tabulate n i constants_of)) (constants_of (i + n))
  unfolding run_rounds
  run_rounds-suc zero i state =
      let e : i ≡ i + 0 = omega arith in ap (λ k. apply_round state (constants_of k)) e
  run_rounds-suc (suc n) i state =
      let e : suc i + n ≡ i + suc n = omega arith in
      run_rounds-suc n (suc i) (apply_round state (constants_of i))
      ∙ ap (λ k. apply_round (run_rounds state (tabulate (suc n) i constants_of)) (constants_of k))
          e

  -- The lanes of a row of a job.
  pub JobOk-row :
      (cols : Columns F) (j : ℕ) (k : Kind F) (before : F)
      → JobOk cols j k before
      → (m c : ℕ) → m < rounds
      → c < state_width
      → cols c (j * 8 + m) ≡ lane (run_rounds (kind_init before k) (tabulate m 0 constants_of)) c
  unfolding run_rounds
  JobOk-row cols j k before ok zero c h small =
      let e : j * 8 + 0 ≡ j * 8 = omega arith in ap (λ r. cols c r) e ∙ ok.init c small
  JobOk-row cols j k before ok (suc m) c h small =
      let e : j * 8 + suc m ≡ j * 8 + m + 1 = omega arith in
      ap (λ r. cols c r) e ∙ ok.lanes m c (omega arith) small

  module _ (laws : Arithmetic F) (cols : Columns F) where
    pub round_vanishes :
        (j : ℕ) (k : Kind F) (before : F)
        → JobOk cols j k before
        → (r m i : ℕ) → r ≡ j * 8 + m
        → m < rounds - 1
        → i < state_width
        → state_result (λ c. cols c r) (λ c. cols c (r + 1)) (periodic_values_at r) i ≡ o.zero_fe
    unfolding boundary
    round_vanishes j k before ok r m i at h small =
        let cur : ℕ → F = λ c. cols c r in
        let periodic : List F = periodic_values_at r in
        let rc : List F = tabulate state_width 0 (lane periodic) in
        let next : List F = boundary cur (λ c. cols c (r + 1)) in
        let run : ℕ → List F = λ n. run_rounds (kind_init before k) (tabulate n 0 constants_of) in
        let round_of : r % rounds ≡ m = omega arith in
        let counted : m ≡ 0 + m = omega arith in
        let closed : lane periodic (state_width + 1) ≡ o.zero_fe =
          periodic-is_last r ∙ ground arith in
        let state : (c : ℕ) → c < state_width → lane (state_of cur) c ≡ lane (run m) c = λ c lt.
          get_or-tabulate_zero state_width cur c o.zero_fe lt
          ∙ ap (λ x. cols c x) at
          ∙ JobOk-row cols j k before ok m c (omega arith) lt in
        let constants : (c : ℕ) → c < state_width → lane rc c ≡ lane (constants_of m) c = λ c lt.
          get_or-tabulate_zero state_width (lane periodic) c o.zero_fe lt
          ∙ periodic-constants r c lt
          ∙ ap (λ x. lane (constants_of x) c) round_of in
        let round : apply_round (state_of cur) rc ≡ run (suc m) =
          apply_round_lanes (state_of cur) (run m) rc (constants_of m) state constants
          ∙ ap (λ x. apply_round (run m) (constants_of x)) counted
          ∙ sym (run_rounds-suc m 0 (kind_init before k)) in
        let below : r + 1 ≡ j * 8 + suc m = omega arith in
        vanish_first laws (lane periodic (state_width + 1)) (cols i (r + 1))
          (lane (apply_round (state_of cur) rc) i) (lane next i) closed
          (ap (λ x. cols i x) below
            ∙ JobOk-row cols j k before ok (suc m) i (omega arith) small
            ∙ ap (λ l. lane l i) (sym round))
