-- ===== src/Air/Job.antt =====
-- Proofs about the rows of one job of the trace.
use yaqeen_stark_winterfell.Prelude.{
  ℕ, zero, suc, ◌+◌, ◌-◌, ◌*◌, ◌%◌, ◌<◌, ◌≤◌, ◌≡◌, ◌≢◌, refl, sym, ap, ◌∙◌, List, [], ◌∷◌, ◌++◌,
  length, get_or, take, tabulate, All, All-append, get_or-tabulate_zero, get_or-append,
  All-tabulate_zero, tabulate_ext, take-tabulate, length-tabulate, nat_beq, if◌then◌else◌, arith,
}
use yaqeen_stark_winterfell.Field.{FieldOps, Arithmetic, ◌⊕◌, ◌⊖◌, ◌⊗◌}
use yaqeen_stark_winterfell.Field.Algebra.{eq_of_sub, gate_first}
use yaqeen_stark_winterfell.Air.Layout.{
  state_width, range_bits, rounds, job_start_row, job_last_row, s0,
}
use yaqeen_stark_winterfell.Air.Permutation.{
  round_constants, draw_rounds, lane, apply_round, mix, sbox, run_rounds,
}
use yaqeen_stark_winterfell.Air.Inputs.{PublicInputs}
use yaqeen_stark_winterfell.Air.Constraints.{
  get_periodic_column_values, periodic_values_at, state_of, boundary, evaluate_transition, Steps,
  state_result, held_results, type_results, bit_result, range_result,
}

module _ (F : Type 0) ⦃o : FieldOps F⦄ where
  length-draw_rounds : (n seed : ℕ) → length (draw_rounds {F = F} n seed) ≡ n
  unfolding draw_rounds
  length-draw_rounds zero seed = refl
  length-draw_rounds (suc n) seed = ap suc (length-draw_rounds n _)

  length-round_constants : length (round_constants {F = F}) ≡ rounds
  unfolding round_constants
  length-round_constants = length-draw_rounds rounds 0x5441_5145_454e_2d31

module _ {F : Type 0} ⦃o : FieldOps F⦄ where
  abbrev pub constants_of : ℕ → List F
  constants_of r = get_or round_constants r []

  pub take-round_constants :
      take (rounds - 1) round_constants ≡ tabulate (rounds - 1) 0 constants_of
  take-round_constants =
      take-tabulate (rounds - 1) round_constants []
        (let e = length-round_constants F in omega (arith, e))

  -- The periodic columns at a row are the round's constants and the two gates.
  periodic-column :
      (r c : ℕ)
      → c < state_width + 2
      → lane (periodic_values_at {F = F} r) c
        ≡ lane (get_or get_periodic_column_values c []) (r % rounds)
  periodic-column r c lt =
      get_or-tabulate_zero (state_width + 2)
        (λ c. lane (get_or get_periodic_column_values c []) (r % rounds)) c o.zero_fe lt

  pub periodic-constants :
      (r c : ℕ)
      → c < state_width
      → lane (periodic_values_at {F = F} r) c ≡ lane (constants_of (r % rounds)) c
  unfolding get_periodic_column_values
  periodic-constants r c lt =
      let column : ℕ → List F = λ l. tabulate rounds 0 (λ r. lane (constants_of r) l) in
      let small : r % rounds < rounds = omega arith in
      periodic-column r c (omega arith)
      ∙ ap (λ l. lane l (r % rounds))
          (get_or-append (tabulate state_width 0 column)
              (tabulate rounds 0 (λ r. if nat_beq r 0 then o.one_fe else o.zero_fe)
                ∷ tabulate rounds 0 (λ r. if nat_beq r (rounds - 1) then o.one_fe else o.zero_fe)
                ∷ [])
              c [] (let e = length-tabulate state_width 0 column in omega (arith, e))
            ∙ get_or-tabulate_zero state_width column c [] lt)
      ∙ get_or-tabulate_zero rounds (λ r. lane (constants_of r) c) (r % rounds) o.zero_fe small

  pub periodic-is_first :
      (r : ℕ)
      → lane (periodic_values_at {F = F} r) state_width
        ≡ (if nat_beq (r % rounds) 0 then o.one_fe else o.zero_fe)
  unfolding get_periodic_column_values
  periodic-is_first r =
      let small : r % rounds < rounds = omega arith in
      periodic-column r state_width (omega arith)
      ∙ get_or-tabulate_zero rounds (λ r. if nat_beq r 0 then o.one_fe else o.zero_fe) (r % rounds)
          o.zero_fe small

  pub periodic-is_last :
      (r : ℕ)
      → lane (periodic_values_at {F = F} r) (state_width + 1)
        ≡ (if nat_beq (r % rounds) (rounds - 1) then o.one_fe else o.zero_fe)
  unfolding get_periodic_column_values
  periodic-is_last r =
      let small : r % rounds < rounds = omega arith in
      periodic-column r (state_width + 1) (omega arith)
      ∙ get_or-tabulate_zero rounds (λ r. if nat_beq r (rounds - 1) then o.one_fe else o.zero_fe)
          (r % rounds) o.zero_fe small

  -- A round reads the eight lanes of its state and of its constants only.
  pub apply_round_lanes :
      (state state' rc rc' : List F)
      → ((i : ℕ) → i < state_width → lane state i ≡ lane state' i)
      → ((i : ℕ) → i < state_width → lane rc i ≡ lane rc' i)
      → apply_round state rc ≡ apply_round state' rc'
  unfolding apply_round
  apply_round_lanes state state' rc rc' g h =
      ap (λ l. mix (sbox l))
        (tabulate_ext state_width 0 (λ i. lane state i ⊕ lane rc i)
          (λ i. lane state' i ⊕ lane rc' i)
          (λ k a b. λ j. g k (omega arith) j ⊕ h k (omega arith) j))

  apply_round_ext :
      (state rc rc' : List F)
      → ((i : ℕ) → i < state_width → lane rc i ≡ lane rc' i)
      → apply_round state rc ≡ apply_round state rc'
  apply_round_ext state rc rc' h = apply_round_lanes state state rc rc' (λ i a. refl) h

  -- A list of eight lanes is the table of its lanes.
  tabulate-lane_round :
      (state rc : List F)
      → tabulate state_width 0 (lane (apply_round state rc)) ≡ apply_round state rc
  unfolding apply_round mix
  tabulate-lane_round state rc = refl

  -- The part of a row's constraints that is about the lanes.
  pub Steps-lanes :
      (pub_inputs : PublicInputs F) (trace : ℕ → ℕ → F) (r : ℕ)
      → Steps pub_inputs trace r
      → All
          (λ x. x ≡ o.zero_fe)
          (tabulate state_width 0 (state_result (trace r) (trace (r + 1)) (periodic_values_at r)))
  unfolding evaluate_transition
  Steps-lanes pub_inputs trace r steps =
      let cur : ℕ → F = trace r in
      let is_first : F = lane (periodic_values_at r) state_width in
      (All-append (λ x. x ≡ o.zero_fe)
        (tabulate state_width 0 (state_result cur (trace (r + 1)) (periodic_values_at r)))
        (held_results cur (trace (r + 1))
          ++ type_results cur is_first
          ++ tabulate range_bits 0 (bit_result cur)
          ++ range_result pub_inputs cur is_first ∷ [])
        steps).0

module _ {F : Type 0} ⦃o : FieldOps F⦄ (laws : Arithmetic F) (pub_inputs : PublicInputs F)
    (trace : ℕ → ℕ → F) where
  -- On a row that does not end a job, the next row is the round's.
  pub row_step :
      (r : ℕ)
      → r % rounds ≢ rounds - 1
      → Steps pub_inputs trace r
      → state_of (trace (r + 1)) ≡ apply_round (state_of (trace r)) (constants_of (r % rounds))
  unfolding evaluate_transition
  row_step r inner steps =
      let periodic : List F = periodic_values_at r in
      let rc : List F = tabulate state_width 0 (lane periodic) in
      let round_next : List F = apply_round (state_of (trace r)) rc in
      let closed : lane periodic (state_width + 1) ≡ o.zero_fe =
        periodic-is_last r ∙ ground arith in
      let lanes : (i : ℕ) → i < state_width → trace (r + 1) i ≡ lane round_next i = λ i lt.
        let vanishes : state_result (trace r) (trace (r + 1)) periodic i ≡ o.zero_fe =
          All-tabulate_zero (λ x. x ≡ o.zero_fe) state_width
            (state_result (trace r) (trace (r + 1)) periodic) (Steps-lanes pub_inputs trace r steps)
            i lt in
        eq_of_sub laws (trace (r + 1) i)
          ((o.one_fe ⊖ lane periodic (state_width + 1)) ⊗ lane round_next i
            ⊕ lane periodic (state_width + 1) ⊗ lane (boundary (trace r) (trace (r + 1))) i)
          vanishes
        ∙ ap
            (λ g.
              (o.one_fe ⊖ g) ⊗ lane round_next i ⊕ g ⊗ lane (boundary (trace r) (trace (r + 1))) i)
            closed
        ∙ gate_first laws (lane round_next i) (lane (boundary (trace r) (trace (r + 1))) i) in
      tabulate_ext state_width 0 (trace (r + 1)) (lane round_next) (λ k a b. lanes k b)
      ∙ tabulate-lane_round (state_of (trace r)) rc
      ∙ apply_round_ext (state_of (trace r)) rc (constants_of (r % rounds)) (λ i lt.
        get_or-tabulate_zero state_width (lane periodic) i o.zero_fe lt ∙ periodic-constants r i lt)

  -- Rounds of a job, `n` of them from round `k`.
  rows_run :
      (start n k : ℕ)
      → start % rounds ≡ 0
      → k + n < rounds
      → ((j : ℕ) → k ≤ j → j < k + n → Steps pub_inputs trace (start + j))
      → state_of (trace (start + (k + n)))
        ≡ run_rounds (state_of (trace (start + k))) (tabulate n k constants_of)
  unfolding run_rounds
  rows_run start zero k aligned small steps =
      let e : start + (k + 0) ≡ start + k = omega arith in ap (λ r. state_of (trace r)) e
  rows_run start (suc n) k aligned small steps =
      let e : start + (k + suc n) ≡ start + (k + 1 + n) = omega arith in
      let k1 : start + (k + 1) ≡ start + k + 1 = omega arith in
      let suc_k : k + 1 ≡ suc k = omega arith in
      let round : (start + k) % rounds ≡ k = omega arith in
      ap (λ r. state_of (trace r)) e
      ∙ rows_run start n (k + 1) aligned (omega arith)
          (λ j a b. steps j (omega arith) (omega arith))
      ∙ ap (λ r. run_rounds (state_of (trace r)) (tabulate n (k + 1) constants_of)) k1
      ∙ ap (λ l. run_rounds l (tabulate n (k + 1) constants_of))
          (row_step (start + k) (omega arith) (steps k (omega arith) (omega arith)))
      ∙ ap
          (λ c.
            run_rounds (apply_round (state_of (trace (start + k))) (constants_of c))
              (tabulate n (k + 1) constants_of))
          round
      ∙ ap
          (λ m.
            run_rounds (apply_round (state_of (trace (start + k))) (constants_of k))
              (tabulate n m constants_of))
          suc_k

  -- Whatever the trace holds, where all transition constraints vanish on the first seven rows of
  -- a job, the first lane of the job's last row is what the rounds of `hash` make of the lanes of
  -- its first row. The field's arithmetic is lawful.
  pub job_lem :
      (job : ℕ)
      → ((j : ℕ) → j < rounds - 1 → Steps pub_inputs trace (job_start_row job + j))
      → trace (job_last_row job) s0
        ≡ lane
            (run_rounds (state_of (trace (job_start_row job))) (take (rounds - 1) round_constants))
            0
  unfolding job_start_row job_last_row
  job_lem job steps =
      let start : ℕ = job * rounds in
      let last : job_last_row job ≡ start + (0 + (rounds - 1)) = omega arith in
      let first : start + 0 ≡ start = omega arith in
      ap (λ r. trace r s0) last
      ∙ ap (λ l. lane l 0)
          (rows_run start (rounds - 1) 0 (omega arith) (omega arith)
              (λ j a b. steps j (omega arith))
            ∙ ap (λ r. run_rounds (state_of (trace r)) (tabulate (rounds - 1) 0 constants_of)) first
            ∙ ap (run_rounds (state_of (trace start))) (sym take-round_constants))
