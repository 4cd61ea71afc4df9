-- ===== src/Examples/Circuit.antt =====
-- The theorems on the trace and its builder, over the field of two elements.
use yaqeen_stark_winterfell.Prelude.{
  ◌-◌, inr, none, length, map, IsDistinct, pair_eq, nat_eq, ℕ, zero, suc, ◌+◌, ◌*◌, ◌%◌, ◌<◌, ◌≡◌,
  refl, Bool, true, false, not, ◌&&◌, some, List, [], ◌∷◌, take, tabulate, All, nat_beq, ltb,
  if◌then◌else◌, arith,
}
use yaqeen_stark_winterfell.Air.Layout.{
  aux_a, aux_b, aux_c, aux_d, held_secret, held_pid, trace_width, trace_length, job_start_row,
  job_last_row, s0,
}
use yaqeen_stark_winterfell.Air.Permutation.{round_constants, lane, run_rounds, apply_round}
use yaqeen_stark_winterfell.Air.Inputs.{PublicInputs}
use yaqeen_stark_winterfell.Air.Constraints.{
  TitleAir, new_air, get_assertions, Steps, evaluate_transition, periodic_values_at, state_of,
  boundary, weighted_sum, get_periodic_column_values,
}
use yaqeen_stark_winterfell.Air.Job.{job_lem}
use yaqeen_stark_winterfell.Air.Typed.{HasType, typed_job_lem}
use yaqeen_stark_winterfell.Air.Permutation.{digest, absorb}
use yaqeen_stark_winterfell.Air.Shape.{new_air_lem, new_air_panics, cell}
use yaqeen_stark_winterfell.Harness.{recompute_root}
use yaqeen_stark_winterfell.Prover.Trace.{Witness, Columns, build_trace}
use yaqeen_stark_winterfell.Prover.Statement.{
  owner_commitment_of, leaf_of, nullifier_of, build_trace_lem,
}
use yaqeen_stark_winterfell.Examples.Contexts.{small_winter, small_winter-Documented}
use yaqeen_stark_winterfell.Examples.Instances.{bits, bits-Arithmetic}

-- A witness with 25 siblings, all right children.
abbrev pub owner : Witness Bool
owner = record {
  registry_id = true;
  purpose = false;
  request_nonce = true;
  current_timestamp = 10;
  owner_secret = true;
  property_id = true;
  license_expiry = 20;
  merkle_siblings = tabulate 25 0 (λ i. nat_beq (i % 2) 0);
  merkle_bits = tabulate 25 0 (λ i. true);
}

build_trace_lem_example :
    (cols : Columns Bool) × (inputs : PublicInputs Bool) × (build_trace owner ≡ some (cols, inputs))
    × (some inputs.merkle_root
        ≡ recompute_root
            (leaf_of true (owner_commitment_of true true) (bits.new 20))
            owner.merkle_siblings
            owner.merkle_bits)
    × (inputs.nullifier ≡ nullifier_of true true false true)
    × (inputs.registry_id ≡ true)
    × (inputs.purpose ≡ false)
    × (inputs.request_nonce ≡ true)
    × (inputs.current_timestamp ≡ bits.new 10)
build_trace_lem_example = build_trace_lem owner refl refl (omega arith)

-- A job whose first lanes are 1, 0, …, 0, typed as the first.
abbrev rows : ℕ → ℕ → Bool
rows r c =
    if ltb c 8
    then lane
        (run_rounds (true ∷ false ∷ false ∷ false ∷ false ∷ false ∷ false ∷ false ∷ [])
          (take r round_constants))
        c
    else nat_beq c 14

abbrev claimed : PublicInputs Bool
claimed = record {
  registry_id = true;
  merkle_root = true;
  purpose = true;
  request_nonce = true;
  current_timestamp = true;
  nullifier = true;
}

abbrev all_false : List Bool → Bool
all_false [] = true
all_false (x ∷ l) = not x && all_false l

All-all_false : (l : List Bool) → all_false l ≡ true → All (λ x. x ≡ false) l
All-all_false [] h = tt
All-all_false (false ∷ l) h = (refl, All-all_false l h)
All-all_false (true ∷ l) h = cc

vanish :
    (j : ℕ)
    → j < 7
    → all_false (evaluate_transition claimed (rows j) (rows (j + 1)) (periodic_values_at j)) ≡ true
unfolding evaluate_transition boundary weighted_sum apply_round run_rounds round_constants
    get_periodic_column_values
vanish zero h = refl
vanish (suc zero) h = refl
vanish (suc (suc zero)) h = refl
vanish (suc (suc (suc zero))) h = refl
vanish (suc (suc (suc (suc zero)))) h = refl
vanish (suc (suc (suc (suc (suc zero))))) h = refl
vanish (suc (suc (suc (suc (suc (suc zero)))))) h = refl
vanish (suc (suc (suc (suc (suc (suc (suc j))))))) h = absurd (omega arith)

steps : (j : ℕ) → j < 7 → Steps claimed rows (job_start_row 0 + j)
unfolding job_start_row
steps j h =
    let e : 0 * 8 + j ≡ j = omega arith in
    rw e (
      All-all_false (evaluate_transition claimed (rows j) (rows (j + 1)) (periodic_values_at j))
        (vanish j h))

job_lem_example :
    rows (job_last_row 0) s0
    ≡ lane (run_rounds (state_of (rows (job_start_row 0))) (take 7 round_constants)) 0
job_lem_example = job_lem bits-Arithmetic claimed rows 0 steps

-- Options with a blowup factor of eight.
new_air_lem_example :
    (air : TitleAir Bool (ℕ × ℕ)) × (new_air small_winter trace_width trace_length claimed 2
      ≡ some air)
    × (air.pub_inputs ≡ claimed)
    × (small_winter.num_transition_constraints air.context
        ≡ length (evaluate_transition claimed (rows 0) (rows 1) (periodic_values_at 0)))
    × (small_winter.num_assertions air.context ≡ length (get_assertions claimed))
    × IsDistinct (map cell (get_assertions claimed))
    × All (λ x. (x.0 < trace_width) × (x.1 < trace_length)) (map cell (get_assertions claimed))
new_air_lem_example =
    new_air_lem small_winter small_winter-Documented claimed 2 (rows 0) (rows 1)
      (periodic_values_at 0) (omega arith)

-- Options with a blowup factor of two.
new_air_panics_example : new_air small_winter trace_width trace_length claimed 0 ≡ none
new_air_panics_example =
    new_air_panics small_winter small_winter-Documented trace_width trace_length claimed 0
      (inr (inr (omega arith)))

-- A row with the digest 1, and a job after it, typed as a Merkle step with a zero sibling on the right.
abbrev climb_rows : ℕ → ℕ → Bool
climb_rows r c =
    if ltb r 8
    then nat_beq c 0
    else if ltb c 8
    then lane (run_rounds (absorb (false ∷ true ∷ false ∷ [])) (take (r - 8) round_constants)) c
    else nat_beq c 16

climb_vanish :
    (j : ℕ)
    → j < 8
    → all_false (
        evaluate_transition claimed
          (climb_rows (7 + j))
          (climb_rows (7 + j + 1))
          (periodic_values_at (7 + j)))
      ≡ true
unfolding evaluate_transition boundary weighted_sum apply_round run_rounds absorb round_constants
    get_periodic_column_values
climb_vanish zero h = refl
climb_vanish (suc zero) h = refl
climb_vanish (suc (suc zero)) h = refl
climb_vanish (suc (suc (suc zero))) h = refl
climb_vanish (suc (suc (suc (suc zero)))) h = refl
climb_vanish (suc (suc (suc (suc (suc zero))))) h = refl
climb_vanish (suc (suc (suc (suc (suc (suc zero)))))) h = refl
climb_vanish (suc (suc (suc (suc (suc (suc (suc zero))))))) h = refl
climb_vanish (suc (suc (suc (suc (suc (suc (suc (suc j)))))))) h = absurd (omega arith)

climb-Steps : (j : ℕ) → j < 8 → Steps claimed climb_rows (job_last_row 0 + j)
unfolding job_last_row
climb-Steps j h =
    All-all_false
      (evaluate_transition claimed (climb_rows (7 + j)) (climb_rows (7 + j + 1))
        (periodic_values_at (7 + j)))
      (climb_vanish j h)

typed_job_lem_example :
    (let before = climb_rows (job_last_row 0) in
      let first = climb_rows (job_start_row 1) in
      let digest_of = climb_rows (job_last_row 1) s0 in
      (HasType first false true false false
        → digest_of
          ≡ digest
              (bits.new 1 ∷ first aux_a ∷ before s0 ∷ first aux_b ∷ first aux_c ∷ first aux_d ∷ []))
      × (HasType first false false true false
          → (first aux_b ≡ false → digest_of ≡ digest (bits.new 4 ∷ before s0 ∷ first aux_a ∷ []))
            × (first aux_b ≡ true → digest_of ≡ digest (bits.new 4 ∷ first aux_a ∷ before s0 ∷ [])))
      × (HasType first false false false true
          → digest_of
            ≡ digest (
                bits.new 3
                ∷ before held_secret
                ∷ before held_pid
                ∷ first aux_a
                ∷ first aux_b
                ∷ [])))
typed_job_lem_example = typed_job_lem bits-Arithmetic claimed climb_rows 0 climb-Steps
