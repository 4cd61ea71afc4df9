-- ===== src/Examples/Soundness.antt =====
-- Soundness at an honest trace, over the field of five elements.
use yaqeen_stark_winterfell.Prelude.{
  ℕ, ◌-◌, ◌%◌, ◌^◌, ◌<◌, ◌≡◌, refl, Bool, some, List, All, tabulate, nat_beq, arith,
}
use yaqeen_stark_winterfell.Field.{◌⊕◌}
use yaqeen_stark_winterfell.Air.Layout.{
  range_bits, trace_length, job_last_row, s0, held_secret, held_pid,
}
use yaqeen_stark_winterfell.Air.Inputs.{PublicInputs}
use yaqeen_stark_winterfell.Air.Constraints.{Steps, get_assertions}
use yaqeen_stark_winterfell.Air.Sound.{trace_sound}
use yaqeen_stark_winterfell.Harness.{recompute_root}
use yaqeen_stark_winterfell.Prover.Trace.{Witness, Columns, build_trace}
use yaqeen_stark_winterfell.Prover.Statement.{leaf_of, nullifier_of}
use yaqeen_stark_winterfell.Prover.Honest.Vanish.{rows_of}
use yaqeen_stark_winterfell.Prover.Honest.Complete.{build_trace_complete}
use yaqeen_stark_winterfell.Examples.Five.{Five, f1, f2, f3, fives, fives-Arithmetic, fives-IsLarge}

-- A witness with 25 siblings, of which every other is on the left.
abbrev holder : Witness Five
holder = record {
  registry_id = f1;
  purpose = f2;
  request_nonce = f3;
  current_timestamp = 10;
  owner_secret = f2;
  property_id = f3;
  license_expiry = 400;
  merkle_siblings = tabulate 25 0 (λ i. f2);
  merkle_bits = tabulate 25 0 (λ i. nat_beq (i % 2) 0);
}

honest :
    (cols : Columns Five) × (inputs : PublicInputs Five) × (build_trace holder
      ≡ some (cols, inputs))
    × ((r : ℕ) → r < trace_length - 1 → Steps inputs (rows_of cols) r)
    × All (λ a. cols a.column a.step ≡ a.value) (get_assertions inputs)
honest =
    build_trace_complete fives-Arithmetic holder refl refl (omega arith) (omega arith) (omega arith)

abbrev claimed : PublicInputs Five
claimed = honest.1

abbrev rows : ℕ → ℕ → Five
rows = rows_of honest.0

trace_sound_example :
    (owner expiry : Five) × (siblings : List Five) × (path : List Bool) × (n : ℕ) × (owner
      ≡ rows (job_last_row 0) s0)
    × (recompute_root (leaf_of claimed.registry_id owner expiry) siblings path
        ≡ some claimed.merkle_root)
    × (n < 2 ^ range_bits)
    × (expiry ≡ fives.new n ⊕ f1 ⊕ claimed.current_timestamp)
    × (claimed.nullifier
        ≡ nullifier_of (rows 0 held_secret) (rows 0 held_pid) claimed.purpose claimed.request_nonce)
trace_sound_example = trace_sound fives-Arithmetic fives-IsLarge claimed rows honest.3 honest.4
