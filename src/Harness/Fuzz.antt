-- ===== src/Harness/Fuzz.antt =====
-- test-harness/air_test/src/fuzz_support.rs: the generator, and the search for violations of a
-- Boolean constraint that go unnoticed. `none` is a panic.
pub mod Caught
use Prim.Native.Nat.{bit_xor}
use yaqeen_stark_winterfell.Prelude.{
  ℕ, zero, suc, ◌+◌, ◌*◌, ◌/◌, ◌%◌, ◌^◌, ◌≡◌, refl, ap, sym, ◌∙◌, Bool, true, false, ◌||◌, Option,
  none, some, List, [], ◌∷◌, PartialEq, ◌==◌, map, nat_beq, if◌then◌else◌, arith, inl, inr,
  Bool-cases,
}
use yaqeen_stark_winterfell.Field.{FieldOps, Arithmetic, ◌⊖◌, ◌⊗◌, field_eq}
use yaqeen_stark_winterfell.Field.Algebra.{one-mul, zero_or_one}
use yaqeen_stark_winterfell.Air.Layout.{trace_width, trace_length, t_merkle, aux_b}
use yaqeen_stark_winterfell.Air.Permutation.{lane}
use yaqeen_stark_winterfell.Air.Inputs.{PublicInputs}
use yaqeen_stark_winterfell.Air.Context.{WinterAir}
use yaqeen_stark_winterfell.Air.Constraints.{
  TitleAir, evaluate_transition, get_periodic_column_values,
}
use yaqeen_stark_winterfell.Harness.Options.{demo_air}

-- `Rng::next_u64`: the generator's new state, which it returns as well.
unfoldable pub fuzz_next : ℕ → ℕ
fuzz_next s =
    let a = bit_xor s (s * 2 ^ 13 % 2 ^ 64) in
    let b = bit_xor a (a / 2 ^ 7) in bit_xor b (b * 2 ^ 17 % 2 ^ 64)

module _ {F : Type 0} ⦃o : FieldOps F⦄ where
  unfoldable pub field_elem : ℕ → F × ℕ
  unfolding fuzz_next
  field_elem s = (o.new (fuzz_next s), fuzz_next s)

  unfoldable pub dummy_air :
      {Options Context : Type 0} → WinterAir Options Context → Option (TitleAir F Context)
  unfolding demo_air
  dummy_air winter = demo_air winter (record {
    registry_id = o.zero_fe;
    merkle_root = o.zero_fe;
    purpose = o.zero_fe;
    request_nonce = o.zero_fe;
    current_timestamp = o.zero_fe;
    nullifier = o.zero_fe;
  })

  -- A row of zeros but for T_MERKLE, which is one, and AUX_B.
  abbrev pub fuzz_row : F → ℕ → F
  fuzz_row bad_bit c =
      if nat_beq c aux_b then bad_bit else if nat_beq c t_merkle then o.one_fe else o.zero_fe

  -- The results for a row at the start of a cycle, before a row of zeros.
  unfoldable pub fuzz_results : PublicInputs F → F → List F
  unfolding evaluate_transition
  fuzz_results pub_inputs bad_bit =
      evaluate_transition pub_inputs (fuzz_row bad_bit) (λ c. o.zero_fe)
        (map (λ col. lane col 0) get_periodic_column_values)

  -- One round's count, with its `continue` on a draw that is no violation.
  abbrev pub count_missed : PublicInputs F → F → ℕ → ℕ
  count_missed pub_inputs bad_bit missed =
      if bad_bit == o.zero_fe || bad_bit == o.one_fe
      then missed
      else if lane (fuzz_results pub_inputs bad_bit) 15 == o.zero_fe
      then missed + 1
      else missed

  -- The loop of `fuzz_boolean_violations_are_caught`, with `n` rounds to go.
  unfoldable pub fuzz_rounds : PublicInputs F → ℕ → ℕ → ℕ → ℕ
  unfolding field_elem
  fuzz_rounds pub_inputs zero s missed = missed
  fuzz_rounds pub_inputs (suc n) s missed =
      let (bad_bit, s') = field_elem s in
      fuzz_rounds pub_inputs n s' (count_missed pub_inputs bad_bit missed)

  abbrev pub run_fuzz : {Context : Type 0} → ℕ → ℕ → Option (TitleAir F Context) → Option ℕ
  run_fuzz seed iterations none = none
  run_fuzz seed iterations (some air) = some (fuzz_rounds air.pub_inputs iterations seed 0)

-- The field is an explicit argument: neither the seed nor the result shows it.
unfoldable pub fuzz_boolean_violations_are_caught :
    (F : Type 0) ⦃o : FieldOps F⦄ {Options Context : Type 0}
    → WinterAir Options Context
    → ℕ
    → ℕ
    → Option ℕ
unfolding dummy_air
fuzz_boolean_violations_are_caught F winter seed iterations =
    run_fuzz {F = F} seed iterations (dummy_air winter)
