-- ===== src/Air/Ranged.antt =====
-- What the constraints say of the held columns and of the range check.
use native.Mathlib.Nat
use native.Mathlib.Nat.{pow-succ', add-mul, mul_assoc}
use yaqeen_stark_winterfell.Prelude.{
  ℕ, zero, suc, ◌+◌, ◌-◌, ◌*◌, ◌%◌, ◌^◌, ◌<◌, ◌≤◌, ◌≡◌, inl, inr, refl, ap, sym, ◌∙◌, subst,
  All-tabulate_zero, arith,
}
use yaqeen_stark_winterfell.Field.{FieldOps, Arithmetic, ◌⊕◌, ◌⊖◌, ◌⊗◌}
use yaqeen_stark_winterfell.Field.Algebra.{eq_of_sub, zero-mul, one-mul, zero_or_one}
use yaqeen_stark_winterfell.Air.Layout.{
  range_bits, rounds, trace_length, held_secret, held_pid, t_leaf, aux_d, rc_bit_0,
}
use yaqeen_stark_winterfell.Air.Inputs.{PublicInputs}
use yaqeen_stark_winterfell.Air.Constraints.{Steps, bit_result, weighted_sum}
use yaqeen_stark_winterfell.Air.Facts.{IsLarge, IsBoolean, parts, opened}

-- One weight, regrouped.
double_weight : (m p : ℕ) → m * (2 * p) ≡ 2 * m * p
double_weight m p = sym (mul_assoc m 2 p) ∙ ap (λ x. x * p) (Nat.mul_comm m 2)

double_weight_one : (acc m p : ℕ) → acc + p + m * (2 * p) ≡ acc + (2 * m + 1) * p
double_weight_one acc m p =
    let spread : (2 * m + 1) * p ≡ 2 * m * p + 1 * p = add-mul (2 * m) 1 p in
    omega (arith, spread, double_weight m p, Nat.one-mul p)

module _ {F : Type 0} ⦃o : FieldOps F⦄ (laws : Arithmetic F) where
  -- Boolean bits add up to an integer that they hold.
  bits_sum :
      (row : ℕ → F) (n i acc : ℕ)
      → ((k : ℕ) → k < n → IsBoolean laws (row (rc_bit_0 + (i + k))))
      → acc < 2 ^ i
      → i + n ≤ 32
      → (m : ℕ) × (m < 2 ^ n) × (weighted_sum row n i (o.new acc) ≡ o.new (acc + m * 2 ^ i))
  unfolding weighted_sum
  bits_sum row zero i acc bits fits small =
      let same : acc ≡ acc + 0 * 2 ^ i = omega (arith, Nat.zero-mul (2 ^ i)) in
      (0, omega arith, ap o.new same)
  bits_sum row (suc n) i acc bits fits small =
      let here : rc_bit_0 + (i + 0) ≡ rc_bit_0 + i = omega arith in
      let rest : (k : ℕ) → k < n → IsBoolean laws (row (rc_bit_0 + (suc i + k))) = λ k h.
        let at : rc_bit_0 + (i + suc k) ≡ rc_bit_0 + (suc i + k) = omega arith in
        subst (λ c. IsBoolean laws (row c)) at (bits (suc k) (omega arith)) in
      let doubled = pow-succ' 2 i in
      let doubled_n = pow-succ' 2 n in
      let bound : 2 ^ i ≤ 2 ^ 32 =
        Nat.pow-le-pow_right {n = 2} (omega arith) {i = i} {j = 32} (omega arith) in
      elim (subst (λ c. IsBoolean laws (row c)) here (bits 0 (omega arith))) [
        | inl off ↦
            let (m, lt, e) =
              bits_sum row n (suc i) acc rest (omega (arith, doubled)) (omega arith) in
            (
              2 * m,
              omega (arith, doubled_n),
              ap (weighted_sum row n (suc i)) (
                    ap (λ b. o.new acc ⊕ b ⊗ o.new (2 ^ i)) off
                    ∙ ap (λ x. o.new acc ⊕ x) (zero-mul laws (o.new (2 ^ i)))
                    ∙ laws.add-zero (o.new acc))
                  ∙ e
                  ∙ ap (λ p. o.new (acc + m * p)) doubled
                  ∙ ap (λ x. o.new (acc + x)) (double_weight m (2 ^ i)),
            )
        | inr on ↦
            let (m, lt, e) =
              bits_sum row n (suc i) (acc + 2 ^ i) rest (omega (arith, doubled)) (omega arith) in
            (
              2 * m + 1,
              omega (arith, doubled_n),
              ap (weighted_sum row n (suc i)) (
                    ap (λ b. o.new acc ⊕ b ⊗ o.new (2 ^ i)) on
                    ∙ ap (λ x. o.new acc ⊕ x) (one-mul laws (o.new (2 ^ i)))
                    ∙ sym (laws.new-add acc (2 ^ i) (omega arith)))
                  ∙ e
                  ∙ ap (λ p. o.new (acc + 2 ^ i + m * p)) doubled
                  ∙ ap o.new (double_weight_one acc m (2 ^ i)),
            )
      ]

  module _ (large : IsLarge F) (pub_inputs : PublicInputs F) (trace : ℕ → ℕ → F) where
    -- The range check on a leaf's first row: the expiry is the time stamp and one and an integer
    -- of 32 bits.
    pub range_row :
        (r : ℕ)
        → r % rounds ≡ 0
        → Steps pub_inputs trace r
        → trace r t_leaf ≡ o.one_fe
        → (n : ℕ) × (n < 2 ^ range_bits)
          × (trace r aux_d ≡ o.new n ⊕ o.one_fe ⊕ pub_inputs.current_timestamp)
    range_row r first steps typed =
        let row : ℕ → F = trace r in
        let (held, types, bits, (range, rest)) = parts pub_inputs trace r steps in
        let boolean : (k : ℕ) → k < range_bits → IsBoolean laws (row (rc_bit_0 + (0 + k))) = λ k h.
          let at : rc_bit_0 + k ≡ rc_bit_0 + (0 + k) = omega arith in
          subst (λ c. IsBoolean laws (row c)) at
            (zero_or_one laws (row (rc_bit_0 + k))
              (All-tabulate_zero (λ x. x ≡ o.zero_fe) range_bits (bit_result row) bits k h)) in
        let (n, lt, sum) = bits_sum row range_bits 0 0 boolean (omega arith) (omega arith) in
        let plain : 0 + n * 2 ^ 0 ≡ n = omega arith in
        let weighted : weighted_sum row range_bits 0 o.zero_fe ≡ o.new n =
          ap (weighted_sum row range_bits 0) (sym laws.new-zero) ∙ sum ∙ ap o.new plain in
        let excess : F =
          weighted_sum row range_bits 0 o.zero_fe
          ⊖ (row aux_d ⊖ pub_inputs.current_timestamp ⊖ o.one_fe) in
        let difference : o.new n ≡ row aux_d ⊖ pub_inputs.current_timestamp ⊖ o.one_fe =
          sym weighted
          ∙ eq_of_sub laws (weighted_sum row range_bits 0 o.zero_fe) _ (
              sym (one-mul laws excess)
              ∙ ap (λ t. t ⊗ excess) (sym typed)
              ∙ opened laws large pub_inputs trace r first steps _
                  (sym (laws.mul_assoc _ _ _) ∙ range)) in
        (
          n,
          lt,
          sym (laws.sub-add_cancel (row aux_d) pub_inputs.current_timestamp)
              ∙ ap (λ x. x ⊕ pub_inputs.current_timestamp)
                  (sym (laws.sub-add_cancel (row aux_d ⊖ pub_inputs.current_timestamp) o.one_fe)
                    ∙ ap (λ x. x ⊕ o.one_fe) (sym difference)),
        )

    -- The held columns do not change.
    pub held_rows :
        ((r : ℕ) → r < trace_length - 1 → Steps pub_inputs trace r)
        → (r : ℕ) → r < trace_length
        → (trace r held_secret ≡ trace 0 held_secret) × (trace r held_pid ≡ trace 0 held_pid)
    held_rows steps zero h = (refl, refl)
    held_rows steps (suc r) h =
        let (secret, (pid, rest)) = (parts pub_inputs trace r (steps r (omega arith))).0 in
        let before = held_rows steps r (omega arith) in
        let next : r + 1 ≡ suc r = omega arith in
        (
          ap (λ x. trace x held_secret) (sym next)
              ∙ eq_of_sub laws (trace (r + 1) held_secret) (trace r held_secret) secret
              ∙ before.0,
          ap (λ x. trace x held_pid) (sym next)
              ∙ eq_of_sub laws (trace (r + 1) held_pid) (trace r held_pid) pid
              ∙ before.1,
        )
