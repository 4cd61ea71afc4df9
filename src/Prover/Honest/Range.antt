-- ===== src/Prover/Honest/Range.antt =====
-- The range check of the honest trace: its bits add up to what the licence has left.
use native.Mathlib.Nat
use native.Mathlib.Nat.{pow-succ', div-div-eq-div-mul, add-mul, mul_assoc}
use yaqeen_stark_winterfell.Prelude.{
  ℕ, zero, suc, ◌+◌, ◌-◌, ◌*◌, ◌/◌, ◌%◌, ◌^◌, ◌<◌, ◌≡◌, inl, inr, ap, sym, ◌∙◌, Bool-cases, nat_beq,
  arith,
}
use yaqeen_stark_winterfell.Field.{FieldOps, Arithmetic, ◌⊕◌, ◌⊖◌, ◌⊗◌}
use yaqeen_stark_winterfell.Field.Algebra.{zero-mul, one-mul, mul-zero, sub_self, add-sub_cancel}
use yaqeen_stark_winterfell.Air.Layout.{rc_bit_0, range_bits, aux_d, t_leaf}
use yaqeen_stark_winterfell.Air.Inputs.{PublicInputs}
use yaqeen_stark_winterfell.Air.Constraints.{weighted_sum, range_result}

-- One bit, at its weight, and the rest.
split : (acc q p : ℕ) → acc + q % 2 * p + q / 2 * (2 * p) ≡ acc + q * p
split acc q p =
    let whole : q / 2 * 2 + q % 2 ≡ q = omega arith in
    let spread : q * p ≡ q / 2 * 2 * p + q % 2 * p =
      ap (λ x. x * p) (sym whole) ∙ add-mul (q / 2 * 2) (q % 2) p in
    let regroup : q / 2 * 2 * p ≡ q / 2 * (2 * p) = mul_assoc (q / 2) 2 p in
    omega (arith, spread, regroup)

module _ {F : Type 0} ⦃o : FieldOps F⦄ (laws : Arithmetic F) where
  weighted_bit : (b p : ℕ) → b < 2 → o.new b ⊗ o.new p ≡ o.new (b * p)
  weighted_bit b p small = elim (Bool-cases (nat_beq b 0)) [
    | inl e ↦
        let none : b ≡ 0 = ground arith in
        rw (none, Nat.zero-mul p, laws.new-zero) (zero-mul laws (o.new p))
    | inr e ↦
        let one : b ≡ 1 = ground arith in
        rw (one, Nat.one-mul p, laws.new-one) (one-mul laws (o.new p))
  ]

  -- The sum of the last `n` bits, those of `q`, from the `i`th on.
  weighted_sum-new :
      (row : ℕ → F) (n i q acc : ℕ)
      → ((k : ℕ) → k < n → row (rc_bit_0 + (i + k)) ≡ o.new (q / 2 ^ k % 2))
      → q < 2 ^ n
      → acc + q * 2 ^ i < 2 ^ 128
      → weighted_sum row n i (o.new acc) ≡ o.new (acc + q * 2 ^ i)
  unfolding weighted_sum
  weighted_sum-new row zero i q acc bits small fits =
      let none : q ≡ 0 = omega arith in
      let same : acc ≡ acc + q * 2 ^ i = rw (none, Nat.zero-mul (2 ^ i)) (omega arith) in
      ap o.new same
  weighted_sum-new row (suc n) i q acc bits small fits =
      let e0 : rc_bit_0 + i ≡ rc_bit_0 + (i + 0) = omega arith in
      let e1 : q / 2 ^ 0 % 2 ≡ q % 2 = omega arith in
      let total : acc + q % 2 * 2 ^ i + q / 2 * 2 ^ suc i ≡ acc + q * 2 ^ i =
        ap (λ p. acc + q % 2 * 2 ^ i + q / 2 * p) (pow-succ' 2 i) ∙ split acc q (2 ^ i) in
      let bit : row (rc_bit_0 + i) ⊗ o.new (2 ^ i) ≡ o.new (q % 2 * 2 ^ i) =
        ap (λ x. x ⊗ o.new (2 ^ i)) (ap row e0 ∙ bits 0 (omega arith) ∙ ap o.new e1)
        ∙ weighted_bit (q % 2) (2 ^ i) (omega arith) in
      ap (weighted_sum row n (suc i)) (
        ap (λ x. o.new acc ⊕ x) bit ∙ sym (laws.new-add acc (q % 2 * 2 ^ i) (omega (arith, total))))
      ∙ weighted_sum-new row n (suc i) (q / 2) (acc + q % 2 * 2 ^ i)
          (λ k h.
            let shift : rc_bit_0 + (suc i + k) ≡ rc_bit_0 + (i + suc k) = omega arith in
            let halves : q / 2 ^ suc k ≡ q / 2 / 2 ^ k =
              ap (λ p. q / p) (pow-succ' 2 k) ∙ sym (div-div-eq-div-mul q 2 (2 ^ k)) in
            ap row shift ∙ bits (suc k) (omega arith) ∙ ap (λ x. o.new (x % 2)) halves)
          (let double = pow-succ' 2 n in omega (arith, double)) (omega (arith, total))
      ∙ ap o.new total

  -- On the row of the bits of `d`, the expiry's column is the time stamp's and one and `d`.
  pub range_vanishes :
      (inputs : PublicInputs F) (row : ℕ → F) (is_first : F) (t e : ℕ)
      → t < e
      → e - t - 1 < 2 ^ range_bits
      → e < 2 ^ 64
      → ((k : ℕ) → k < range_bits → row (rc_bit_0 + k) ≡ o.new ((e - t - 1) / 2 ^ k % 2))
      → row aux_d ≡ o.new e
      → inputs.current_timestamp ≡ o.new t
      → range_result inputs row is_first ≡ o.zero_fe
  range_vanishes inputs row is_first t e later fits small bits is_e is_t =
      let d : ℕ = e - t - 1 in
      let unit : d * 2 ^ 0 ≡ d = omega arith in
      let total : 0 + d * 2 ^ 0 ≡ d = omega arith in
      let summed : weighted_sum row range_bits 0 o.zero_fe ≡ o.new d =
        ap (weighted_sum row range_bits 0) (sym laws.new-zero)
        ∙ weighted_sum-new row range_bits 0 d 0
            (λ k h. let z : rc_bit_0 + (0 + k) ≡ rc_bit_0 + k = omega arith in ap row z ∙ bits k h)
            fits (omega (arith, unit))
        ∙ ap o.new total in
      let parts : d + 1 + t ≡ e = omega arith in
      let spread : o.new e ≡ o.new d ⊕ o.one_fe ⊕ o.new t =
        ap o.new (sym parts)
        ∙ laws.new-add (d + 1) t (omega arith)
        ∙ ap (λ x. x ⊕ o.new t)
            (laws.new-add d 1 (omega arith) ∙ ap (λ x. o.new d ⊕ x) laws.new-one) in
      let difference : row aux_d ⊖ inputs.current_timestamp ⊖ o.one_fe ≡ o.new d =
        (λ i. is_e i ⊖ is_t i ⊖ o.one_fe)
        ∙ ap (λ x. x ⊖ o.new t ⊖ o.one_fe) spread
        ∙ ap (λ x. x ⊖ o.one_fe) (add-sub_cancel laws (o.new d ⊕ o.one_fe) (o.new t))
        ∙ add-sub_cancel laws (o.new d) o.one_fe in
      ap (λ x. is_first ⊗ row t_leaf ⊗ x) ((λ i. summed i ⊖ difference i) ∙ sub_self laws (o.new d))
      ∙ mul-zero laws (is_first ⊗ row t_leaf)
