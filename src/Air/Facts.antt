-- ===== src/Air/Facts.antt =====
-- What the constraints of one row say, over a field in which two and three are not zero.
use yaqeen_stark_winterfell.Prelude.{
  ℕ, ◌+◌, ◌%◌, ◌≡◌, ◌⊎◌, inl, inr, ap, sym, ◌∙◌, List, [], ◌∷◌, ◌++◌, All, All-append, tabulate,
  arith,
}
use yaqeen_stark_winterfell.Field.{FieldOps, Arithmetic, ◌⊕◌, ◌⊖◌, ◌⊗◌}
use yaqeen_stark_winterfell.Field.Algebra.{eq_of_sub, add_cancel, zero-add, one-mul, zero_or_one}
use yaqeen_stark_winterfell.Air.Layout.{
  state_width, range_bits, rounds, t_owner, t_leaf, t_merkle, t_nullifier, aux_b,
}
use yaqeen_stark_winterfell.Air.Permutation.{lane}
use yaqeen_stark_winterfell.Air.Inputs.{PublicInputs}
use yaqeen_stark_winterfell.Air.Constraints.{
  periodic_values_at, evaluate_transition, Steps, state_result, held_results, type_results,
  bit_result, range_result,
}
use yaqeen_stark_winterfell.Air.Job.{periodic-is_first}
use yaqeen_stark_winterfell.Air.Typed.{HasType}

-- A characteristic above three.
pub record IsLarge (F : Type 0) ⦃o : FieldOps F⦄ : Type 0 where
  pub two-ne-zero : ¬ (o.one_fe ⊕ o.one_fe ≡ o.zero_fe)
  pub three-ne-zero : ¬ (o.one_fe ⊕ o.one_fe ⊕ o.one_fe ≡ o.zero_fe)

module _ {F : Type 0} ⦃o : FieldOps F⦄ where
  abbrev Vanish : List F → Type 0
  Vanish l = All (λ x. x ≡ o.zero_fe) l

  module _ (pub_inputs : PublicInputs F) (trace : ℕ → ℕ → F) (r : ℕ)
      (steps : Steps pub_inputs trace r) where
    abbrev is_first : F
    is_first = lane (periodic_values_at r) state_width

    -- The parts of the row's results.
    pub parts :
        Vanish (held_results (trace r) (trace (r + 1)))
        × Vanish (type_results (trace r) is_first)
        × Vanish (tabulate range_bits 0 (bit_result (trace r)))
        × Vanish (range_result pub_inputs (trace r) is_first ∷ [])
    unfolding evaluate_transition
    parts =
        let P : F → Type 0 = λ x. x ≡ o.zero_fe in
        let lanes : List F =
          tabulate state_width 0 (state_result (trace r) (trace (r + 1)) (periodic_values_at r)) in
        let held : List F = held_results (trace r) (trace (r + 1)) in
        let types : List F = type_results (trace r) is_first in
        let bits : List F = tabulate range_bits 0 (bit_result (trace r)) in
        let range : List F = range_result pub_inputs (trace r) is_first ∷ [] in
        let (_, rest) = All-append P lanes (held ++ types ++ bits ++ range) steps in
        let (h, rest') = All-append P held (types ++ bits ++ range) rest in
        let (t, rest'') = All-append P types (bits ++ range) rest' in
        let (b, g) = All-append P bits range rest'' in (h, t, b, g)

module _ {F : Type 0} ⦃o : FieldOps F⦄ (laws : Arithmetic F) where
  abbrev pub IsBoolean : F → Type 0
  IsBoolean x = (x ≡ o.zero_fe) ⊎ (x ≡ o.one_fe)

  swap_last : (x b c : F) → x ⊕ b ⊕ c ≡ x ⊕ c ⊕ b
  swap_last x b c =
      laws.add_assoc x b c ∙ ap (λ y. x ⊕ y) (laws.add_comm b c) ∙ sym (laws.add_assoc x c b)

  -- Three booleans add up to zero only if all are zero.
  others_zero :
      IsLarge F
      → (x y z : F) → IsBoolean x
      → IsBoolean y
      → IsBoolean z
      → x ⊕ y ⊕ z ≡ o.zero_fe
      → (x ≡ o.zero_fe) × (y ≡ o.zero_fe) × (z ≡ o.zero_fe)
  others_zero large x y z (inl p) (inl q) (inl r) e = (p, q, r)
  others_zero large x y z (inl p) (inl q) (inr r) e =
      absurd (laws.one-ne-zero (cc (p, q, r, e, zero-add laws o.zero_fe, zero-add laws o.one_fe)))
  others_zero large x y z (inl p) (inr q) (inl r) e =
      absurd (laws.one-ne-zero (cc (p, q, r, e, zero-add laws o.one_fe, laws.add-zero o.one_fe)))
  others_zero large x y z (inl p) (inr q) (inr r) e =
      absurd (large.two-ne-zero (cc (p, q, r, e, zero-add laws o.one_fe)))
  others_zero large x y z (inr p) (inl q) (inl r) e =
      absurd (laws.one-ne-zero (cc (p, q, r, e, laws.add-zero o.one_fe)))
  others_zero large x y z (inr p) (inl q) (inr r) e =
      absurd (large.two-ne-zero (cc (p, q, r, e, laws.add-zero o.one_fe)))
  others_zero large x y z (inr p) (inr q) (inl r) e =
      absurd (large.two-ne-zero (cc (p, q, r, e, laws.add-zero (o.one_fe ⊕ o.one_fe))))
  others_zero large x y z (inr p) (inr q) (inr r) e = absurd (large.three-ne-zero (cc (p, q, r, e)))

  -- A sum of one with a summand of one.
  rest_zero : (x p : F) → p ≡ o.one_fe → x ⊕ p ≡ o.one_fe → x ≡ o.zero_fe
  rest_zero x p e sum =
      add_cancel laws x o.zero_fe o.one_fe
        (ap (λ y. x ⊕ y) (sym e) ∙ sum ∙ sym (zero-add laws o.one_fe))

  module _ (large : IsLarge F) (a b c d : F) (bool_a : IsBoolean a) (bool_b : IsBoolean b)
      (bool_c : IsBoolean c) (bool_d : IsBoolean d) (sum : a ⊕ b ⊕ c ⊕ d ≡ o.one_fe) where
    hot_second : b ≡ o.one_fe → (a ≡ o.zero_fe) × (c ≡ o.zero_fe) × (d ≡ o.zero_fe)
    hot_second e = others_zero large a c d bool_a bool_c bool_d (
        rest_zero (a ⊕ c ⊕ d) b e (swap_last (a ⊕ c) d b ∙ ap (λ x. x ⊕ d) (swap_last a c b) ∙ sum))

    hot_third : c ≡ o.one_fe → (a ≡ o.zero_fe) × (b ≡ o.zero_fe) × (d ≡ o.zero_fe)
    hot_third e =
        others_zero large a b d bool_a bool_b bool_d
          (rest_zero (a ⊕ b ⊕ d) c e (swap_last (a ⊕ b) d c ∙ sum))

    hot_fourth : d ≡ o.one_fe → (a ≡ o.zero_fe) × (b ≡ o.zero_fe) × (c ≡ o.zero_fe)
    hot_fourth e = others_zero large a b c bool_a bool_b bool_c (rest_zero (a ⊕ b ⊕ c) d e sum)

  module _ (large : IsLarge F) (pub_inputs : PublicInputs F) (trace : ℕ → ℕ → F) (r : ℕ)
      (first : r % rounds ≡ 0) (steps : Steps pub_inputs trace r) where
    -- The gate is open on a first row.
    pub opened : (x : F) → lane (periodic_values_at r) state_width ⊗ x ≡ o.zero_fe → x ≡ o.zero_fe
    opened x e =
        let gate : lane (periodic_values_at {F = F} r) state_width ≡ o.one_fe =
          periodic-is_first r ∙ ground arith in
        sym (one-mul laws x) ∙ ap (λ g. g ⊗ x) (sym gate) ∙ e

    abbrev row : ℕ → F
    row = trace r

    abbrev boolean_at : (x : F) → x ⊗ x ⊖ x ≡ o.zero_fe → IsBoolean x
    boolean_at x e = zero_or_one laws x e

    pub typed_row :
        (row t_leaf ≡ o.one_fe → HasType row o.zero_fe o.one_fe o.zero_fe o.zero_fe)
        × (row t_merkle ≡ o.one_fe → HasType row o.zero_fe o.zero_fe o.one_fe o.zero_fe)
        × (row t_nullifier ≡ o.one_fe → HasType row o.zero_fe o.zero_fe o.zero_fe o.one_fe)
    typed_row =
        let (owner, (leaf, (merkle, (nullifier, (sum, rest))))) =
          (parts pub_inputs trace r steps).1 in
        let is_owner = boolean_at (row t_owner) (opened _ owner) in
        let is_leaf = boolean_at (row t_leaf) (opened _ leaf) in
        let is_merkle = boolean_at (row t_merkle) (opened _ merkle) in
        let is_nullifier = boolean_at (row t_nullifier) (opened _ nullifier) in
        let total : row t_owner ⊕ row t_leaf ⊕ row t_merkle ⊕ row t_nullifier ≡ o.one_fe =
          eq_of_sub laws _ o.one_fe (opened _ sum) in
        (
          λ e.
              let (p, q, s) =
                hot_second large _ _ _ _ is_owner is_leaf is_merkle is_nullifier total e in
              record { is_owner = p; is_leaf = e; is_merkle = q; is_nullifier = s },
          λ e.
              let (p, q, s) =
                hot_third large _ _ _ _ is_owner is_leaf is_merkle is_nullifier total e in
              record { is_owner = p; is_leaf = q; is_merkle = e; is_nullifier = s },
          λ e.
              let (p, q, s) =
                hot_fourth large _ _ _ _ is_owner is_leaf is_merkle is_nullifier total e in
              record { is_owner = p; is_leaf = q; is_merkle = s; is_nullifier = e },
        )

    -- On a Merkle step the direction is boolean.
    pub direction_row : row t_merkle ≡ o.one_fe → IsBoolean (row aux_b)
    direction_row e =
        let (owner, (leaf, (merkle, (nullifier, (sum, (bit, rest)))))) =
          (parts pub_inputs trace r steps).1 in
        boolean_at (row aux_b) (
          sym (one-mul laws (row aux_b ⊗ row aux_b ⊖ row aux_b))
          ∙ ap (λ x. x ⊗ (row aux_b ⊗ row aux_b ⊖ row aux_b)) (sym e)
          ∙ opened _ (sym (laws.mul_assoc _ _ _) ∙ bit))
