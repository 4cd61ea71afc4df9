-- ===== src/Air/Degrees/Declared.antt =====
-- Proofs that no constraint exceeds its declared degree.
use yaqeen_stark_winterfell.Prelude.{
  ℕ, ◌+◌, ◌*◌, ◌≤◌, List, [], ◌∷◌, ◌++◌, tabulate, All, All-tabulate_intro, arith,
}
use yaqeen_stark_winterfell.Field.{FieldOps, ◌⊕◌, ◌⊖◌, ◌⊗◌}
use yaqeen_stark_winterfell.Air.Layout.{
  state_width, rounds, range_bits, aux_b, aux_d, held_secret, held_pid, t_owner, t_leaf, t_merkle,
  t_nullifier, rc_bit_0,
}
use yaqeen_stark_winterfell.Air.Permutation.{lane, apply_round}
use yaqeen_stark_winterfell.Air.Inputs.{PublicInputs}
use yaqeen_stark_winterfell.Air.Context.{Degree, plain, with_cycles}
use yaqeen_stark_winterfell.Air.Constraints.{
  state_of, boundary, weighted_sum, state_result, held_results, type_results, bit_result,
  range_result, evaluate_transition, transition_degrees,
}
use yaqeen_stark_winterfell.Air.Degrees.{
  BoundsDegrees, AreWithin, AreWithin-tabulate, within_zero, within_one, within_lane, times,
  apply_round-within, weighted_sum-within, boundary-within,
}

module _ {F : Type 0} ⦃o : FieldOps F⦄ (Within : ℕ → F → Type 0) (laws : BoundsDegrees F Within)
    (d p : ℕ) (below : p ≤ d) (cur nxt : ℕ → F) (periodic_values : List F)
    (now : (c : ℕ) → Within d (cur c)) (next : (c : ℕ) → Within d (nxt c))
    (periodic : All (Within p) periodic_values) where
  periodic_at : (i : ℕ) → Within p (lane periodic_values i)
  periodic_at i = within_lane Within laws p periodic_values i periodic

  state_result-within : (i : ℕ) → Within (3 * d + 1 * p) (state_result cur nxt periodic_values i)
  state_result-within i =
      let m : ℕ = 3 * d + 1 * p in
      let rc : List F = tabulate state_width 0 (lane periodic_values) in
      let is_last : F = lane periodic_values (state_width + 1) in
      let round : F = lane (apply_round (state_of cur) rc) i in
      let start : F = lane (boundary cur nxt) i in
      let state-within : All (Within d) (state_of cur) =
        All-tabulate_intro (Within d) state_width 0 cur (λ k a b. now k) in
      let rc-within : All (Within d) rc =
        All-tabulate_intro (Within d) state_width 0 (lane periodic_values)
          (λ k a b. laws.widen p d (lane periodic_values k) below (periodic_at k)) in
      let round-within : Within (3 * d) round =
        within_lane Within laws (3 * d) (apply_round (state_of cur) rc) i
          (apply_round-within Within laws d (state_of cur) rc state-within rc-within) in
      let start-within : Within (3 * d) start =
        within_lane Within laws (3 * d) (boundary cur nxt) i
          (boundary-within Within laws d p below cur nxt periodic_values now next periodic) in
      laws.sub_within m (nxt i) ((o.one_fe ⊖ is_last) ⊗ round ⊕ is_last ⊗ start)
        (laws.widen d m (nxt i) (omega arith) (next i))
        (laws.add_within m ((o.one_fe ⊖ is_last) ⊗ round) (is_last ⊗ start)
          (times Within laws p (3 * d) m (o.one_fe ⊖ is_last) round
            (laws.sub_within p o.one_fe is_last (within_one Within laws p)
              (periodic_at (state_width + 1)))
            round-within (omega arith))
          (times Within laws p (3 * d) m is_last start (periodic_at (state_width + 1)) start-within
            (omega arith)))

  -- `x * x - x`
  boolean-within : (x : F) → Within d x → Within (2 * d) (x ⊗ x ⊖ x)
  boolean-within x h =
      laws.sub_within (2 * d) (x ⊗ x) x (times Within laws d d (2 * d) x x h h (omega arith))
        (laws.widen d (2 * d) x (omega arith) h)

  constant_copy : (c : ℕ) → Within (1 * d + 0 * p) (nxt c ⊖ cur c)
  constant_copy c =
      laws.widen d (1 * d + 0 * p) (nxt c ⊖ cur c) (omega arith)
        (laws.sub_within d (nxt c) (cur c) (next c) (now c))

  type_boolean :
      (c : ℕ) → Within (2 * d + 1 * p) (lane periodic_values state_width ⊗ (cur c ⊗ cur c ⊖ cur c))
  type_boolean c =
      times Within laws p (2 * d) (2 * d + 1 * p) _ _ (periodic_at state_width)
        (boolean-within (cur c) (now c)) (omega arith)

  one_hot : Within (1 * d + 1 * p) (
      lane periodic_values state_width
      ⊗ (cur t_owner ⊕ cur t_leaf ⊕ cur t_merkle ⊕ cur t_nullifier ⊖ o.one_fe))
  one_hot =
      times Within laws p d (1 * d + 1 * p) _ _ (periodic_at state_width)
        (laws.sub_within d _ o.one_fe
          (laws.add_within d _ (cur t_nullifier)
            (laws.add_within d _ (cur t_merkle)
              (laws.add_within d (cur t_owner) (cur t_leaf) (now t_owner) (now t_leaf))
              (now t_merkle))
            (now t_nullifier))
          (within_one Within laws d))
        (omega arith)

  merkle_bit :
      Within
        (3 * d + 1 * p)
        (lane periodic_values state_width ⊗ cur t_merkle ⊗ (cur aux_b ⊗ cur aux_b ⊖ cur aux_b))
  merkle_bit =
      times Within laws (p + d) (2 * d) (3 * d + 1 * p) _ _
        (laws.mul_within p d _ (cur t_merkle) (periodic_at state_width) (now t_merkle))
        (boolean-within (cur aux_b) (now aux_b)) (omega arith)

  bit_result-within : (i : ℕ) → Within (2 * d + 0 * p) (bit_result cur i)
  bit_result-within i =
      laws.widen (2 * d) (2 * d + 0 * p) (bit_result cur i) (omega arith)
        (boolean-within (cur (rc_bit_0 + i)) (now (rc_bit_0 + i)))

  range_result-within :
      (pub_inputs : PublicInputs F)
      → Within 0 pub_inputs.current_timestamp
      → Within (2 * d + 1 * p) (range_result pub_inputs cur (lane periodic_values state_width))
  range_result-within pub_inputs stamp =
      let weighted : F = weighted_sum cur range_bits 0 o.zero_fe in
      let after : F = cur aux_d ⊖ pub_inputs.current_timestamp in
      times Within laws (p + d) d (2 * d + 1 * p) _ (weighted ⊖ (after ⊖ o.one_fe))
        (laws.mul_within p d _ (cur t_leaf) (periodic_at state_width) (now t_leaf))
        (laws.sub_within d weighted (after ⊖ o.one_fe)
          (weighted_sum-within Within laws d cur range_bits 0 o.zero_fe now
            (within_zero Within laws d))
          (laws.sub_within d after o.one_fe
            (laws.sub_within d (cur aux_d) pub_inputs.current_timestamp (now aux_d)
              (laws.widen 0 d pub_inputs.current_timestamp (omega arith) stamp))
            (within_one Within laws d)))
        (omega arith)

  -- Where the columns of the trace, in both rows, are polynomials of degree at most d, the
  -- periodic columns of degree at most p, no larger than d, and the public time stamp is of
  -- degree zero, `evaluate_transition` has one result for each degree that `TitleAir::new`
  -- declares, in the same order, of degree at most the declared multiple of d, and p more if a
  -- cycle is declared. The bound on degrees is any that is compatible with the arithmetic as
  -- polynomials' is.
  pub declared_degrees :
      (pub_inputs : PublicInputs F)
      → Within 0 pub_inputs.current_timestamp
      → AreWithin Within d p
          (evaluate_transition pub_inputs cur nxt periodic_values)
          transition_degrees
  unfolding evaluate_transition transition_degrees
  declared_degrees pub_inputs stamp =
      let is_first : F = lane periodic_values state_width in
      let range : List F = range_result pub_inputs cur is_first ∷ [] in
      let range_degree : List Degree = with_cycles 2 rounds ∷ [] in
      let bits : AreWithin Within d p (tabulate range_bits 0 (bit_result cur) ++ range)
          (tabulate range_bits 0 (λ _. plain 2) ++ range_degree) =
        AreWithin-tabulate Within d p range_bits 0 (bit_result cur) (plain 2) range range_degree
          bit_result-within (range_result-within pub_inputs stamp, tt) in
      AreWithin-tabulate Within d p state_width 0 (state_result cur nxt periodic_values)
        (with_cycles 3 rounds)
        (held_results cur nxt
          ++ type_results cur is_first
          ++ tabulate range_bits 0 (bit_result cur)
          ++ range)
        (plain 1 ∷ plain 1 ∷ tabulate 4 0 (λ _. with_cycles 2 rounds)
          ++ with_cycles 1 rounds ∷ with_cycles 3 rounds ∷ tabulate range_bits 0 (λ _. plain 2)
          ++ range_degree)
        state_result-within
        (
          constant_copy held_secret,
          (
            constant_copy held_pid,
            (
              type_boolean t_owner,
              (
                type_boolean t_leaf,
                (type_boolean t_merkle, (type_boolean t_nullifier, (one_hot, (merkle_bit, bits)))),
              ),
            ),
          ),
        )
