-- ===== src/Air/Degrees.antt =====
-- The degrees that `TitleAir::new` declares, against the constraints that `evaluate_transition` has.
pub mod Declared
use yaqeen_stark_winterfell.Prelude.{
  ℕ, zero, suc, ◌+◌, ◌-◌, ◌*◌, ◌%◌, ◌^◌, ◌<◌, ◌≤◌, List, [], ◌∷◌, ◌++◌, get_or, tabulate, All,
  All-tabulate_intro, arith,
}
use yaqeen_stark_winterfell.Field.{FieldOps, ◌⊕◌, ◌⊖◌, ◌⊗◌}
use yaqeen_stark_winterfell.Air.Layout.{
  state_width, rounds, range_bits, s0, aux_a, aux_b, aux_c, aux_d, held_secret, held_pid, t_owner,
  t_leaf, t_merkle, t_nullifier, rc_bit_0, domain_owner_commitment, domain_leaf, domain_node,
  domain_nullifier,
}
use yaqeen_stark_winterfell.Air.Permutation.{lane, mix_coeffs, mix_sum, mix, sbox, apply_round}
use yaqeen_stark_winterfell.Air.Inputs.{PublicInputs}
use yaqeen_stark_winterfell.Air.Context.{Degree, plain, with_cycles, base, num_cycles}
use yaqeen_stark_winterfell.Air.Constraints.{
  state_of, boundary, weighted_sum, state_result, held_results, type_results, bit_result,
  range_result, evaluate_transition, transition_degrees,
}

-- A bound on the degree, as polynomials have one, where the elements stand for polynomials.
pub record BoundsDegrees (F : Type 0) ⦃o : FieldOps F⦄ (Within : ℕ → F → Type 0) : Type 0 where
  pub zero_within : Within 0 o.zero_fe
  pub one_within : Within 0 o.one_fe
  pub new_within : (n : ℕ) → Within 0 (o.new n)
  pub add_within : (d : ℕ) (a b : F) → Within d a → Within d b → Within d (a ⊕ b)
  pub sub_within : (d : ℕ) (a b : F) → Within d a → Within d b → Within d (a ⊖ b)
  pub mul_within : (d e : ℕ) (a b : F) → Within d a → Within e b → Within (d + e) (a ⊗ b)
  pub exp_within : (d n : ℕ) (a : F) → Within d a → Within (n * d) (o.exp a n)
  pub widen : (d e : ℕ) (a : F) → d ≤ e → Within d a → Within e a

module _ {F : Type 0} ⦃o : FieldOps F⦄ (Within : ℕ → F → Type 0) (d p : ℕ) where
  -- Each element is within the degree that is declared in its place, where the columns of the trace
  -- are within `d` and the periodic ones within `p`.
  abbrev pub AreWithin : List F → List Degree → Type 0
  AreWithin [] [] = Unit
  AreWithin [] (g ∷ gs) = ⊥
  AreWithin (x ∷ xs) [] = ⊥
  AreWithin (x ∷ xs) (g ∷ gs) = Within (base g * d + num_cycles g * p) x × AreWithin xs gs

  pub AreWithin-tabulate :
      (n i : ℕ) (f : ℕ → F) (g : Degree) (xs : List F) (gs : List Degree)
      → ((k : ℕ) → Within (base g * d + num_cycles g * p) (f k))
      → AreWithin xs gs
      → AreWithin (tabulate n i f ++ xs) (tabulate n i (λ _. g) ++ gs)
  AreWithin-tabulate zero i f g xs gs h rest = rest
  AreWithin-tabulate (suc n) i f g xs gs h rest =
      (h i, AreWithin-tabulate n (suc i) f g xs gs h rest)

module _ {F : Type 0} ⦃o : FieldOps F⦄ (Within : ℕ → F → Type 0)
    (laws : BoundsDegrees F Within) where
  pub within_zero : (d : ℕ) → Within d o.zero_fe
  within_zero d = laws.widen 0 d o.zero_fe (omega arith) laws.zero_within

  pub within_one : (d : ℕ) → Within d o.one_fe
  within_one d = laws.widen 0 d o.one_fe (omega arith) laws.one_within

  pub within_lane : (d : ℕ) (l : List F) (i : ℕ) → All (Within d) l → Within d (lane l i)
  within_lane d [] i h = within_zero d
  within_lane d (x ∷ l) zero (p, h) = p
  within_lane d (x ∷ l) (suc i) (p, h) = within_lane d l i h

  -- A product with a bound on the sum of the degrees.
  pub times : (d e m : ℕ) (a b : F) → Within d a → Within e b → d + e ≤ m → Within m (a ⊗ b)
  times d e m a b h k le = laws.widen (d + e) m (a ⊗ b) le (laws.mul_within d e a b h k)

  -- A product with a constant.
  scaled : (d m : ℕ) (a : F) (n : ℕ) → Within d a → d ≤ m → Within m (a ⊗ o.new n)
  scaled d m a n h le = times d 0 m a (o.new n) h (laws.new_within n) (omega (arith, le))

  mix_sum-within :
      (d : ℕ) (state : List F) (i n j : ℕ) (acc : F)
      → All (Within d) state
      → Within d acc
      → Within d (mix_sum state i n j acc)
  unfolding mix_sum
  mix_sum-within d state i zero j acc h a = a
  mix_sum-within d state i (suc n) j acc h a =
      let x : F = lane state ((i + j) % state_width) in
      let c : ℕ = get_or mix_coeffs j 0 in
      mix_sum-within d state i n (suc j) (acc ⊕ x ⊗ o.new c) h (
        laws.add_within d acc (x ⊗ o.new c) a
          (scaled d d x c (within_lane d state ((i + j) % state_width) h) (omega arith)))

  pub apply_round-within :
      (d : ℕ) (state rc : List F)
      → All (Within d) state
      → All (Within d) rc
      → All (Within (3 * d)) (apply_round state rc)
  unfolding apply_round mix sbox
  apply_round-within d state rc h k =
      let keyed : List F = tabulate state_width 0 (λ i. lane state i ⊕ lane rc i) in
      let keyed-within : All (Within d) keyed =
        All-tabulate_intro (Within d) state_width 0 (λ i. lane state i ⊕ lane rc i)
          (λ i a b.
            laws.add_within d (lane state i) (lane rc i) (within_lane d state i h)
              (within_lane d rc i k)) in
      let cubes-within : All (Within (3 * d)) (sbox keyed) =
        All-tabulate_intro (Within (3 * d)) state_width 0 (λ i. o.exp (lane keyed i) 3)
          (λ i a b. laws.exp_within d 3 (lane keyed i) (within_lane d keyed i keyed-within)) in
      All-tabulate_intro (Within (3 * d)) state_width 0
        (λ i. mix_sum (sbox keyed) i state_width 0 o.zero_fe)
        (λ i a b.
          mix_sum-within (3 * d) (sbox keyed) i state_width 0 o.zero_fe cubes-within
            (within_zero (3 * d)))

  pub weighted_sum-within :
      (d : ℕ) (cur : ℕ → F) (n i : ℕ) (acc : F)
      → ((c : ℕ) → Within d (cur c))
      → Within d acc
      → Within d (weighted_sum cur n i acc)
  unfolding weighted_sum
  weighted_sum-within d cur zero i acc h a = a
  weighted_sum-within d cur (suc n) i acc h a =
      let x : F = cur (rc_bit_0 + i) in
      weighted_sum-within d cur n (suc i) (acc ⊕ x ⊗ o.new (2 ^ i)) h (
        laws.add_within d acc (x ⊗ o.new (2 ^ i)) a
          (scaled d d x (2 ^ i) (h (rc_bit_0 + i)) (omega arith)))

  module _ (d p : ℕ) (below : p ≤ d) (cur nxt : ℕ → F) (periodic_values : List F)
      (now : (c : ℕ) → Within d (cur c)) (next : (c : ℕ) → Within d (nxt c))
      (periodic : All (Within p) periodic_values) where
    -- Either side of a Merkle step.
    either_side :
        (a b : F)
        → Within d a
        → Within d b
        → Within (2 * d) (nxt aux_b ⊗ a ⊕ (o.one_fe ⊖ nxt aux_b) ⊗ b)
    either_side a b h k =
        laws.add_within (2 * d) (nxt aux_b ⊗ a) ((o.one_fe ⊖ nxt aux_b) ⊗ b)
          (times d d (2 * d) (nxt aux_b) a (next aux_b) h (omega arith))
          (times d d (2 * d) (o.one_fe ⊖ nxt aux_b) b
            (laws.sub_within d o.one_fe (nxt aux_b) (within_one d) (next aux_b)) k (omega arith))

    sum_four :
        (a b c e : F)
        → Within (3 * d) a
        → Within (3 * d) b
        → Within (3 * d) c
        → Within (3 * d) e
        → Within (3 * d) (a ⊕ b ⊕ c ⊕ e)
    sum_four a b c e ha hb hc he =
        laws.add_within (3 * d) (a ⊕ b ⊕ c) e
          (laws.add_within (3 * d) (a ⊕ b) c (laws.add_within (3 * d) a b ha hb) hc) he

    typed : (t : ℕ) (x : F) → Within d x → Within (3 * d) (nxt t ⊗ x)
    typed t x h = times d d (3 * d) (nxt t) x (next t) h (omega arith)

    typed_side : (t : ℕ) (x : F) → Within (2 * d) x → Within (3 * d) (nxt t ⊗ x)
    typed_side t x h = times d (2 * d) (3 * d) (nxt t) x (next t) h (omega arith)

    tagged : (t n : ℕ) → Within (3 * d) (nxt t ⊗ o.new n)
    tagged t n = scaled d (3 * d) (nxt t) n (next t) (omega arith)

    pub boundary-within : All (Within (3 * d)) (boundary cur nxt)
    unfolding boundary
    boundary-within = (
      sum_four _ _ _ _ (tagged t_owner domain_owner_commitment) (tagged t_leaf domain_leaf)
          (tagged t_merkle domain_node) (tagged t_nullifier domain_nullifier),
      (
        sum_four _ _ _ _ (typed t_owner (cur held_secret) (now held_secret))
            (typed t_leaf (nxt aux_a) (next aux_a))
            (typed_side t_merkle _ (either_side (nxt aux_a) (cur s0) (next aux_a) (now s0)))
            (typed t_nullifier (cur held_secret) (now held_secret)),
        (
          sum_four _ _ _ _ (typed t_owner (cur held_pid) (now held_pid))
              (typed t_leaf (cur s0) (now s0))
              (typed_side t_merkle _ (either_side (cur s0) (nxt aux_a) (now s0) (next aux_a)))
              (typed t_nullifier (cur held_pid) (now held_pid)),
          (
            laws.add_within (3 * d) _ _ (typed t_leaf (nxt aux_b) (next aux_b))
                (typed t_nullifier (nxt aux_a) (next aux_a)),
            (
              laws.add_within (3 * d) _ _ (typed t_leaf (nxt aux_c) (next aux_c))
                  (typed t_nullifier (nxt aux_b) (next aux_b)),
              (
                typed t_leaf (nxt aux_d) (next aux_d),
                (within_zero (3 * d), (within_zero (3 * d), tt)),
              ),
            ),
          ),
        ),
      ),
    )
