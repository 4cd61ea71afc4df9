-- ===== src/Air/Typed.antt =====
-- Proofs about the row between two jobs and the job that follows it.
use yaqeen_stark_winterfell.Prelude.{
  ℕ, suc, ◌+◌, ◌-◌, ◌*◌, ◌%◌, ◌<◌, ◌≡◌, ap, ◌∙◌, subst, List, [], ◌∷◌, tabulate, take,
  All-tabulate_zero, tabulate_ext, arith,
}
use yaqeen_stark_winterfell.Field.{FieldOps, Arithmetic, ◌⊕◌, ◌⊖◌, ◌⊗◌}
use yaqeen_stark_winterfell.Field.Algebra.{
  eq_of_sub, gate_second, zero-mul, one-mul, pick_first, pick_second, pick_third, pick_fourth,
  pick_left, pick_right, pick_none, side_zero, side_one,
}
use yaqeen_stark_winterfell.Air.Layout.{
  state_width, rounds, domain_leaf, domain_owner_commitment, domain_node, domain_nullifier,
  job_start_row, job_last_row, s0, aux_a, aux_b, aux_c, aux_d, held_secret, held_pid, t_owner,
  t_leaf, t_merkle, t_nullifier,
}
use yaqeen_stark_winterfell.Air.Permutation.{
  lane, apply_round, absorb, run_rounds, round_constants, digest,
}
use yaqeen_stark_winterfell.Air.Inputs.{PublicInputs}
use yaqeen_stark_winterfell.Air.Constraints.{
  periodic_values_at, state_of, boundary, Steps, state_result,
}
use yaqeen_stark_winterfell.Air.Job.{Steps-lanes, periodic-is_last, job_lem}

-- The values of a row's four type columns.
pub record HasType {F : Type 0} (row : ℕ → F) (owner leaf merkle nullifier : F) : Type 0 where
  pub is_owner : row t_owner ≡ owner
  pub is_leaf : row t_leaf ≡ leaf
  pub is_merkle : row t_merkle ≡ merkle
  pub is_nullifier : row t_nullifier ≡ nullifier

-- Eight lanes of which the first six are equal one by one.
pub lanes_eq :
    {F : Type 0} {a b c d e f a' b' c' d' e' f' z : F}
    → a ≡ a'
    → b ≡ b'
    → c ≡ c'
    → d ≡ d'
    → e ≡ e'
    → f ≡ f'
    → (a ∷ b ∷ c ∷ d ∷ e ∷ f ∷ z ∷ z ∷ []) ≡ (a' ∷ b' ∷ c' ∷ d' ∷ e' ∷ f' ∷ z ∷ z ∷ [])
lanes_eq {z = z} p q r s t u = λ i. p i ∷ q i ∷ r i ∷ s i ∷ t i ∷ u i ∷ z ∷ z ∷ []

module _ {F : Type 0} ⦃o : FieldOps F⦄ (laws : Arithmetic F) where
  pub boundary_owner :
      (cur nxt : ℕ → F)
      → HasType nxt o.one_fe o.zero_fe o.zero_fe o.zero_fe
      → boundary cur nxt
        ≡ absorb (o.new domain_owner_commitment ∷ cur held_secret ∷ cur held_pid ∷ [])
  unfolding boundary absorb
  boundary_owner cur nxt t =
      rw (t.is_owner, t.is_leaf, t.is_merkle, t.is_nullifier)
        (lanes_eq (pick_first laws _ _ _ _) (pick_first laws _ _ _ _) (pick_first laws _ _ _ _)
          (pick_none laws _ _) (pick_none laws _ _) (zero-mul laws _))

  pub boundary_leaf :
      (cur nxt : ℕ → F)
      → HasType nxt o.zero_fe o.one_fe o.zero_fe o.zero_fe
      → boundary cur nxt
        ≡ absorb (o.new domain_leaf ∷ nxt aux_a ∷ cur s0 ∷ nxt aux_b ∷ nxt aux_c ∷ nxt aux_d ∷ [])
  unfolding boundary absorb
  boundary_leaf cur nxt t =
      rw (t.is_owner, t.is_leaf, t.is_merkle, t.is_nullifier)
        (lanes_eq (pick_second laws _ _ _ _) (pick_second laws _ _ _ _) (pick_second laws _ _ _ _)
          (pick_left laws _ _) (pick_left laws _ _) (one-mul laws _))

  pub boundary_nullifier :
      (cur nxt : ℕ → F)
      → HasType nxt o.zero_fe o.zero_fe o.zero_fe o.one_fe
      → boundary cur nxt
        ≡ absorb
            (o.new domain_nullifier ∷ cur held_secret ∷ cur held_pid ∷ nxt aux_a ∷ nxt aux_b ∷ [])
  unfolding boundary absorb
  boundary_nullifier cur nxt t =
      rw (t.is_owner, t.is_leaf, t.is_merkle, t.is_nullifier)
        (lanes_eq (pick_fourth laws _ _ _ _) (pick_fourth laws _ _ _ _) (pick_fourth laws _ _ _ _)
          (pick_right laws _ _) (pick_right laws _ _) (zero-mul laws _))

  pub boundary_merkle :
      (cur nxt : ℕ → F)
      → HasType nxt o.zero_fe o.zero_fe o.one_fe o.zero_fe
      → boundary cur nxt
        ≡ absorb (
            o.new domain_node
            ∷ (nxt aux_b ⊗ nxt aux_a ⊕ (o.one_fe ⊖ nxt aux_b) ⊗ cur s0)
            ∷ (nxt aux_b ⊗ cur s0 ⊕ (o.one_fe ⊖ nxt aux_b) ⊗ nxt aux_a)
            ∷ [])
  unfolding boundary absorb
  boundary_merkle cur nxt t =
      rw (t.is_owner, t.is_leaf, t.is_merkle, t.is_nullifier)
        (lanes_eq (pick_third laws _ _ _ _) (pick_third laws _ _ _ _) (pick_third laws _ _ _ _)
          (pick_none laws _ _) (pick_none laws _ _) (zero-mul laws _))

  module _ (pub_inputs : PublicInputs F) (trace : ℕ → ℕ → F) where
    -- On a row that ends a job, the next row is the boundary's.
    boundary_step :
        (r : ℕ)
        → r % rounds ≡ rounds - 1
        → Steps pub_inputs trace r
        → state_of (trace (r + 1)) ≡ boundary (trace r) (trace (r + 1))
    unfolding boundary
    boundary_step r last steps =
        let periodic : List F = periodic_values_at r in
        let rc : List F = tabulate state_width 0 (lane periodic) in
        let round_next : List F = apply_round (state_of (trace r)) rc in
        let next : List F = boundary (trace r) (trace (r + 1)) in
        let open_gate : lane periodic (state_width + 1) ≡ o.one_fe =
          periodic-is_last r ∙ ground arith in
        let lanes : (i : ℕ) → i < state_width → trace (r + 1) i ≡ lane next i = λ i lt.
          let vanishes : state_result (trace r) (trace (r + 1)) periodic i ≡ o.zero_fe =
            All-tabulate_zero (λ x. x ≡ o.zero_fe) state_width
              (state_result (trace r) (trace (r + 1)) periodic)
              (Steps-lanes pub_inputs trace r steps) i lt in
          eq_of_sub laws (trace (r + 1) i)
            ((o.one_fe ⊖ lane periodic (state_width + 1)) ⊗ lane round_next i
              ⊕ lane periodic (state_width + 1) ⊗ lane next i)
            vanishes
          ∙ ap (λ g. (o.one_fe ⊖ g) ⊗ lane round_next i ⊕ g ⊗ lane next i) open_gate
          ∙ gate_second laws (lane round_next i) (lane next i) in
        tabulate_ext state_width 0 (trace (r + 1)) (lane next) (λ k a b. lanes k b)

    -- The job after job `k` hashes what its first row absorbs.
    absorbed_job :
        (k : ℕ) (inputs : List F)
        → ((j : ℕ) → j < rounds → Steps pub_inputs trace (job_last_row k + j))
        → boundary (trace (job_last_row k)) (trace (job_start_row (k + 1))) ≡ absorb inputs
        → trace (job_last_row (k + 1)) s0 ≡ digest inputs
    unfolding digest job_last_row job_start_row
    absorbed_job k inputs steps e =
        let r : ℕ = k * rounds + rounds - 1 in
        let next : r + 1 ≡ (k + 1) * rounds = omega arith in
        let none_more : r + 0 ≡ r = omega arith in
        let here : Steps pub_inputs trace r =
          subst (Steps pub_inputs trace) none_more (steps 0 (omega arith)) in
        let first : state_of (trace ((k + 1) * rounds)) ≡ absorb inputs =
          subst (λ n. state_of (trace n) ≡ boundary (trace r) (trace n)) next
            (boundary_step r (omega arith) here)
          ∙ e in
        job_lem laws pub_inputs trace (k + 1) (λ j lt.
          let at : r + suc j ≡ (k + 1) * rounds + j = omega arith in
          subst (Steps pub_inputs trace) at (steps (suc j) (omega arith)))
        ∙ ap (λ l. lane (run_rounds l (take (rounds - 1) round_constants)) 0) first

    -- Whatever the trace holds, where all transition constraints vanish on the last row of job k
    -- and the first seven of the next, the digest of the next job is the hash that its type
    -- columns say: typed as a leaf, of the leaf tag, its first four auxiliary columns and the
    -- digest before in third place; typed as a Merkle step, of the node tag with the digest
    -- before on the left of the sibling where the direction column is zero, and on its right
    -- where it is one; typed as a nullifier, of the nullifier tag, the held secret and property,
    -- and its first two auxiliary columns. The field's arithmetic is lawful.
    pub typed_job_lem :
        (k : ℕ)
        → ((j : ℕ) → j < rounds → Steps pub_inputs trace (job_last_row k + j))
        → (let before = trace (job_last_row k) in
            let first = trace (job_start_row (k + 1)) in
            let digest_of = trace (job_last_row (k + 1)) s0 in
            (HasType first o.zero_fe o.one_fe o.zero_fe o.zero_fe
              → digest_of
                ≡ digest (
                    o.new domain_leaf
                    ∷ first aux_a
                    ∷ before s0
                    ∷ first aux_b
                    ∷ first aux_c
                    ∷ first aux_d
                    ∷ []))
            × (HasType first o.zero_fe o.zero_fe o.one_fe o.zero_fe
                → (first aux_b ≡ o.zero_fe
                    → digest_of ≡ digest (o.new domain_node ∷ before s0 ∷ first aux_a ∷ []))
                  × (first aux_b ≡ o.one_fe
                      → digest_of ≡ digest (o.new domain_node ∷ first aux_a ∷ before s0 ∷ [])))
            × (HasType first o.zero_fe o.zero_fe o.zero_fe o.one_fe
                → digest_of
                  ≡ digest (
                      o.new domain_nullifier
                      ∷ before held_secret
                      ∷ before held_pid
                      ∷ first aux_a
                      ∷ first aux_b
                      ∷ [])))
    typed_job_lem k steps =
        let before : ℕ → F = trace (job_last_row k) in
        let first : ℕ → F = trace (job_start_row (k + 1)) in
        let node_of : F → F → List F = λ l r. o.new domain_node ∷ l ∷ r ∷ [] in
        (
          λ t. absorbed_job k _ steps (boundary_leaf before first t),
          λ t. (
            λ bit. absorbed_job k (node_of (before s0) (first aux_a)) steps (
                boundary_merkle before first t
                ∙ ap
                    (λ b. absorb (
                      node_of (b ⊗ first aux_a ⊕ (o.one_fe ⊖ b) ⊗ before s0)
                        (b ⊗ before s0 ⊕ (o.one_fe ⊖ b) ⊗ first aux_a)))
                    bit
                ∙ (λ i. absorb (
                    node_of (side_zero laws (first aux_a) (before s0) i)
                      (side_zero laws (before s0) (first aux_a) i)))),
            λ bit. absorbed_job k (node_of (first aux_a) (before s0)) steps (
                boundary_merkle before first t
                ∙ ap
                    (λ b. absorb (
                      node_of (b ⊗ first aux_a ⊕ (o.one_fe ⊖ b) ⊗ before s0)
                        (b ⊗ before s0 ⊕ (o.one_fe ⊖ b) ⊗ first aux_a)))
                    bit
                ∙ (λ i. absorb (
                    node_of (side_one laws (first aux_a) (before s0) i)
                      (side_one laws (before s0) (first aux_a) i)))),
          ),
          λ t. absorbed_job k _ steps (boundary_nullifier before first t),
        )
