-- ===== src/Prover/Honest/Links.antt =====
-- The state constraints between two jobs of the honest trace.
use yaqeen_stark_winterfell.Prelude.{
  ℕ, ◌+◌, ◌*◌, ◌%◌, ◌-◌, ◌<◌, ◌≡◌, refl, ap, sym, ◌∙◌, Bool, true, false, List, [], ◌∷◌, nat_beq,
  if◌then◌else◌, arith,
}
use yaqeen_stark_winterfell.Field.{FieldOps, Arithmetic, ◌⊕◌, ◌⊖◌, ◌⊗◌}
use yaqeen_stark_winterfell.Field.Algebra.{vanish_second, side_zero, side_one}
use yaqeen_stark_winterfell.Air.Layout.{
  state_width, rounds, domain_node, aux_a, aux_b, held_secret, held_pid, s0, t_owner, t_leaf,
  t_merkle, t_nullifier,
}
use yaqeen_stark_winterfell.Air.Permutation.{lane, absorb}
use yaqeen_stark_winterfell.Air.Constraints.{periodic_values_at, boundary, state_result}
use yaqeen_stark_winterfell.Air.Job.{periodic-is_last}
use yaqeen_stark_winterfell.Air.Typed.{
  HasType, lanes_eq, boundary_owner, boundary_leaf, boundary_merkle, boundary_nullifier,
}
use yaqeen_stark_winterfell.Prover.Trace.{Columns}
use yaqeen_stark_winterfell.Prover.Honest.Kinds.{
  Kind, owner_kind, leaf_kind, merkle_kind, nullifier_kind, kind_init, kind_column, JobOk,
}

module _ {F : Type 0} ⦃o : FieldOps F⦄ where
  -- The held columns have the secret and the property that the kind names.
  abbrev pub HoldsFor : Kind F → (ℕ → F) → Type 0
  HoldsFor (owner_kind secret property_id) row =
      (row held_secret ≡ secret) × (row held_pid ≡ property_id)
  HoldsFor (leaf_kind registry_id expiry) row = Unit
  HoldsFor (merkle_kind sibling bit) row = Unit
  HoldsFor (nullifier_kind secret property_id purpose nonce) row =
      (row held_secret ≡ secret) × (row held_pid ≡ property_id)

  -- The values of the four type columns for a kind.
  abbrev flag : ℕ → Kind F → F
  flag c k = if nat_beq c (kind_column k) then o.one_fe else o.zero_fe

  pub JobOk-HasType :
      (cols : Columns F) (j : ℕ) (k : Kind F) (before : F)
      → JobOk cols j k before
      → HasType
          (λ c. cols c (j * 8))
          (flag t_owner k)
          (flag t_leaf k)
          (flag t_merkle k)
          (flag t_nullifier k)
  JobOk-HasType cols j k before ok = record {
    is_owner = ok.type_of t_owner (omega arith) (omega arith);
    is_leaf = ok.type_of t_leaf (omega arith) (omega arith);
    is_merkle = ok.type_of t_merkle (omega arith) (omega arith);
    is_nullifier = ok.type_of t_nullifier (omega arith) (omega arith);
  }

  module _ (laws : Arithmetic F) where
    merkle_sides :
        (bit : Bool) (before sibling a b : F)
        → a ≡ sibling
        → b ≡ (if bit then o.one_fe else o.zero_fe)
        → absorb (
            o.new domain_node
            ∷ (b ⊗ a ⊕ (o.one_fe ⊖ b) ⊗ before)
            ∷ (b ⊗ before ⊕ (o.one_fe ⊖ b) ⊗ a)
            ∷ [])
          ≡ kind_init before (merkle_kind sibling bit)
    unfolding absorb
    merkle_sides true before sibling a b is_a is_b =
        rw (is_b, is_a)
          (lanes_eq refl (side_one laws sibling before) (side_one laws before sibling) refl refl
            refl)
    merkle_sides false before sibling a b is_a is_b =
        rw (is_b, is_a)
          (lanes_eq refl (side_zero laws sibling before) (side_zero laws before sibling) refl refl
            refl)

    -- The boundary's formula gives the first row of a job of any kind.
    boundary-kind_init :
        (cur : ℕ → F) (cols : Columns F) (j : ℕ) (k : Kind F)
        → HoldsFor k cur
        → JobOk cols j k (cur s0)
        → boundary cur (λ c. cols c (j * 8)) ≡ kind_init (cur s0) k
    unfolding absorb
    boundary-kind_init cur cols j (owner_kind secret pid) (is_secret, is_pid) ok =
        boundary_owner laws cur (λ c. cols c (j * 8)) (JobOk-HasType cols j _ (cur s0) ok)
        ∙ lanes_eq refl is_secret is_pid refl refl refl
    boundary-kind_init cur cols j (leaf_kind registry expiry) held ok =
        boundary_leaf laws cur (λ c. cols c (j * 8)) (JobOk-HasType cols j _ (cur s0) ok)
        ∙ lanes_eq refl (ok.aux 0 (omega arith)) refl (ok.aux 1 (omega arith))
            (ok.aux 2 (omega arith)) (ok.aux 3 (omega arith))
    boundary-kind_init cur cols j (merkle_kind sibling bit) held ok =
        boundary_merkle laws cur (λ c. cols c (j * 8)) (JobOk-HasType cols j _ (cur s0) ok)
        ∙ merkle_sides bit (cur s0) sibling (cols aux_a (j * 8)) (cols aux_b (j * 8))
            (ok.aux 0 (omega arith)) (ok.aux 1 (omega arith))
    boundary-kind_init cur cols j (nullifier_kind secret pid purpose nonce) (is_secret, is_pid) ok =
        boundary_nullifier laws cur (λ c. cols c (j * 8)) (JobOk-HasType cols j _ (cur s0) ok)
        ∙ lanes_eq refl is_secret is_pid (ok.aux 0 (omega arith)) (ok.aux 1 (omega arith)) refl

    -- From a job's last row to the first row of any job, the next one or, round the end, the first.
    pub link_vanishes :
        (cols : Columns F) (j : ℕ) (k : Kind F) (r next i : ℕ)
        → r % rounds ≡ rounds - 1
        → next ≡ j * 8
        → i < state_width
        → HoldsFor k (λ c. cols c r)
        → JobOk cols j k (cols s0 r)
        → state_result (λ c. cols c r) (λ c. cols c next) (periodic_values_at r) i ≡ o.zero_fe
    link_vanishes cols j k r next i last at small held ok =
        let cur : ℕ → F = λ c. cols c r in
        let nxt : ℕ → F = λ c. cols c next in
        let periodic : List F = periodic_values_at r in
        let open_gate : lane periodic (state_width + 1) ≡ o.one_fe =
          periodic-is_last r ∙ ground arith in
        vanish_second laws (lane periodic (state_width + 1)) (cols i next) _
          (lane (boundary cur nxt) i) open_gate
          (ap (λ x. cols i x) at
            ∙ ok.init i small
            ∙ ap (λ l. lane l i) (sym (boundary-kind_init cur cols j k held ok))
            ∙ ap (λ x. lane (boundary cur (λ c. cols c x)) i) (sym at))
