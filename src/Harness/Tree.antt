-- ===== src/Harness/Tree.antt =====
-- `SparseTree` of test-harness/air_test/src/e2e_support.rs, which checks its indices. `none` is a
-- panic. Its fields are those of the prover's tree.
use yaqeen_stark_winterfell.Prelude.{
  ℕ, zero, suc, ◌+◌, ◌*◌, ◌/◌, ◌%◌, ◌^◌, Bool, Option, none, some, List, [], ◌∷◌, get_elem?,
  nat_beq, nat_eq, pair_eq, ltb, if◌then◌else◌,
}
use yaqeen_stark_winterfell.Prelude.Map.{get, insert}
use yaqeen_stark_winterfell.Field.{FieldOps}
use yaqeen_stark_winterfell.Air.Layout.{tree_depth}
use yaqeen_stark_winterfell.Canister.State.{hash_node}
use yaqeen_stark_winterfell.Canister.Tree.{or_else}
use yaqeen_stark_winterfell.Prover.Tree.{SparseTree}

abbrev pub harness_sibling : ℕ → ℕ
harness_sibling idx =
    let pair_base = idx / 2 * 2 in if nat_beq idx pair_base then pair_base + 1 else pair_base

module _ {F : Type 0} ⦃o : FieldOps F⦄ where
  -- The loop of `SparseTree::new`, for the last `n` levels, from the hash of the level before.
  unfoldable pub harness_levels : ℕ → F → List F
  harness_levels zero z = []
  harness_levels (suc n) z = let next = hash_node z z in next ∷ harness_levels n next

  unfoldable pub harness_new : SparseTree F
  unfolding harness_levels
  harness_new = record { zero_hashes = o.zero_fe ∷ harness_levels tree_depth o.zero_fe; nodes = [] }

  unfoldable pub harness_node_at : SparseTree F → ℕ → ℕ → Option F
  harness_node_at t level index = elim (get_elem? t.zero_hashes level) [
    | none ↦ none
    | some z ↦ some (or_else (get t.nodes (level, index)) z)
  ]

  -- The loop of `insert_leaf`, with `n` levels to go.
  unfoldable pub harness_insert_up : ℕ → ℕ → ℕ → F → SparseTree F → Option (SparseTree F)
  unfolding harness_node_at
  harness_insert_up zero level idx cur t = some t
  harness_insert_up (suc n) level idx cur t = elim (harness_node_at t level (harness_sibling idx)) [
    | none ↦ none
    | some sibling ↦
        let l = if nat_beq (idx % 2) 0 then cur else sibling in
        let r = if nat_beq (idx % 2) 0 then sibling else cur in
        let cur' = hash_node l r in
        harness_insert_up n (level + 1) (idx / 2) cur'
          (record t { nodes = insert t.nodes (level + 1, idx / 2) cur' })
  ]

  unfoldable pub harness_insert_leaf : SparseTree F → ℕ → F → Option (SparseTree F)
  harness_insert_leaf t index leaf =
      if ltb index (2 ^ tree_depth)
      then harness_insert_up tree_depth 0 index leaf
          (record t { nodes = insert t.nodes (0, index) leaf })
      else none

  unfoldable pub harness_root : SparseTree F → Option F
  unfolding harness_node_at
  harness_root t = harness_node_at t tree_depth 0

  -- The loop of `proof`, with `n` levels to go.
  unfoldable pub harness_proof_up : SparseTree F → ℕ → ℕ → ℕ → Option (List F × List Bool)
  unfolding harness_node_at
  harness_proof_up t zero level idx = some ([], [])
  harness_proof_up t (suc n) level idx = elim (harness_node_at t level (harness_sibling idx)) [
    | none ↦ none
    | some sibling ↦ elim (harness_proof_up t n (level + 1) (idx / 2)) [
      | none ↦ none
      | some (siblings, bits) ↦ some (sibling ∷ siblings, nat_beq (idx % 2) 1 ∷ bits)
    ]
  ]

  unfoldable pub harness_proof : SparseTree F → ℕ → Option (List F × List Bool)
  harness_proof t index =
      if ltb index (2 ^ tree_depth) then harness_proof_up t tree_depth 0 index else none
