-- ===== src/Prover/Tree.antt =====
-- `SparseTree` of prover/src/lib.rs. `none` is a panic (an index past the end of `zero_hashes`).
use yaqeen_stark_winterfell.Prelude.{
  ℕ, zero, suc, ◌+◌, ◌*◌, ◌/◌, ◌%◌, Bool, Option, none, some, List, [], ◌∷◌, get_elem?, nat_beq,
  nat_eq, pair_eq, if◌then◌else◌,
}
use yaqeen_stark_winterfell.Prelude.Map.{Map, get, insert}
use yaqeen_stark_winterfell.Field.{FieldOps}
use yaqeen_stark_winterfell.Air.Layout.{tree_depth}
use yaqeen_stark_winterfell.Canister.State.{hash_node, init_zero_hashes}
use yaqeen_stark_winterfell.Canister.Tree.{or_else}

pub record SparseTree (F : Type 0) : Type 0 where
  pub zero_hashes : List F
  pub nodes : Map (ℕ × ℕ) F

abbrev pub pair_sibling : ℕ → ℕ
pair_sibling idx =
    let pair_base = idx / 2 * 2 in if nat_beq idx pair_base then pair_base + 1 else pair_base

module _ {F : Type 0} ⦃o : FieldOps F⦄ where
  -- `SparseTree::new`, with the loop that `init_zero_hashes` of the canister has too.
  unfoldable pub empty_tree : SparseTree F
  empty_tree = record { zero_hashes = init_zero_hashes; nodes = [] }

  unfoldable pub tree_node : SparseTree F → ℕ → ℕ → Option F
  tree_node t level index = elim (get_elem? t.zero_hashes level) [
    | none ↦ none
    | some z ↦ some (or_else (get t.nodes (level, index)) z)
  ]

  -- One round of the loop of `insert_leaf`, given the sibling: the new hash.
  abbrev pub step_hash : ℕ → F → F → F
  step_hash idx cur sibling =
      if nat_beq (idx % 2) 0 then hash_node cur sibling else hash_node sibling cur

  abbrev pub put_node : SparseTree F → ℕ → ℕ → F → SparseTree F
  put_node t level index v = record t { nodes = insert t.nodes (level, index) v }

  -- The loop of `insert_leaf`, with `n` levels to go.
  unfoldable pub insert_up : ℕ → ℕ → ℕ → F → SparseTree F → Option (SparseTree F)
  unfolding tree_node
  insert_up zero level idx cur t = some t
  insert_up (suc n) level idx cur t = elim (tree_node t level (pair_sibling idx)) [
    | none ↦ none
    | some sibling ↦
        let cur' = step_hash idx cur sibling in
        insert_up n (level + 1) (idx / 2) cur' (put_node t (level + 1) (idx / 2) cur')
  ]

  unfoldable pub tree_insert : SparseTree F → ℕ → F → Option (SparseTree F)
  tree_insert t index leaf = insert_up tree_depth 0 index leaf (put_node t 0 index leaf)

  unfoldable pub tree_root : SparseTree F → Option F
  unfolding tree_node
  tree_root t = tree_node t tree_depth 0

  -- The loop of `proof`, with `n` levels to go.
  unfoldable pub proof_up : SparseTree F → ℕ → ℕ → ℕ → Option (List F × List Bool)
  unfolding tree_node
  proof_up t zero level idx = some ([], [])
  proof_up t (suc n) level idx = elim (tree_node t level (pair_sibling idx)) [
    | none ↦ none
    | some sibling ↦ elim (proof_up t n (level + 1) (idx / 2)) [
      | none ↦ none
      | some (siblings, bits) ↦ some (sibling ∷ siblings, nat_beq (idx % 2) 1 ∷ bits)
    ]
  ]

  unfoldable pub tree_proof : SparseTree F → ℕ → Option (List F × List Bool)
  unfolding proof_up
  tree_proof t index = proof_up t tree_depth 0 index
