-- ===== src/Prover/Mirror.antt =====
-- Proofs that relate the prover's tree to the canister's.
use yaqeen_stark_winterfell.Prelude.{
  ℕ, zero, suc, ◌+◌, ◌/◌, ◌≡◌, refl, ap, sym, ◌∙◌, Bool, Option, none, some, List, map, get_elem?,
  nat_eq, pair_eq, arith, inl, inr, Option-cases,
}
use yaqeen_stark_winterfell.Prelude.Map.{Map, get, insert}
use yaqeen_stark_winterfell.Field.{FieldOps}
use yaqeen_stark_winterfell.Air.Layout.{tree_depth}
use yaqeen_stark_winterfell.Canister.Text.{fe_to_string}
use yaqeen_stark_winterfell.Canister.State.{State, init_zero_hashes}
use yaqeen_stark_winterfell.Canister.Tree.{
  node_in, sibling_index, parent, climb, with_root, insert_leaf, path_up, with_path, proof_at,
  get_merkle_proof_impl,
}
use yaqeen_stark_winterfell.Canister.Tree.Shape.{node, node_in-eq-node}
use yaqeen_stark_winterfell.Canister.Tree.Registry.{IsRegistry}
use yaqeen_stark_winterfell.Prover.Tree.{
  SparseTree, tree_node, insert_up, tree_insert, tree_root, proof_up, tree_proof,
}

module _ {F : Type 0} where
  abbrev pub with_nodes : List F → Option (Map (ℕ × ℕ) F × F) → Option (SparseTree F)
  with_nodes zs none = none
  with_nodes zs (some (nodes, root)) = some (record { zero_hashes = zs; nodes = nodes })

module _ {F : Type 0} ⦃o : FieldOps F⦄ where
  pub insert_up-climb :
      (zs : List F) (n level idx : ℕ) (cur : F) (nodes : Map (ℕ × ℕ) F)
      → insert_up n level idx cur (record { zero_hashes = zs; nodes = nodes })
        ≡ with_nodes zs (climb zs n level idx cur nodes)
  unfolding insert_up climb tree_node node_in parent sibling_index
  insert_up-climb zs zero level idx cur nodes = refl
  insert_up-climb zs (suc n) level idx cur nodes = elim (Option-cases (get_elem? zs level)) [
    | inl e ↦ rw (e, insert_up, climb) refl
    | inr (z, e) ↦ rw (e, insert_up, climb) (insert_up-climb zs n (level + 1) (idx / 2) _ _)
  ]

  abbrev pub printed : Option (List F × List Bool) → Option (List (List ℕ) × List Bool)
  printed none = none
  printed (some (siblings, bits)) = some (map fe_to_string siblings, bits)

  proof_up-path_up :
      (zs : List F) (nodes : Map (ℕ × ℕ) F) (n level idx : ℕ)
      → path_up zs nodes n level idx
        ≡ printed (proof_up (record { zero_hashes = zs; nodes = nodes }) n level idx)
  unfolding proof_up path_up tree_node node_in sibling_index
  proof_up-path_up zs nodes zero level idx = refl
  proof_up-path_up zs nodes (suc n) level idx = elim (Option-cases (get_elem? zs level)) [
    | inl e ↦ rw (e, proof_up, path_up) refl
    | inr (z, e) ↦
        let ih = proof_up-path_up zs nodes n (level + 1) (idx / 2) in
        elim (Option-cases
          (proof_up (record { zero_hashes = zs; nodes = nodes }) n (level + 1) (idx / 2))) [
            | inl f ↦ rw (e, ih, f, proof_up, path_up) refl
            | inr (p, f) ↦ rw (e, ih, f, proof_up, path_up) refl
          ]
  ]

  pub tree_node-root :
      (nodes : Map (ℕ × ℕ) F)
      → tree_node (record { zero_hashes = init_zero_hashes; nodes = nodes }) tree_depth 0
        ≡ some (node nodes tree_depth 0)
  unfolding tree_node node_in
  tree_node-root nodes = node_in-eq-node nodes tree_depth 0 (omega arith)

module _ {F P : Type 0} where
  -- The prover's tree that holds what the canister's state does.
  abbrev pub tree_of : State F P → SparseTree F
  tree_of s = record { zero_hashes = s.zero_hashes; nodes = s.nodes }

  abbrev pub tree_after : Option (State F P) → Option (SparseTree F)
  tree_after none = none
  tree_after (some t) = some (tree_of t)

module _ {F P : Type 0} ⦃o : FieldOps F⦄ where
  tree_after-with_root :
      (s : State F P) (x : Option (Map (ℕ × ℕ) F × F))
      → with_nodes s.zero_hashes x ≡ tree_after (with_root s x)
  tree_after-with_root s none = refl
  tree_after-with_root s (some x) = refl

  -- For a consistent registry, the prover's tree with the canister's nodes has the current root
  -- as its root, inserting a leaf into it gives the nodes that the canister's `insert_leaf` gives
  -- (or panics where it does), and a property's Merkle proof from the canister is the printed
  -- form of the prover's proof at the property's leaf index.
  pub tree_mirrors :
      (s : State F P)
      → IsRegistry s
      → (tree_root (tree_of s) ≡ some s.current_root)
        × ((index : ℕ) (leaf : F)
            → tree_insert (tree_of s) index leaf ≡ tree_after (insert_leaf s index leaf))
        × ((property_id index : ℕ)
            → get s.leaf_index_by_property property_id ≡ some index
            → get_merkle_proof_impl s property_id
              ≡ with_path s index (printed (tree_proof (tree_of s) index)))
  unfolding tree_root tree_node tree_insert insert_leaf tree_proof get_merkle_proof_impl
  tree_mirrors s reg = (
    ap (λ zs. tree_node (record { zero_hashes = zs; nodes = s.nodes }) tree_depth 0) reg.zeros
        ∙ tree_node-root s.nodes
        ∙ ap some (sym reg.root),
    λ index leaf.
        insert_up-climb s.zero_hashes tree_depth 0 index leaf (insert s.nodes (0, index) leaf)
        ∙ tree_after-with_root s
            (climb s.zero_hashes tree_depth 0 index leaf (insert s.nodes (0, index) leaf)),
    λ property_id index e.
        ap (proof_at s) e
        ∙ ap (with_path s index) (proof_up-path_up s.zero_hashes s.nodes tree_depth 0 index),
  )
