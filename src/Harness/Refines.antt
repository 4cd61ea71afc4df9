-- ===== src/Harness/Refines.antt =====
-- The harness's tree refines its abstract view.
use yaqeen_stark_winterfell.Prelude.{
  ℕ, ◌/◌, ◌^◌, ◌<◌, ◌≡◌, refl, ap, sym, ◌∙◌, Bool, true, false, none, some, List, [], ◌∷◌, nat_beq,
  nat_eq, pair_eq, ltb, if◌then◌else◌, arith, inl, inr, Option-cases, Bool-cases,
}
use yaqeen_stark_winterfell.Prelude.Map.{Map, get}
use yaqeen_stark_winterfell.Field.{FieldOps}
use yaqeen_stark_winterfell.Air.Layout.{tree_depth}
use yaqeen_stark_winterfell.Canister.State.{init_zero_hashes}
use yaqeen_stark_winterfell.Canister.Tree.Shape.{node, IsHashTree, IsHashTree-empty}
use yaqeen_stark_winterfell.Canister.Tree.Registry.{climb_leaf}
use yaqeen_stark_winterfell.Canister.Tree.Proof.{
  bits_up, siblings_up, recompute_up, length-bits_up, length-siblings_up,
}
use yaqeen_stark_winterfell.Prover.Tree.{SparseTree}
use yaqeen_stark_winterfell.Prover.Mirror.{with_nodes, insert_up-climb}
use yaqeen_stark_winterfell.Harness.{recompute, recompute_root}
use yaqeen_stark_winterfell.Harness.Tree.{
  harness_new, harness_insert_leaf, harness_root, harness_proof,
}
use yaqeen_stark_winterfell.Harness.Built.{
  levels-eq, insert_up-eq, proof_up_lem, node_at-node, write_leaves, leaves_after, all_in_range,
  merkle_root_of, node-merkle_root_of, merkle_root_of_ext, leaves_after_ext,
}

module _ {F : Type 0} ⦃o : FieldOps F⦄ where
  -- A tree with the table of empty hashes.
  abbrev pub tree_with : Map (ℕ × ℕ) F → SparseTree F
  tree_with nodes = record { zero_hashes = init_zero_hashes; nodes = nodes }

  pub new-tree_with : harness_new {F = F} ≡ tree_with []
  unfolding harness_new init_zero_hashes
  new-tree_with =
      ap (λ l. record { zero_hashes = o.zero_fe ∷ l; nodes = [] }) (levels-eq tree_depth o.zero_fe)

  pub insert_leaf_lem :
      (nodes : Map (ℕ × ℕ) F) (index : ℕ) (leaf : F)
      → IsHashTree nodes
      → index < 2 ^ tree_depth
      → (nodes' : Map (ℕ × ℕ) F) × (harness_insert_leaf (tree_with nodes) index leaf
          ≡ some (tree_with nodes'))
        × IsHashTree nodes'
        × ((j : ℕ) → node nodes' 0 j ≡ (if nat_beq index j then leaf else node nodes 0 j))
  unfolding harness_insert_leaf
  insert_leaf_lem nodes index leaf tree h =
      let (nodes', root, run, hashed, top, leaves) = climb_leaf nodes index leaf tree h in
      let inside : ltb index (2 ^ tree_depth) ≡ true = ground arith in
      (
        nodes',
        rw (inside, harness_insert_leaf)
            (insert_up-eq tree_depth 0 index leaf _
              ∙ insert_up-climb init_zero_hashes tree_depth 0 index leaf _
              ∙ ap (with_nodes init_zero_hashes) run),
        hashed,
        leaves,
      )

  write_leaves_lem :
      (l : List (ℕ × F)) (nodes : Map (ℕ × ℕ) F)
      → IsHashTree nodes
      → all_in_range l ≡ true
      → (nodes' : Map (ℕ × ℕ) F) × (write_leaves l (tree_with nodes) ≡ some (tree_with nodes'))
        × IsHashTree nodes'
        × ((j : ℕ) → node nodes' 0 j ≡ leaves_after l (node nodes 0) j)
  unfolding write_leaves leaves_after
  write_leaves_lem [] nodes tree h = (nodes, refl, tree, λ j. refl)
  write_leaves_lem ((index, leaf) ∷ l) nodes tree h =
      let (next, run, hashed, leaves) = insert_leaf_lem nodes index leaf tree (ground arith) in
      let (nodes', run', hashed', leaves') = write_leaves_lem l next hashed (ground arith) in
      (
        nodes',
        rw (run, write_leaves) run',
        hashed',
        λ j. leaves' j ∙ leaves_after_ext l _ _ leaves j,
      )

  insert_leaf-outside :
      (t : SparseTree F) (index : ℕ) (leaf : F)
      → ltb index (2 ^ tree_depth) ≡ false
      → harness_insert_leaf t index leaf ≡ none
  unfolding harness_insert_leaf
  insert_leaf-outside t index leaf h = rw (h, harness_insert_leaf) refl

  empty_leaf : (j : ℕ) → node {F = F} [] 0 j ≡ o.zero_fe
  unfolding node get init_zero_hashes
  empty_leaf j = refl

  write_leaves-out_of_range :
      (l : List (ℕ × F)) (t : SparseTree F) → all_in_range l ≡ false → write_leaves l t ≡ none
  unfolding write_leaves
  write_leaves-out_of_range [] t h = cc
  write_leaves-out_of_range ((index, leaf) ∷ l) t h =
      elim (Bool-cases (ltb index (2 ^ tree_depth))) [
        | inl inside ↦ elim (Option-cases (harness_insert_leaf t index leaf)) [
          | inl e ↦ rw (e, write_leaves) refl
          | inr (t', e) ↦ rw (e, write_leaves) (write_leaves-out_of_range l t' (ground arith))
        ]
        | inr outside ↦ rw (insert_leaf-outside t index leaf outside, write_leaves) refl
      ]

  -- Leaves written into a new tree of the harness, one after the other: where every index is
  -- below 2 ^ 25, no call panics, the root is the Merkle root, defined by recursion on the depth,
  -- of the function that holds at each index the leaf written there last and zero elsewhere, and
  -- for every index below 2 ^ 25 `proof` returns siblings and bits from which `recompute_root`
  -- computes that root, started at the index's leaf. Where some index is not below 2 ^ 25, a call
  -- panics.
  pub harness_tree_refines :
      (l : List (ℕ × F))
      → (let leaves = leaves_after l (λ j. o.zero_fe) in
          let root = merkle_root_of tree_depth 0 leaves in
          (all_in_range l ≡ true
            → (t : SparseTree F) × (write_leaves l harness_new ≡ some t)
              × (harness_root t ≡ some root)
              × ((index : ℕ)
                  → index < 2 ^ tree_depth
                  → (siblings : List F) × (bits : List Bool) × (harness_proof t index
                      ≡ some (siblings, bits))
                    × (recompute_root (leaves index) siblings bits ≡ some root)))
          × (all_in_range l ≡ false → write_leaves l harness_new ≡ none))
  unfolding harness_root harness_proof recompute_root
  harness_tree_refines l =
      let leaves : ℕ → F = leaves_after l (λ j. o.zero_fe) in
      (
        λ inside.
            let (nodes, run, tree, held) = write_leaves_lem l [] IsHashTree-empty inside in
            let holds : (j : ℕ) → node nodes 0 j ≡ leaves j =
              λ j. held j ∙ leaves_after_ext l (node [] 0) (λ k. o.zero_fe) empty_leaf j in
            let is_root : node nodes tree_depth 0 ≡ merkle_root_of tree_depth 0 leaves =
              node-merkle_root_of nodes tree tree_depth 0 (omega arith)
              ∙ merkle_root_of_ext tree_depth 0 _ _ holds in
            (
              tree_with nodes,
              ap (write_leaves l) new-tree_with ∙ run,
              node_at-node nodes tree_depth 0 (omega arith) ∙ ap some is_root,
              λ index lt.
                  let within : ltb index (2 ^ tree_depth) ≡ true = ground arith in
                  let at_root : index / 2 ^ tree_depth ≡ 0 = omega arith in
                  (
                    siblings_up nodes tree_depth 0 index,
                    bits_up tree_depth index,
                    rw (within, harness_proof)
                        (proof_up_lem nodes tree_depth 0 index (omega arith)),
                    rw
                        (
                          length-siblings_up nodes tree_depth 0 index,
                          length-bits_up tree_depth index,
                          recompute_root,
                        )
                        (ap some (
                          ap
                            (λ c.
                              recompute c (siblings_up nodes tree_depth 0 index)
                                (bits_up tree_depth index))
                            (sym (holds index))
                          ∙ recompute_up nodes tree tree_depth 0 index (omega arith)
                          ∙ rw at_root is_root)),
                  ),
            ),
        write_leaves-out_of_range l harness_new,
      )
