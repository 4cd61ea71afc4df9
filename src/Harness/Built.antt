-- ===== src/Harness/Built.antt =====
-- The harness's tree as the others see it, and its abstract view: a function from leaf indices to
-- leaves.
use yaqeen_stark_winterfell.Prelude.{
  ℕ, zero, suc, ◌+◌, ◌*◌, ◌/◌, ◌%◌, ◌^◌, ◌≤◌, ◌≡◌, refl, ap, ◌∙◌, Bool, true, false, Option, none,
  some, List, [], ◌∷◌, ◌&&◌, get_elem?, nat_beq, nat_eq, pair_eq, ltb, if◌then◌else◌, arith, inl,
  inr, Option-cases,
}
use yaqeen_stark_winterfell.Prelude.Map.{Map}
use yaqeen_stark_winterfell.Field.{FieldOps}
use yaqeen_stark_winterfell.Air.Layout.{tree_depth}
use yaqeen_stark_winterfell.Canister.State.{hash_node, init_zero_hashes, zero_levels}
use yaqeen_stark_winterfell.Canister.Tree.Shape.{node, IsHashTree, node_in-eq-node}
use yaqeen_stark_winterfell.Canister.Tree.{node_in, sibling_index}
use yaqeen_stark_winterfell.Canister.Tree.Proof.{bits_up, siblings_up}
use yaqeen_stark_winterfell.Prover.Tree.{SparseTree, tree_node, insert_up}
use yaqeen_stark_winterfell.Harness.Tree.{
  harness_levels, harness_sibling, harness_node_at, harness_insert_up, harness_insert_leaf,
  harness_proof_up,
}

module _ {F : Type 0} ⦃o : FieldOps F⦄ where
  pub levels-eq : (n : ℕ) (z : F) → harness_levels n z ≡ zero_levels n z
  unfolding harness_levels zero_levels
  levels-eq zero z = refl
  levels-eq (suc n) z = ap (λ l. hash_node z z ∷ l) (levels-eq n (hash_node z z))

  node_at-tree_node :
      (t : SparseTree F) (level i : ℕ) → harness_node_at t level i ≡ tree_node t level i
  unfolding harness_node_at tree_node
  node_at-tree_node t level i = elim (Option-cases (get_elem? t.zero_hashes level)) [
    | inl e ↦ rw (e, harness_node_at, tree_node) refl
    | inr (z, e) ↦ rw (e, harness_node_at, tree_node) refl
  ]

  pub node_at-node :
      (nodes : Map (ℕ × ℕ) F) (level i : ℕ)
      → level ≤ tree_depth
      → harness_node_at (record { zero_hashes = init_zero_hashes; nodes = nodes }) level i
        ≡ some (node nodes level i)
  unfolding tree_node node_in
  node_at-node nodes level i h = node_at-tree_node _ level i ∙ node_in-eq-node nodes level i h

  ordered_hash :
      (b : Bool) (x y : F)
      → hash_node (if b then x else y) (if b then y else x)
        ≡ (if b then hash_node x y else hash_node y x)
  ordered_hash true x y = refl
  ordered_hash false x y = refl

  pub insert_up-eq :
      (n level idx : ℕ) (cur : F) (t : SparseTree F)
      → harness_insert_up n level idx cur t ≡ insert_up n level idx cur t
  unfolding harness_insert_up insert_up
  insert_up-eq zero level idx cur t = refl
  insert_up-eq (suc n) level idx cur t =
      elim (Option-cases (tree_node t level (harness_sibling idx))) [
        | inl e ↦
            rw (node_at-tree_node t level (harness_sibling idx), harness_insert_up, e, insert_up)
              refl
        | inr (sibling, e) ↦
            rw
              (
                node_at-tree_node t level (harness_sibling idx),
                harness_insert_up,
                e,
                insert_up,
                ordered_hash (nat_beq (idx % 2) 0) cur sibling,
              )
              (insert_up-eq n (level + 1) (idx / 2) _ _)
      ]

  pub proof_up_lem :
      (nodes : Map (ℕ × ℕ) F) (n level idx : ℕ)
      → level + n ≤ tree_depth
      → harness_proof_up (record { zero_hashes = init_zero_hashes; nodes = nodes }) n level idx
        ≡ some (siblings_up nodes n level idx, bits_up n idx)
  unfolding harness_proof_up siblings_up bits_up sibling_index
  proof_up_lem nodes zero level idx h = refl
  proof_up_lem nodes (suc n) level idx h =
      rw (node_at-node nodes level (harness_sibling idx) (omega arith), harness_proof_up)
        (rw (proof_up_lem nodes n (level + 1) (idx / 2) (omega arith), harness_proof_up) refl)

module _ {F : Type 0} ⦃o : FieldOps F⦄ where
  -- Leaves written one after the other.
  unfoldable pub write_leaves : List (ℕ × F) → SparseTree F → Option (SparseTree F)
  write_leaves [] t = some t
  write_leaves ((index, leaf) ∷ l) t = elim (harness_insert_leaf t index leaf) [
    | none ↦ none
    | some t' ↦ write_leaves l t'
  ]

  -- The abstract view: each index holds the leaf that was written there last.
  unfoldable pub leaves_after : List (ℕ × F) → (ℕ → F) → ℕ → F
  leaves_after [] leaves = leaves
  leaves_after ((index, leaf) ∷ l) leaves =
      leaves_after l (λ j. if nat_beq index j then leaf else leaves j)

  abbrev pub all_in_range : List (ℕ × F) → Bool
  all_in_range [] = true
  all_in_range ((index, leaf) ∷ l) = ltb index (2 ^ tree_depth) && all_in_range l

  -- The Merkle root of a subtree of depth `d`, the `i`th from the left.
  unfoldable pub merkle_root_of : ℕ → ℕ → (ℕ → F) → F
  merkle_root_of zero i leaves = leaves i
  merkle_root_of (suc d) i leaves =
      hash_node (merkle_root_of d (2 * i) leaves) (merkle_root_of d (2 * i + 1) leaves)

  -- In a consistent tree, every node is the Merkle root of the leaves below it.
  pub node-merkle_root_of :
      (nodes : Map (ℕ × ℕ) F)
      → IsHashTree nodes
      → (d i : ℕ) → d ≤ tree_depth
      → node nodes d i ≡ merkle_root_of d i (node nodes 0)
  unfolding merkle_root_of
  node-merkle_root_of nodes tree zero i h = refl
  node-merkle_root_of nodes tree (suc d) i h =
      let e : suc d ≡ d + 1 = omega arith in
      ap (λ k. node nodes k i) e ∙ tree d i (omega arith) ∙ (λ j.
        hash_node (node-merkle_root_of nodes tree d (2 * i) (omega arith) j)
          (node-merkle_root_of nodes tree d (2 * i + 1) (omega arith) j))

  pub merkle_root_of_ext :
      (d i : ℕ) (f g : ℕ → F) → ((j : ℕ) → f j ≡ g j) → merkle_root_of d i f ≡ merkle_root_of d i g
  unfolding merkle_root_of
  merkle_root_of_ext zero i f g h = h i
  merkle_root_of_ext (suc d) i f g h = λ j.
      hash_node (merkle_root_of_ext d (2 * i) f g h j) (merkle_root_of_ext d (2 * i + 1) f g h j)

  pub leaves_after_ext :
      (l : List (ℕ × F)) (f g : ℕ → F)
      → ((j : ℕ) → f j ≡ g j)
      → (j : ℕ) → leaves_after l f j ≡ leaves_after l g j
  unfolding leaves_after
  leaves_after_ext [] f g h j = h j
  leaves_after_ext ((index, leaf) ∷ l) f g h j = leaves_after_ext l _ _ (λ k. ground (arith, h k)) j
