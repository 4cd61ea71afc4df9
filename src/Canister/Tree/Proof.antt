-- ===== src/Canister/Tree/Proof.antt =====
-- Proofs about `get_merkle_proof`.
use native.Mathlib.Nat.{pow-succ', div-div-eq-div-mul}
use yaqeen_stark_winterfell.Prelude.{
  ℕ, zero, suc, ◌+◌, ◌/◌, ◌%◌, ◌^◌, ◌≤◌, ◌≡◌, refl, ap, sym, ◌∙◌, subst, Bool, some, List, [], ◌∷◌,
  map, length, nat_beq, nat_eq, pair_eq, if◌then◌else◌, arith,
}
use yaqeen_stark_winterfell.Prelude.Map.{Map, get}
use yaqeen_stark_winterfell.Field.{FieldOps, Encoding}
use yaqeen_stark_winterfell.Air.Layout.{tree_depth}
use yaqeen_stark_winterfell.Harness.{recompute, recompute_root}
use yaqeen_stark_winterfell.Canister.Outcome.{Text, Outcome, ok, ◌>>=◌}
use yaqeen_stark_winterfell.Canister.Text.{parse_fe, fe_to_string}
use yaqeen_stark_winterfell.Canister.Text.Canonical.{parse_fe-fe_to_string}
use yaqeen_stark_winterfell.Canister.State.{State, MerkleProof, Record, init_zero_hashes, hash_node}
use yaqeen_stark_winterfell.Canister.Tree.{
  sibling_index, parent, path_up, get_merkle_proof_impl, proof_at, with_path, leaf_hash,
}
use yaqeen_stark_winterfell.Canister.Tree.Shape.{node, IsHashTree, parent-node, node_in-eq-node}
use yaqeen_stark_winterfell.Canister.Tree.Registry.{IsFiled, IsRegistry}

unfoldable pub bits_up : ℕ → ℕ → List Bool
bits_up zero idx = []
bits_up (suc n) idx = nat_beq (idx % 2) 1 ∷ bits_up n (idx / 2)

pub length-bits_up : (n idx : ℕ) → length (bits_up n idx) ≡ n
unfolding bits_up
length-bits_up zero idx = refl
length-bits_up (suc n) idx = ap suc (length-bits_up n (idx / 2))

module _ {F : Type 0} ⦃o : FieldOps F⦄ where
  -- The texts of a proof, parsed as a verifier would.
  abbrev pub parse_all : List Text → Outcome (List F)
  parse_all [] = ok []
  parse_all (t ∷ ts) = do x ← parse_fe t; xs ← parse_all ts; ok (x ∷ xs)

  parse_all-map : Encoding F → (xs : List F) → parse_all (map fe_to_string xs) ≡ ok xs
  parse_all-map laws [] = refl
  parse_all-map laws (x ∷ xs) = rw (parse_fe-fe_to_string laws x, parse_all-map laws xs)

  -- The siblings and direction bits above an index.
  unfoldable pub siblings_up : Map (ℕ × ℕ) F → ℕ → ℕ → ℕ → List F
  siblings_up nodes zero level idx = []
  siblings_up nodes (suc n) level idx =
      node nodes level (sibling_index idx) ∷ siblings_up nodes n (level + 1) (idx / 2)

  path_up_lem :
      (nodes : Map (ℕ × ℕ) F) (n level idx : ℕ)
      → level + n ≤ tree_depth
      → path_up init_zero_hashes nodes n level idx
        ≡ some (map fe_to_string (siblings_up nodes n level idx), bits_up n idx)
  unfolding path_up siblings_up bits_up
  path_up_lem nodes zero level idx h = refl
  path_up_lem nodes (suc n) level idx h =
      rw (node_in-eq-node nodes level (sibling_index idx) (omega arith), path_up)
        (rw (path_up_lem nodes n (level + 1) (idx / 2) (omega arith), path_up))

  bit_parent :
      (idx : ℕ) (cur sib : F)
      → (if nat_beq (idx % 2) 1 then hash_node sib cur else hash_node cur sib) ≡ parent idx cur sib
  unfolding parent
  bit_parent idx cur sib = ground arith

  pub recompute_up :
      (nodes : Map (ℕ × ℕ) F)
      → IsHashTree nodes
      → (n level idx : ℕ) → level + n ≤ tree_depth
      → recompute (node nodes level idx) (siblings_up nodes n level idx) (bits_up n idx)
        ≡ node nodes (level + n) (idx / 2 ^ n)
  unfolding recompute siblings_up bits_up
  recompute_up nodes tree zero level idx h =
      let e : level + 0 ≡ level = omega arith in
      let e' : idx / 2 ^ 0 ≡ idx = omega arith in rw (e, e')
  recompute_up nodes tree (suc n) level idx h =
      let e : level + suc n ≡ level + 1 + n = omega arith in
      rw
        (
          bit_parent idx (node nodes level idx) (node nodes level (sibling_index idx)),
          parent-node nodes level idx,
          ← tree level (idx / 2) (omega arith),
          e,
          pow-succ' 2 n,
          ← div-div-eq-div-mul idx 2 (2 ^ n),
        )
        (recompute_up nodes tree n (level + 1) (idx / 2) (omega arith))

  pub length-siblings_up :
      (nodes : Map (ℕ × ℕ) F) (n level idx : ℕ) → length (siblings_up nodes n level idx) ≡ n
  unfolding siblings_up
  length-siblings_up nodes zero level idx = refl
  length-siblings_up nodes (suc n) level idx =
      ap suc (length-siblings_up nodes n (level + 1) (idx / 2))

module _ {F P : Type 0} ⦃o : FieldOps F⦄ (laws : Encoding F) where
  -- In a consistent registry, for every property that has a leaf, `get_merkle_proof` returns,
  -- without a panic, a proof with the property's leaf index, whose sibling texts parse to field
  -- elements from which the reference `recompute_root` computes the current root, starting at the
  -- hash of the property's stored record; the root it names is the current root's text. The
  -- field's encoding is lawful.
  pub get_merkle_proof_impl_lem :
      (s : State F P) (property_id index : ℕ)
      → IsRegistry s
      → get s.leaf_index_by_property property_id ≡ some index
      → (proof : MerkleProof) × (siblings : List F) × (r : Record) × (leaf : F)
        × (get_merkle_proof_impl s property_id ≡ some (some proof))
        × (proof.leaf_index ≡ index)
        × (parse_all proof.siblings ≡ ok siblings)
        × (get s.records property_id ≡ some r)
        × (leaf_hash r ≡ ok leaf)
        × (recompute_root leaf siblings proof.path_bits ≡ some s.current_root)
        × (proof.root ≡ fe_to_string s.current_root)
  unfolding recompute_root get_merkle_proof_impl
  get_merkle_proof_impl_lem s property_id index reg e =
      let f : IsFiled s property_id index = reg.leaves property_id index e in
      let siblings : List F = siblings_up s.nodes tree_depth 0 index in
      let proof : MerkleProof = record {
        leaf_index = index;
        siblings = map fe_to_string siblings;
        path_bits = bits_up tree_depth index;
        root = fe_to_string s.current_root;
      } in
      let at_root : index / 2 ^ tree_depth ≡ 0 = omega (arith, f.allocated, reg.within) in
      (
        proof,
        siblings,
        f.filed,
        node s.nodes 0 index,
        ap (proof_at s) e
            ∙ ap (with_path s index) (
                subst
                  (λ zs.
                    path_up zs s.nodes tree_depth 0 index ≡ some (proof.siblings, proof.path_bits))
                  (sym reg.zeros) (path_up_lem s.nodes tree_depth 0 index (omega arith))),
        refl,
        parse_all-map laws siblings,
        f.stored,
        f.hashed,
        rw (length-siblings_up s.nodes tree_depth 0 index, length-bits_up tree_depth index)
            (ap some (
              recompute_up s.nodes reg.tree tree_depth 0 index (omega arith)
              ∙ rw at_root (sym reg.root))),
        refl,
      )
