-- ===== src/Canister/Tree.antt =====
-- The registry's sparse Merkle tree: `node_at`, `leaf_hash`, `insert_leaf`, `submit_record`,
-- `get_record` and `get_merkle_proof`. The arguments of `submit_record` come as the record that it
-- builds of them. `none` is a panic of the source (an index past the end of
-- `zero_hashes`), and a call that panics leaves the state as it was.
pub mod Shape
pub mod Registry
pub mod Submit
pub mod Proof
use yaqeen_stark_winterfell.Prelude.{
  ℕ, zero, suc, ◌+◌, ◌*◌, ◌/◌, ◌%◌, Bool, true, false, Option, none, some, List, [], ◌∷◌, ◌++◌,
  get_elem?, nat_beq, nat_eq, pair_eq, if◌then◌else◌,
}
use yaqeen_stark_winterfell.Prelude.Words.{add64}
use yaqeen_stark_winterfell.Prelude.Map.{Map, get, insert}
use yaqeen_stark_winterfell.Field.{FieldOps}
use yaqeen_stark_winterfell.Air.Layout.{tree_depth, domain_leaf}
use yaqeen_stark_winterfell.Air.Permutation.{digest}
use yaqeen_stark_winterfell.Canister.Outcome.{
  Text, Outcome, ok, err, trap, ◌>>=◌, unauthorized_submit,
}
use yaqeen_stark_winterfell.Canister.Text.{fe, parse_fe, fe_to_string}
use yaqeen_stark_winterfell.Canister.State.{
  State, Principals, Record, MerkleProof, registry_id, hash_node,
}
use yaqeen_stark_winterfell.Canister.Admin.{is_admin}

abbrev pub or_else : {A : Type 0} → Option A → A → A
or_else none z = z
or_else (some a) z = a

-- The index next to `idx` under one parent.
unfoldable pub sibling_index : ℕ → ℕ
sibling_index idx =
    let pair_base = idx / 2 * 2 in if nat_beq idx pair_base then pair_base + 1 else pair_base

module _ {F : Type 0} ⦃o : FieldOps F⦄ where
  -- `node_at` over the two fields that it reads.
  unfoldable pub node_in : List F → Map (ℕ × ℕ) F → ℕ → ℕ → Option F
  node_in zs nodes level index = elim (get_elem? zs level) [
    | none ↦ none
    | some z ↦ some (or_else (get nodes (level, index)) z)
  ]

  unfoldable pub leaf_hash : Record → Outcome F
  leaf_hash r = do
    owner_commitment ← parse_fe r.owner_commitment
    ok (
        digest (
          fe domain_leaf
          ∷ fe registry_id
          ∷ owner_commitment
          ∷ fe r.encumbrance_flag
          ∷ fe r.license_status
          ∷ fe r.license_expiry
          ∷ []))

  -- The parent of `cur` at `idx`, given its sibling.
  unfoldable pub parent : ℕ → F → F → F
  parent idx cur sibling =
      if nat_beq (idx % 2) 0 then hash_node cur sibling else hash_node sibling cur

  -- The loop of `insert_leaf`, with `n` levels to go: the nodes after it, and the root.
  unfoldable pub climb : List F → ℕ → ℕ → ℕ → F → Map (ℕ × ℕ) F → Option (Map (ℕ × ℕ) F × F)
  unfolding node_in
  climb zs zero level idx cur nodes = some (nodes, cur)
  climb zs (suc n) level idx cur nodes = elim (node_in zs nodes level (sibling_index idx)) [
    | none ↦ none
    | some sibling ↦
        let cur' = parent idx cur sibling in
        climb zs n (level + 1) (idx / 2) cur' (insert nodes (level + 1, idx / 2) cur')
  ]

  -- The loop of `get_merkle_proof`, with `n` levels to go.
  unfoldable pub path_up : List F → Map (ℕ × ℕ) F → ℕ → ℕ → ℕ → Option (List Text × List Bool)
  unfolding node_in
  path_up zs nodes zero level idx = some ([], [])
  path_up zs nodes (suc n) level idx = elim (node_in zs nodes level (sibling_index idx)) [
    | none ↦ none
    | some sibling ↦ elim (path_up zs nodes n (level + 1) (idx / 2)) [
      | none ↦ none
      | some (siblings, bits) ↦ some (fe_to_string sibling ∷ siblings, nat_beq (idx % 2) 1 ∷ bits)
    ]
  ]

module _ {F P : Type 0} ⦃o : FieldOps F⦄ where
  unfoldable pub node_at : State F P → ℕ → ℕ → Option F
  unfolding node_in
  node_at s level index = node_in s.zero_hashes s.nodes level index

  abbrev pub with_root : State F P → Option (Map (ℕ × ℕ) F × F) → Option (State F P)
  with_root s none = none
  with_root s (some (nodes, root)) = some (record s { nodes = nodes; current_root = root })

  unfoldable pub insert_leaf : State F P → ℕ → F → Option (State F P)
  insert_leaf s index leaf =
      with_root s (climb s.zero_hashes tree_depth 0 index leaf (insert s.nodes (0, index) leaf))

  -- The leaf index of a property, a new one if it has none.
  abbrev pub allocate : State F P → ℕ → Option ℕ → ℕ × State F P
  allocate s property_id (some i) = (i, s)
  allocate s property_id none = (
    s.next_leaf_index,
    record s {
      next_leaf_index = add64 s.next_leaf_index 1;
      leaf_index_by_property = insert s.leaf_index_by_property property_id s.next_leaf_index;
    },
  )

  unfoldable pub leaf_index : State F P → ℕ → ℕ × State F P
  leaf_index s property_id = allocate s property_id (get s.leaf_index_by_property property_id)

  unfoldable pub get_record_impl : State F P → ℕ → Option Record
  get_record_impl s property_id = get s.records property_id

  -- In the results of the next two and of `get_merkle_proof_impl`, the outer `none` is a panic.
  abbrev pub with_path :
      State F P → ℕ → Option (List Text × List Bool) → Option (Option MerkleProof)
  with_path s index none = none
  with_path s index (some (siblings, path_bits)) = some (
      some (record {
        leaf_index = index;
        siblings = siblings;
        path_bits = path_bits;
        root = fe_to_string s.current_root;
      }))

  abbrev pub proof_at : State F P → Option ℕ → Option (Option MerkleProof)
  proof_at s none = some none
  proof_at s (some index) = with_path s index (path_up s.zero_hashes s.nodes tree_depth 0 index)

  unfoldable pub get_merkle_proof_impl : State F P → ℕ → Option (Option MerkleProof)
  get_merkle_proof_impl s property_id = proof_at s (get s.leaf_index_by_property property_id)

module _ {F P : Type 0} ⦃o : FieldOps F⦄ ⦃p : Principals P⦄ where
  -- The new root, or the state before a call that panicked.
  abbrev pub root_reply : State F P → Option (State F P) → Outcome Text × State F P
  root_reply s none = (trap, s)
  root_reply s (some t) = (ok (fe_to_string t.current_root), t)

  -- What `submit_record` does once the leaf is known.
  unfoldable pub store_record : State F P → Record → F → Outcome Text × State F P
  store_record s r leaf =
      let (index, s') = leaf_index s r.property_id in
      root_reply s
        (insert_leaf (record s' { records = insert s'.records r.property_id r }) index leaf)

  abbrev pub store_hashed : State F P → Record → Outcome F → Outcome Text × State F P
  store_hashed s r (ok leaf) = store_record s r leaf
  store_hashed s r (err e) = (err e, s)
  store_hashed s r trap = (trap, s)

  unfoldable pub submit_record_impl : State F P → P → Record → Outcome Text × State F P
  submit_record_impl s caller r =
      if is_admin s caller then store_hashed s r (leaf_hash r) else (err unauthorized_submit, s)
