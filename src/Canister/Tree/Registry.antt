-- ===== src/Canister/Tree/Registry.antt =====
-- The registry's invariant, and proofs about writing a leaf.
use yaqeen_stark_winterfell.Prelude.{
  ℕ, ◌+◌, ◌*◌, ◌/◌, ◌^◌, ◌<◌, ◌≤◌, ◌≡◌, ◌≢◌, refl, ap, sym, ◌∙◌, subst, some, List, nat_beq,
  nat_beq_iff, nat_eq, pair_eq, if◌then◌else◌, arith, inl, inr, Bool-cases,
}
use yaqeen_stark_winterfell.Prelude.Map.{Map, get, insert}
use yaqeen_stark_winterfell.Field.{FieldOps}
use yaqeen_stark_winterfell.Air.Layout.{tree_depth}
use yaqeen_stark_winterfell.Canister.Outcome.{ok}
use yaqeen_stark_winterfell.Canister.State.{State, Record, init_zero_hashes, fresh_state}
use yaqeen_stark_winterfell.Canister.Tree.{climb, with_root, insert_leaf, leaf_hash}
use yaqeen_stark_winterfell.Canister.Tree.Shape.{
  node, node-insert, IsHashTree, IsHashTree-empty, climb-IsHashTree,
}

-- The number of leaves below the root.
abbrev pub capacity : ℕ
capacity = 2 ^ tree_depth

module _ {F : Type 0} ⦃o : FieldOps F⦄ where
  -- The climb from a leaf written into a consistent tree, without a panic.
  pub climb_leaf :
      (nodes : Map (ℕ × ℕ) F) (index : ℕ) (leaf : F)
      → IsHashTree nodes
      → index < capacity
      → (nodes' : Map (ℕ × ℕ) F) × (root : F) × (climb init_zero_hashes tree_depth 0 index leaf
            (insert nodes (0, index) leaf)
          ≡ some (nodes', root))
        × IsHashTree nodes'
        × (root ≡ node nodes' tree_depth 0)
        × ((j : ℕ) → node nodes' 0 j ≡ (if nat_beq index j then leaf else node nodes 0 j))
  climb_leaf nodes index leaf tree h =
      let nodes0 : Map (ℕ × ℕ) F = insert nodes (0, index) leaf in
      let (nodes', root, run, tree', top, below) =
        climb-IsHashTree tree_depth 0 index leaf nodes0 refl
          (ground (arith, node-insert nodes 0 index leaf 0 index))
          (λ level i lt other.
            rw
              (
                node-insert nodes 0 index leaf (level + 1) i,
                node-insert nodes 0 index leaf level (2 * i),
                node-insert nodes 0 index leaf level (2 * i + 1),
              )
              (ground (arith, tree level i lt, other))) in
      let at_root : index / 2 ^ tree_depth ≡ 0 = omega arith in
      (
        nodes',
        root,
        run,
        tree',
        rw at_root at top,
        λ j. ground (arith, below 0 j (omega arith), node-insert nodes 0 index leaf 0 j),
      )

module _ {F P : Type 0} ⦃o : FieldOps F⦄ where
  -- The leaf of a property is the hash of the record that is stored for it.
  pub record IsFiled (s : State F P) (property_id index : ℕ) : Type 0 where
    pub allocated : index < s.next_leaf_index
    pub filed : Record
    pub stored : get s.records property_id ≡ some filed
    pub hashed : leaf_hash filed ≡ ok (node s.nodes 0 index)

  pub record IsRegistry (s : State F P) : Type 0 where
    pub zeros : s.zero_hashes ≡ init_zero_hashes
    pub tree : IsHashTree s.nodes
    pub root : s.current_root ≡ node s.nodes tree_depth 0
    pub leaves :
        (property_id index : ℕ)
        → get s.leaf_index_by_property property_id ≡ some index
        → IsFiled s property_id index
    pub one_each :
        (a b index : ℕ)
        → get s.leaf_index_by_property a ≡ some index
        → get s.leaf_index_by_property b ≡ some index
        → a ≡ b
    pub within : s.next_leaf_index ≤ capacity

  pub fresh-IsRegistry : IsRegistry (fresh_state {F = F} {P = P})
  unfolding fresh_state node get
  fresh-IsRegistry = record {
    zeros = refl;
    tree = IsHashTree-empty;
    root = refl;
    leaves = λ p i h. cc;
    one_each = λ a b i h. cc;
    within = omega arith;
  }

  pub insert_leaf-climb :
      (s : State F P) (index : ℕ) (leaf : F) (zs : List F) (nodes' : Map (ℕ × ℕ) F) (root : F)
      → s.zero_hashes ≡ zs
      → climb zs tree_depth 0 index leaf (insert s.nodes (0, index) leaf) ≡ some (nodes', root)
      → insert_leaf s index leaf ≡ some (record s { nodes = nodes'; current_root = root })
  unfolding insert_leaf
  insert_leaf-climb s index leaf zs nodes' root z run = ap (with_root s) (
      subst
        (λ t.
          climb t tree_depth 0 index leaf (insert s.nodes (0, index) leaf) ≡ some (nodes', root))
        (sym z) run)

  -- Writing a leaf of the tree gives, without a panic, a consistent tree under the new root, in which
  -- the other leaves are as they were.
  pub insert_leaf_lem :
      (s : State F P) (index : ℕ) (leaf : F)
      → s.zero_hashes ≡ init_zero_hashes
      → IsHashTree s.nodes
      → index < capacity
      → (nodes' : Map (ℕ × ℕ) F) × (root : F) × (insert_leaf s index leaf
          ≡ some (record s { nodes = nodes'; current_root = root }))
        × IsHashTree nodes'
        × (root ≡ node nodes' tree_depth 0)
        × ((j : ℕ) → node nodes' 0 j ≡ (if nat_beq index j then leaf else node s.nodes 0 j))
  insert_leaf_lem s index leaf z tree h =
      let (nodes', root, run, hashed, top, leaves) = climb_leaf s.nodes index leaf tree h in
      (
        nodes',
        root,
        insert_leaf-climb s index leaf init_zero_hashes nodes' root z run,
        hashed,
        top,
        leaves,
      )

  -- A property whose leaf has just been allocated is filed by writing the leaf, and the others stay
  -- filed.
  pub file_leaf :
      (u : State F P) (r : Record) (index : ℕ) (leaf : F)
      → u.zero_hashes ≡ init_zero_hashes
      → IsHashTree u.nodes
      → u.next_leaf_index ≤ capacity
      → index < u.next_leaf_index
      → get u.leaf_index_by_property r.property_id ≡ some index
      → get u.records r.property_id ≡ some r
      → leaf_hash r ≡ ok leaf
      → ((q i : ℕ) → q ≢ r.property_id → get u.leaf_index_by_property q ≡ some i → IsFiled u q i)
      → ((a b i : ℕ)
          → get u.leaf_index_by_property a ≡ some i
          → get u.leaf_index_by_property b ≡ some i
          → a ≡ b)
      → (t : State F P) × (insert_leaf u index leaf ≡ some t)
        × IsRegistry t
        × (node t.nodes 0 index ≡ leaf)
        × (t.leaf_index_by_property ≡ u.leaf_index_by_property)
        × (t.records ≡ u.records)
        × (t.next_leaf_index ≡ u.next_leaf_index)
        × ((j : ℕ) → index ≢ j → node t.nodes 0 j ≡ node u.nodes 0 j)
  file_leaf u r index leaf z tree within fits at stored hashed others each =
      let (nodes', root, run, tree', top, leaves) =
        insert_leaf_lem u index leaf z tree (omega arith) in
      let written : node nodes' 0 index ≡ leaf = ground (arith, leaves index) in
      (
        record u { nodes = nodes'; current_root = root },
        run,
        record {
          zeros = z;
          tree = tree';
          root = top;
          one_each = each;
          within = within;
          leaves = λ q i h. elim (Bool-cases (nat_beq q r.property_id)) [
            | inl yes' ↦
                let same : q ≡ r.property_id = (nat_beq_iff q r.property_id).0 yes' in
                let here : i ≡ index = cc (at, h, same) in
                record {
                  allocated = omega arith;
                  filed = r;
                  stored = cc (same, stored);
                  hashed = cc (hashed, written, here);
                }
            | inr no' ↦
                let ne : q ≢ r.property_id = ground arith in
                let old : IsFiled u q i = others q i ne h in
                let apart : index ≢ i =
                  λ (e : index ≡ i). ne (each q r.property_id i h (cc (at, e))) in
                record {
                  allocated = old.allocated;
                  filed = old.filed;
                  stored = old.stored;
                  hashed = old.hashed ∙ ap ok (ground (arith, leaves i));
                }
          ];
        },
        written,
        refl,
        refl,
        refl,
        λ j ne. ground (arith, leaves j),
      )
