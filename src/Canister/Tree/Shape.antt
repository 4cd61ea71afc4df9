-- ===== src/Canister/Tree/Shape.antt =====
-- The tree as a total function, its invariant, and proofs about the climb from a leaf.
use native.Mathlib.Nat.{pow-succ', div-div-eq-div-mul}
use native.Mathlib.Numerals.{add-one}
use yaqeen_stark_winterfell.Prelude.{
  ℕ, zero, suc, ◌+◌, ◌*◌, ◌/◌, ◌%◌, ◌^◌, ◌<◌, ◌≤◌, ◌≡◌, ◌≢◌, refl, ◌∙◌, ◌&&◌, some, [], ◌∷◌,
  get_elem?, get_or, nat_beq, nat_beq_iff, nat_eq, pair_eq, if◌then◌else◌, arith, inl, inr,
  Bool-cases,
}
use yaqeen_stark_winterfell.Prelude.Map.{Map, get, insert, get-insert}
use yaqeen_stark_winterfell.Field.{FieldOps}
use yaqeen_stark_winterfell.Air.Layout.{tree_depth}
use yaqeen_stark_winterfell.Canister.State.{hash_node, init_zero_hashes, zero_levels}
use yaqeen_stark_winterfell.Canister.Tree.{or_else, sibling_index, node_in, parent, climb}

sibling_even :
    (idx : ℕ) → idx % 2 ≡ 0 → (2 * (idx / 2) ≡ idx) × (sibling_index idx ≡ 2 * (idx / 2) + 1)
unfolding sibling_index
sibling_even idx h = ground arith

sibling_odd :
    (idx : ℕ) → idx % 2 ≢ 0 → (2 * (idx / 2) + 1 ≡ idx) × (sibling_index idx ≡ 2 * (idx / 2))
unfolding sibling_index
sibling_odd idx h = ground arith

module _ {F : Type 0} ⦃o : FieldOps F⦄ where
  -- A node's value, total: the level's empty hash where nothing is stored.
  unfoldable pub node : Map (ℕ × ℕ) F → ℕ → ℕ → F
  node nodes level i = or_else (get nodes (level, i)) (get_or init_zero_hashes level o.zero_fe)

  zero_levels-get :
      (n : ℕ) (z : F) (i : ℕ)
      → i < n
      → get_elem? (zero_levels n z) i ≡ some (get_or (zero_levels n z) i o.zero_fe)
  unfolding zero_levels
  zero_levels-get zero z i h = absurd (omega arith)
  zero_levels-get (suc n) z zero h = refl
  zero_levels-get (suc n) z (suc i) h = zero_levels-get n (hash_node z z) i (omega arith)

  zero_levels_step :
      (n : ℕ) (z : F) (i : ℕ)
      → i < n
      → get_or (zero_levels n z) i o.zero_fe
        ≡ hash_node
            (get_or (z ∷ zero_levels n z) i o.zero_fe)
            (get_or (z ∷ zero_levels n z) i o.zero_fe)
  unfolding zero_levels
  zero_levels_step zero z i h = absurd (omega arith)
  zero_levels_step (suc n) z zero h = refl
  zero_levels_step (suc n) z (suc i) h = zero_levels_step n (hash_node z z) i (omega arith)

  zero_hash-get :
      (level : ℕ)
      → level ≤ tree_depth
      → get_elem? init_zero_hashes level ≡ some (get_or init_zero_hashes level o.zero_fe)
  unfolding init_zero_hashes
  zero_hash-get zero h = refl
  zero_hash-get (suc level) h = zero_levels-get tree_depth o.zero_fe level (omega arith)

  -- With the table of empty hashes in place, a lookup within the tree does not panic.
  pub node_in-eq-node :
      (nodes : Map (ℕ × ℕ) F) (level i : ℕ)
      → level ≤ tree_depth
      → node_in init_zero_hashes nodes level i ≡ some (node nodes level i)
  unfolding node_in node
  node_in-eq-node nodes level i h = rw (zero_hash-get level h, node_in)

  -- Above an index, on every level of the tree but perhaps one place, children hash to their parent.
  abbrev pub HashesUp : Map (ℕ × ℕ) F → ℕ → ℕ → Type 0
  HashesUp nodes l p =
      (level i : ℕ)
      → level < tree_depth
      → ((level ≡ l) × (i ≡ p) → ⊥)
      → node nodes (level + 1) i
        ≡ hash_node (node nodes level (2 * i)) (node nodes level (2 * i + 1))

  -- The whole tree is consistent.
  abbrev pub IsHashTree : Map (ℕ × ℕ) F → Type 0
  IsHashTree nodes =
      (level i : ℕ)
      → level < tree_depth
      → node nodes (level + 1) i
        ≡ hash_node (node nodes level (2 * i)) (node nodes level (2 * i + 1))

  zero_hash_step :
      (level : ℕ)
      → level < tree_depth
      → get_or init_zero_hashes (suc level) o.zero_fe
        ≡ hash_node
            (get_or init_zero_hashes level o.zero_fe)
            (get_or init_zero_hashes level o.zero_fe)
  unfolding init_zero_hashes
  zero_hash_step level h = zero_levels_step tree_depth o.zero_fe level h

  pub IsHashTree-empty : IsHashTree []
  unfolding node get
  IsHashTree-empty level i h = rw add-one (zero_hash_step level h)

  pub node-insert :
      (nodes : Map (ℕ × ℕ) F) (l p : ℕ) (v : F) (level i : ℕ)
      → node (insert nodes (l, p) v) level i
        ≡ (if nat_beq l level && nat_beq p i then v else node nodes level i)
  unfolding node
  node-insert nodes l p v level i = ground (arith, get-insert nodes (l, p) v (level, i))

  -- Whichever side the climb comes from, it hashes the pair in order.
  pub parent-node :
      (nodes : Map (ℕ × ℕ) F) (l idx : ℕ)
      → parent idx (node nodes l idx) (node nodes l (sibling_index idx))
        ≡ hash_node (node nodes l (2 * (idx / 2))) (node nodes l (2 * (idx / 2) + 1))
  unfolding parent
  parent-node nodes l idx = elim (Bool-cases (nat_beq (idx % 2) 0)) [
    | inl even ↦
        rw even (let e = sibling_even idx ((nat_beq_iff (idx % 2) 0).0 even) in cc (e.0, e.1))
    | inr odd ↦ rw odd (let e = sibling_odd idx (ground arith) in cc (e.0, e.1))
  ]

  -- One step of the climb moves the one inconsistent place a level up.
  step-HashesUp :
      (nodes : Map (ℕ × ℕ) F) (l p : ℕ)
      → HashesUp nodes l p
      → HashesUp
          (insert nodes (l + 1, p) (hash_node (node nodes l (2 * p)) (node nodes l (2 * p + 1))))
          (l + 1)
          (p / 2)
  step-HashesUp nodes l p up level i h other =
      let v = hash_node (node nodes l (2 * p)) (node nodes l (2 * p + 1)) in
      rw
        (
          node-insert nodes (l + 1) p v (level + 1) i,
          node-insert nodes (l + 1) p v level (2 * i),
          node-insert nodes (l + 1) p v level (2 * i + 1),
        )
        (ground (arith, up level i h, other))

  -- A climb started at a consistent tree with one leaf written ends, without a panic, in a consistent
  -- tree whose top is the root that it returns, and it writes nothing at or below its level.
  pub climb-IsHashTree :
      (n level idx : ℕ) (cur : F) (nodes : Map (ℕ × ℕ) F)
      → level + n ≡ tree_depth
      → node nodes level idx ≡ cur
      → HashesUp nodes level (idx / 2)
      → (nodes' : Map (ℕ × ℕ) F) × (root : F) × (climb init_zero_hashes n level idx cur nodes
          ≡ some (nodes', root))
        × IsHashTree nodes'
        × (root ≡ node nodes' tree_depth (idx / 2 ^ n))
        × ((k j : ℕ) → k ≤ level → node nodes' k j ≡ node nodes k j)
  unfolding climb
  climb-IsHashTree zero level idx cur nodes e at up =
      let e25 : level ≡ tree_depth = omega arith in
      let same : idx / 2 ^ 0 ≡ idx = omega arith in
      (nodes, cur, refl, λ l i h. up l i h (λ q. omega arith), cc (at, e25, same), λ k j h. refl)
  climb-IsHashTree (suc n) level idx cur nodes e at up =
      let p : ℕ = idx / 2 in
      let sib : F = node nodes level (sibling_index idx) in
      let v : F = hash_node (node nodes level (2 * p)) (node nodes level (2 * p + 1)) in
      let is_v : parent idx cur sib ≡ v = rw (← at) (parent-node nodes level idx) in
      let (nodes', root, run, tree, top, below) =
        climb-IsHashTree n (level + 1) p v (insert nodes (level + 1, p) v) (omega arith)
          (ground (arith, node-insert nodes (level + 1) p v (level + 1) p))
          (step-HashesUp nodes level p up) in
      (
        nodes',
        root,
        rw (node_in-eq-node nodes level (sibling_index idx) (omega arith), climb, is_v) run,
        tree,
        rw (pow-succ' 2 n, ← div-div-eq-div-mul idx 2 (2 ^ n)) top,
        λ k j h. below k j (omega arith) ∙ ground (arith, node-insert nodes (level + 1) p v k j),
      )
