-- ===== src/Prover/Demo.antt =====
-- Proofs about the command line: the root it asserts, and the registry that it stands for.
use yaqeen_stark_winterfell.Prelude.{
  ℕ, zero, suc, ◌+◌, ◌/◌, ◌<◌, ◌≤◌, ◌≡◌, refl, ap, sym, ◌∙◌, Bool, true, Option, none, some, List,
  [], nat_beq, nat_eq, pair_eq, if◌then◌else◌, ◌==◌, arith,
}
use yaqeen_stark_winterfell.Prelude.Map.{Map, get, insert}
use yaqeen_stark_winterfell.Field.{FieldOps, field_eq}
use yaqeen_stark_winterfell.Air.Layout.{tree_depth}
use yaqeen_stark_winterfell.Air.Permutation.{hash}
use yaqeen_stark_winterfell.Air.Inputs.{PublicInputs}
use yaqeen_stark_winterfell.Canister.Outcome.{Text}
use yaqeen_stark_winterfell.Canister.State.{init_zero_hashes}
use yaqeen_stark_winterfell.Canister.Tree.{sibling_index, node_in, climb}
use yaqeen_stark_winterfell.Canister.Tree.Shape.{
  node, node_in-eq-node, IsHashTree, IsHashTree-empty,
}
use yaqeen_stark_winterfell.Canister.Tree.Registry.{climb_leaf}
use yaqeen_stark_winterfell.Canister.Tree.Proof.{
  bits_up, siblings_up, recompute_up, length-bits_up, length-siblings_up,
}
use yaqeen_stark_winterfell.Harness.{recompute_root}
use yaqeen_stark_winterfell.Harness.Built.{merkle_root_of, node-merkle_root_of, merkle_root_of_ext}
use yaqeen_stark_winterfell.Prover.Tree.{
  empty_tree, tree_node, tree_insert, tree_root, proof_up, tree_proof,
}
use yaqeen_stark_winterfell.Prover.Mirror.{with_nodes, insert_up-climb, tree_node-root}
use yaqeen_stark_winterfell.Prover.Trace.{
  Witness, Columns, expiry_diff, build_trace, finish_trace, merkle_part, with_bits, leaf_job,
  owner_job,
}
use yaqeen_stark_winterfell.Prover.Statement.{
  owner_commitment_of, leaf_of, nullifier_of, build_trace_lem,
}
use yaqeen_stark_winterfell.Prover.Cli.{
  and_then, current_timestamp_arg, license_expiry_arg, request_nonce_arg, demo_leaf, demo_tree,
  cli_witness, assert_root, trace_of, cli_statement, cli_trace,
}

and_then-none :
    {A B : Type 0} (x : Option A) (f : A → Option B) → ((a : A) → f a ≡ none) → and_then x f ≡ none
and_then-none none f h = refl
and_then-none (some a) f h = h a

module _ {F : Type 0} ⦃o : FieldOps F⦄ where
  -- The prover's proof in a tree with the table of empty hashes.
  proof_up_lem :
      (nodes : Map (ℕ × ℕ) F) (n level idx : ℕ)
      → level + n ≤ tree_depth
      → proof_up (record { zero_hashes = init_zero_hashes; nodes = nodes }) n level idx
        ≡ some (siblings_up nodes n level idx, bits_up n idx)
  unfolding proof_up siblings_up bits_up sibling_index tree_node node_in
  proof_up_lem nodes zero level idx h = refl
  proof_up_lem nodes (suc n) level idx h =
      rw (node_in-eq-node nodes level (sibling_index idx) (omega arith), proof_up)
        (rw (proof_up_lem nodes n (level + 1) (idx / 2) (omega arith), proof_up) refl)

  -- The demo's leaf, and the nodes of its tree.
  abbrev pub the_leaf : ℕ → F
  the_leaf license_expiry =
      leaf_of (o.new 1) (owner_commitment_of (o.new 0xa11ce) (o.new 42)) (o.new license_expiry)

  demo_leaf-the_leaf : (e : ℕ) → demo_leaf e ≡ some (the_leaf e)
  unfolding demo_leaf hash owner_commitment_of leaf_of
  demo_leaf-the_leaf e = refl

  demo_tree-climb :
      (e : ℕ) (nodes : Map (ℕ × ℕ) F) (root : F)
      → climb init_zero_hashes tree_depth 0 0 (the_leaf e) (insert [] (0, 0) (the_leaf e))
        ≡ some (nodes, root)
      → demo_tree e ≡ some (record { zero_hashes = init_zero_hashes; nodes = nodes })
  unfolding demo_tree tree_insert empty_tree
  demo_tree-climb e nodes root run =
      ap (λ x. and_then x (λ leaf. tree_insert empty_tree 0 leaf)) (demo_leaf-the_leaf e)
      ∙ insert_up-climb init_zero_hashes tree_depth 0 0 (the_leaf e) (insert [] (0, 0) (the_leaf e))
      ∙ ap (with_nodes init_zero_hashes) run

  -- A licence that does not expire after the time stamp stops the builder.
  build_trace-late : (w : Witness F) → w.license_expiry ≤ w.current_timestamp → build_trace w ≡ none
  unfolding build_trace
  build_trace-late w late =
      let stops : expiry_diff w ≡ none = ground arith in
      ap (λ d. finish_trace w (merkle_part w (with_bits d (leaf_job w (owner_job w))))) stops

  trace_of-late :
      (t n e : ℕ) (proof : Option (List F × List Bool)) (root : Option F)
      → e ≤ t
      → trace_of t n e proof root ≡ none
  trace_of-late t n e none root late = refl
  trace_of-late t n e (some path) none late = refl
  trace_of-late t n e (some path) (some root) late =
      ap (λ x. and_then x (assert_root root)) (build_trace-late (cli_witness t n e path) late)

  assert_root-same :
      (root : F) (trace : Columns F) (inputs : PublicInputs F)
      → inputs.merkle_root ≡ root
      → assert_root root (trace, inputs) ≡ some (trace, inputs)
  assert_root-same root trace inputs e =
      let same : (inputs.merkle_root == root) ≡ true = (o.eq.eq_iff inputs.merkle_root root).1 e in
      rw same refl

  -- What the public inputs of a run of the command line say.
  pub record IsDemo (timestamp nonce : ℕ) (root : F) (inputs : PublicInputs F) : Type 0 where
    pub registry_id : inputs.registry_id ≡ o.new 1
    pub merkle_root : inputs.merkle_root ≡ root
    pub purpose : inputs.purpose ≡ o.new 1
    pub request_nonce : inputs.request_nonce ≡ o.new nonce
    pub current_timestamp : inputs.current_timestamp ≡ o.new timestamp
    pub nullifier :
        inputs.nullifier ≡ nullifier_of (o.new 0xa11ce) (o.new 42) (o.new 1) (o.new nonce)

  pub some_eq : (a b : F) → some a ≡ some b → a ≡ b
  some_eq a b h = cc

  pub recompute_root-node :
      (nodes : Map (ℕ × ℕ) F)
      → IsHashTree nodes
      → recompute_root (node nodes 0 0) (siblings_up nodes tree_depth 0 0) (bits_up tree_depth 0)
        ≡ some (node nodes tree_depth 0)
  unfolding recompute_root
  recompute_root-node nodes tree =
      rw (length-siblings_up nodes tree_depth 0 0, length-bits_up tree_depth 0)
        (ap some (recompute_up nodes tree tree_depth 0 0 (omega arith)))

  pub statement_lem :
      (t n e : ℕ) (nodes : Map (ℕ × ℕ) F) (root : F)
      → climb init_zero_hashes tree_depth 0 0 (the_leaf e) (insert [] (0, 0) (the_leaf e))
        ≡ some (nodes, root)
      → IsHashTree nodes
      → root ≡ node nodes tree_depth 0
      → node nodes 0 0 ≡ the_leaf e
      → t < e
      → (trace : Columns F) × (inputs : PublicInputs F) × (cli_statement t n e
          ≡ some (trace, inputs))
        × IsDemo t n root inputs
  unfolding cli_statement tree_proof tree_root
  statement_lem t n e nodes root run tree top leaf later =
      let path : List F × List Bool = (siblings_up nodes tree_depth 0 0, bits_up tree_depth 0) in
      let (trace, inputs, built, is_root, nullifier, registry, purpose, nonce, timestamp) =
        build_trace_lem (cli_witness t n e path) (length-siblings_up nodes tree_depth 0 0)
          (length-bits_up tree_depth 0) later in
      let same : inputs.merkle_root ≡ root = some_eq inputs.merkle_root root (
        is_root
        ∙ ap (λ l. recompute_root l (siblings_up nodes tree_depth 0 0) (bits_up tree_depth 0))
            (sym leaf)
        ∙ recompute_root-node nodes tree
        ∙ ap some (sym top)) in
      (
        trace,
        inputs,
        ap (λ x. and_then x (λ tree. trace_of t n e (tree_proof tree 0) (tree_root tree)))
              (demo_tree-climb e nodes root run)
            ∙ ap
                (λ x.
                  trace_of t n e x
                    (tree_root (record { zero_hashes = init_zero_hashes; nodes = nodes })))
                (proof_up_lem nodes tree_depth 0 0 (omega arith))
            ∙ ap (trace_of t n e (some path)) (tree_node-root nodes)
            ∙ ap (λ x. and_then x (assert_root (node nodes tree_depth 0))) built
            ∙ assert_root-same (node nodes tree_depth 0) trace inputs (same ∙ top),
        record {
          registry_id = registry;
          merkle_root = same;
          purpose = purpose;
          request_nonce = nonce;
          current_timestamp = timestamp;
          nullifier = nullifier;
        },
      )

  -- The abstract view of the demo registry: the leaf at index 0, and zero elsewhere.
  abbrev pub demo_leaves : ℕ → ℕ → F
  demo_leaves license_expiry j = if nat_beq 0 j then the_leaf license_expiry else o.zero_fe

  empty_leaf : (j : ℕ) → node {F = F} [] 0 j ≡ o.zero_fe
  unfolding node get init_zero_hashes
  empty_leaf j = refl

  -- The arguments, once they are read.
  pub cli_trace-statement :
      (args : List Text) (t e n : ℕ)
      → current_timestamp_arg args ≡ some t
      → license_expiry_arg args ≡ some e
      → request_nonce_arg args ≡ some n
      → cli_trace {F = F} args ≡ cli_statement t n e
  unfolding cli_trace
  cli_trace-statement args t e n t_arg e_arg n_arg = rw (t_arg, e_arg, n_arg) refl

  -- Where the time stamp, the expiry and the nonce are what the arguments or their defaults say,
  -- the command line builds its trace, and so passes its assertion that the trace's root is the
  -- tree's, when the licence expires after the time stamp: the root is the Merkle root of the one
  -- leaf, of the hard-coded owner, and the other public inputs are what was asked for. When the
  -- licence does not expire after the time stamp, the command panics.
  pub cli_trace_lem :
      (args : List Text) (t e n : ℕ)
      → current_timestamp_arg args ≡ some t
      → license_expiry_arg args ≡ some e
      → request_nonce_arg args ≡ some n
      → (t < e
          → (trace : Columns F) × (inputs : PublicInputs F) × (cli_trace args
              ≡ some (trace, inputs))
            × IsDemo t n (merkle_root_of tree_depth 0 (demo_leaves e)) inputs)
        × (e ≤ t → cli_trace {F = F} args ≡ none)
  unfolding cli_statement
  cli_trace_lem args t e n t_arg e_arg n_arg =
      let (nodes, root, run, tree, top, leaves) =
        climb_leaf [] 0 (the_leaf e) IsHashTree-empty (omega arith) in
      let held : (j : ℕ) → node nodes 0 j ≡ demo_leaves e j =
        λ j. leaves j ∙ ap (λ z. if nat_beq 0 j then the_leaf e else z) (empty_leaf j) in
      let is_root : root ≡ merkle_root_of tree_depth 0 (demo_leaves e) =
        top
        ∙ node-merkle_root_of nodes tree tree_depth 0 (omega arith)
        ∙ merkle_root_of_ext tree_depth 0 _ _ held in
      let opened : cli_trace {F = F} args ≡ cli_statement t n e =
        cli_trace-statement args t e n t_arg e_arg n_arg in
      (
        λ later.
            let (trace, inputs, ran, demo) =
              statement_lem t n e nodes root run tree top (held 0) later in
            (trace, inputs, opened ∙ ran, rw (← is_root) demo),
        λ late.
            opened
            ∙ and_then-none (demo_tree e) _
                (λ tree. trace_of-late t n e (tree_proof tree 0) (tree_root tree) late),
      )
