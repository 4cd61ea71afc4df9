-- ===== src/Harness/Report/Main.antt =====
-- The report of e2e_harness.rs ends with exit code 0.
use yaqeen_stark_winterfell.Prelude.{
  ℕ, ◌-◌, ◌^◌, ◌<◌, ◌≡◌, refl, ap, sym, ◌∙◌, Bool, true, Option, none, some, List, [], length, ◌==◌,
  if◌then◌else◌, lt→ltb, arith,
}
use yaqeen_stark_winterfell.Prelude.Map.{Map}
use yaqeen_stark_winterfell.Field.{FieldOps, Arithmetic, field_eq}
use yaqeen_stark_winterfell.Air.Layout.{tree_depth, range_bits}
use yaqeen_stark_winterfell.Air.Permutation.{hash}
use yaqeen_stark_winterfell.Air.Inputs.{PublicInputs}
use yaqeen_stark_winterfell.Air.Context.{WinterAir, Documented}
use yaqeen_stark_winterfell.Canister.Tree.Shape.{node, IsHashTree, IsHashTree-empty}
use yaqeen_stark_winterfell.Canister.Tree.Proof.{
  bits_up, siblings_up, length-bits_up, length-siblings_up,
}
use yaqeen_stark_winterfell.Prover.Trace.{Witness, Columns, build_trace}
use yaqeen_stark_winterfell.Prover.Tree.{SparseTree}
use yaqeen_stark_winterfell.Prover.Statement.{owner_commitment_of, leaf_of, build_trace_lem}
use yaqeen_stark_winterfell.Prover.Demo.{the_leaf, recompute_root-node, some_eq}
use yaqeen_stark_winterfell.Prover.Honest.Whole.{build_trace-HonestTrace}
use yaqeen_stark_winterfell.Prover.Honest.Vanish.{Steps-vanish, wrap_vanishes}
use yaqeen_stark_winterfell.Prover.Honest.Complete.{assertions_hold}
use yaqeen_stark_winterfell.Harness.{recompute_root}
use yaqeen_stark_winterfell.Harness.Tree.{
  harness_new, harness_insert_leaf, harness_root, harness_proof,
}
use yaqeen_stark_winterfell.Harness.Built.{proof_up_lem, node_at-node}
use yaqeen_stark_winterfell.Harness.Refines.{tree_with, new-tree_with, insert_leaf_lem}
use yaqeen_stark_winterfell.Harness.Trace.{harness_build_trace}
use yaqeen_stark_winterfell.Harness.Agrees.{accepts, harness_build_trace_lem}
use yaqeen_stark_winterfell.Harness.Options.{or_panic, demo_air_made}
use yaqeen_stark_winterfell.Harness.Report.{
  registered_leaf, demo_witness, demo_expiry, witness_with, honest_report, root_report, e2e_main,
}
use yaqeen_stark_winterfell.Harness.Report.Counts.{same-true}
use yaqeen_stark_winterfell.Harness.Report.Passes.{checks_pass}

module _ {F : Type 0} ⦃o : FieldOps F⦄ where
  registered_leaf-the_leaf : registered_leaf {F = F} ≡ some (the_leaf demo_expiry)
  unfolding registered_leaf hash owner_commitment_of leaf_of
  registered_leaf-the_leaf = refl

  abbrev path_of : Map (ℕ × ℕ) F → List F × List Bool
  path_of nodes = (siblings_up nodes tree_depth 0 0, bits_up tree_depth 0)

  -- The demonstration's witness, and the tree's root.
  demo_lem :
      (nodes : Map (ℕ × ℕ) F)
      → harness_insert_leaf (tree_with []) 0 (the_leaf demo_expiry) ≡ some (tree_with nodes)
      → demo_witness ≡ some (witness_with (path_of nodes), node nodes tree_depth 0)
  unfolding demo_witness harness_proof harness_root
  demo_lem nodes run =
      let ask : SparseTree F → Option (Witness F × F) = λ tree.
        or_panic (harness_proof tree 0)
          (λ path. or_panic (harness_root tree) (λ root. some (witness_with path, root))) in
      ap (λ x. or_panic x (λ leaf. or_panic (harness_insert_leaf harness_new 0 leaf) ask))
        registered_leaf-the_leaf
      ∙ ap (λ t. or_panic (harness_insert_leaf t 0 (the_leaf demo_expiry)) ask) new-tree_with
      ∙ ap (λ x. or_panic x ask) run
      ∙ ap
          (λ x. or_panic x (λ path.
            or_panic (harness_root (tree_with nodes)) (λ root. some (witness_with path, root))))
          (proof_up_lem nodes tree_depth 0 0 (omega arith))
      ∙ ap (λ x. or_panic x (λ root. some (witness_with (path_of nodes), root)))
          (node_at-node nodes tree_depth 0 (omega arith))

  accepts_intro :
      (w : Witness F)
      → length w.merkle_siblings ≡ tree_depth
      → length w.merkle_bits ≡ tree_depth
      → w.current_timestamp < w.license_expiry
      → w.license_expiry - w.current_timestamp - 1 < 2 ^ range_bits
      → accepts w ≡ true
  accepts_intro w siblings path later room =
      rw
        (
          siblings,
          path,
          lt→ltb w.current_timestamp w.license_expiry later,
          lt→ltb (w.license_expiry - w.current_timestamp - 1) (2 ^ range_bits) room,
        )
        refl

  abbrev root_in : Option (Columns F × PublicInputs F) → F
  root_in none = o.zero_fe
  root_in (some (cols, inputs)) = inputs.merkle_root

  -- The builder's root is the tree's.
  demo_root :
      (nodes : Map (ℕ × ℕ) F)
      → IsHashTree nodes
      → node nodes 0 0 ≡ the_leaf demo_expiry
      → (cols : Columns F) (inputs : PublicInputs F)
      → build_trace (witness_with (path_of nodes)) ≡ some (cols, inputs)
      → inputs.merkle_root ≡ node nodes tree_depth 0
  demo_root nodes tree leaf cols inputs built =
      let (cols', inputs', built', is_root, nullifier, registry, purpose, nonce, timestamp) =
        build_trace_lem (witness_with (path_of nodes)) (length-siblings_up nodes tree_depth 0 0)
          (length-bits_up tree_depth 0) (omega arith) in
      ap root_in (sym built ∙ built')
      ∙ some_eq inputs'.merkle_root (node nodes tree_depth 0) (
          is_root
          ∙ ap (λ l. recompute_root l (siblings_up nodes tree_depth 0 0) (bits_up tree_depth 0))
              (sym leaf)
          ∙ recompute_root-node nodes tree)

module _ {F Options Context : Type 0} ⦃o : FieldOps F⦄ (laws : Arithmetic F)
    (winter : WinterAir Options Context) (documented : Documented winter) where
  -- What the harness's builder returns for a witness, and what the report makes of it.
  report_lem :
      (w : Witness F)
      → length w.merkle_siblings ≡ tree_depth
      → length w.merkle_bits ≡ tree_depth
      → w.current_timestamp < w.license_expiry
      → w.license_expiry - w.current_timestamp - 1 < 2 ^ range_bits
      → w.license_expiry < 2 ^ 64
      → (cols : Columns F) × (inputs : PublicInputs F) × (build_trace w ≡ some (cols, inputs))
        × (harness_build_trace w ≡ some (cols, inputs))
        × (honest_report winter w cols inputs ≡ some 0)
  report_lem w siblings path later room word =
      let (cols, inputs, built, honest) = build_trace-HonestTrace w siblings path later in
      let (context, made) = demo_air_made winter documented inputs in
      (
        cols,
        inputs,
        built,
        harness_build_trace_lem w
            ∙ ap (λ b. if b then build_trace w else none) (accepts_intro w siblings path later room)
            ∙ built,
        checks_pass laws (record { context = context; pub_inputs = inputs }) w cols
            (Steps-vanish laws w cols inputs honest later room word)
            (wrap_vanishes laws w cols inputs honest later room word)
            (assertions_hold w cols inputs honest) winter inputs made,
      )

  -- For every witness with 25 siblings and bits, whose licence expires after its time stamp by at
  -- most 2 ^ 32 seconds and at a u64, the harness's builder returns a trace on which steps 3 to 7
  -- of the report pass, with exit code 0: all constraints vanish on all rows, the last wrapped to
  -- the first, all assertions hold, both tampered traces are noticed, and the rounds by hand
  -- agree with `hash`. The field's arithmetic is lawful. Winterfell makes options and contexts as
  -- its documentation says.
  pub honest_report_passes :
      (w : Witness F)
      → length w.merkle_siblings ≡ tree_depth
      → length w.merkle_bits ≡ tree_depth
      → w.current_timestamp < w.license_expiry
      → w.license_expiry - w.current_timestamp - 1 < 2 ^ range_bits
      → w.license_expiry < 2 ^ 64
      → (cols : Columns F) × (inputs : PublicInputs F) × (harness_build_trace w
          ≡ some (cols, inputs))
        × (honest_report winter w cols inputs ≡ some 0)
  honest_report_passes w siblings path later room word =
      let (cols, inputs, built, ran, passes) = report_lem w siblings path later room word in
      (cols, inputs, ran, passes)

  -- The demonstration passes every check, the comparison of the trace's root with the tree's
  -- among them, and ends with exit code 0. The field's arithmetic is lawful. Winterfell makes
  -- options and contexts as its documentation says.
  pub e2e_main_passes : e2e_main F winter ≡ some 0
  unfolding e2e_main
  e2e_main_passes =
      let (nodes, run, tree, leaves) =
        insert_leaf_lem [] 0 (the_leaf demo_expiry) IsHashTree-empty (omega arith) in
      let w : Witness F = witness_with (path_of nodes) in
      let root : F = node nodes tree_depth 0 in
      let (cols, inputs, built, ran, passes) =
        report_lem w (length-siblings_up nodes tree_depth 0 0) (length-bits_up tree_depth 0)
          (omega arith) (omega arith) (omega arith) in
      let same : (inputs.merkle_root == root) ≡ true =
        same-true inputs.merkle_root root (demo_root nodes tree (leaves 0) cols inputs built) in
      ap
        (λ x.
          or_panic x (λ demo.
            or_panic (harness_build_trace demo.0) (λ built. root_report winter demo built)))
        (demo_lem nodes run)
      ∙ ap (λ x. or_panic x (λ built. root_report winter (w, root) built)) ran
      ∙ ap (λ b. if b then honest_report winter w cols inputs else some 1) same
      ∙ passes
