-- ===== src/Prover/Registered.antt =====
-- The demo of the command line against the canister: the same record, submitted, gives the root of
-- the public inputs.
use yaqeen_stark_winterfell.Prelude.{
  ℕ, ◌<◌, ◌≡◌, refl, ap, sym, ◌∙◌, true, none, some, List, [], nat_eq, pair_eq, arith,
}
use yaqeen_stark_winterfell.Prelude.Words.{add64}
use yaqeen_stark_winterfell.Prelude.Map.{get, insert}
use yaqeen_stark_winterfell.Field.{FieldOps, Encoding, Arithmetic}
use yaqeen_stark_winterfell.Air.Inputs.{PublicInputs}
use yaqeen_stark_winterfell.Canister.Outcome.{Text, ok}
use yaqeen_stark_winterfell.Canister.Text.{fe, fe_to_string}
use yaqeen_stark_winterfell.Canister.Text.Canonical.{parse_fe-fe_to_string}
use yaqeen_stark_winterfell.Canister.State.{
  State, Principals, Record, init_zero_hashes, fresh_state,
}
use yaqeen_stark_winterfell.Canister.Admin.{is_admin}
use yaqeen_stark_winterfell.Canister.Tree.{leaf_hash, submit_record_impl, store_hashed}
use yaqeen_stark_winterfell.Canister.Tree.Shape.{IsHashTree-empty}
use yaqeen_stark_winterfell.Canister.Tree.Registry.{climb_leaf, insert_leaf-climb}
use yaqeen_stark_winterfell.Canister.Tree.Submit.{store_record-insert_leaf}
use yaqeen_stark_winterfell.Prover.Statement.{owner_commitment_of, leaf_of}
use yaqeen_stark_winterfell.Prover.Trace.{Columns}
use yaqeen_stark_winterfell.Prover.Cli.{
  current_timestamp_arg, license_expiry_arg, request_nonce_arg, cli_trace,
}
use yaqeen_stark_winterfell.Prover.Demo.{the_leaf, statement_lem, cli_trace-statement}

-- The record that the demo stands for, given the owner commitment.
abbrev pub demo_record : {F : Type 0} ⦃o : FieldOps F⦄ → F → ℕ → ℕ → Record
demo_record commitment property_id license_expiry = record {
  property_id = property_id;
  owner_commitment = fe_to_string commitment;
  encumbrance_flag = 0;
  license_status = 1;
  license_expiry = license_expiry;
}

-- A new canister whose administrators are `admins`.
abbrev pub new_registry : {F P : Type 0} ⦃o : FieldOps F⦄ → List P → State F P
new_registry admins = record fresh_state { admins = admins }

module _ {F : Type 0} ⦃o : FieldOps F⦄ (laws : Encoding F) (arithmetic : Arithmetic F) where
  leaf_hash-demo :
      (property_id e : ℕ)
      → leaf_hash {F = F}
          (demo_record (owner_commitment_of (o.new 0xa11ce) (o.new 42)) property_id e)
        ≡ ok (the_leaf e)
  unfolding leaf_hash leaf_of fe
  leaf_hash-demo property_id e =
      rw
        (
          parse_fe-fe_to_string laws (owner_commitment_of (o.new 0xa11ce) (o.new 42)),
          arithmetic.new-zero,
          arithmetic.new-one,
        )
        refl

module _ {F P : Type 0} ⦃o : FieldOps F⦄ ⦃p : Principals P⦄ (laws : Encoding F)
    (arithmetic : Arithmetic F) where
  -- Submitting the demo's record to a new canister, by an administrator of it, succeeds with the
  -- text of the Merkle root that is in the public inputs of the command line's trace, whatever
  -- the property's number, when the licence expires after the time stamp. The field's encoding
  -- and arithmetic are lawful.
  pub cli_root_registered :
      (admins : List P) (caller : P) (property_id : ℕ) (args : List Text) (t e n : ℕ)
      → is_admin (new_registry {F = F} admins) caller ≡ true
      → current_timestamp_arg args ≡ some t
      → license_expiry_arg args ≡ some e
      → request_nonce_arg args ≡ some n
      → t < e
      → (trace : Columns F) × (inputs : PublicInputs F) × (cli_trace args ≡ some (trace, inputs))
        × ((submit_record_impl
              (new_registry {F = F} admins)
              caller
              (demo_record (owner_commitment_of (o.new 0xa11ce) (o.new 42)) property_id e)).0
            ≡ ok (fe_to_string inputs.merkle_root))
  unfolding submit_record_impl fresh_state get
  cli_root_registered admins caller property_id args t e n is_one t_arg e_arg n_arg later =
      let (nodes, root, run, tree, top, leaves) =
        climb_leaf [] 0 (the_leaf e) IsHashTree-empty (omega arith) in
      let (trace, inputs, ran, demo) =
        statement_lem t n e nodes root run tree top (leaves 0) later in
      let r : Record = demo_record (owner_commitment_of (o.new 0xa11ce) (o.new 42)) property_id e in
      let s : State F P = new_registry admins in
      let indexed : State F P = record s {
        next_leaf_index = add64 0 1;
        leaf_index_by_property = insert [] property_id 0;
        records = insert [] property_id r;
      } in
      (
        trace,
        inputs,
        cli_trace-statement args t e n t_arg e_arg n_arg ∙ ran,
        rw is_one (
            ap (λ x. (store_hashed s r x).0) (leaf_hash-demo laws arithmetic property_id e)
            ∙ ap (λ x. x.0)
                (store_record-insert_leaf s (record indexed { nodes = nodes; current_root = root })
                  r (the_leaf e) none refl
                  (insert_leaf-climb indexed 0 (the_leaf e) init_zero_hashes nodes root refl run))
            ∙ ap (λ x. ok (fe_to_string x)) (sym demo.merkle_root)),
      )
