-- ===== src/Prover/Cli.antt =====
-- prover/src/main.rs: the command line, from the arguments to the trace that it proves. `none` is a panic, a
-- failed `expect` included.
use yaqeen_stark_winterfell.Prelude.{
  ℕ, ◌^◌, Bool, Option, none, some, List, [], ◌∷◌, get_elem?, ltb, ◌==◌, if◌then◌else◌,
}
use yaqeen_stark_winterfell.Field.{FieldOps, field_eq}
use yaqeen_stark_winterfell.Air.Layout.{domain_leaf, domain_owner_commitment}
use yaqeen_stark_winterfell.Air.Permutation.{hash}
use yaqeen_stark_winterfell.Air.Inputs.{PublicInputs}
use yaqeen_stark_winterfell.Canister.Outcome.{Text}
use yaqeen_stark_winterfell.Canister.Text.{parse_u128}
use yaqeen_stark_winterfell.Prover.Tree.{empty_tree, tree_insert, tree_root, tree_proof, SparseTree}
use yaqeen_stark_winterfell.Prover.Trace.{Witness, Columns, build_trace}

abbrev pub and_then : {A B : Type 0} → Option A → (A → Option B) → Option B
and_then none f = none
and_then (some a) f = f a

-- `u64::from_str`: the grammar of `u128`'s, with a smaller bound.
abbrev pub small_u64 : ℕ → Option ℕ
small_u64 n = if ltb n (2 ^ 64) then some n else none

unfoldable pub parse_u64 : Text → Option ℕ
parse_u64 s = and_then (parse_u128 s) small_u64

-- `args().nth(k).map(|s| s.parse().expect(…)).unwrap_or(default)`
abbrev pub arg_or : (Text → Option ℕ) → Option Text → ℕ → Option ℕ
arg_or parse none default = some default
arg_or parse (some s) default = parse s

unfoldable pub current_timestamp_arg : List Text → Option ℕ
current_timestamp_arg args = arg_or parse_u64 (get_elem? args 1) 1_754_000_000

unfoldable pub license_expiry_arg : List Text → Option ℕ
license_expiry_arg args = arg_or parse_u64 (get_elem? args 3) 1_785_536_000

-- The type that the parse is at is that of the argument of `BaseElement::new`, a `u128`.
unfoldable pub request_nonce_arg : List Text → Option ℕ
request_nonce_arg args = arg_or parse_u128 (get_elem? args 2) 7

module _ {F : Type 0} ⦃o : FieldOps F⦄ where
  unfoldable pub demo_leaf : ℕ → Option F
  unfolding hash
  demo_leaf license_expiry =
      and_then (hash (o.new domain_owner_commitment ∷ o.new 0xa11ce ∷ o.new 42 ∷ []))
        (λ owner_commitment. hash (
          o.new domain_leaf
          ∷ o.new 1
          ∷ owner_commitment
          ∷ o.zero_fe
          ∷ o.one_fe
          ∷ o.new license_expiry
          ∷ []))

  -- The demo registry: the tree with the leaf at index 0.
  unfoldable pub demo_tree : ℕ → Option (SparseTree F)
  unfolding demo_leaf
  demo_tree license_expiry =
      and_then (demo_leaf license_expiry) (λ leaf. tree_insert empty_tree 0 leaf)

  abbrev pub cli_witness : ℕ → ℕ → ℕ → List F × List Bool → Witness F
  cli_witness timestamp nonce license_expiry (siblings, bits) = record {
    registry_id = o.new 1;
    purpose = o.new 1;
    request_nonce = o.new nonce;
    current_timestamp = timestamp;
    owner_secret = o.new 0xa11ce;
    property_id = o.new 42;
    license_expiry = license_expiry;
    merkle_siblings = siblings;
    merkle_bits = bits;
  }

  -- The assertion that the trace's root is the tree's.
  abbrev pub assert_root : F → Columns F × PublicInputs F → Option (Columns F × PublicInputs F)
  assert_root merkle_root (trace, pub_inputs) =
      if pub_inputs.merkle_root == merkle_root then some (trace, pub_inputs) else none

  -- The two calls on the tree, and what is made of their results.
  abbrev pub trace_of :
      ℕ → ℕ → ℕ → Option (List F × List Bool) → Option F → Option (Columns F × PublicInputs F)
  trace_of timestamp nonce license_expiry proof root = and_then proof (λ path.
      and_then root (λ merkle_root.
        and_then (build_trace (cli_witness timestamp nonce license_expiry path))
          (assert_root merkle_root)))

  unfoldable pub cli_statement : ℕ → ℕ → ℕ → Option (Columns F × PublicInputs F)
  unfolding demo_tree
  cli_statement timestamp nonce license_expiry =
      and_then (demo_tree license_expiry)
        (λ tree. trace_of timestamp nonce license_expiry (tree_proof tree 0) (tree_root tree))

  -- Steps 1 to 3 of `main`, in the order of the source: the trace and the public inputs.
  unfoldable pub cli_trace : List Text → Option (Columns F × PublicInputs F)
  cli_trace args = and_then (current_timestamp_arg args) (λ timestamp.
      and_then (license_expiry_arg args) (λ license_expiry.
        and_then (request_nonce_arg args) (λ nonce. cli_statement timestamp nonce license_expiry)))
