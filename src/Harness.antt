-- ===== src/Harness.antt =====
-- test-harness/air_test/src/e2e_support.rs: the reference functions that the repository checks the
-- registry and the prover against.
pub mod Options
pub mod Tree
pub mod Built
pub mod Refines
pub mod Fuzz
pub mod Report
pub mod Trace
pub mod Agrees
use yaqeen_stark_winterfell.Prelude.{
  Bool, Option, none, some, List, ◌∷◌, ◌&&◌, length, nat_beq, if◌then◌else◌,
}
use yaqeen_stark_winterfell.Field.{FieldOps}
use yaqeen_stark_winterfell.Air.Layout.{tree_depth}
use yaqeen_stark_winterfell.Canister.State.{hash_node}

module _ {F : Type 0} ⦃o : FieldOps F⦄ where
  -- The loop of `SparseTree::recompute_root`.
  unfoldable pub recompute : F → List F → List Bool → F
  recompute cur (sibling ∷ siblings) (bit ∷ bits) =
      recompute (if bit then hash_node sibling cur else hash_node cur sibling) siblings bits
  recompute cur _ _ = cur

  -- `none` is a failed assertion on a length.
  unfoldable pub recompute_root : F → List F → List Bool → Option F
  recompute_root leaf siblings bits =
      if nat_beq (length siblings) tree_depth && nat_beq (length bits) tree_depth
      then some (recompute leaf siblings bits)
      else none
