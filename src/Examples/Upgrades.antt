-- ===== src/Examples/Upgrades.antt =====
-- The upgrade's round trip at a state with a challenge, and the root after a submission.
use yaqeen_stark_winterfell.Prelude.{
  ℕ, ◌≡◌, ◌≢◌, refl, Bool, true, false, some, List, [], ◌∷◌, nat_eq, arith,
}
use yaqeen_stark_winterfell.Prelude.Map.{get}
use yaqeen_stark_winterfell.Air.Layout.{tree_depth}
use yaqeen_stark_winterfell.Canister.Outcome.{ok}
use yaqeen_stark_winterfell.Canister.State.{Record, fresh_state}
use yaqeen_stark_winterfell.Canister.Tree.{leaf_hash}
use yaqeen_stark_winterfell.Canister.Tree.Shape.{node}
use yaqeen_stark_winterfell.Canister.Upgrade.{pre_upgrade, post_upgrade}
use yaqeen_stark_winterfell.Canister.Upgrade.RoundTrip.{IsStorable, post_upgrade-pre_upgrade}
use yaqeen_stark_winterfell.Canister.System.{Message, bootstrap_admin, submit_record, run}
use yaqeen_stark_winterfell.Canister.System.Planted.{run_root_refines}
use yaqeen_stark_winterfell.Harness.Built.{merkle_root_of}
use yaqeen_stark_winterfell.Examples.Instances.{bits, bits-Encoding, accounts, proofs, deed, issued}

issued-IsStorable : IsStorable issued
unfolding fresh_state get node
issued-IsStorable = record {
  records = tt;
  own_keys = tt;
  indices = tt;
  nodes = tt;
  challenges = (refl, tt);
  nullifiers = tt;
  challenge_calls = tt;
  verify_calls = tt;
  zeros = refl;
  root = refl;
}

post_upgrade-pre_upgrade_example :
    post_upgrade (pre_upgrade issued)
    ≡ some (record issued {
      challenge_throttle_log = issued.last_challenge_call_at;
      verify_throttle_log = issued.last_verify_call_at;
    })
post_upgrade-pre_upgrade_example = post_upgrade-pre_upgrade bits-Encoding issued issued-IsStorable

-- The first administrator submits a record, twice.
abbrev filings : List (Message ℕ)
filings = bootstrap_admin true 7 ∷ submit_record 7 deed ∷ submit_record 7 deed ∷ []

run_root_refines_example :
    (let s = run proofs (fresh_state {F = Bool}) filings in
      (leaves : ℕ → Bool) × (s.current_root ≡ merkle_root_of tree_depth 0 leaves)
      × ((q index : ℕ)
          → get s.leaf_index_by_property q ≡ some index
          → (r : Record) × (get s.records q ≡ some r) × (leaf_hash r ≡ ok (leaves index)))
      × ((j : ℕ) → ((q : ℕ) → get s.leaf_index_by_property q ≢ some j) → leaves j ≡ false))
run_root_refines_example = run_root_refines proofs filings (omega arith)
