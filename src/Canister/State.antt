-- ===== src/Canister/State.antt =====
-- The data types of canister/src/lib.rs and its state. `P` is `candid::Principal`.
use yaqeen_stark_winterfell.Prelude.{ℕ, zero, suc, ◌*◌, Bool, List, [], ◌∷◌, PartialEq}
use yaqeen_stark_winterfell.Prelude.Map.{Map}
use yaqeen_stark_winterfell.Field.{FieldOps}
use yaqeen_stark_winterfell.Air.Layout.{tree_depth, domain_node}
use yaqeen_stark_winterfell.Air.Permutation.{digest, lane}
use yaqeen_stark_winterfell.Canister.Outcome.{Text}
use yaqeen_stark_winterfell.Canister.Text.{fe}

-- What the code uses of `Principal`: equality and the anonymous principal.
pub record Principals (P : Type 0) : Type 0 where
  pub eq : PartialEq P
  pub anonymous : P

instance abbrev pub principal_eq : {P : Type 0} ⦃p : Principals P⦄ → PartialEq P
principal_eq ⦃p⦄ = p.eq

pub record Record : Type 0 where
  pub property_id : ℕ
  pub owner_commitment : Text
  pub encumbrance_flag : ℕ
  pub license_status : ℕ
  pub license_expiry : ℕ

pub record MerkleProof : Type 0 where
  pub leaf_index : ℕ
  pub siblings : List Text
  pub path_bits : List Bool
  pub root : Text

pub record ChallengeView : Type 0 where
  pub challenge_id : ℕ
  pub registry_id : ℕ
  pub merkle_root : Text
  pub purpose : ℕ
  pub request_nonce : ℕ
  pub current_timestamp : ℕ
  pub expires_at : ℕ

pub record Challenge (F P : Type 0) : Type 0 where
  pub registry_id : ℕ
  pub merkle_root : F
  pub purpose : ℕ
  pub request_nonce : ℕ
  pub current_timestamp : ℕ
  pub expires_at : ℕ
  pub consumed : Bool
  pub requester : P

pub record VerifyPublicInputs : Type 0 where
  pub registry_id : ℕ
  pub merkle_root : Text
  pub purpose : ℕ
  pub request_nonce : ℕ
  pub current_timestamp : ℕ
  pub nullifier : Text

pub record VerifyOk : Type 0 where
  pub nullifier : Text

abbrev pub challenge_ttl_ns : ℕ
challenge_ttl_ns = 5 * 60 * 1_000_000_000

abbrev pub min_call_interval_ns : ℕ
min_call_interval_ns = 2_000_000_000

abbrev pub max_prune_per_heartbeat : ℕ
max_prune_per_heartbeat = 50

abbrev pub registry_id : ℕ
registry_id = 1

abbrev pub throttle_retention_ns : ℕ
throttle_retention_ns = 60 * 60 * 1_000_000_000

pub record State (F P : Type 0) : Type 0 where
  pub admins : List P
  pub records : Map ℕ Record
  pub leaf_index_by_property : Map ℕ ℕ
  pub zero_hashes : List F
  pub nodes : Map (ℕ × ℕ) F
  pub current_root : F
  pub next_leaf_index : ℕ
  pub challenges : Map ℕ (Challenge F P)
  pub next_challenge_id : ℕ
  pub next_nonce : ℕ
  pub oldest_unpruned_challenge_id : ℕ
  pub nullifiers : Map Text Bool
  pub last_challenge_call_at : Map P ℕ
  pub last_verify_call_at : Map P ℕ
  pub challenge_throttle_log : List (P × ℕ)
  pub verify_throttle_log : List (P × ℕ)

module _ {F : Type 0} ⦃o : FieldOps F⦄ where
  -- `title_air::hash(&[fe(DOMAIN_NODE), l, r])`
  unfoldable pub hash_node : F → F → F
  hash_node l r = digest (fe domain_node ∷ l ∷ r ∷ [])

  -- The loop of `init_zero_hashes` over its last `n` levels: each is the hash of two of the last.
  unfoldable pub zero_levels : ℕ → F → List F
  zero_levels zero prev = []
  zero_levels (suc n) prev = let z = hash_node prev prev in z ∷ zero_levels n z

  unfoldable pub init_zero_hashes : List F
  unfolding zero_levels
  init_zero_hashes = o.zero_fe ∷ zero_levels tree_depth o.zero_fe

module _ {F P : Type 0} ⦃o : FieldOps F⦄ where
  -- `State::default()`
  unfoldable pub default_state : State F P
  default_state = record {
    admins = [];
    records = [];
    leaf_index_by_property = [];
    zero_hashes = [];
    nodes = [];
    current_root = o.zero_fe;
    next_leaf_index = 0;
    challenges = [];
    next_challenge_id = 0;
    next_nonce = 0;
    oldest_unpruned_challenge_id = 0;
    nullifiers = [];
    last_challenge_call_at = [];
    last_verify_call_at = [];
    challenge_throttle_log = [];
    verify_throttle_log = [];
  }

  unfoldable pub fresh_state : State F P
  unfolding default_state init_zero_hashes
  fresh_state = record default_state {
    zero_hashes = init_zero_hashes;
    current_root = lane init_zero_hashes tree_depth;
  }
