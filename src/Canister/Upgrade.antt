-- ===== src/Canister/Upgrade.antt =====
-- The upgrade hooks `pre_upgrade` and `post_upgrade` and the snapshot between them. Saving to stable
-- memory and reading back gives the snapshot; `none` is a panic on a text that does not parse. The
-- new code starts from `State::default()`, and every field of it is written.
pub mod RoundTrip
pub mod Tables
use yaqeen_stark_winterfell.Prelude.{
  ℕ, Bool, Option, none, some, List, [], ◌∷◌, map, nat_eq, pair_eq, list_eq,
}
use yaqeen_stark_winterfell.Prelude.Map.{Map, get, collect}
use yaqeen_stark_winterfell.Field.{FieldOps}
use yaqeen_stark_winterfell.Air.Layout.{tree_depth}
use yaqeen_stark_winterfell.Air.Permutation.{lane}
use yaqeen_stark_winterfell.Canister.Outcome.{Text, Outcome, ok, err, trap}
use yaqeen_stark_winterfell.Canister.Text.{parse_fe, fe_to_string}
use yaqeen_stark_winterfell.Canister.State.{
  State, Record, Challenge, Principals, principal_eq, init_zero_hashes, default_state,
}
use yaqeen_stark_winterfell.Canister.Tree.{or_else}

pub record StableRecord : Type 0 where
  pub property_id : ℕ
  pub owner_commitment : Text
  pub encumbrance_flag : ℕ
  pub license_status : ℕ
  pub license_expiry : ℕ

pub record StableChallenge (P : Type 0) : Type 0 where
  pub id : ℕ
  pub registry_id : ℕ
  pub merkle_root : Text
  pub purpose : ℕ
  pub request_nonce : ℕ
  pub current_timestamp : ℕ
  pub expires_at : ℕ
  pub consumed : Bool
  pub requester : P

pub record StableState (P : Type 0) : Type 0 where
  pub admins : List P
  pub records : List StableRecord
  pub leaf_index_by_property : List (ℕ × ℕ)
  pub nodes : List (ℕ × ℕ × Text)
  pub next_leaf_index : ℕ
  pub challenges : List (StableChallenge P)
  pub next_challenge_id : ℕ
  pub next_nonce : ℕ
  pub oldest_unpruned_challenge_id : ℕ
  pub nullifiers : List (Text × Bool)
  pub last_challenge_call_at : List (P × ℕ)
  pub last_verify_call_at : List (P × ℕ)

abbrev pub save_record : ℕ × Record → StableRecord
save_record (k, r) = record {
  property_id = r.property_id;
  owner_commitment = r.owner_commitment;
  encumbrance_flag = r.encumbrance_flag;
  license_status = r.license_status;
  license_expiry = r.license_expiry;
}

abbrev pub restore_record : StableRecord → ℕ × Record
restore_record r = (
  r.property_id,
  record {
    property_id = r.property_id;
    owner_commitment = r.owner_commitment;
    encumbrance_flag = r.encumbrance_flag;
    license_status = r.license_status;
    license_expiry = r.license_expiry;
  },
)

module _ {F : Type 0} ⦃o : FieldOps F⦄ where
  abbrev pub save_node : (ℕ × ℕ) × F → ℕ × ℕ × Text
  save_node ((level, idx), v) = (level, idx, fe_to_string v)

module _ {F P : Type 0} ⦃o : FieldOps F⦄ where
  abbrev pub save_challenge : ℕ × Challenge F P → StableChallenge P
  save_challenge (id, c) = record {
    id = id;
    registry_id = c.registry_id;
    merkle_root = fe_to_string c.merkle_root;
    purpose = c.purpose;
    request_nonce = c.request_nonce;
    current_timestamp = c.current_timestamp;
    expires_at = c.expires_at;
    consumed = c.consumed;
    requester = c.requester;
  }

  unfoldable pub pre_upgrade : State F P → StableState P
  pre_upgrade s = record {
    admins = s.admins;
    records = map save_record s.records;
    leaf_index_by_property = s.leaf_index_by_property;
    nodes = map save_node s.nodes;
    next_leaf_index = s.next_leaf_index;
    challenges = map save_challenge s.challenges;
    next_challenge_id = s.next_challenge_id;
    next_nonce = s.next_nonce;
    oldest_unpruned_challenge_id = s.oldest_unpruned_challenge_id;
    nullifiers = s.nullifiers;
    last_challenge_call_at = s.last_challenge_call_at;
    last_verify_call_at = s.last_verify_call_at;
  }

module _ {F : Type 0} ⦃o : FieldOps F⦄ where
  abbrev pub add_node :
      ℕ × ℕ → Outcome F → Option (List ((ℕ × ℕ) × F)) → Option (List ((ℕ × ℕ) × F))
  add_node at (ok v) (some rest) = some ((at, v) ∷ rest)
  add_node at (ok v) none = none
  add_node at (err e) rest = none
  add_node at trap rest = none

  unfoldable pub restore_nodes : List (ℕ × ℕ × Text) → Option (List ((ℕ × ℕ) × F))
  restore_nodes [] = some []
  restore_nodes ((level, idx, v) ∷ rest) = add_node (level, idx) (parse_fe v) (restore_nodes rest)

module _ {F P : Type 0} ⦃o : FieldOps F⦄ where
  abbrev pub add_challenge :
      StableChallenge P
      → Outcome F
      → Option (List (ℕ × Challenge F P))
      → Option (List (ℕ × Challenge F P))
  add_challenge c (ok merkle_root) (some rest) = some (
      (
        c.id,
        record {
          registry_id = c.registry_id;
          merkle_root = merkle_root;
          purpose = c.purpose;
          request_nonce = c.request_nonce;
          current_timestamp = c.current_timestamp;
          expires_at = c.expires_at;
          consumed = c.consumed;
          requester = c.requester;
        },
      )
      ∷ rest)
  add_challenge c (ok merkle_root) none = none
  add_challenge c (err e) rest = none
  add_challenge c trap rest = none

  unfoldable pub restore_challenges : List (StableChallenge P) → Option (List (ℕ × Challenge F P))
  restore_challenges [] = some []
  restore_challenges (c ∷ rest) = add_challenge c (parse_fe c.merkle_root) (restore_challenges rest)

module _ {F P : Type 0} ⦃o : FieldOps F⦄ ⦃p : Principals P⦄ where
  -- The state that the snapshot gives once its field elements are read.
  abbrev pub restored :
      StableState P
      → Option (List ((ℕ × ℕ) × F))
      → Option (List (ℕ × Challenge F P))
      → Option (State F P)
  restored snapshot (some nodes) (some challenges) =
      let table = collect nodes in
      let calls = collect snapshot.last_challenge_call_at in
      let verifies = collect snapshot.last_verify_call_at in
      some (record {
        zero_hashes = init_zero_hashes;
        admins = snapshot.admins;
        records = collect (map restore_record snapshot.records);
        leaf_index_by_property = collect snapshot.leaf_index_by_property;
        nodes = table;
        current_root = or_else (get table (tree_depth, 0)) (lane init_zero_hashes tree_depth);
        next_leaf_index = snapshot.next_leaf_index;
        challenges = collect challenges;
        next_challenge_id = snapshot.next_challenge_id;
        next_nonce = snapshot.next_nonce;
        oldest_unpruned_challenge_id = snapshot.oldest_unpruned_challenge_id;
        nullifiers = collect snapshot.nullifiers;
        last_challenge_call_at = calls;
        last_verify_call_at = verifies;
        challenge_throttle_log = calls;
        verify_throttle_log = verifies;
      })
  restored snapshot none challenges = none
  restored snapshot (some nodes) none = none

  unfoldable pub post_upgrade : StableState P → Option (State F P)
  post_upgrade snapshot =
      restored snapshot (restore_nodes snapshot.nodes) (restore_challenges snapshot.challenges)
