-- ===== src/Canister/Verify.antt =====
-- `verify` and its three phases. The proof system is the crate `winterfell`: a parameter that
-- decodes a proof and verifies it against public inputs, and may panic at either.
pub mod Matches
pub mod Accepted
pub mod Rejected
pub mod Total
use yaqeen_stark_winterfell.Prelude.{
  ℕ, Bool, true, false, not, Option, none, some, List, PartialEq, ◌==◌, nat_eq, list_eq,
  if◌then◌else◌,
}
use yaqeen_stark_winterfell.Prelude.Words.{ltb_i64}
use yaqeen_stark_winterfell.Prelude.Map.{Map, get, insert}
use yaqeen_stark_winterfell.Field.{FieldOps, field_eq}
use yaqeen_stark_winterfell.Air.Inputs.{PublicInputs}
use yaqeen_stark_winterfell.Canister.Outcome.{
  Text, Error, Outcome, ok, err, trap, ◌>>=◌, ◌>>◌, unknown_challenge, wrong_requester,
  already_consumed, challenge_expired, registry_id_mismatch, merkle_root_mismatch, purpose_mismatch,
  request_nonce_mismatch, current_timestamp_mismatch, nullifier_spent, undecodable_proof,
  invalid_proof, verifier_panicked,
}
use yaqeen_stark_winterfell.Canister.Text.{fe, parse_fe, canonical_nullifier}
use yaqeen_stark_winterfell.Canister.State.{
  State, Challenge, Principals, principal_eq, VerifyPublicInputs, VerifyOk,
}
use yaqeen_stark_winterfell.Canister.Throttle.{check_and_update_throttle}
use yaqeen_stark_winterfell.Canister.Tree.{or_else}

-- The result of a call into the crate.
pub data Reply {ℓ} (A : Type ℓ) : Type ℓ where
  returned : A → Reply A
  failed : Reply A
  panicked : Reply A

-- `Proof::from_bytes`, and `verify::<TitleAir, …>` at a least conjectured security.
pub record Winterfell (F Proof : Type 0) : Type 0 where
  pub from_bytes : List ℕ → Reply Proof
  pub verify : Proof → PublicInputs F → ℕ → Reply (Unit {0})

-- `if !b { return Err(e) }`
abbrev pub require : Bool → Error → Outcome (Unit {0})
require true e = ok tt
require false e = err e

-- `catch_unwind(…).unwrap_or_else(…)`
abbrev pub catch_unwind : Outcome (Unit {0}) → Outcome (Unit {0})
catch_unwind (ok a) = ok a
catch_unwind (err e) = err e
catch_unwind trap = err verifier_panicked

abbrev pub reply_to : {A : Type 0} → Reply A → Error → Outcome A
reply_to (returned a) e = ok a
reply_to failed e = err e
reply_to panicked e = trap

module _ {F P : Type 0} where
  unfoldable pub is_spent : State F P → Text → Bool
  is_spent s key = or_else (get s.nullifiers key) false

  -- `if let Some(c) = s.challenges.get_mut(&id) { c.consumed = true }`
  abbrev pub consume_found :
      Map ℕ (Challenge F P) → ℕ → Option (Challenge F P) → Map ℕ (Challenge F P)
  consume_found challenges id none = challenges
  consume_found challenges id (some c) = insert challenges id (record c { consumed = true })

  abbrev pub consume : Map ℕ (Challenge F P) → ℕ → Map ℕ (Challenge F P)
  consume challenges id = consume_found challenges id (get challenges id)

  unfoldable pub verify_commit_impl : State F P → ℕ → Text → Outcome VerifyOk × State F P
  unfolding is_spent
  verify_commit_impl s challenge_id nullifier =
      if is_spent s nullifier then (err nullifier_spent, s) else (
        ok (record { nullifier = nullifier }),
        record s {
          challenges = consume s.challenges challenge_id;
          nullifiers = insert s.nullifiers nullifier true;
        },
      )

module _ {F : Type 0} ⦃o : FieldOps F⦄ where
  -- The public inputs of the statement, from those of the call and its two parsed texts.
  abbrev pub air_pub_inputs : VerifyPublicInputs → F → F → PublicInputs F
  air_pub_inputs inputs merkle_root nullifier = record {
    registry_id = fe inputs.registry_id;
    merkle_root = merkle_root;
    purpose = fe inputs.purpose;
    request_nonce = fe inputs.request_nonce;
    current_timestamp = fe inputs.current_timestamp;
    nullifier = nullifier;
  }

module _ {F Proof : Type 0} ⦃o : FieldOps F⦄ where
  unfoldable pub verify_crypto_impl :
      Winterfell F Proof → VerifyPublicInputs → List ℕ → Outcome (Unit {0})
  verify_crypto_impl w inputs proof_bytes = do
    merkle_root ← parse_fe inputs.merkle_root
    nullifier ← parse_fe inputs.nullifier
    catch_unwind (do
      proof ← reply_to (w.from_bytes proof_bytes) undecodable_proof
      reply_to (w.verify proof (air_pub_inputs inputs merkle_root nullifier) 80) invalid_proof)

module _ {F P : Type 0} ⦃o : FieldOps F⦄ ⦃p : Principals P⦄ where
  -- The checks of the first phase against the challenge that was issued.
  unfoldable pub check_challenge :
      State F P → Challenge F P → P → ℕ → VerifyPublicInputs → Outcome (Unit {0})
  unfolding is_spent canonical_nullifier
  check_challenge s c caller now_ns inputs = do
    require (caller == c.requester) wrong_requester
    require (not c.consumed) already_consumed
    require (not (ltb_i64 c.expires_at now_ns)) challenge_expired
    require (inputs.registry_id == c.registry_id) registry_id_mismatch
    merkle_root ← parse_fe inputs.merkle_root
    require (merkle_root == c.merkle_root) merkle_root_mismatch
    require (inputs.purpose == c.purpose) purpose_mismatch
    require (inputs.request_nonce == c.request_nonce) request_nonce_mismatch
    require (inputs.current_timestamp == c.current_timestamp) current_timestamp_mismatch
    key ← canonical_nullifier F inputs.nullifier
    require (not (is_spent s key)) nullifier_spent

  abbrev pub check_found :
      State F P → Option (Challenge F P) → P → ℕ → VerifyPublicInputs → Outcome (Unit {0})
  check_found s none caller now_ns inputs = err unknown_challenge
  check_found s (some c) caller now_ns inputs = check_challenge s c caller now_ns inputs

  unfoldable pub verify_precheck_impl :
      State F P → P → ℕ → ℕ → VerifyPublicInputs → Outcome (Unit {0}) × State F P
  verify_precheck_impl s caller now_ns challenge_id inputs =
      let (result, store, log) =
        check_and_update_throttle s.last_verify_call_at s.verify_throttle_log caller now_ns in
      let s' = record s { last_verify_call_at = store; verify_throttle_log = log } in
      (result >> check_found s' (get s'.challenges challenge_id) caller now_ns inputs, s')

  -- What the wrapper does with the canonical nullifier, and with the result of the first two phases.
  -- (No phase panics outside `catch_unwind`.)
  abbrev pub commit_key : Outcome Text → State F P → ℕ → Outcome VerifyOk × State F P
  commit_key (ok key) s challenge_id = verify_commit_impl s challenge_id key
  commit_key (err e) s challenge_id = (err e, s)
  commit_key trap s challenge_id = (trap, s)

  abbrev pub commit_after :
      Outcome (Unit {0}) → State F P → ℕ → VerifyPublicInputs → Outcome VerifyOk × State F P
  commit_after (ok _) s challenge_id inputs =
      commit_key (canonical_nullifier F inputs.nullifier) s challenge_id
  commit_after (err e) s challenge_id inputs = (err e, s)
  commit_after trap s challenge_id inputs = (trap, s)

  unfoldable pub verify :
      {Proof : Type 0}
      → Winterfell F Proof
      → State F P
      → P
      → ℕ
      → ℕ
      → List ℕ
      → VerifyPublicInputs
      → Outcome VerifyOk × State F P
  verify w s caller now_ns challenge_id proof_bytes inputs =
      let (precheck, s') = verify_precheck_impl s caller now_ns challenge_id inputs in
      commit_after (precheck >> verify_crypto_impl w inputs proof_bytes) s' challenge_id inputs
