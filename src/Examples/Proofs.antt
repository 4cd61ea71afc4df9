-- ===== src/Examples/Proofs.antt =====
-- The theorems on `verify` at a challenge that is issued.
use yaqeen_stark_winterfell.Prelude.{
  ℕ, ◌≡◌, refl, Bool, true, some, List, [], ◌∷◌, nat_eq, list_eq, ◌↔◌,
}
use yaqeen_stark_winterfell.Prelude.Map.{get}
use yaqeen_stark_winterfell.Prelude.Words.{ltb_i64}
use yaqeen_stark_winterfell.Canister.Outcome.{ok, err, wrong_requester}
use yaqeen_stark_winterfell.Canister.Text.{parse_fe, canonical_nullifier, fe_to_string}
use yaqeen_stark_winterfell.Canister.Text.Canonical.{parse_fe-fe_to_string, canonical_nullifier_iff}
use yaqeen_stark_winterfell.Canister.State.{State, Challenge, fresh_state}
use yaqeen_stark_winterfell.Canister.Throttle.{check_and_update_throttle}
use yaqeen_stark_winterfell.Canister.Verify.{
  verify, verify_precheck_impl, verify_crypto_impl, verify_commit_impl, check_challenge, is_spent,
}
use yaqeen_stark_winterfell.Canister.Verify.Matches.{Matches, Proves}
use yaqeen_stark_winterfell.Canister.Verify.Accepted.{Spends, verify_accepted}
use yaqeen_stark_winterfell.Canister.Verify.Rejected.{verify_accepts, verify_rejected}
use yaqeen_stark_winterfell.Examples.Instances.{
  bits, bits-Encoding, accounts, proofs, one_text, challenge, issued, inputs, receipt,
}

abbrev three_text : List ℕ
three_text = b'+' ∷ b'0' ∷ b'3' ∷ []

parse_one : parse_fe {F = Bool} one_text ≡ ok true
unfolding parse_fe
parse_one = refl

parse_three : parse_fe {F = Bool} three_text ≡ ok true
unfolding parse_fe
parse_three = refl

parse_fe-fe_to_string_example : parse_fe {F = Bool} (fe_to_string true) ≡ ok true
parse_fe-fe_to_string_example = parse_fe-fe_to_string bits-Encoding true

canonical_nullifier_iff_example :
    (canonical_nullifier Bool one_text ≡ canonical_nullifier Bool three_text) ↔ (true ≡ true)
canonical_nullifier_iff_example =
    canonical_nullifier_iff bits-Encoding one_text three_text true true parse_one parse_three

abbrev after : State Bool ℕ
after = (verify proofs issued 7 10 0 (1 ∷ []) inputs).1

run : verify proofs issued 7 10 0 (1 ∷ []) inputs ≡ (ok receipt, after)
unfolding verify verify_precheck_impl verify_crypto_impl verify_commit_impl check_challenge
    check_and_update_throttle get fresh_state ltb_i64
run = refl

verify_accepted_example :
    (c : Challenge Bool ℕ) × ((check_and_update_throttle issued.last_verify_call_at
        issued.verify_throttle_log 7 10).0
      ≡ ok tt)
    × (get issued.challenges 0 ≡ some c)
    × Matches issued c 7 10 inputs one_text
    × Proves proofs c inputs (1 ∷ [])
    × Spends issued after 0 c one_text
verify_accepted_example = verify_accepted proofs issued 7 10 0 (1 ∷ []) inputs receipt after run

throttled :
    (check_and_update_throttle issued.last_verify_call_at issued.verify_throttle_log 7 10).0 ≡ ok tt
unfolding check_and_update_throttle fresh_state get
throttled = refl

found : get issued.challenges 0 ≡ some challenge
unfolding get
found = refl

matches : Matches issued challenge 7 10 inputs one_text
unfolding parse_fe canonical_nullifier is_spent fresh_state get ltb_i64
matches = record {
  requester = refl;
  fresh = refl;
  in_time = refl;
  registry_id = refl;
  merkle_root = refl;
  purpose = refl;
  request_nonce = refl;
  current_timestamp = refl;
  canonical = refl;
  unspent = refl;
}

proves : Proves proofs challenge inputs (1 ∷ [])
proves = record {
  nullifier = true;
  parsed = parse_three;
  proof = true;
  decoded = refl;
  verified = refl;
}

verify_accepts_example : (verify proofs issued 7 10 0 (1 ∷ []) inputs).0 ≡ ok receipt
verify_accepts_example =
    verify_accepts proofs issued 7 10 0 (1 ∷ []) inputs challenge one_text throttled found matches
      proves

stranger : (verify proofs issued 8 10 0 (1 ∷ []) inputs).0 ≡ err wrong_requester
unfolding verify verify_precheck_impl check_challenge check_and_update_throttle fresh_state get
stranger = refl

verify_rejected_example : (verify proofs issued 8 10 0 (1 ∷ []) inputs).1 ≡ record issued {
  last_verify_call_at =
      (check_and_update_throttle issued.last_verify_call_at issued.verify_throttle_log 8 10).1;
  verify_throttle_log =
      (check_and_update_throttle issued.last_verify_call_at issued.verify_throttle_log 8 10).2;
}
verify_rejected_example =
    verify_rejected proofs issued 8 10 0 (1 ∷ []) inputs wrong_requester stranger
