-- ===== src/Examples/Runs.antt =====
-- The theorems on whole runs and on panics, at small runs.
use yaqeen_stark_winterfell.Prelude.{
  false, ℕ, ◌<◌, ◌≡◌, ◌≢◌, refl, Bool, true, some, List, [], ◌∷◌, nat_eq, list_eq, length, contains,
  arith,
}
use yaqeen_stark_winterfell.Prelude.Words.{ltb_i64, add64, sub64, div_i64}
use yaqeen_stark_winterfell.Prelude.Map.{get, insert}
use yaqeen_stark_winterfell.Canister.Outcome.{ok, trap}
use yaqeen_stark_winterfell.Canister.Text.{parse_fe, fe_to_string, canonical_nullifier}
use yaqeen_stark_winterfell.Canister.Text.Canonical.{parse_fe-fe_to_string}
use yaqeen_stark_winterfell.Canister.State.{
  ChallengeView, State, Challenge, VerifyOk, VerifyPublicInputs, fresh_state,
}
use yaqeen_stark_winterfell.Canister.Admin.Laws.{HasDistinctAdmins}
use yaqeen_stark_winterfell.Canister.Upgrade.{pre_upgrade, post_upgrade}
use yaqeen_stark_winterfell.Canister.System.Kept.{run-post_upgrade}
use yaqeen_stark_winterfell.Canister.Tree.Registry.{IsRegistry, fresh-IsRegistry}
use yaqeen_stark_winterfell.Canister.Throttle.{check_and_update_throttle, prune_throttle_log}
use yaqeen_stark_winterfell.Canister.Challenges.{
  view_of, request_challenge_impl, issue, new_challenge, heartbeat_impl, prune_challenges,
}
use yaqeen_stark_winterfell.Canister.Verify.{
  verify, is_spent, verify_precheck_impl, verify_crypto_impl, verify_commit_impl, check_challenge,
}
use yaqeen_stark_winterfell.Canister.Verify.Matches.{Matches, Proves}
use yaqeen_stark_winterfell.Canister.Verify.Rejected.{verify_accepts}
use yaqeen_stark_winterfell.Canister.Verify.Total.{verify-Returns}
use yaqeen_stark_winterfell.Canister.System.{
  Message, submit_record, request_challenge, heartbeat, deliver, run,
}
use yaqeen_stark_winterfell.Canister.System.Spending.{challenge_used_once, nullifier_spent_once}
use yaqeen_stark_winterfell.Canister.System.Answers.{answer_to, request_then_verify}
use yaqeen_stark_winterfell.Canister.System.Runs.{run-IsRegistry, run-admins}
use yaqeen_stark_winterfell.Examples.Instances.{
  bits, bits-Encoding, accounts, proofs, one_text, deed, issued, challenge, inputs, receipt,
}

abbrev pub requests : List (Message ℕ)
requests = request_challenge 7 10 9 ∷ []

abbrev pub requested : State Bool ℕ
requested = run proofs fresh_state requests

abbrev pub asked : Challenge Bool ℕ
asked = new_challenge fresh_state 7 10 9

abbrev answer : VerifyPublicInputs
answer = record inputs { merkle_root = fe_to_string asked.merkle_root }

found : get requested.challenges 0 ≡ some asked
unfolding run deliver request_challenge_impl issue check_and_update_throttle get insert fresh_state
found = refl

matches : Matches requested asked 7 20 answer one_text
unfolding run deliver request_challenge_impl issue check_and_update_throttle get fresh_state ltb_i64
    add64 div_i64 is_spent canonical_nullifier
matches = record {
  requester = refl;
  fresh = refl;
  in_time = refl;
  registry_id = refl;
  merkle_root = parse_fe-fe_to_string bits-Encoding asked.merkle_root;
  purpose = refl;
  request_nonce = refl;
  current_timestamp = refl;
  canonical = refl;
  unspent = refl;
}

proves : Proves proofs asked answer (1 ∷ [])
unfolding parse_fe
proves = record { nullifier = true; parsed = refl; proof = true; decoded = refl; verified = refl }

throttled :
    (check_and_update_throttle requested.last_verify_call_at requested.verify_throttle_log 7 20).0
    ≡ ok tt
unfolding run deliver request_challenge_impl issue check_and_update_throttle get fresh_state
throttled = refl

abbrev answered : State Bool ℕ
answered = (verify proofs requested 7 20 0 (1 ∷ []) answer).1

accepted : verify proofs requested 7 20 0 (1 ∷ []) answer ≡ (ok receipt, answered)
accepted = λ i. (
  verify_accepts proofs requested 7 20 0 (1 ∷ []) answer asked one_text throttled found matches
      proves i,
  answered,
)

abbrev between : List (Message ℕ)
between = heartbeat 30 ∷ submit_record 5 deed ∷ []

challenge_used_once_example :
    (verify proofs (run proofs answered between) 7 9_000_000_000 0 (1 ∷ []) inputs).0 ≢ ok receipt
challenge_used_once_example =
    challenge_used_once proofs requests 7 20 0 (1 ∷ []) answer receipt answered accepted between 7
      9_000_000_000 (1 ∷ []) inputs receipt (omega arith)

verify-Returns_example : (verify proofs issued 7 10 0 (2 ∷ []) inputs).0 ≢ trap
verify-Returns_example = verify-Returns proofs issued 7 10 0 (2 ∷ []) inputs

run-IsRegistry_example : IsRegistry (run proofs (fresh_state {F = Bool} {P = ℕ}) between)
unfolding fresh_state
run-IsRegistry_example = run-IsRegistry proofs between fresh_state fresh-IsRegistry (omega arith)

distinct : HasDistinctAdmins issued
unfolding contains
distinct = (refl, (refl, tt))

run-admins_example :
    HasDistinctAdmins (run proofs issued between)
    × (0 < length issued.admins → 0 < length (run proofs issued between).admins)
run-admins_example = run-admins proofs between issued distinct

abbrev two_issued : State Bool ℕ
two_issued = record issued {
  challenges = (0, challenge) ∷ (1, record challenge { request_nonce = 1 }) ∷ [];
  next_challenge_id = 2;
  next_nonce = 2;
}

abbrev second_inputs : VerifyPublicInputs
second_inputs = record inputs { request_nonce = 1; nullifier = b'0' ∷ [] }

abbrev second_receipt : VerifyOk
second_receipt = record { nullifier = b'0' ∷ [] }

abbrev after_first : State Bool ℕ
after_first = (verify proofs two_issued 7 10 0 (1 ∷ []) inputs).1

first_run : verify proofs two_issued 7 10 0 (1 ∷ []) inputs ≡ (ok receipt, after_first)
unfolding verify verify_precheck_impl verify_crypto_impl verify_commit_impl check_challenge
    check_and_update_throttle get fresh_state ltb_i64
first_run = refl

second_run :
    (verify proofs
      (run proofs after_first (heartbeat 30 ∷ []))
      7
      5_000_000_000
      1
      (1 ∷ [])
      second_inputs).0
    ≡ ok second_receipt
unfolding verify verify_precheck_impl verify_crypto_impl verify_commit_impl check_challenge
    check_and_update_throttle get fresh_state ltb_i64 run deliver heartbeat_impl prune_challenges
    prune_throttle_log sub64 insert
second_run = refl

nullifier_spent_once_example :
    (x : Bool) × (y : Bool) × (parse_fe inputs.nullifier ≡ ok x)
    × (parse_fe second_inputs.nullifier ≡ ok y)
    × (x ≢ y)
unfolding fresh_state
nullifier_spent_once_example =
    nullifier_spent_once proofs bits-Encoding two_issued 7 10 0 (1 ∷ []) inputs receipt after_first
      first_run (heartbeat 30 ∷ []) 7 5_000_000_000 1 (1 ∷ []) second_inputs second_receipt
      (omega arith) second_run

abbrev shown : ChallengeView
shown = view_of 0 asked

abbrev after_request : State Bool ℕ
after_request = (request_challenge_impl fresh_state 7 10 9).1

request_run : request_challenge_impl fresh_state 7 10 9 ≡ (ok shown, after_request)
unfolding request_challenge_impl issue check_and_update_throttle get fresh_state
request_run = refl

let_through :
    (check_and_update_throttle {P = ℕ}
      (fresh_state {F = Bool}).last_verify_call_at
      (fresh_state {F = Bool}).verify_throttle_log
      7
      20).0
    ≡ ok tt
unfolding check_and_update_throttle get fresh_state
let_through = refl

not_late : ltb_i64 shown.expires_at 20 ≡ false
unfolding ltb_i64 add64
not_late = refl

named : canonical_nullifier Bool inputs.nullifier ≡ ok one_text
unfolding canonical_nullifier
named = refl

not_spent : is_spent (fresh_state {F = Bool} {P = ℕ}) one_text ≡ false
unfolding is_spent get fresh_state
not_spent = refl

answer-Proves : Proves proofs asked (answer_to shown inputs.nullifier) (1 ∷ [])
unfolding parse_fe
answer-Proves = record {
  nullifier = true;
  parsed = refl;
  proof = true;
  decoded = refl;
  verified = refl;
}

request_then_verify_example :
    (verify proofs after_request 7 20 0 (1 ∷ []) (answer_to shown inputs.nullifier)).0 ≡ ok receipt
request_then_verify_example =
    request_then_verify bits-Encoding proofs fresh_state after_request 7 10 9 shown request_run 20
      (1 ∷ []) inputs.nullifier one_text let_through not_late named not_spent answer-Proves

run-post_upgrade_example :
    (let s = run proofs fresh_state between in
      post_upgrade (pre_upgrade s)
      ≡ some (record s {
        challenge_throttle_log = s.last_challenge_call_at;
        verify_throttle_log = s.last_verify_call_at;
      }))
run-post_upgrade_example = run-post_upgrade proofs bits-Encoding between (omega arith)
