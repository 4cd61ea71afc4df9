-- ===== src/Canister/Challenges.antt =====
-- `request_challenge` and `heartbeat`.
pub mod Expiry
pub mod Pruned
use yaqeen_stark_winterfell.Prelude.{ℕ, zero, suc, false, none, some, leb, nat_eq, if◌then◌else◌}
use yaqeen_stark_winterfell.Prelude.Words.{add64, ltb_i64, div_i64}
use yaqeen_stark_winterfell.Prelude.Map.{get, insert, remove}
use yaqeen_stark_winterfell.Field.{FieldOps}
use yaqeen_stark_winterfell.Canister.Outcome.{Outcome, ok, err, trap}
use yaqeen_stark_winterfell.Canister.Text.{fe_to_string}
use yaqeen_stark_winterfell.Canister.State.{
  State, Challenge, ChallengeView, Principals, registry_id, challenge_ttl_ns,
  max_prune_per_heartbeat,
}
use yaqeen_stark_winterfell.Canister.Throttle.{check_and_update_throttle, prune_throttle_log}

module _ {F P : Type 0} ⦃o : FieldOps F⦄ where
  -- The challenge that a call creates.
  abbrev pub new_challenge : State F P → P → ℕ → ℕ → Challenge F P
  new_challenge s caller now_ns purpose = record {
    registry_id = registry_id;
    merkle_root = s.current_root;
    purpose = purpose;
    request_nonce = s.next_nonce;
    current_timestamp = div_i64 now_ns 1_000_000_000;
    expires_at = add64 now_ns challenge_ttl_ns;
    consumed = false;
    requester = caller;
  }

  abbrev pub view_of : ℕ → Challenge F P → ChallengeView
  view_of id c = record {
    challenge_id = id;
    registry_id = c.registry_id;
    merkle_root = fe_to_string c.merkle_root;
    purpose = c.purpose;
    request_nonce = c.request_nonce;
    current_timestamp = c.current_timestamp;
    expires_at = c.expires_at;
  }

  -- What `request_challenge` does once the throttle has let it through.
  unfoldable pub issue : State F P → P → ℕ → ℕ → ChallengeView × State F P
  issue s caller now_ns purpose =
      let challenge = new_challenge s caller now_ns purpose in
      (
        view_of s.next_challenge_id challenge,
        record s {
          next_challenge_id = add64 s.next_challenge_id 1;
          next_nonce = add64 s.next_nonce 1;
          challenges = insert s.challenges s.next_challenge_id challenge;
        },
      )

module _ {F P : Type 0} where
  -- The loop of `heartbeat` over the challenges, with `n` of its rounds left.
  unfoldable pub prune_challenges : State F P → ℕ → ℕ → State F P
  prune_challenges s now_ns zero = s
  prune_challenges s now_ns (suc n) =
      let id = s.oldest_unpruned_challenge_id in
      let skip =
        prune_challenges (record s { oldest_unpruned_challenge_id = add64 id 1 }) now_ns n in
      let drop =
        prune_challenges
          (record s {
            challenges = remove s.challenges id;
            oldest_unpruned_challenge_id = add64 id 1;
          })
          now_ns n in
      if leb s.next_challenge_id id then s else elim (get s.challenges id) [
        | none ↦ skip
        | some c ↦ if ltb_i64 c.expires_at now_ns then drop else s
      ]

module _ {F P : Type 0} ⦃o : FieldOps F⦄ where
  -- The call goes on if the throttle has let it through.
  abbrev pub issue_if :
      Outcome (Unit {0}) → State F P → P → ℕ → ℕ → Outcome ChallengeView × State F P
  issue_if (ok _) s caller now_ns purpose =
      let (view, t) = issue s caller now_ns purpose in (ok view, t)
  issue_if (err e) s caller now_ns purpose = (err e, s)
  issue_if trap s caller now_ns purpose = (trap, s)

module _ {F P : Type 0} ⦃o : FieldOps F⦄ ⦃p : Principals P⦄ where
  unfoldable pub request_challenge_impl : State F P → P → ℕ → ℕ → Outcome ChallengeView × State F P
  request_challenge_impl s caller now_ns purpose =
      let (result, store, log) =
        check_and_update_throttle s.last_challenge_call_at s.challenge_throttle_log caller now_ns in
      let s' = record s { last_challenge_call_at = store; challenge_throttle_log = log } in
      issue_if result s' caller now_ns purpose

  unfoldable pub heartbeat_impl : State F P → ℕ → State F P
  heartbeat_impl s now_ns =
      let t = prune_challenges s now_ns max_prune_per_heartbeat in
      let (challenge_store, challenge_log) =
        prune_throttle_log t.last_challenge_call_at t.challenge_throttle_log now_ns
          max_prune_per_heartbeat in
      let (verify_store, verify_log) =
        prune_throttle_log t.last_verify_call_at t.verify_throttle_log now_ns
          max_prune_per_heartbeat in
      record t {
        last_challenge_call_at = challenge_store;
        challenge_throttle_log = challenge_log;
        last_verify_call_at = verify_store;
        verify_throttle_log = verify_log;
      }
