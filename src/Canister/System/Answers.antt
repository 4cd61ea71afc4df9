-- ===== src/Canister/System/Answers.antt =====
-- Proofs about a challenge that is requested and then answered.
use yaqeen_stark_winterfell.Prelude.{ℕ, ◌≡◌, refl, ap, sym, ◌∙◌, subst, false, List, nat_eq}
use yaqeen_stark_winterfell.Prelude.Words.{ltb_i64}
use yaqeen_stark_winterfell.Prelude.Map.{get-insert_self}
use yaqeen_stark_winterfell.Field.{FieldOps, Encoding}
use yaqeen_stark_winterfell.Canister.Outcome.{Text, Outcome, ok, err, trap}
use yaqeen_stark_winterfell.Canister.Text.{canonical_nullifier}
use yaqeen_stark_winterfell.Canister.Text.Canonical.{parse_fe-fe_to_string}
use yaqeen_stark_winterfell.Canister.State.{
  State, Challenge, ChallengeView, Principals, VerifyPublicInputs,
}
use yaqeen_stark_winterfell.Canister.Throttle.{check_and_update_throttle}
use yaqeen_stark_winterfell.Canister.Challenges.{
  request_challenge_impl, issue, issue_if, new_challenge, view_of,
}
use yaqeen_stark_winterfell.Canister.Verify.{Winterfell, is_spent, verify}
use yaqeen_stark_winterfell.Canister.Verify.Matches.{Proves}
use yaqeen_stark_winterfell.Canister.Verify.Rejected.{verify_accepts}

-- The public inputs that answer a challenge: its view, with a nullifier.
abbrev pub answer_to : ChallengeView → Text → VerifyPublicInputs
answer_to view nullifier = record {
  registry_id = view.registry_id;
  merkle_root = view.merkle_root;
  purpose = view.purpose;
  request_nonce = view.request_nonce;
  current_timestamp = view.current_timestamp;
  nullifier = nullifier;
}

module _ {F P : Type 0} ⦃o : FieldOps F⦄ where
  issued_pair :
      (result : Outcome (Unit {0})) (s : State F P) (caller : P) (now_ns purpose : ℕ)
      (view : ChallengeView) (t : State F P)
      → issue_if result s caller now_ns purpose ≡ (ok view, t)
      → ((issue s caller now_ns purpose).0 ≡ view) × ((issue s caller now_ns purpose).1 ≡ t)
  issued_pair (ok _) s caller now_ns purpose view t h =
      let e : ok (issue s caller now_ns purpose).0 ≡ ok view =
        ap (λ (x : Outcome ChallengeView × State F P). x.0) h in
      (cc, ap (λ (x : Outcome ChallengeView × State F P). x.1) h)
  issued_pair (err e) s caller now_ns purpose view t h =
      cc (ap (λ (x : Outcome ChallengeView × State F P). x.0) h)
  issued_pair trap s caller now_ns purpose view t h =
      cc (ap (λ (x : Outcome ChallengeView × State F P). x.0) h)

module _ {F P Proof : Type 0} ⦃o : FieldOps F⦄ ⦃p : Principals P⦄ (laws : Encoding F)
    (w : Winterfell F Proof) where
  answer_issued :
      (s : State F P) (caller : P) (now_ns purpose later : ℕ) (bytes : List ℕ)
      (nullifier key : Text)
      → (check_and_update_throttle s.last_verify_call_at s.verify_throttle_log caller later).0
        ≡ ok tt
      → ltb_i64 (issue s caller now_ns purpose).0.expires_at later ≡ false
      → canonical_nullifier F nullifier ≡ ok key
      → is_spent s key ≡ false
      → Proves w
          (new_challenge s caller now_ns purpose)
          (answer_to (issue s caller now_ns purpose).0 nullifier)
          bytes
      → (verify w
          (issue s caller now_ns purpose).1
          caller
          later
          s.next_challenge_id
          bytes
          (answer_to (issue s caller now_ns purpose).0 nullifier)).0
        ≡ ok (record { nullifier = key })
  unfolding issue is_spent
  answer_issued s caller now_ns purpose later bytes nullifier key throttled in_time canonical
        unspent proves =
      let c : Challenge F P = new_challenge s caller now_ns purpose in
      let t : State F P = (issue s caller now_ns purpose).1 in
      verify_accepts w t caller later s.next_challenge_id bytes
        (answer_to (view_of s.next_challenge_id c) nullifier) c key throttled
        (get-insert_self s.challenges s.next_challenge_id c)
        (record {
          requester = refl;
          fresh = refl;
          in_time = in_time;
          registry_id = refl;
          merkle_root = parse_fe-fe_to_string laws s.current_root;
          purpose = refl;
          request_nonce = refl;
          current_timestamp = refl;
          canonical = canonical;
          unspent = unspent;
        })
        proves

  -- After a call of `request_challenge` that succeeds, a call of `verify` by the same principal
  -- that the throttle lets through, with the challenge's number and its view as the public
  -- inputs, no later than the view's expiry, with a nullifier whose canonical text is not spent,
  -- and with a proof that the proof system accepts for the challenge, is accepted and returns
  -- that text. The field's encoding is lawful.
  pub request_then_verify :
      (s t : State F P) (caller : P) (now_ns purpose : ℕ) (view : ChallengeView)
      → request_challenge_impl s caller now_ns purpose ≡ (ok view, t)
      → (later : ℕ) (bytes : List ℕ) (nullifier key : Text)
      → (check_and_update_throttle s.last_verify_call_at s.verify_throttle_log caller later).0
        ≡ ok tt
      → ltb_i64 view.expires_at later ≡ false
      → canonical_nullifier F nullifier ≡ ok key
      → is_spent s key ≡ false
      → Proves w (new_challenge s caller now_ns purpose) (answer_to view nullifier) bytes
      → (verify w t caller later view.challenge_id bytes (answer_to view nullifier)).0
        ≡ ok (record { nullifier = key })
  unfolding request_challenge_impl issue is_spent
  request_then_verify s t caller now_ns purpose view h later bytes nullifier key throttled in_time
        canonical unspent proves =
      let q =
        check_and_update_throttle s.last_challenge_call_at s.challenge_throttle_log caller now_ns in
      let u : State F P = record s { last_challenge_call_at = q.1; challenge_throttle_log = q.2 } in
      let (same_view, same_state) = issued_pair q.0 u caller now_ns purpose view t h in
      let view_back : view ≡ (issue u caller now_ns purpose).0 = sym same_view in
      let number : view.challenge_id ≡ s.next_challenge_id =
        ap (λ (v : ChallengeView). v.challenge_id) view_back in
      ap (λ n. (verify w t caller later n bytes (answer_to view nullifier)).0) number
      ∙ ap (λ x. (verify w x caller later s.next_challenge_id bytes (answer_to view nullifier)).0)
          (sym same_state)
      ∙ ap
          (λ v.
            (verify w (issue u caller now_ns purpose).1 caller later s.next_challenge_id bytes
              (answer_to v nullifier)).0)
          view_back
      ∙ answer_issued u caller now_ns purpose later bytes nullifier key throttled
          (subst (λ (v : ChallengeView). ltb_i64 v.expires_at later ≡ false) view_back in_time)
          canonical unspent
          (subst
            (λ v. Proves w (new_challenge u caller now_ns purpose) (answer_to v nullifier) bytes)
            view_back
            (record {
              nullifier = proves.nullifier;
              parsed = proves.parsed;
              proof = proves.proof;
              decoded = proves.decoded;
              verified = proves.verified;
            }))
