-- ===== src/Canister/Verify/Rejected.antt =====
-- Proofs about when `verify` accepts, and about a call that it rejects.
use yaqeen_stark_winterfell.Prelude.{
  ℕ, ◌≡◌, refl, ap, ◌∙◌, false, some, List, nat_eq, inl, inr, Bool-cases,
}
use yaqeen_stark_winterfell.Prelude.Map.{get}
use yaqeen_stark_winterfell.Field.{FieldOps}
use yaqeen_stark_winterfell.Canister.Outcome.{Text, Error, Outcome, ok, err, trap, ◌>>◌}
use yaqeen_stark_winterfell.Canister.Text.{canonical_nullifier}
use yaqeen_stark_winterfell.Canister.State.{
  State, Challenge, Principals, VerifyPublicInputs, principal_eq,
}
use yaqeen_stark_winterfell.Canister.Throttle.{check_and_update_throttle}
use yaqeen_stark_winterfell.Canister.Verify.{
  Winterfell, is_spent, verify_commit_impl, verify_crypto_impl, check_found, commit_key,
  verify_precheck_impl, commit_after, verify,
}
use yaqeen_stark_winterfell.Canister.Verify.Matches.{
  Matches, Proves, check_challenge-Matches, Proves-crypto,
}
use yaqeen_stark_winterfell.Canister.Verify.Accepted.{Matches-rebase}

module _ {F P : Type 0} ⦃o : FieldOps F⦄ ⦃p : Principals P⦄ where
  commit_unspent :
      (s : State F P) (challenge_id : ℕ) (key : Text)
      → is_spent s key ≡ false
      → (verify_commit_impl s challenge_id key).0 ≡ ok (record { nullifier = key })
  unfolding verify_commit_impl
  commit_unspent s challenge_id key e = rw e

  commit_after_err :
      (m : Outcome (Unit {0})) (s : State F P) (challenge_id : ℕ) (inputs : VerifyPublicInputs)
      (e : Error)
      → (commit_after m s challenge_id inputs).0 ≡ err e
      → (commit_after m s challenge_id inputs).1 ≡ s
  unfolding verify_commit_impl
  commit_after_err (ok a) s challenge_id inputs e h =
      commit_key_err (canonical_nullifier F inputs.nullifier) h
    where
      commit_key_err :
          (k : Outcome Text)
          → (commit_key k s challenge_id).0 ≡ err e
          → (commit_key k s challenge_id).1 ≡ s
      commit_key_err (ok key) h = elim (Bool-cases (is_spent s key)) [
        | inl spent ↦ rw spent
        | inr free ↦ cc (rw free at h)
      ]
      commit_key_err (err d) h = refl
      commit_key_err trap h = refl
  commit_after_err (err d) s challenge_id inputs e h = refl
  commit_after_err trap s challenge_id inputs e h = refl

  module _ {Proof : Type 0} (w : Winterfell F Proof) (s : State F P) (caller : P)
      (now_ns challenge_id : ℕ) (bytes : List ℕ) (inputs : VerifyPublicInputs) where
    -- A call of `verify` that the throttle lets through, for a known challenge that matches the
    -- caller, the time and the public inputs and is neither consumed nor expired, with an unspent
    -- nullifier and a proof that the proof system accepts for the challenge's values, is accepted
    -- and returns the canonical nullifier.
    pub verify_accepts :
        (c : Challenge F P) (key : Text)
        → (check_and_update_throttle s.last_verify_call_at s.verify_throttle_log caller now_ns).0
          ≡ ok tt
        → get s.challenges challenge_id ≡ some c
        → Matches s c caller now_ns inputs key
        → Proves w c inputs bytes
        → (verify w s caller now_ns challenge_id bytes inputs).0 ≡ ok (record { nullifier = key })
    unfolding verify verify_precheck_impl
    verify_accepts c key throttled found m proves =
        let u : State F P = (verify_precheck_impl s caller now_ns challenge_id inputs).1 in
        let m' : Matches u c caller now_ns inputs key =
          Matches-rebase u s c caller now_ns inputs refl refl m in
        let checks : check_found u (get s.challenges challenge_id) caller now_ns inputs ≡ ok tt =
          ap (λ x. check_found u x caller now_ns inputs) found
          ∙ check_challenge-Matches u c caller now_ns inputs key m' in
        let phases : ((verify_precheck_impl s caller now_ns challenge_id inputs).0
              >> verify_crypto_impl w inputs bytes)
            ≡ ok tt =
          rw (throttled, checks) (Proves-crypto w u c caller now_ns inputs key bytes m' proves) in
        ap (λ x. (commit_after x u challenge_id inputs).0) phases
        ∙ ap (λ k. (commit_key k u challenge_id).0) m.canonical
        ∙ commit_unspent u challenge_id key m'.unspent

    -- A call of `verify` that returns an error, whichever it is, leaves every part of the state
    -- as it was but the throttle's two records of `verify` calls, which are those that the
    -- throttle's check leaves: no challenge is consumed and no nullifier spent.
    pub verify_rejected :
        (e : Error)
        → (verify w s caller now_ns challenge_id bytes inputs).0 ≡ err e
        → (verify w s caller now_ns challenge_id bytes inputs).1 ≡ record s {
          last_verify_call_at =
              (check_and_update_throttle s.last_verify_call_at s.verify_throttle_log caller
                now_ns).1;
          verify_throttle_log =
              (check_and_update_throttle s.last_verify_call_at s.verify_throttle_log caller
                now_ns).2;
        }
    unfolding verify verify_precheck_impl
    verify_rejected e h =
        commit_after_err
          ((verify_precheck_impl s caller now_ns challenge_id inputs).0
            >> verify_crypto_impl w inputs bytes)
          (verify_precheck_impl s caller now_ns challenge_id inputs).1 challenge_id inputs e h
