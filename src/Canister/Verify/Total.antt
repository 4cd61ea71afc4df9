-- ===== src/Canister/Verify/Total.antt =====
-- Proofs about panics in `verify`.
use yaqeen_stark_winterfell.Prelude.{
  ℕ, ◌≢◌, refl, Bool, true, false, not, Option, none, some, List, ◌==◌, nat_eq, list_eq, arith, inl,
  inr, Bool-cases, Option-cases,
}
use yaqeen_stark_winterfell.Prelude.Words.{ltb_i64}
use yaqeen_stark_winterfell.Prelude.Map.{Map, get}
use yaqeen_stark_winterfell.Field.{FieldOps, field_eq}
use yaqeen_stark_winterfell.Canister.Outcome.{Text, Error, Outcome, ok, err, trap, ◌>>=◌, ◌>>◌}
use yaqeen_stark_winterfell.Canister.Text.{
  parse_fe, parse_u128, trim_start, trim_end, canonical_nullifier,
}
use yaqeen_stark_winterfell.Canister.State.{
  State, Challenge, Principals, VerifyPublicInputs, principal_eq,
}
use yaqeen_stark_winterfell.Canister.Throttle.{check_and_update_throttle}
use yaqeen_stark_winterfell.Canister.Verify.{
  Winterfell, is_spent, verify_commit_impl, verify_crypto_impl, check_found, check_challenge,
  commit_key, verify_precheck_impl, commit_after, verify, catch_unwind, require,
}

bind-Returns :
    {A B : Type 0} (m : Outcome A) {f : A → Outcome B}
    → m ≢ trap
    → ((a : A) → f a ≢ trap)
    → (m >>= f) ≢ trap
bind-Returns (ok a) h k = k a
bind-Returns (err e) h k = λ x. cc
bind-Returns trap h k = λ _. h refl

require-Returns :
    {B : Type 0} (c : Bool) (e : Error) {m : Outcome B} → m ≢ trap → (require c e >> m) ≢ trap
require-Returns true e h = h
require-Returns false e h = λ x. cc

last-Returns : (c : Bool) (e : Error) → require c e ≢ trap
last-Returns true e = λ x. cc
last-Returns false e = λ x. cc

catch_unwind-Returns : (m : Outcome (Unit {0})) → catch_unwind m ≢ trap
catch_unwind-Returns (ok a) = λ x. cc
catch_unwind-Returns (err e) = λ x. cc
catch_unwind-Returns trap = λ x. cc

throttle-Returns :
    {P : Type 0} ⦃p : Principals P⦄ (store : Map P ℕ) (log : List (P × ℕ)) (caller : P) (now_ns : ℕ)
    → (check_and_update_throttle store log caller now_ns).0 ≢ trap
unfolding check_and_update_throttle
throttle-Returns store log caller now_ns = ground arith

module _ (F : Type 0) ⦃o : FieldOps F⦄ where
  parse_fe-Returns : (s : Text) → parse_fe {F = F} s ≢ trap
  unfolding parse_fe
  parse_fe-Returns s = elim (Option-cases (parse_u128 (trim_end (trim_start s)))) [
    | inl e ↦ rw (e, parse_fe) (λ x. cc)
    | inr (n, e) ↦ rw (e, parse_fe) (λ x. cc)
  ]

  canonical_nullifier-Returns : (s : Text) → canonical_nullifier F s ≢ trap
  unfolding canonical_nullifier
  canonical_nullifier-Returns s = bind-Returns (parse_fe {F = F} s) (parse_fe-Returns s) (λ x y. cc)

  crypto-Returns :
      {Proof : Type 0} (w : Winterfell F Proof) (inputs : VerifyPublicInputs) (bytes : List ℕ)
      → verify_crypto_impl w inputs bytes ≢ trap
  unfolding verify_crypto_impl
  crypto-Returns w inputs bytes =
      bind-Returns (parse_fe inputs.merkle_root) (parse_fe-Returns inputs.merkle_root) (λ root.
        bind-Returns (parse_fe inputs.nullifier) (parse_fe-Returns inputs.nullifier)
          (λ nullifier. catch_unwind-Returns _))

module _ {F P : Type 0} ⦃o : FieldOps F⦄ ⦃p : Principals P⦄ where
  check_challenge-Returns :
      (s : State F P) (c : Challenge F P) (caller : P) (now_ns : ℕ) (inputs : VerifyPublicInputs)
      → check_challenge s c caller now_ns inputs ≢ trap
  unfolding check_challenge
  check_challenge-Returns s c caller now_ns inputs = require-Returns (caller == c.requester) _ (
      require-Returns (not c.consumed) _ (
        require-Returns (not (ltb_i64 c.expires_at now_ns)) _ (
          require-Returns (inputs.registry_id == c.registry_id) _ (
            bind-Returns (parse_fe inputs.merkle_root) (parse_fe-Returns F inputs.merkle_root)
              (λ root. require-Returns (root == c.merkle_root) _ (
                require-Returns (inputs.purpose == c.purpose) _ (
                  require-Returns (inputs.request_nonce == c.request_nonce) _ (
                    require-Returns (inputs.current_timestamp == c.current_timestamp) _ (
                      bind-Returns (canonical_nullifier F inputs.nullifier)
                        (canonical_nullifier-Returns F inputs.nullifier)
                        (λ key. last-Returns (not (is_spent s key)) _))))))))))

  check_found-Returns :
      (s : State F P) (found : Option (Challenge F P)) (caller : P) (now_ns : ℕ)
      (inputs : VerifyPublicInputs)
      → check_found s found caller now_ns inputs ≢ trap
  check_found-Returns s none caller now_ns inputs = λ x. cc
  check_found-Returns s (some c) caller now_ns inputs =
      check_challenge-Returns s c caller now_ns inputs

  commit-Returns :
      (s : State F P) (challenge_id : ℕ) (key : Text)
      → (verify_commit_impl s challenge_id key).0 ≢ trap
  unfolding verify_commit_impl
  commit-Returns s challenge_id key = elim (Bool-cases (is_spent s key)) [
    | inl e ↦ rw e (λ x. cc)
    | inr e ↦ rw e (λ x. cc)
  ]

  commit_key-Returns :
      (k : Outcome Text) (s : State F P) (challenge_id : ℕ)
      → k ≢ trap
      → (commit_key k s challenge_id).0 ≢ trap
  commit_key-Returns (ok key) s challenge_id h = commit-Returns s challenge_id key
  commit_key-Returns (err e) s challenge_id h = λ x. cc
  commit_key-Returns trap s challenge_id h = λ _. h refl

  commit_after-Returns :
      (m : Outcome (Unit {0})) (s : State F P) (challenge_id : ℕ) (inputs : VerifyPublicInputs)
      → m ≢ trap
      → (commit_after m s challenge_id inputs).0 ≢ trap
  commit_after-Returns (ok a) s challenge_id inputs h =
      commit_key-Returns (canonical_nullifier F inputs.nullifier) s challenge_id
        (canonical_nullifier-Returns F inputs.nullifier)
  commit_after-Returns (err e) s challenge_id inputs h = λ x. cc
  commit_after-Returns trap s challenge_id inputs h = λ _. h refl

  -- Whatever the state, the caller and the arguments are, and whether the proof system returns,
  -- fails or panics on the bytes, `verify` returns a value or an error and does not panic.
  pub verify-Returns :
      {Proof : Type 0} (w : Winterfell F Proof) (s : State F P) (caller : P)
      (now_ns challenge_id : ℕ) (bytes : List ℕ) (inputs : VerifyPublicInputs)
      → (verify w s caller now_ns challenge_id bytes inputs).0 ≢ trap
  unfolding verify verify_precheck_impl
  verify-Returns w s caller now_ns challenge_id bytes inputs =
      let q = check_and_update_throttle s.last_verify_call_at s.verify_throttle_log caller now_ns in
      let u : State F P = record s { last_verify_call_at = q.1; verify_throttle_log = q.2 } in
      commit_after-Returns _ u challenge_id inputs (
        bind-Returns (q.0 >> check_found u (get s.challenges challenge_id) caller now_ns inputs)
          (bind-Returns q.0
            (throttle-Returns s.last_verify_call_at s.verify_throttle_log caller now_ns)
            (λ _. check_found-Returns u (get s.challenges challenge_id) caller now_ns inputs))
          (λ _. crypto-Returns F w inputs bytes))
