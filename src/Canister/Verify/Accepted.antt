-- ===== src/Canister/Verify/Accepted.antt =====
-- Proofs about a call of `verify` that is accepted.
use yaqeen_stark_winterfell.Prelude.{
  ℕ, ◌≡◌, ◌≢◌, refl, ap, sym, ◌∙◌, subst, true, false, Option, none, some, List, ◌==◌, nat_eq,
  list_eq, if◌then◌else◌, arith, inl, inr, Bool-cases,
}
use yaqeen_stark_winterfell.Prelude.Map.{get, insert, get-insert, get-insert_self}
use yaqeen_stark_winterfell.Field.{FieldOps, field_eq}
use yaqeen_stark_winterfell.Canister.Outcome.{Text, Outcome, ok, err, trap}
use yaqeen_stark_winterfell.Canister.Text.{canonical_nullifier}
use yaqeen_stark_winterfell.Canister.State.{
  State, Challenge, Principals, principal_eq, VerifyPublicInputs, VerifyOk,
}
use yaqeen_stark_winterfell.Canister.Throttle.{check_and_update_throttle}
use yaqeen_stark_winterfell.Canister.Tree.{or_else}
use yaqeen_stark_winterfell.Canister.Verify.{
  Winterfell, is_spent, consume, consume_found, commit_key, verify_commit_impl, check_found,
  verify_precheck_impl, commit_after, verify,
}
use yaqeen_stark_winterfell.Canister.Verify.Matches.{
  bind-eq-ok, Matches, Matches-check_challenge, Proves, crypto-Proves,
}

abbrev from_ok : {A : Type 0} → A → Outcome A → A
from_ok d (ok a) = a
from_ok d (err e) = d
from_ok d trap = d

module _ {F P : Type 0} ⦃o : FieldOps F⦄ ⦃p : Principals P⦄ where
  -- `t` with what an accepted call changes taken from `s`.
  abbrev pub reset : State F P → State F P → State F P
  reset s t = record t {
    challenges = s.challenges;
    nullifiers = s.nullifiers;
    last_verify_call_at = s.last_verify_call_at;
    verify_throttle_log = s.verify_throttle_log;
  }

  -- What a call that is accepted changes: the challenge is consumed and the nullifier spent. The rest
  -- of the state but the throttle's two records is as it was.
  pub record Spends (s t : State F P) (challenge_id : ℕ) (c : Challenge F P) (key : Text)
      : Type 0 where
    pub consumed : get t.challenges challenge_id ≡ some (record c { consumed = true })
    pub same_challenges : (j : ℕ) → j ≢ challenge_id → get t.challenges j ≡ get s.challenges j
    pub spent : (k : Text) → is_spent t k ≡ (if key == k then true else is_spent s k)
    pub rest : reset s t ≡ s

  abbrev committed : State F P → ℕ → Text → State F P
  committed s challenge_id key = record s {
    challenges = consume s.challenges challenge_id;
    nullifiers = insert s.nullifiers key true;
  }

  committed-Spends :
      (s : State F P) (challenge_id : ℕ) (c : Challenge F P) (key : Text)
      → get s.challenges challenge_id ≡ some c
      → Spends s (committed s challenge_id key) challenge_id c key
  unfolding is_spent
  committed-Spends s challenge_id c key found =
      let v : Challenge F P = record c { consumed = true } in
      let e : consume s.challenges challenge_id ≡ insert s.challenges challenge_id v =
        ap (consume_found s.challenges challenge_id) found in
      record {
        consumed = ap (λ m. get m challenge_id) e ∙ get-insert_self s.challenges challenge_id v;
        same_challenges =
            λ j ne. ap (λ m. get m j) e ∙ ground (arith, get-insert s.challenges challenge_id v j);
        spent = λ k. ground (arith, get-insert s.nullifiers key true k);
        rest = refl;
      }

  commit-eq-ok :
      (s t : State F P) (challenge_id : ℕ) (key : Text) (r : VerifyOk)
      → verify_commit_impl s challenge_id key ≡ (ok r, t)
      → (is_spent s key ≡ false) × (r.nullifier ≡ key) × (committed s challenge_id key ≡ t)
  unfolding verify_commit_impl
  commit-eq-ok s t challenge_id key r h = elim (Bool-cases (is_spent s key)) [
    | inl e ↦ cc (ap (λ (x : Outcome VerifyOk × State F P). x.0) (rw e at h))
    | inr e ↦
        let h' : (ok (record { nullifier = key }), committed s challenge_id key) ≡ (ok r, t) =
          rw e at h in
        (
          e,
          sym (
              ap (λ (x : Outcome VerifyOk). (from_ok r x).nullifier)
                (ap (λ (x : Outcome VerifyOk × State F P). x.0) h')),
          ap (λ (x : Outcome VerifyOk × State F P). x.1) h',
        )
  ]

  commit_after-eq-ok :
      (m : Outcome (Unit {0})) (s t : State F P) (challenge_id : ℕ) (inputs : VerifyPublicInputs)
      (r : VerifyOk)
      → commit_after m s challenge_id inputs ≡ (ok r, t)
      → (m ≡ ok tt)
        × (commit_key (canonical_nullifier F inputs.nullifier) s challenge_id ≡ (ok r, t))
  commit_after-eq-ok (ok _) s t challenge_id inputs r h = (refl, h)
  commit_after-eq-ok (err e) s t challenge_id inputs r h =
      cc (ap (λ (x : Outcome VerifyOk × State F P). x.0) h)
  commit_after-eq-ok trap s t challenge_id inputs r h =
      cc (ap (λ (x : Outcome VerifyOk × State F P). x.0) h)

  found-Matches :
      (s : State F P) (found : Option (Challenge F P)) (caller : P) (now_ns : ℕ)
      (inputs : VerifyPublicInputs)
      → check_found s found caller now_ns inputs ≡ ok tt
      → (c : Challenge F P) × (found ≡ some c) × (key : Text) × Matches s c caller now_ns inputs key
  found-Matches s none caller now_ns inputs h = cc
  found-Matches s (some c) caller now_ns inputs h =
      let (key, m) = Matches-check_challenge s c caller now_ns inputs h in (c, refl, key, m)

  -- The throttle's fields matter to neither.
  pub Matches-rebase :
      (s u : State F P) (c : Challenge F P) (caller : P) (now_ns : ℕ) (inputs : VerifyPublicInputs)
      {key key' : Text}
      → u.nullifiers ≡ s.nullifiers
      → key' ≡ key
      → Matches u c caller now_ns inputs key
      → Matches s c caller now_ns inputs key'
  unfolding is_spent
  Matches-rebase s u c caller now_ns inputs {key} {key'} e k m = record {
    requester = m.requester;
    fresh = m.fresh;
    in_time = m.in_time;
    registry_id = m.registry_id;
    merkle_root = m.merkle_root;
    purpose = m.purpose;
    request_nonce = m.request_nonce;
    current_timestamp = m.current_timestamp;
    canonical = m.canonical ∙ ap ok (sym k);
    unspent = ap (λ x. or_else (get x key') false) (sym e) ∙ ap (λ x. is_spent u x) k ∙ m.unspent;
  }

  Spends-rebase :
      (s u t : State F P) (challenge_id : ℕ) (c : Challenge F P) {key key' : Text}
      → u.nullifiers ≡ s.nullifiers
      → u.challenges ≡ s.challenges
      → reset s u ≡ s
      → key' ≡ key
      → Spends u t challenge_id c key
      → Spends s t challenge_id c key'
  unfolding is_spent
  Spends-rebase s u t challenge_id c {key} {key'} e e' d k sp = record {
    consumed = sp.consumed;
    same_challenges = λ j ne. sp.same_challenges j ne ∙ ap (λ m. get m j) e';
    spent = λ j. rw (k, ← e) (sp.spent j);
    rest = ap (reset s) sp.rest ∙ d;
  }

  module _ {Proof : Type 0} (w : Winterfell F Proof) (s : State F P) (caller : P)
      (now_ns challenge_id : ℕ) (bytes : List ℕ) (inputs : VerifyPublicInputs) where
    -- A call of `verify` that is accepted was let through by the throttle, was made by the
    -- principal that requested the challenge, which is known, not consumed and not expired, with
    -- public inputs that are the challenge's and a nullifier that is not spent; the proof system
    -- accepted its proof for exactly these inputs; and the call consumed this challenge and spent
    -- the nullifier's canonical text, which it returns, changed no other challenge and no other
    -- nullifier, and nothing else in the state but the throttle's two records of `verify` calls.
    pub verify_accepted :
        (r : VerifyOk) (t : State F P)
        → verify w s caller now_ns challenge_id bytes inputs ≡ (ok r, t)
        → (c : Challenge F P) × ((check_and_update_throttle s.last_verify_call_at
              s.verify_throttle_log caller now_ns).0
            ≡ ok tt)
          × (get s.challenges challenge_id ≡ some c)
          × Matches s c caller now_ns inputs r.nullifier
          × Proves w c inputs bytes
          × Spends s t challenge_id c r.nullifier
    unfolding verify verify_precheck_impl
    verify_accepted r t h =
        let u : State F P = (verify_precheck_impl s caller now_ns challenge_id inputs).1 in
        let (all_ok, commit) = commit_after-eq-ok _ _ t challenge_id inputs r h in
        let (_, pre_ok, crypto) = bind-eq-ok _ all_ok in
        let (_, throttled, checks) = bind-eq-ok _ pre_ok in
        let (c, found, key, m) =
          found-Matches u (get s.challenges challenge_id) caller now_ns inputs checks in
        let (_, named, done) =
          commit-eq-ok u t challenge_id key r
            (ap (λ k. commit_key k u challenge_id) (sym m.canonical) ∙ commit) in
        (
          c,
          throttled,
          found,
          Matches-rebase s u c caller now_ns inputs refl named m,
          crypto-Proves w u c caller now_ns inputs key bytes m crypto,
          Spends-rebase s u t challenge_id c refl refl refl named (
              subst (λ x. Spends u x challenge_id c key) done
                (committed-Spends u challenge_id c key found)),
        )
