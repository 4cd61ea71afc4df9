-- ===== src/Canister/Verify/Matches.antt =====
-- The conditions of the checks of `verify` and of the proof system, and proofs that relate them to
-- the first two phases.
use yaqeen_stark_winterfell.Prelude.{
  ℕ, ◌≡◌, refl, ap, ◌∙◌, subst, Bool, true, false, not, List, ◌==◌, nat_eq, nat_beq_iff, list_eq,
  arith,
}
use yaqeen_stark_winterfell.Prelude.Words.{ltb_i64}
use yaqeen_stark_winterfell.Field.{FieldOps, field_eq}
use yaqeen_stark_winterfell.Air.Inputs.{PublicInputs}
use yaqeen_stark_winterfell.Canister.Outcome.{Text, Error, Outcome, ok, err, trap, ◌>>=◌, ◌>>◌}
use yaqeen_stark_winterfell.Canister.Text.{fe, parse_fe, canonical_nullifier}
use yaqeen_stark_winterfell.Canister.State.{
  State, Challenge, Principals, principal_eq, VerifyPublicInputs,
}
use yaqeen_stark_winterfell.Canister.Verify.{
  Winterfell, Reply, returned, failed, panicked, is_spent, air_pub_inputs, verify_crypto_impl,
  check_challenge, require, catch_unwind, reply_to,
}

-- Inversion of a `?` that did not return.
pub bind-eq-ok :
    {A B : Type 0} (m : Outcome A) {f : A → Outcome B} {b : B}
    → (m >>= f) ≡ ok b
    → (a : A) × (m ≡ ok a) × (f a ≡ ok b)
bind-eq-ok (ok a) h = (a, refl, h)
bind-eq-ok (err e) h = cc
bind-eq-ok trap h = cc

require-eq-ok :
    {B : Type 0} (c : Bool) (e : Error) {m : Outcome B} {b : B}
    → (require c e >> m) ≡ ok b
    → (c ≡ true) × (m ≡ ok b)
require-eq-ok true e h = (refl, h)
require-eq-ok false e h = cc

catch-eq-ok : (m : Outcome (Unit {0})) → catch_unwind m ≡ ok tt → m ≡ ok tt
catch-eq-ok (ok a) h = h
catch-eq-ok (err e) h = h
catch-eq-ok trap h = cc

reply_to-eq-ok :
    {A : Type 0} (m : Reply A) (e : Error) {a : A} → reply_to m e ≡ ok a → m ≡ returned a
reply_to-eq-ok (returned b) e h = cc
reply_to-eq-ok failed e h = cc
reply_to-eq-ok panicked e h = cc

module _ {F P : Type 0} ⦃o : FieldOps F⦄ ⦃p : Principals P⦄ where
  -- The public inputs are those of the challenge, the caller is who requested it, it is neither
  -- consumed nor expired, and `key` is the canonical nullifier and not spent.
  pub record Matches (s : State F P) (c : Challenge F P) (caller : P) (now_ns : ℕ)
      (inputs : VerifyPublicInputs) (key : Text) : Type 0 where
    pub requester : caller ≡ c.requester
    pub fresh : c.consumed ≡ false
    pub in_time : ltb_i64 c.expires_at now_ns ≡ false
    pub registry_id : inputs.registry_id ≡ c.registry_id
    pub merkle_root : parse_fe inputs.merkle_root ≡ ok c.merkle_root
    pub purpose : inputs.purpose ≡ c.purpose
    pub request_nonce : inputs.request_nonce ≡ c.request_nonce
    pub current_timestamp : inputs.current_timestamp ≡ c.current_timestamp
    pub canonical : canonical_nullifier F inputs.nullifier ≡ ok key
    pub unspent : is_spent s key ≡ false

  pub check_challenge-Matches :
      (s : State F P) (c : Challenge F P) (caller : P) (now_ns : ℕ) (inputs : VerifyPublicInputs)
      (key : Text)
      → Matches s c caller now_ns inputs key
      → check_challenge s c caller now_ns inputs ≡ ok tt
  unfolding check_challenge
  check_challenge-Matches s c caller now_ns inputs key m =
      ground (arith, p.eq.eq_iff caller c.requester, o.eq.eq_iff c.merkle_root c.merkle_root)

  pub Matches-check_challenge :
      (s : State F P) (c : Challenge F P) (caller : P) (now_ns : ℕ) (inputs : VerifyPublicInputs)
      → check_challenge s c caller now_ns inputs ≡ ok tt
      → (key : Text) × Matches s c caller now_ns inputs key
  unfolding check_challenge
  Matches-check_challenge s c caller now_ns inputs h =
      let (a, h1) = require-eq-ok (caller == c.requester) _ h in
      let (b, h2) = require-eq-ok (not c.consumed) _ h1 in
      let (d, h3) = require-eq-ok (not (ltb_i64 c.expires_at now_ns)) _ h2 in
      let (e, h4) = require-eq-ok (inputs.registry_id == c.registry_id) _ h3 in
      let (root, f, h5) = bind-eq-ok (parse_fe inputs.merkle_root) h4 in
      let (g, h6) = require-eq-ok (root == c.merkle_root) _ h5 in
      let (i, h7) = require-eq-ok (inputs.purpose == c.purpose) _ h6 in
      let (j, h8) = require-eq-ok (inputs.request_nonce == c.request_nonce) _ h7 in
      let (k, h9) = require-eq-ok (inputs.current_timestamp == c.current_timestamp) _ h8 in
      let (key, l, h10) = bind-eq-ok (canonical_nullifier F inputs.nullifier) h9 in
      (
        key,
        record {
          requester = (p.eq.eq_iff caller c.requester).0 a;
          fresh = ground arith;
          in_time = ground arith;
          registry_id = (nat_beq_iff inputs.registry_id c.registry_id).0 e;
          merkle_root = f ∙ ap ok ((o.eq.eq_iff root c.merkle_root).0 g);
          purpose = (nat_beq_iff inputs.purpose c.purpose).0 i;
          request_nonce = (nat_beq_iff inputs.request_nonce c.request_nonce).0 j;
          current_timestamp = (nat_beq_iff inputs.current_timestamp c.current_timestamp).0 k;
          canonical = l;
          unspent = ground arith;
        },
      )

  -- The public inputs that a proof for a challenge is verified against.
  abbrev pub air_inputs : Challenge F P → F → PublicInputs F
  air_inputs c nullifier = record {
    registry_id = fe c.registry_id;
    merkle_root = c.merkle_root;
    purpose = fe c.purpose;
    request_nonce = fe c.request_nonce;
    current_timestamp = fe c.current_timestamp;
    nullifier = nullifier;
  }

  -- The proof system accepts the bytes for the challenge and the nullifier.
  pub record Proves {Proof : Type 0} (w : Winterfell F Proof) (c : Challenge F P)
      (inputs : VerifyPublicInputs) (bytes : List ℕ) : Type 0 where
    pub nullifier : F
    pub parsed : parse_fe inputs.nullifier ≡ ok nullifier
    pub proof : Proof
    pub decoded : w.from_bytes bytes ≡ returned proof
    pub verified : w.verify proof (air_inputs c nullifier) 80 ≡ returned tt

  air_inputs-eq :
      (s : State F P) (c : Challenge F P) (caller : P) (now_ns : ℕ) (inputs : VerifyPublicInputs)
      (key : Text) (root nullifier : F)
      → Matches s c caller now_ns inputs key
      → root ≡ c.merkle_root
      → air_pub_inputs inputs root nullifier ≡ air_inputs c nullifier
  air_inputs-eq s c caller now_ns inputs key root nullifier m same = λ i. record {
    registry_id = fe (m.registry_id i);
    merkle_root = same i;
    purpose = fe (m.purpose i);
    request_nonce = fe (m.request_nonce i);
    current_timestamp = fe (m.current_timestamp i);
    nullifier = nullifier;
  }

  pub crypto-Proves :
      {Proof : Type 0} (w : Winterfell F Proof) (s : State F P) (c : Challenge F P) (caller : P)
      (now_ns : ℕ) (inputs : VerifyPublicInputs) (key : Text) (bytes : List ℕ)
      → Matches s c caller now_ns inputs key
      → verify_crypto_impl w inputs bytes ≡ ok tt
      → Proves w c inputs bytes
  unfolding verify_crypto_impl
  crypto-Proves w s c caller now_ns inputs key bytes m h =
      let (root, a, h1) = bind-eq-ok (parse_fe inputs.merkle_root) h in
      let (nullifier, b, h2) = bind-eq-ok (parse_fe inputs.nullifier) h1 in
      let (proof, d, h3) = bind-eq-ok (reply_to (w.from_bytes bytes) _) (catch-eq-ok _ h2) in
      let same : root ≡ c.merkle_root = cc (a, m.merkle_root) in
      record {
        nullifier = nullifier;
        parsed = b;
        proof = proof;
        decoded = reply_to-eq-ok (w.from_bytes bytes) _ d;
        verified =
            subst (λ x. w.verify proof x 80 ≡ returned tt)
              (air_inputs-eq s c caller now_ns inputs key root nullifier m same)
              (reply_to-eq-ok (w.verify proof (air_pub_inputs inputs root nullifier) 80) _ h3);
      }

  pub Proves-crypto :
      {Proof : Type 0} (w : Winterfell F Proof) (s : State F P) (c : Challenge F P) (caller : P)
      (now_ns : ℕ) (inputs : VerifyPublicInputs) (key : Text) (bytes : List ℕ)
      → Matches s c caller now_ns inputs key
      → Proves w c inputs bytes
      → verify_crypto_impl w inputs bytes ≡ ok tt
  unfolding verify_crypto_impl
  Proves-crypto w s c caller now_ns inputs key bytes m r =
      rw
        (
          m.merkle_root,
          r.parsed,
          r.decoded,
          air_inputs-eq s c caller now_ns inputs key c.merkle_root r.nullifier m refl,
          r.verified,
        )
        refl
