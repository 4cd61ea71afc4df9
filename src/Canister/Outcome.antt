-- ===== src/Canister/Outcome.antt =====
-- The result of a call of canister/src/lib.rs. `Err(String)` is `err` with one constructor for each
-- message of the source; a Rust panic is `trap`, on which the replica discards the call's changes.
use yaqeen_stark_winterfell.Prelude.{ℕ, List}

-- A text is the list of its code points.
abbrev pub Text : Type 0
Text = List ℕ

pub data Error : Type 0 where
  parse_failed : Text → Error
  not_controller already_bootstrapped unauthorized last_admin unauthorized_submit : Error
  anonymous_caller rate_limited : Error
  unknown_challenge wrong_requester already_consumed challenge_expired : Error
  registry_id_mismatch merkle_root_mismatch purpose_mismatch : Error
  request_nonce_mismatch current_timestamp_mismatch nullifier_spent : Error
  undecodable_proof invalid_proof verifier_panicked : Error

pub data Outcome {ℓ} (A : Type ℓ) : Type ℓ where
  ok : A → Outcome A
  err : Error → Outcome A
  trap : Outcome A

-- `and_then`, which `?` and `do` stand for.
infixl 5 ◌>>=◌
abbrev pub ◌>>=◌ {ℓ κ} : {A : Type ℓ} {B : Type κ} → Outcome A → (A → Outcome B) → Outcome B
trap >>= next = trap
err e >>= next = err e
ok a >>= next = next a

-- The `?` operator and `and_then` on a unit result.
infixl 5 ◌>>◌
abbrev pub ◌>>◌ {ℓ κ} : {A : Type ℓ} {B : Type κ} → Outcome A → Outcome B → Outcome B
m >> k = m >>= λ _. k
