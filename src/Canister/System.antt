-- ===== src/Canister/System.antt =====
-- The canister as a state machine: one message after the other, as the replica delivers them to the
-- `#[update]` methods and the heartbeat. The wrappers read the caller, whether it is a controller,
-- and the time from the system interface: they come with the message. Queries change nothing.
pub mod Frames
pub mod Filing
pub mod Keeps
pub mod Spending
pub mod Rests
pub mod Runs
pub mod Logs
pub mod Kept
pub mod Planted
pub mod Drained
pub mod Answers
use yaqeen_stark_winterfell.Prelude.{ℕ, Bool, List, [], ◌∷◌}
use yaqeen_stark_winterfell.Field.{FieldOps}
use yaqeen_stark_winterfell.Canister.Outcome.{Outcome, ok, err, trap}
use yaqeen_stark_winterfell.Canister.State.{State, Principals, Record, VerifyPublicInputs}
use yaqeen_stark_winterfell.Canister.Admin.{bootstrap_admin_impl, add_admin_impl, remove_admin_impl}
use yaqeen_stark_winterfell.Canister.Tree.{submit_record_impl}
use yaqeen_stark_winterfell.Canister.Challenges.{request_challenge_impl, heartbeat_impl}
use yaqeen_stark_winterfell.Canister.Verify.{Winterfell, verify}

pub data Message (P : Type 0) : Type 0 where
  bootstrap_admin : (caller_is_controller : Bool) (real_admin : P) → Message P
  add_admin : (caller new_admin : P) → Message P
  remove_admin : (caller old_admin : P) → Message P
  submit_record : (caller : P) → Record → Message P
  request_challenge : (caller : P) (now_ns purpose : ℕ) → Message P
  verify_proof :
      (caller : P) (now_ns challenge_id : ℕ) (proof_bytes : List ℕ) → VerifyPublicInputs → Message P
  heartbeat : (now_ns : ℕ) → Message P

module _ {F P : Type 0} where
  -- The replica discards the changes of a call that panics.
  abbrev pub settle : {A : Type 0} → State F P → Outcome A → State F P → State F P
  settle s (ok _) t = t
  settle s (err _) t = t
  settle s trap t = s

module _ {F P : Type 0} ⦃o : FieldOps F⦄ ⦃p : Principals P⦄ where
  unfoldable pub deliver : {Proof : Type 0} → Winterfell F Proof → State F P → Message P → State F P
  deliver w s (bootstrap_admin c a) =
      let (result, t) = bootstrap_admin_impl s c a in settle s result t
  deliver w s (add_admin c a) = let (result, t) = add_admin_impl s c a in settle s result t
  deliver w s (remove_admin c a) = let (result, t) = remove_admin_impl s c a in settle s result t
  deliver w s (submit_record c r) = let (result, t) = submit_record_impl s c r in settle s result t
  deliver w s (request_challenge c now_ns purpose) =
      let (result, t) = request_challenge_impl s c now_ns purpose in settle s result t
  deliver w s (verify_proof c now_ns id bytes inputs) =
      let (result, t) = verify w s c now_ns id bytes inputs in settle s result t
  deliver w s (heartbeat now_ns) = heartbeat_impl s now_ns

  unfoldable pub run :
      {Proof : Type 0} → Winterfell F Proof → State F P → List (Message P) → State F P
  run w s [] = s
  run w s (m ∷ ms) = run w (deliver w s m) ms
