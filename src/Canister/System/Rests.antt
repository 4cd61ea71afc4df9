-- ===== src/Canister/System/Rests.antt =====
-- Proofs about the registry and the allow-list across the messages that do not write them.
use yaqeen_stark_winterfell.Prelude.{
  ℕ, ◌≡◌, refl, ap, sym, subst, Bool, List, nat_eq, pair_eq, arith, inl, inr,
}
use yaqeen_stark_winterfell.Prelude.Map.{Map}
use yaqeen_stark_winterfell.Field.{FieldOps}
use yaqeen_stark_winterfell.Canister.Outcome.{Outcome, ok, err, trap}
use yaqeen_stark_winterfell.Canister.State.{
  State, Principals, Record, VerifyPublicInputs, VerifyOk, default_state,
}
use yaqeen_stark_winterfell.Canister.Admin.{bootstrap_admin_impl, add_admin_impl, remove_admin_impl}
use yaqeen_stark_winterfell.Canister.Tree.Registry.{IsRegistry, IsFiled}
use yaqeen_stark_winterfell.Canister.Challenges.{
  request_challenge_impl, heartbeat_impl, issue, issue_if,
}
use yaqeen_stark_winterfell.Canister.Throttle.{check_and_update_throttle}
use yaqeen_stark_winterfell.Canister.Verify.{Winterfell, verify}
use yaqeen_stark_winterfell.Canister.Verify.Accepted.{verify_accepted}
use yaqeen_stark_winterfell.Canister.Verify.Rejected.{verify_rejected}
use yaqeen_stark_winterfell.Canister.Verify.Total.{verify-Returns}
use yaqeen_stark_winterfell.Canister.System.Frames.{prune_challenges_rest}
use yaqeen_stark_winterfell.Canister.System.Keeps.{Outcome-cases}

module _ {F P : Type 0} where
  -- The registry's part of the state.
  abbrev pub land : State F P → Map ℕ Record × Map ℕ ℕ × List F × Map (ℕ × ℕ) F × F × ℕ
  land s = (
    s.records, s.leaf_index_by_property, s.zero_hashes, s.nodes, s.current_root, s.next_leaf_index,
  )

  -- Neither the registry nor the allow-list changes.
  abbrev pub Rests : State F P → State F P → Type 0
  Rests s t = (land t ≡ land s) × (t.admins ≡ s.admins)

module _ {F P : Type 0} ⦃o : FieldOps F⦄ where
  abbrev rebuild : Map ℕ Record × Map ℕ ℕ × List F × Map (ℕ × ℕ) F × F × ℕ → State F P
  rebuild (records, indices, zeros, nodes, root, next) = record default_state {
    records = records;
    leaf_index_by_property = indices;
    zero_hashes = zeros;
    nodes = nodes;
    current_root = root;
    next_leaf_index = next;
  }

  -- The invariant speaks of the registry's part only.
  to_rebuilt : (s : State F P) → IsRegistry s → IsRegistry (rebuild (land s))
  to_rebuilt s reg = record {
    zeros = reg.zeros;
    tree = reg.tree;
    root = reg.root;
    leaves = λ q i h.
        let f : IsFiled s q i = reg.leaves q i h in
        record { allocated = f.allocated; filed = f.filed; stored = f.stored; hashed = f.hashed };
    one_each = reg.one_each;
    within = reg.within;
  }

  of_rebuilt : (s : State F P) → IsRegistry (rebuild (land s)) → IsRegistry s
  of_rebuilt s reg = record {
    zeros = reg.zeros;
    tree = reg.tree;
    root = reg.root;
    leaves = λ q i h.
        let f = reg.leaves q i h in
        record { allocated = f.allocated; filed = f.filed; stored = f.stored; hashed = f.hashed };
    one_each = reg.one_each;
    within = reg.within;
  }

  pub IsRegistry-land : (s t : State F P) → land t ≡ land s → IsRegistry s → IsRegistry t
  IsRegistry-land s t e reg =
      of_rebuilt t (subst (λ x. IsRegistry (rebuild x)) (sym e) (to_rebuilt s reg))

  issue_if-Rests :
      (result : Outcome (Unit {0})) (s : State F P) (c : P) (now_ns purpose : ℕ)
      → Rests s (issue_if result s c now_ns purpose).1
  unfolding issue
  issue_if-Rests (ok _) s c now_ns purpose = (refl, refl)
  issue_if-Rests (err e) s c now_ns purpose = (refl, refl)
  issue_if-Rests trap s c now_ns purpose = (refl, refl)

module _ {F P : Type 0} ⦃o : FieldOps F⦄ ⦃p : Principals P⦄ where
  pub request_challenge_impl-Rests :
      (s : State F P) (c : P) (now_ns purpose : ℕ)
      → Rests s (request_challenge_impl s c now_ns purpose).1
  unfolding request_challenge_impl
  request_challenge_impl-Rests s c now_ns purpose =
      let q =
        check_and_update_throttle s.last_challenge_call_at s.challenge_throttle_log c now_ns in
      let u : State F P = record s { last_challenge_call_at = q.1; challenge_throttle_log = q.2 } in
      issue_if-Rests q.0 u c now_ns purpose

  pub heartbeat_impl-Rests : (s : State F P) (now_ns : ℕ) → Rests s (heartbeat_impl s now_ns)
  unfolding heartbeat_impl
  heartbeat_impl-Rests s now_ns =
      let rest = prune_challenges_rest s now_ns 50 in
      (ap land rest, ap (λ (x : State F P). x.admins) rest)

  pub verify-Rests :
      {Proof : Type 0} (w : Winterfell F Proof) (s : State F P) (caller : P) (now_ns id : ℕ)
      (bytes : List ℕ) (inputs : VerifyPublicInputs)
      → Rests s (verify w s caller now_ns id bytes inputs).1
  verify-Rests w s caller now_ns id bytes inputs =
      let q : Outcome VerifyOk × State F P = verify w s caller now_ns id bytes inputs in
      elim (Outcome-cases q.0) [
        | inl (r, e) ↦
            let (c, _, found, _, _, sp) =
              verify_accepted w s caller now_ns id bytes inputs r q.1 (λ i. (e i, q.1)) in
            (ap land sp.rest, ap (λ (x : State F P). x.admins) sp.rest)
        | inr (inl (e, h)) ↦
            let same = verify_rejected w s caller now_ns id bytes inputs e h in
            (ap land same, ap (λ (x : State F P). x.admins) same)
        | inr (inr h) ↦ absurd (verify-Returns w s caller now_ns id bytes inputs h)
      ]

  pub bootstrap_admin_impl-land :
      (s : State F P) (c : Bool) (a : P) → land (bootstrap_admin_impl s c a).1 ≡ land s
  unfolding bootstrap_admin_impl
  bootstrap_admin_impl-land s c a = ground arith

  pub add_admin_impl-land : (s : State F P) (c a : P) → land (add_admin_impl s c a).1 ≡ land s
  unfolding add_admin_impl
  add_admin_impl-land s c a = ground arith

  pub remove_admin_impl-land : (s : State F P) (c a : P) → land (remove_admin_impl s c a).1 ≡ land s
  unfolding remove_admin_impl
  remove_admin_impl-land s c a = ground arith
