-- ===== src/Canister/System/Logs.antt =====
-- Proofs that the tables of the challenges, the nullifiers and the throttle stay tables.
use yaqeen_stark_winterfell.Prelude.{
  zero, suc, ℕ, ◌≡◌, sym, subst, Bool, true, Option, none, some, List, nat_eq, pair_eq, list_eq,
  leb, inl, inr, Bool-cases, Option-cases,
}
use yaqeen_stark_winterfell.Prelude.Words.{add64, ltb_i64}
use yaqeen_stark_winterfell.Prelude.Map.{Map, get, remove}
use yaqeen_stark_winterfell.Field.{FieldOps}
use yaqeen_stark_winterfell.Canister.Outcome.{Text, Outcome, ok, err, trap, ◌>>◌}
use yaqeen_stark_winterfell.Canister.State.{
  State, Principals, principal_eq, Record, Challenge, VerifyPublicInputs,
}
use yaqeen_stark_winterfell.Canister.Text.{canonical_nullifier}
use yaqeen_stark_winterfell.Canister.Throttle.{check_and_update_throttle}
use yaqeen_stark_winterfell.Canister.Challenges.{
  request_challenge_impl, issue, issue_if, prune_challenges, heartbeat_impl,
}
use yaqeen_stark_winterfell.Canister.Verify.{
  Winterfell, verify, verify_commit_impl, verify_precheck_impl, verify_crypto_impl, commit_key,
  commit_after, consume_found, is_spent,
}
use yaqeen_stark_winterfell.Canister.Upgrade.RoundTrip.{HasDistinctKeys, HasOwnKeys}
use yaqeen_stark_winterfell.Canister.Upgrade.Tables.{
  insert-HasDistinctKeys, remove-HasDistinctKeys, check_and_update_throttle-HasDistinctKeys,
  prune_throttle_log-HasDistinctKeys,
}
use yaqeen_stark_winterfell.Canister.System.Rests.{land}

module _ {F P : Type 0} ⦃p : Principals P⦄ where
  -- The tables of the challenges and of the calls.
  abbrev pub logs : State F P → Map ℕ (Challenge F P) × Map Text Bool × Map P ℕ × Map P ℕ
  logs s = (s.challenges, s.nullifiers, s.last_challenge_call_at, s.last_verify_call_at)

  abbrev pub HasLogTables : State F P → Type 0
  HasLogTables s =
      HasDistinctKeys s.challenges
      × HasDistinctKeys s.nullifiers
      × HasDistinctKeys s.last_challenge_call_at
      × HasDistinctKeys s.last_verify_call_at

  abbrev pub HasLandTables : State F P → Type 0
  HasLandTables s =
      HasDistinctKeys s.records
      × HasOwnKeys s.records
      × HasDistinctKeys s.leaf_index_by_property
      × HasDistinctKeys s.nodes

  -- Every table of the state is one.
  abbrev pub HasTables : State F P → Type 0
  HasTables s = HasLandTables s × HasLogTables s

  pub of_land : (s t : State F P) → land t ≡ land s → HasLandTables s → HasLandTables t
  of_land s t e h =
      subst
        (λ (x : Map ℕ Record × Map ℕ ℕ × List F × Map (ℕ × ℕ) F × F × ℕ).
          HasDistinctKeys x.0 × HasOwnKeys x.0 × HasDistinctKeys x.1 × HasDistinctKeys x.3)
        (sym e) h

  pub of_logs : (s t : State F P) → logs t ≡ logs s → HasLogTables s → HasLogTables t
  of_logs s t e h =
      subst
        (λ (x : Map ℕ (Challenge F P) × Map Text Bool × Map P ℕ × Map P ℕ).
          HasDistinctKeys x.0 × HasDistinctKeys x.1 × HasDistinctKeys x.2 × HasDistinctKeys x.3)
        (sym e) h

  prune_challenges-HasLogTables :
      (s : State F P) (now_ns n : ℕ) → HasLogTables s → HasLogTables (prune_challenges s now_ns n)
  unfolding prune_challenges
  prune_challenges-HasLogTables s now_ns zero h = h
  prune_challenges-HasLogTables s now_ns (suc n) (c, x, y, z) =
      let id : ℕ = s.oldest_unpruned_challenge_id in
      let skipped : State F P = record s { oldest_unpruned_challenge_id = add64 id 1 } in
      let dropped : State F P = record s {
        challenges = remove s.challenges id;
        oldest_unpruned_challenge_id = add64 id 1;
      } in
      elim (Bool-cases (leb s.next_challenge_id id)) [
        | inl e ↦ rw e (c, x, y, z)
        | inr e ↦ elim (Option-cases (get s.challenges id)) [
          | inl f ↦ rw (e, f) (prune_challenges-HasLogTables skipped now_ns n (c, x, y, z))
          | inr (d, f) ↦ elim (Bool-cases (ltb_i64 d.expires_at now_ns)) [
            | inl g ↦
                rw (e, f, g)
                  (prune_challenges-HasLogTables dropped now_ns n
                    (remove-HasDistinctKeys s.challenges id c, x, y, z))
            | inr g ↦ rw (e, f, g) (c, x, y, z)
          ]
        ]
      ]

module _ {F P : Type 0} ⦃o : FieldOps F⦄ ⦃p : Principals P⦄ where
  pub heartbeat_impl-HasLogTables :
      (s : State F P) (now_ns : ℕ) → HasLogTables s → HasLogTables (heartbeat_impl s now_ns)
  unfolding heartbeat_impl
  heartbeat_impl-HasLogTables s now_ns h =
      let t : State F P = prune_challenges s now_ns 50 in
      let (challenges, nullifiers, calls, verifies) = prune_challenges-HasLogTables s now_ns 50 h in
      (
        challenges,
        nullifiers,
        prune_throttle_log-HasDistinctKeys t.last_challenge_call_at t.challenge_throttle_log now_ns
            50 calls,
        prune_throttle_log-HasDistinctKeys t.last_verify_call_at t.verify_throttle_log now_ns 50
            verifies,
      )

  issue_if-HasLogTables :
      (result : Outcome (Unit {0})) (s : State F P) (c : P) (now_ns purpose : ℕ)
      → HasLogTables s
      → HasLogTables (issue_if result s c now_ns purpose).1
  unfolding issue
  issue_if-HasLogTables (ok _) s c now_ns purpose (challenges, x, y, z) =
      (insert-HasDistinctKeys s.challenges s.next_challenge_id _ challenges, x, y, z)
  issue_if-HasLogTables (err e) s c now_ns purpose h = h
  issue_if-HasLogTables trap s c now_ns purpose h = h

  pub request_challenge_impl-HasLogTables :
      (s : State F P) (c : P) (now_ns purpose : ℕ)
      → HasLogTables s
      → HasLogTables (request_challenge_impl s c now_ns purpose).1
  unfolding request_challenge_impl
  request_challenge_impl-HasLogTables s c now_ns purpose (challenges, nullifiers, calls, verifies) =
      let q =
        check_and_update_throttle s.last_challenge_call_at s.challenge_throttle_log c now_ns in
      let u : State F P = record s { last_challenge_call_at = q.1; challenge_throttle_log = q.2 } in
      issue_if-HasLogTables q.0 u c now_ns purpose (
        challenges,
        nullifiers,
        check_and_update_throttle-HasDistinctKeys s.last_challenge_call_at s.challenge_throttle_log
            c now_ns calls,
        verifies,
      )

  consume_found-HasDistinctKeys :
      (m : Map ℕ (Challenge F P)) (id : ℕ) (x : Option (Challenge F P))
      → HasDistinctKeys m
      → HasDistinctKeys (consume_found m id x)
  consume_found-HasDistinctKeys m id none d = d
  consume_found-HasDistinctKeys m id (some c) d =
      insert-HasDistinctKeys m id (record c { consumed = true }) d

  verify_commit_impl-HasLogTables :
      (s : State F P) (id : ℕ) (key : Text)
      → HasLogTables s
      → HasLogTables (verify_commit_impl s id key).1
  unfolding verify_commit_impl
  verify_commit_impl-HasLogTables s id key (challenges, nullifiers, x, y) =
      elim (Bool-cases (is_spent s key)) [
        | inl e ↦ rw (e, verify_commit_impl) (challenges, nullifiers, x, y)
        | inr e ↦
            rw (e, verify_commit_impl)
              (
                consume_found-HasDistinctKeys s.challenges id (get s.challenges id) challenges,
                insert-HasDistinctKeys s.nullifiers key true nullifiers,
                x,
                y,
              )
      ]

  commit_key-HasLogTables :
      (key : Outcome Text) (s : State F P) (id : ℕ)
      → HasLogTables s
      → HasLogTables (commit_key key s id).1
  commit_key-HasLogTables (ok key) s id h = verify_commit_impl-HasLogTables s id key h
  commit_key-HasLogTables (err e) s id h = h
  commit_key-HasLogTables trap s id h = h

  commit_after-HasLogTables :
      (result : Outcome (Unit {0})) (s : State F P) (id : ℕ) (inputs : VerifyPublicInputs)
      → HasLogTables s
      → HasLogTables (commit_after result s id inputs).1
  commit_after-HasLogTables (ok _) s id inputs h =
      commit_key-HasLogTables (canonical_nullifier F inputs.nullifier) s id h
  commit_after-HasLogTables (err e) s id inputs h = h
  commit_after-HasLogTables trap s id inputs h = h

  pub verify-HasLogTables :
      {Proof : Type 0} (w : Winterfell F Proof) (s : State F P) (caller : P) (now_ns id : ℕ)
      (bytes : List ℕ) (inputs : VerifyPublicInputs)
      → HasLogTables s
      → HasLogTables (verify w s caller now_ns id bytes inputs).1
  unfolding verify verify_precheck_impl
  verify-HasLogTables w s caller now_ns id bytes inputs (challenges, nullifiers, calls, verifies) =
      let q = check_and_update_throttle s.last_verify_call_at s.verify_throttle_log caller now_ns in
      let u : State F P = record s { last_verify_call_at = q.1; verify_throttle_log = q.2 } in
      commit_after-HasLogTables
        ((verify_precheck_impl s caller now_ns id inputs).0 >> verify_crypto_impl w inputs bytes) u
        id inputs
        (
          challenges,
          nullifiers,
          calls,
          check_and_update_throttle-HasDistinctKeys s.last_verify_call_at s.verify_throttle_log
              caller now_ns verifies,
        )
