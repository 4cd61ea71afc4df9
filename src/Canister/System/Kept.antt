-- ===== src/Canister/System/Kept.antt =====
-- Proofs that every state that messages lead to survives an upgrade.
use yaqeen_stark_winterfell.Prelude.{
  ℕ, ◌≤◌, ◌≡◌, ap, Bool, Option, none, some, List, [], ◌∷◌, nat_eq, pair_eq, list_eq, length, arith,
  inl, inr, Bool-cases,
}
use yaqeen_stark_winterfell.Prelude.Map.{Map, get, insert}
use yaqeen_stark_winterfell.Field.{FieldOps, Encoding}
use yaqeen_stark_winterfell.Canister.Outcome.{Outcome, ok, err, trap}
use yaqeen_stark_winterfell.Canister.State.{State, Principals, principal_eq, Record, fresh_state}
use yaqeen_stark_winterfell.Canister.Admin.{
  is_admin, bootstrap_admin_impl, add_admin_impl, remove_admin_impl,
}
use yaqeen_stark_winterfell.Canister.Tree.{
  insert_leaf, leaf_index, allocate, climb, root_reply, with_root, store_record, store_hashed,
  leaf_hash, submit_record_impl,
}
use yaqeen_stark_winterfell.Canister.Tree.Registry.{capacity, fresh-IsRegistry}
use yaqeen_stark_winterfell.Canister.Challenges.{request_challenge_impl, heartbeat_impl}
use yaqeen_stark_winterfell.Canister.Verify.{Winterfell, verify}
use yaqeen_stark_winterfell.Canister.Upgrade.{pre_upgrade, post_upgrade}
use yaqeen_stark_winterfell.Canister.Upgrade.RoundTrip.{IsStorable, post_upgrade-pre_upgrade}
use yaqeen_stark_winterfell.Canister.Upgrade.Tables.{
  insert-HasDistinctKeys, insert-HasOwnKeys, LeavesTable, climb-LeavesTable,
}
use yaqeen_stark_winterfell.Canister.System.{
  Message, bootstrap_admin, add_admin, remove_admin, submit_record, request_challenge, verify_proof,
  heartbeat, deliver, run,
}
use yaqeen_stark_winterfell.Canister.System.Filing.{submit_record_impl_rest}
use yaqeen_stark_winterfell.Canister.System.Frames.{settle_lem}
use yaqeen_stark_winterfell.Canister.System.Rests.{
  request_challenge_impl-Rests, heartbeat_impl-Rests, verify-Rests, bootstrap_admin_impl-land,
  add_admin_impl-land, remove_admin_impl-land,
}
use yaqeen_stark_winterfell.Canister.System.Runs.{run-IsRegistry}
use yaqeen_stark_winterfell.Canister.System.Logs.{
  logs, HasLogTables, HasLandTables, HasTables, of_land, of_logs, heartbeat_impl-HasLogTables,
  request_challenge_impl-HasLogTables, verify-HasLogTables,
}

module _ {F P : Type 0} ⦃p : Principals P⦄ where
  bootstrap_admin_impl-logs :
      (s : State F P) (c : Bool) (a : P)
      → HasLogTables s
      → HasLogTables (bootstrap_admin_impl s c a).1
  unfolding bootstrap_admin_impl
  bootstrap_admin_impl-logs s c a h = ground (arith, h)

  add_admin_impl-logs :
      (s : State F P) (c a : P) → HasLogTables s → HasLogTables (add_admin_impl s c a).1
  unfolding add_admin_impl
  add_admin_impl-logs s c a h = ground (arith, h)

  remove_admin_impl-logs :
      (s : State F P) (c a : P) → HasLogTables s → HasLogTables (remove_admin_impl s c a).1
  unfolding remove_admin_impl
  remove_admin_impl-logs s c a h = ground (arith, h)

module _ {F P : Type 0} ⦃o : FieldOps F⦄ ⦃p : Principals P⦄ where
  allocate-HasLandTables :
      (s : State F P) (id : ℕ) (x : Option ℕ) → HasLandTables s → HasLandTables (allocate s id x).1
  allocate-HasLandTables s id none (records, own, indices, nodes) = (
    records,
    own,
    insert-HasDistinctKeys s.leaf_index_by_property id s.next_leaf_index indices,
    nodes,
  )
  allocate-HasLandTables s id (some i) h = h

  root_reply-HasLandTables :
      (s u : State F P) (x : Option (Map (ℕ × ℕ) F × F))
      → LeavesTable x
      → HasLandTables s
      → HasLandTables u
      → HasLandTables (root_reply s (with_root u x)).1
  root_reply-HasLandTables s u none left h h' = h
  root_reply-HasLandTables s u (some (nodes, root)) left h (records, own, indices, old) =
      (records, own, indices, left)

  store_record-HasLandTables :
      (s : State F P) (r : Record) (leaf : F)
      → HasLandTables s
      → HasLandTables (store_record s r leaf).1
  unfolding store_record leaf_index insert_leaf
  store_record-HasLandTables s r leaf h =
      let q = allocate s r.property_id (get s.leaf_index_by_property r.property_id) in
      let a : State F P = q.1 in
      let u : State F P = record a { records = insert a.records r.property_id r } in
      let (records, own, indices, nodes) =
        allocate-HasLandTables s r.property_id (get s.leaf_index_by_property r.property_id) h in
      root_reply-HasLandTables s u
        (climb u.zero_hashes 25 0 q.0 leaf (insert u.nodes (0, q.0) leaf))
        (climb-LeavesTable u.zero_hashes 25 0 q.0 leaf (insert u.nodes (0, q.0) leaf)
          (insert-HasDistinctKeys u.nodes (0, q.0) leaf nodes))
        h
        (
          insert-HasDistinctKeys a.records r.property_id r records,
          insert-HasOwnKeys a.records r own,
          indices,
          nodes,
        )

  store_hashed-HasLandTables :
      (s : State F P) (r : Record) (h : Outcome F)
      → HasLandTables s
      → HasLandTables (store_hashed s r h).1
  store_hashed-HasLandTables s r (ok leaf) d = store_record-HasLandTables s r leaf d
  store_hashed-HasLandTables s r (err e) d = d
  store_hashed-HasLandTables s r trap d = d

  submit_record_impl-HasTables :
      (s : State F P) (c : P) (r : Record) → HasTables s → HasTables (submit_record_impl s c r).1
  unfolding submit_record_impl
  submit_record_impl-HasTables s c r h = (
    elim (Bool-cases (is_admin s c)) [
      | inl e ↦ rw (e, submit_record_impl) (store_hashed-HasLandTables s r (leaf_hash r) h.0)
      | inr e ↦ rw (e, submit_record_impl) h.0
    ],
    of_logs s (submit_record_impl s c r).1 (ap logs (submit_record_impl_rest s c r)) h.1,
  )

  module _ {Proof : Type 0} (w : Winterfell F Proof) where
    deliver-HasTables : (s : State F P) (m : Message P) → HasTables s → HasTables (deliver w s m)
    unfolding deliver
    deliver-HasTables s (bootstrap_admin c a) h =
        settle_lem HasTables s (bootstrap_admin_impl s c a) h (
          of_land s (bootstrap_admin_impl s c a).1 (bootstrap_admin_impl-land s c a) h.0,
          bootstrap_admin_impl-logs s c a h.1,
        )
    deliver-HasTables s (add_admin c a) h = settle_lem HasTables s (add_admin_impl s c a) h (
      of_land s (add_admin_impl s c a).1 (add_admin_impl-land s c a) h.0,
      add_admin_impl-logs s c a h.1,
    )
    deliver-HasTables s (remove_admin c a) h = settle_lem HasTables s (remove_admin_impl s c a) h (
      of_land s (remove_admin_impl s c a).1 (remove_admin_impl-land s c a) h.0,
      remove_admin_impl-logs s c a h.1,
    )
    deliver-HasTables s (submit_record c r) h =
        settle_lem HasTables s (submit_record_impl s c r) h (submit_record_impl-HasTables s c r h)
    deliver-HasTables s (request_challenge c now_ns purpose) h =
        settle_lem HasTables s (request_challenge_impl s c now_ns purpose) h (
          of_land s (request_challenge_impl s c now_ns purpose).1
              (request_challenge_impl-Rests s c now_ns purpose).0 h.0,
          request_challenge_impl-HasLogTables s c now_ns purpose h.1,
        )
    deliver-HasTables s (verify_proof c now_ns id bytes inputs) h =
        settle_lem HasTables s (verify w s c now_ns id bytes inputs) h (
          of_land s (verify w s c now_ns id bytes inputs).1
              (verify-Rests w s c now_ns id bytes inputs).0 h.0,
          verify-HasLogTables w s c now_ns id bytes inputs h.1,
        )
    deliver-HasTables s (heartbeat now_ns) h = (
      of_land s (heartbeat_impl s now_ns) (heartbeat_impl-Rests s now_ns).0 h.0,
      heartbeat_impl-HasLogTables s now_ns h.1,
    )

    run-HasTables : (ms : List (Message P)) (s : State F P) → HasTables s → HasTables (run w s ms)
    unfolding run
    run-HasTables [] s h = h
    run-HasTables (m ∷ ms) s h = run-HasTables ms (deliver w s m) (deliver-HasTables s m h)

    run-IsStorable :
        (ms : List (Message P)) → length ms ≤ capacity → IsStorable (run w fresh_state ms)
    unfolding fresh_state
    run-IsStorable ms room =
        let ((records, own, indices, nodes), (challenges, nullifiers, calls, verifies)) =
          run-HasTables ms fresh_state ((tt, tt, tt, tt), (tt, tt, tt, tt)) in
        let reg = run-IsRegistry w ms fresh_state fresh-IsRegistry (omega (arith, room)) in
        record {
          records = records;
          own_keys = own;
          indices = indices;
          nodes = nodes;
          challenges = challenges;
          nullifiers = nullifiers;
          challenge_calls = calls;
          verify_calls = verifies;
          zeros = reg.zeros;
          root = reg.root;
        }

    -- Whatever messages are delivered to a new canister, of which there are at most 2 ^ 25, an
    -- upgrade afterwards does not panic and gives back the state, with the two throttle logs
    -- rebuilt from the entries of the throttle's maps. The field's encoding is lawful.
    pub run-post_upgrade :
        Encoding F
        → (ms : List (Message P)) → length ms ≤ capacity
        → (let s = run w fresh_state ms in
            post_upgrade (pre_upgrade s)
            ≡ some (record s {
              challenge_throttle_log = s.last_challenge_call_at;
              verify_throttle_log = s.last_verify_call_at;
            }))
    run-post_upgrade laws ms room =
        post_upgrade-pre_upgrade laws (run w fresh_state ms) (run-IsStorable ms room)
