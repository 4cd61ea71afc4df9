-- ===== src/Canister/System/Planted.antt =====
-- The root of the registry, after any run, against the Merkle root of the filed records.
use yaqeen_stark_winterfell.Prelude.{
  ℕ, ◌+◌, ◌<◌, ◌≤◌, ◌≡◌, ◌≢◌, refl, sym, ap, ◌∙◌, subst, some, List, [], ◌∷◌, length, ltb, nat_beq,
  nat_beq_iff, nat_eq, pair_eq, arith, inl, inr, Bool-cases,
}
use yaqeen_stark_winterfell.Prelude.Map.{Map, get}
use yaqeen_stark_winterfell.Field.{FieldOps}
use yaqeen_stark_winterfell.Air.Layout.{tree_depth}
use yaqeen_stark_winterfell.Canister.Outcome.{Text, Outcome, ok, err, trap}
use yaqeen_stark_winterfell.Canister.State.{State, Principals, Record, fresh_state}
use yaqeen_stark_winterfell.Canister.Admin.{
  is_admin, bootstrap_admin_impl, add_admin_impl, remove_admin_impl,
}
use yaqeen_stark_winterfell.Canister.Tree.{submit_record_impl, store_hashed, leaf_hash}
use yaqeen_stark_winterfell.Canister.Tree.Shape.{node}
use yaqeen_stark_winterfell.Canister.Tree.Registry.{IsRegistry, capacity, fresh-IsRegistry}
use yaqeen_stark_winterfell.Canister.Tree.Submit.{Submitted, submit_record_impl_lem}
use yaqeen_stark_winterfell.Canister.Challenges.{request_challenge_impl, heartbeat_impl}
use yaqeen_stark_winterfell.Canister.Verify.{Winterfell, verify}
use yaqeen_stark_winterfell.Canister.System.{
  Message, bootstrap_admin, add_admin, remove_admin, submit_record, request_challenge, verify_proof,
  heartbeat, deliver, run,
}
use yaqeen_stark_winterfell.Canister.System.Frames.{settle_lem}
use yaqeen_stark_winterfell.Canister.System.Keeps.{Outcome-cases}
use yaqeen_stark_winterfell.Canister.System.Rests.{
  land, request_challenge_impl-Rests, heartbeat_impl-Rests, verify-Rests, bootstrap_admin_impl-land,
  add_admin_impl-land, remove_admin_impl-land,
}
use yaqeen_stark_winterfell.Canister.System.Runs.{deliver-Grows, run-IsRegistry}
use yaqeen_stark_winterfell.Harness.Built.{merkle_root_of, node-merkle_root_of}

module _ {F : Type 0} ⦃o : FieldOps F⦄ where
  -- Each leaf below the next free one is some property's, and the others are empty.
  abbrev Planted : Map ℕ ℕ → Map (ℕ × ℕ) F → ℕ → Type 0
  Planted indices nodes next =
      ((j : ℕ) → next ≤ j → node nodes 0 j ≡ o.zero_fe)
      × ((j : ℕ) → j < next → (q : ℕ) × (get indices q ≡ some j))

module _ {F P : Type 0} ⦃o : FieldOps F⦄ where
  abbrev IsPlanted : State F P → Type 0
  IsPlanted s = Planted s.leaf_index_by_property s.nodes s.next_leaf_index

  IsPlanted-land : (s t : State F P) → land t ≡ land s → IsPlanted s → IsPlanted t
  IsPlanted-land s t e h =
      subst (λ (x : Map ℕ Record × Map ℕ ℕ × List F × Map (ℕ × ℕ) F × F × ℕ). Planted x.1 x.3 x.5)
        (sym e) h

module _ {F P : Type 0} ⦃o : FieldOps F⦄ ⦃p : Principals P⦄ where
  Submitted-IsPlanted : (s t : State F P) (r : Record) → Submitted s r t → IsPlanted s → IsPlanted t
  Submitted-IsPlanted s t r done (sparse, covered) =
      let taken : done.index < t.next_leaf_index =
        (done.registry.leaves r.property_id done.index done.indexed).allocated in
      (
        λ j h.
            done.others j (λ (f : done.index ≡ j). omega (arith, f, taken, h))
            ∙ sparse j (omega (arith, done.grows, h)),
        λ j h. elim (Bool-cases (nat_beq done.index j)) [
          | inl e ↦
              let same : done.index ≡ j = (nat_beq_iff done.index j).0 e in
              (r.property_id, done.indexed ∙ ap some same)
          | inr e ↦
              let apart : done.index ≢ j = λ f. ground (arith, f) in
              let (q, found) = covered j (done.room j h apart) in
              let other : q ≢ r.property_id = λ f. apart (
                sym (
                  done.in_place j
                    (subst (λ x. get s.leaf_index_by_property x ≡ some j) f found))) in
              (q, done.same_indices q other ∙ found)
        ],
      )

  refused :
      (s : State F P) (r : Record) (h : Outcome F)
      → ((leaf : F) → h ≢ ok leaf)
      → IsPlanted s
      → IsPlanted (store_hashed s r h).1
  refused s r (ok leaf) ne planted = absurd (ne leaf refl)
  refused s r (err x) ne planted = planted
  refused s r trap ne planted = planted

  submit_record_impl-IsPlanted :
      (s : State F P) (c : P) (r : Record)
      → s.next_leaf_index < capacity
      → IsRegistry s
      → IsPlanted s
      → IsPlanted (submit_record_impl s c r).1
  unfolding submit_record_impl
  submit_record_impl-IsPlanted s c r room reg planted = elim (Bool-cases (is_admin s c)) [
    | inr e ↦ rw (e, submit_record_impl) planted
    | inl e ↦ elim (Outcome-cases (leaf_hash {F = F} r)) [
      | inl (leaf, h) ↦
          let (t, ran, done) = submit_record_impl_lem s c r leaf reg e h (λ _. room) in
          subst (λ (x : Outcome Text × State F P). IsPlanted x.1) (sym ran)
            (Submitted-IsPlanted s t r done planted)
      | inr (inl (x, h)) ↦
          rw (e, submit_record_impl) (refused s r (leaf_hash {F = F} r) (λ leaf y. cc) planted)
      | inr (inr h) ↦
          rw (e, submit_record_impl) (refused s r (leaf_hash {F = F} r) (λ leaf y. cc) planted)
    ]
  ]

  module _ {Proof : Type 0} (w : Winterfell F Proof) where
    deliver-IsPlanted :
        (s : State F P) (m : Message P)
        → s.next_leaf_index < capacity
        → IsRegistry s
        → IsPlanted s
        → IsPlanted (deliver w s m)
    unfolding deliver
    deliver-IsPlanted s (bootstrap_admin c a) room reg h =
        settle_lem IsPlanted s (bootstrap_admin_impl s c a) h
          (IsPlanted-land s (bootstrap_admin_impl s c a).1 (bootstrap_admin_impl-land s c a) h)
    deliver-IsPlanted s (add_admin c a) room reg h =
        settle_lem IsPlanted s (add_admin_impl s c a) h
          (IsPlanted-land s (add_admin_impl s c a).1 (add_admin_impl-land s c a) h)
    deliver-IsPlanted s (remove_admin c a) room reg h =
        settle_lem IsPlanted s (remove_admin_impl s c a) h
          (IsPlanted-land s (remove_admin_impl s c a).1 (remove_admin_impl-land s c a) h)
    deliver-IsPlanted s (submit_record c r) room reg h =
        settle_lem IsPlanted s (submit_record_impl s c r) h
          (submit_record_impl-IsPlanted s c r room reg h)
    deliver-IsPlanted s (request_challenge c now_ns purpose) room reg h =
        settle_lem IsPlanted s (request_challenge_impl s c now_ns purpose) h (
          IsPlanted-land s (request_challenge_impl s c now_ns purpose).1
            (request_challenge_impl-Rests s c now_ns purpose).0 h)
    deliver-IsPlanted s (verify_proof c now_ns id bytes inputs) room reg h =
        settle_lem IsPlanted s (verify w s c now_ns id bytes inputs) h (
          IsPlanted-land s (verify w s c now_ns id bytes inputs).1
            (verify-Rests w s c now_ns id bytes inputs).0 h)
    deliver-IsPlanted s (heartbeat now_ns) room reg h =
        IsPlanted-land s (heartbeat_impl s now_ns) (heartbeat_impl-Rests s now_ns).0 h

    run-IsPlanted :
        (ms : List (Message P)) (s : State F P)
        → IsRegistry s
        → s.next_leaf_index + length ms ≤ capacity
        → IsPlanted s
        → IsPlanted (run w s ms)
    unfolding run
    run-IsPlanted [] s reg room h = h
    run-IsPlanted (m ∷ ms) s reg room h =
        let g = deliver-Grows w s m in
        run-IsPlanted ms (deliver w s m) (g.registry (omega arith) reg)
          (omega (arith, g.next (omega arith) reg)) (deliver-IsPlanted s m (omega arith) reg h)

    -- Whatever messages are delivered to a new canister, of which there are at most 2 ^ 25, its
    -- current root is the Merkle root, defined by recursion on the depth, of a function that
    -- holds at each property's leaf index the hash of the record that is stored for it, and zero
    -- at the indices that are no property's.
    pub run_root_refines :
        (ms : List (Message P))
        → length ms ≤ capacity
        → (let s = run w (fresh_state {F = F}) ms in
            (leaves : ℕ → F) × (s.current_root ≡ merkle_root_of tree_depth 0 leaves)
            × ((q index : ℕ)
                → get s.leaf_index_by_property q ≡ some index
                → (r : Record) × (get s.records q ≡ some r) × (leaf_hash r ≡ ok (leaves index)))
            × ((j : ℕ)
                → ((q : ℕ) → get s.leaf_index_by_property q ≢ some j)
                → leaves j ≡ o.zero_fe))
    unfolding fresh_state node get
    run_root_refines ms room =
        let s : State F P = run w fresh_state ms in
        let fits : (fresh_state {F = F} {P = P}).next_leaf_index + length ms ≤ capacity =
          omega (arith, room) in
        let reg = run-IsRegistry w ms fresh_state fresh-IsRegistry fits in
        let (sparse, covered) =
          run-IsPlanted ms fresh_state fresh-IsRegistry fits
            (λ j h. refl, λ j h. absurd (omega (arith, h))) in
        (
          node s.nodes 0,
          reg.root ∙ node-merkle_root_of s.nodes reg.tree tree_depth 0 (omega arith),
          λ q index h. let f = reg.leaves q index h in (f.filed, f.stored, f.hashed),
          λ j free. elim (Bool-cases (ltb j s.next_leaf_index)) [
            | inl e ↦ let (q, found) = covered j (ground arith) in absurd (free q found)
            | inr e ↦ sparse j (ground arith)
          ],
        )
