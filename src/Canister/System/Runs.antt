-- ===== src/Canister/System/Runs.antt =====
-- Proofs about the allow-list and the registry across runs.
use yaqeen_stark_winterfell.Prelude.{
  ◌+◌, ◌<◌, ◌≤◌, ◌≡◌, ◌≢◌, refl, ap, sym, subst, Bool, List, [], ◌∷◌, nat_eq, pair_eq, length,
  length-append, arith, inl, inr, Bool-cases,
}
use yaqeen_stark_winterfell.Field.{FieldOps}
use yaqeen_stark_winterfell.Canister.Outcome.{Text, Outcome, ok, err, trap}
use yaqeen_stark_winterfell.Canister.State.{State, Principals, Record}
use yaqeen_stark_winterfell.Canister.Admin.{
  is_admin, bootstrap_admin_impl, add_admin_impl, remove_admin_impl,
}
use yaqeen_stark_winterfell.Canister.Admin.Laws.{
  HasDistinctAdmins, bootstrap_admin_impl-distinct, add_admin_impl-distinct,
  remove_admin_impl-distinct, remove_admin_impl-nonempty,
}
use yaqeen_stark_winterfell.Canister.Tree.{submit_record_impl, store_hashed, leaf_hash}
use yaqeen_stark_winterfell.Canister.Tree.Registry.{IsRegistry, capacity}
use yaqeen_stark_winterfell.Canister.Tree.Submit.{Submitted, submit_record_impl_lem}
use yaqeen_stark_winterfell.Canister.Challenges.{request_challenge_impl}
use yaqeen_stark_winterfell.Canister.Verify.{Winterfell, verify}
use yaqeen_stark_winterfell.Canister.System.{
  Message, bootstrap_admin, add_admin, remove_admin, submit_record, request_challenge, verify_proof,
  heartbeat, deliver, run,
}
use yaqeen_stark_winterfell.Canister.System.Filing.{submit_record_impl_rest}
use yaqeen_stark_winterfell.Canister.System.Frames.{settle_lem}
use yaqeen_stark_winterfell.Canister.System.Keeps.{Outcome-cases}
use yaqeen_stark_winterfell.Canister.System.Rests.{
  land, IsRegistry-land, request_challenge_impl-Rests, heartbeat_impl-Rests, verify-Rests,
  bootstrap_admin_impl-land, add_admin_impl-land, remove_admin_impl-land,
}

module _ {F P : Type 0} ⦃o : FieldOps F⦄ ⦃p : Principals P⦄ where
  -- The registry is consistent, and a call took at most one leaf.
  pub record Grows (s t : State F P) : Type 0 where
    pub registry : s.next_leaf_index < capacity → IsRegistry s → IsRegistry t
    pub next :
        s.next_leaf_index < capacity → IsRegistry s → t.next_leaf_index ≤ s.next_leaf_index + 1

  Grows-land : (s t : State F P) → land t ≡ land s → Grows s t
  Grows-land s t e = record {
    registry = λ room reg. IsRegistry-land s t e reg;
    next = λ room reg.
        let n : t.next_leaf_index ≡ s.next_leaf_index = ap (λ x. x.5) e in omega (arith, n);
  }

  submitted-Grows : (s t : State F P) (r : Record) → Submitted s r t → Grows s t
  submitted-Grows s t r done = record {
    registry = λ room reg. done.registry;
    next = λ room reg. done.next;
  }

  refused :
      (s : State F P) (r : Record) (h : Outcome F)
      → ((leaf : F) → h ≢ ok leaf)
      → Grows s (store_hashed s r h).1
  refused s r (ok leaf) ne = absurd (ne leaf refl)
  refused s r (err x) ne = Grows-land s s refl
  refused s r trap ne = Grows-land s s refl

  submit_record_impl-grown :
      (s : State F P) (c : P) (r : Record)
      → s.next_leaf_index < capacity
      → IsRegistry s
      → Grows s (submit_record_impl s c r).1
  unfolding submit_record_impl
  submit_record_impl-grown s c r room reg = elim (Bool-cases (is_admin s c)) [
    | inr e ↦ rw (e, submit_record_impl) (Grows-land s s refl)
    | inl e ↦ elim (Outcome-cases (leaf_hash {F = F} r)) [
      | inl (leaf, h) ↦
          let (t, ran, done) = submit_record_impl_lem s c r leaf reg e h (λ _. room) in
          subst (λ (x : Outcome Text × State F P). Grows s x.1) (sym ran)
            (submitted-Grows s t r done)
      | inr (inl (x, h)) ↦
          rw (e, submit_record_impl) (refused s r (leaf_hash {F = F} r) (λ leaf y. cc))
      | inr (inr h) ↦ rw (e, submit_record_impl) (refused s r (leaf_hash {F = F} r) (λ leaf y. cc))
    ]
  ]

  submit_record_impl-Grows :
      (s : State F P) (c : P) (r : Record) → Grows s (submit_record_impl s c r).1
  submit_record_impl-Grows s c r = record {
    registry = λ room reg. (submit_record_impl-grown s c r room reg).registry room reg;
    next = λ room reg. (submit_record_impl-grown s c r room reg).next room reg;
  }

  -- The allow-list has no repetition, and someone on it once there was someone.
  record Staffs (s t : State F P) : Type 0 where
    distinct : HasDistinctAdmins s → HasDistinctAdmins t
    nonempty : HasDistinctAdmins s → 0 < length s.admins → 0 < length t.admins

  Staffs-same : (s t : State F P) → t.admins ≡ s.admins → Staffs s t
  Staffs-same s t e = record { distinct = λ d. rw e d; nonempty = λ d h. rw e h }

  bootstrap_admin_impl-Staffs :
      (s : State F P) (c : Bool) (a : P) → Staffs s (bootstrap_admin_impl s c a).1
  unfolding bootstrap_admin_impl
  bootstrap_admin_impl-Staffs s c a = record {
    distinct = λ d. bootstrap_admin_impl-distinct s d c a;
    nonempty = λ d h. ground (arith, length-append s.admins (a ∷ []));
  }

  add_admin_impl-Staffs : (s : State F P) (c a : P) → Staffs s (add_admin_impl s c a).1
  unfolding add_admin_impl
  add_admin_impl-Staffs s c a = record {
    distinct = λ d. add_admin_impl-distinct s d c a;
    nonempty = λ d h. ground (arith, length-append s.admins (a ∷ []));
  }

  remove_admin_impl-Staffs : (s : State F P) (c a : P) → Staffs s (remove_admin_impl s c a).1
  remove_admin_impl-Staffs s c a = record {
    distinct = λ d. remove_admin_impl-distinct s d c a;
    nonempty = λ d h. remove_admin_impl-nonempty s d c a h;
  }

  module _ {Proof : Type 0} (w : Winterfell F Proof) where
    pub deliver-Grows : (s : State F P) (m : Message P) → Grows s (deliver w s m)
    unfolding deliver
    deliver-Grows s (bootstrap_admin c a) =
        settle_lem (Grows s) s (bootstrap_admin_impl s c a) (Grows-land s s refl)
          (Grows-land s _ (bootstrap_admin_impl-land s c a))
    deliver-Grows s (add_admin c a) =
        settle_lem (Grows s) s (add_admin_impl s c a) (Grows-land s s refl)
          (Grows-land s _ (add_admin_impl-land s c a))
    deliver-Grows s (remove_admin c a) =
        settle_lem (Grows s) s (remove_admin_impl s c a) (Grows-land s s refl)
          (Grows-land s _ (remove_admin_impl-land s c a))
    deliver-Grows s (submit_record c r) =
        settle_lem (Grows s) s (submit_record_impl s c r) (Grows-land s s refl)
          (submit_record_impl-Grows s c r)
    deliver-Grows s (request_challenge c now_ns purpose) =
        settle_lem (Grows s) s (request_challenge_impl s c now_ns purpose) (Grows-land s s refl)
          (Grows-land s _ (request_challenge_impl-Rests s c now_ns purpose).0)
    deliver-Grows s (verify_proof c now_ns id bytes inputs) =
        settle_lem (Grows s) s (verify w s c now_ns id bytes inputs) (Grows-land s s refl)
          (Grows-land s _ (verify-Rests w s c now_ns id bytes inputs).0)
    deliver-Grows s (heartbeat now_ns) = Grows-land s _ (heartbeat_impl-Rests s now_ns).0

    deliver-Staffs : (s : State F P) (m : Message P) → Staffs s (deliver w s m)
    unfolding deliver
    deliver-Staffs s (bootstrap_admin c a) =
        settle_lem (Staffs s) s (bootstrap_admin_impl s c a) (Staffs-same s s refl)
          (bootstrap_admin_impl-Staffs s c a)
    deliver-Staffs s (add_admin c a) =
        settle_lem (Staffs s) s (add_admin_impl s c a) (Staffs-same s s refl)
          (add_admin_impl-Staffs s c a)
    deliver-Staffs s (remove_admin c a) =
        settle_lem (Staffs s) s (remove_admin_impl s c a) (Staffs-same s s refl)
          (remove_admin_impl-Staffs s c a)
    deliver-Staffs s (submit_record c r) =
        settle_lem (Staffs s) s (submit_record_impl s c r) (Staffs-same s s refl)
          (Staffs-same s _ (ap (λ (x : State F P). x.admins) (submit_record_impl_rest s c r)))
    deliver-Staffs s (request_challenge c now_ns purpose) =
        settle_lem (Staffs s) s (request_challenge_impl s c now_ns purpose) (Staffs-same s s refl)
          (Staffs-same s _ (request_challenge_impl-Rests s c now_ns purpose).1)
    deliver-Staffs s (verify_proof c now_ns id bytes inputs) =
        settle_lem (Staffs s) s (verify w s c now_ns id bytes inputs) (Staffs-same s s refl)
          (Staffs-same s _ (verify-Rests w s c now_ns id bytes inputs).1)
    deliver-Staffs s (heartbeat now_ns) = Staffs-same s _ (heartbeat_impl-Rests s now_ns).1

    -- Messages that fit the tree, if each took a leaf, leave a consistent registry consistent:
    -- every node is the hash of its two children, the current root is the topmost node, each
    -- property's leaf is the hash of its stored record and lies below the next free leaf, and no
    -- two properties share a leaf.
    pub run-IsRegistry :
        (ms : List (Message P)) (s : State F P)
        → IsRegistry s
        → s.next_leaf_index + length ms ≤ capacity
        → IsRegistry (run w s ms)
    unfolding run
    run-IsRegistry [] s reg room = reg
    run-IsRegistry (m ∷ ms) s reg room =
        let g = deliver-Grows s m in
        run-IsRegistry ms (deliver w s m) (g.registry (omega arith) reg)
          (omega (arith, g.next (omega arith) reg))

    -- Whatever messages are delivered, an allow-list without repetition stays one, and if there
    -- is an administrator before them there is one after them.
    pub run-admins :
        (ms : List (Message P)) (s : State F P)
        → HasDistinctAdmins s
        → HasDistinctAdmins (run w s ms) × (0 < length s.admins → 0 < length (run w s ms).admins)
    unfolding run
    run-admins [] s d = (d, λ h. h)
    run-admins (m ∷ ms) s d =
        let g = deliver-Staffs s m in
        let (d', more) = run-admins ms (deliver w s m) (g.distinct d) in
        (d', λ h. more (g.nonempty d h))
