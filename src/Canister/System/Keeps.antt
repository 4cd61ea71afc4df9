-- ===== src/Canister/System/Keeps.antt =====
-- Proofs about the challenges and the spent nullifiers across one message and across many.
use yaqeen_stark_winterfell.Prelude.{
  ℕ, ◌+◌, ◌^◌, ◌<◌, ◌≡◌, refl, ap, sym, ◌∙◌, Bool, true, Option, none, some, List, [], ◌∷◌, nat_beq,
  nat_beq_iff, nat_eq, list_eq, length, arith, ◌⊎◌, inl, inr, Bool-cases,
}
use yaqeen_stark_winterfell.Prelude.Map.{get}
use yaqeen_stark_winterfell.Field.{FieldOps}
use yaqeen_stark_winterfell.Canister.Outcome.{Text, Error, Outcome, ok, err, trap}
use yaqeen_stark_winterfell.Canister.State.{
  State, Principals, Challenge, VerifyPublicInputs, VerifyOk,
}
use yaqeen_stark_winterfell.Canister.Admin.{bootstrap_admin_impl, add_admin_impl, remove_admin_impl}
use yaqeen_stark_winterfell.Canister.Tree.{submit_record_impl}
use yaqeen_stark_winterfell.Canister.Challenges.{request_challenge_impl}
use yaqeen_stark_winterfell.Canister.Verify.{Winterfell, is_spent, verify}
use yaqeen_stark_winterfell.Canister.Verify.Accepted.{Spends, verify_accepted}
use yaqeen_stark_winterfell.Canister.Verify.Rejected.{verify_rejected}
use yaqeen_stark_winterfell.Canister.Verify.Total.{verify-Returns}
use yaqeen_stark_winterfell.Canister.System.{
  Message, bootstrap_admin, add_admin, remove_admin, submit_record, request_challenge, verify_proof,
  heartbeat, deliver, run,
}
use yaqeen_stark_winterfell.Canister.System.Filing.{submit_record_impl-book}
use yaqeen_stark_winterfell.Canister.System.Frames.{
  book, settle_lem, Ages, Ages-book, bootstrap_admin_impl-book, add_admin_impl-book,
  remove_admin_impl-book, request_challenge_impl-Ages, heartbeat_impl-Ages,
}

pub Outcome-cases :
    {A : Type 0} (m : Outcome A)
    → ((a : A) × (m ≡ ok a)) ⊎ (((e : Error) × (m ≡ err e)) ⊎ (m ≡ trap))
Outcome-cases (ok a) = inl (a, refl)
Outcome-cases (err e) = inr (inl (e, refl))
Outcome-cases trap = inr (inr refl)

module _ {F P : Type 0} ⦃o : FieldOps F⦄ ⦃p : Principals P⦄ where
  -- The challenges only age, the numbering goes on, and what is spent stays spent.
  pub record Keeps (s t : State F P) : Type 0 where
    pub ages : Ages s t
    pub spent : (k : Text) → is_spent s k ≡ true → is_spent t k ≡ true

  Keeps-same : (s t : State F P) → Ages s t → t.nullifiers ≡ s.nullifiers → Keeps s t
  unfolding is_spent
  Keeps-same s t a e = record { ages = a; spent = λ k h. rw e h }

  Keeps-book : (s t : State F P) → book t ≡ book s → Keeps s t
  Keeps-book s t e = Keeps-same s t (Ages-book s t e) (ap (λ b. b.2) e)

  Keeps-refl : (s : State F P) → Keeps s s
  Keeps-refl s = Keeps-book s s refl

  Spends-Keeps :
      (s t : State F P) (id : ℕ) (c : Challenge F P) (key : Text)
      → get s.challenges id ≡ some c
      → t.next_challenge_id ≡ s.next_challenge_id
      → Spends s t id c key
      → Keeps s t
  Spends-Keeps s t id c key found next sp = record {
    ages = record {
      next = omega arith;
      next_le = omega arith;
      stored = λ j d h. elim (Bool-cases (nat_beq j id)) [
        | inl e ↦
            let same : j ≡ id = (nat_beq_iff j id).0 e in
            inr (inl (c, ap (get s.challenges) same ∙ found, spent_flag j d same h))
        | inr e ↦ inl (sym (sp.same_challenges j (ground arith)) ∙ h)
      ];
    };
    spent = λ k h. sp.spent k ∙ ground arith;
  }
    where
      spent_flag :
          (j : ℕ) (d : Challenge F P) → j ≡ id → get t.challenges j ≡ some d → d.consumed ≡ true
      spent_flag j d same h =
          let e : some d ≡ some (record c { consumed = true }) =
            sym h ∙ ap (get t.challenges) same ∙ sp.consumed in
          ap (λ (x : Option (Challenge F P)). flag x) e
        where
          flag : Option (Challenge F P) → Bool
          flag none = true
          flag (some x) = x.consumed

  module _ {Proof : Type 0} (w : Winterfell F Proof) where
    pub verify-Keeps :
        (s : State F P) (caller : P) (now_ns id : ℕ) (bytes : List ℕ) (inputs : VerifyPublicInputs)
        → Keeps s (verify w s caller now_ns id bytes inputs).1
    verify-Keeps s caller now_ns id bytes inputs =
        let q : Outcome VerifyOk × State F P = verify w s caller now_ns id bytes inputs in
        elim (Outcome-cases q.0) [
          | inl (r, e) ↦
              let (c, _, found, _, _, sp) =
                verify_accepted w s caller now_ns id bytes inputs r q.1 (λ i. (e i, q.1)) in
              Spends-Keeps s q.1 id c r.nullifier found
                (ap (λ (x : State F P). x.next_challenge_id) sp.rest) sp
          | inr (inl (e, h)) ↦
              let same = verify_rejected w s caller now_ns id bytes inputs e h in
              Keeps-book s q.1 (ap book same)
          | inr (inr h) ↦ absurd (verify-Returns w s caller now_ns id bytes inputs h)
        ]

    pub deliver-Keeps :
        (s : State F P) (m : Message P) → s.next_challenge_id + 1 < 2 ^ 64 → Keeps s (deliver w s m)
    unfolding deliver
    deliver-Keeps s (bootstrap_admin c a) small =
        settle_lem (Keeps s) s (bootstrap_admin_impl s c a) (Keeps-refl s)
          (Keeps-book s _ (bootstrap_admin_impl-book s c a))
    deliver-Keeps s (add_admin c a) small =
        settle_lem (Keeps s) s (add_admin_impl s c a) (Keeps-refl s)
          (Keeps-book s _ (add_admin_impl-book s c a))
    deliver-Keeps s (remove_admin c a) small =
        settle_lem (Keeps s) s (remove_admin_impl s c a) (Keeps-refl s)
          (Keeps-book s _ (remove_admin_impl-book s c a))
    deliver-Keeps s (submit_record c r) small =
        settle_lem (Keeps s) s (submit_record_impl s c r) (Keeps-refl s)
          (Keeps-book s _ (submit_record_impl-book s c r))
    deliver-Keeps s (request_challenge c now_ns purpose) small =
        let (ages, nullifiers) = request_challenge_impl-Ages s c now_ns purpose small in
        settle_lem (Keeps s) s (request_challenge_impl s c now_ns purpose) (Keeps-refl s)
          (Keeps-same s _ ages nullifiers)
    deliver-Keeps s (verify_proof c now_ns id bytes inputs) small =
        settle_lem (Keeps s) s (verify w s c now_ns id bytes inputs) (Keeps-refl s)
          (verify-Keeps s c now_ns id bytes inputs)
    deliver-Keeps s (heartbeat now_ns) small =
        let (ages, nullifiers) = heartbeat_impl-Ages s now_ns in Keeps-same s _ ages nullifiers

    pub run-Keeps :
        (ms : List (Message P)) (s : State F P)
        → s.next_challenge_id + length ms < 2 ^ 64
        → ((k : Text) → is_spent s k ≡ true → is_spent (run w s ms) k ≡ true)
    unfolding run
    run-Keeps [] s small k h = h
    run-Keeps (m ∷ ms) s small k h =
        let keeps = deliver-Keeps s m (omega arith) in
        run-Keeps ms (deliver w s m) (omega (arith, keeps.ages.next_le)) k (keeps.spent k h)
