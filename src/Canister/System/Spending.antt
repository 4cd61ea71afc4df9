-- ===== src/Canister/System/Spending.antt =====
-- Proofs about two accepted calls of `verify` in one run.
use yaqeen_stark_winterfell.Prelude.{
  ℕ, ◌+◌, ◌^◌, ◌<◌, ◌≤◌, ◌≡◌, ◌≢◌, ap, sym, ◌∙◌, Bool, true, false, Option, none, some, List, [],
  ◌∷◌, nat_eq, list_eq, list_beq_iff, length, arith, inl, inr,
}
use yaqeen_stark_winterfell.Prelude.Map.{get}
use yaqeen_stark_winterfell.Field.{FieldOps, Encoding}
use yaqeen_stark_winterfell.Canister.Outcome.{Outcome, ok}
use yaqeen_stark_winterfell.Canister.Text.{parse_fe}
use yaqeen_stark_winterfell.Canister.Text.Canonical.{canonical_nullifier_iff}
use yaqeen_stark_winterfell.Canister.State.{
  State, Principals, Challenge, VerifyPublicInputs, VerifyOk, fresh_state,
}
use yaqeen_stark_winterfell.Canister.Verify.{Winterfell, is_spent, verify}
use yaqeen_stark_winterfell.Canister.Verify.Accepted.{verify_accepted}
use yaqeen_stark_winterfell.Canister.System.{Message, deliver, run}
use yaqeen_stark_winterfell.Canister.System.Frames.{Ages}
use yaqeen_stark_winterfell.Canister.System.Keeps.{deliver-Keeps, run-Keeps}

module _ {F P : Type 0} ⦃o : FieldOps F⦄ ⦃p : Principals P⦄ where
  -- The challenge cannot be used: no challenge of this number will be issued, and the one that may be
  -- stored is consumed.
  record Retired (s : State F P) (id : ℕ) : Type 0 where
    issued : id < s.next_challenge_id
    consumed : (c : Challenge F P) → get s.challenges id ≡ some c → c.consumed ≡ true

  -- Every stored challenge has a number that was given.
  abbrev IsNumbered : State F P → Type 0
  IsNumbered s = (j : ℕ) (c : Challenge F P) → get s.challenges j ≡ some c → j < s.next_challenge_id

  Ages-Retired : (s t : State F P) (id : ℕ) → Ages s t → Retired s id → Retired t id
  Ages-Retired s t id a r = record {
    issued = omega (arith, a.next, r.issued);
    consumed = λ c h. elim (a.stored id c h) [
      | inl x ↦ r.consumed c x
      | inr (inl (d, x, y)) ↦ y
      | inr (inr (x, y)) ↦ absurd (omega (arith, x, r.issued))
    ];
  }

  Ages-IsNumbered : (s t : State F P) → Ages s t → IsNumbered s → IsNumbered t
  Ages-IsNumbered s t a num j c h = elim (a.stored j c h) [
    | inl x ↦ omega (arith, a.next, num j c x)
    | inr (inl (d, x, y)) ↦ omega (arith, a.next, num j d x)
    | inr (inr (x, y)) ↦ y
  ]

  fresh-IsNumbered : IsNumbered fresh_state
  unfolding fresh_state get
  fresh-IsNumbered j c h = cc

  module _ {Proof : Type 0} (w : Winterfell F Proof) where
    run-Retired :
        (ms : List (Message P)) (s : State F P) (id : ℕ)
        → s.next_challenge_id + length ms < 2 ^ 64
        → Retired s id
        → Retired (run w s ms) id
    unfolding run
    run-Retired [] s id small r = r
    run-Retired (m ∷ ms) s id small r =
        let a = (deliver-Keeps w s m (omega arith)).ages in
        run-Retired ms (deliver w s m) id (omega (arith, a.next_le)) (Ages-Retired s _ id a r)

    run-IsNumbered :
        (ms : List (Message P)) (s : State F P)
        → s.next_challenge_id + length ms < 2 ^ 64
        → IsNumbered s
        → IsNumbered (run w s ms)
          × ((run w s ms).next_challenge_id ≤ s.next_challenge_id + length ms)
    unfolding run
    run-IsNumbered [] s small num = (num, omega arith)
    run-IsNumbered (m ∷ ms) s small num =
        let a = (deliver-Keeps w s m (omega arith)).ages in
        let (num', le) =
          run-IsNumbered ms (deliver w s m) (omega (arith, a.next_le))
            (Ages-IsNumbered s _ a num) in
        (num', omega (arith, a.next_le, le))

    accepted-Retired :
        (s t : State F P) (caller : P) (now_ns id : ℕ) (bytes : List ℕ)
        (inputs : VerifyPublicInputs) (r : VerifyOk)
        → IsNumbered s
        → verify w s caller now_ns id bytes inputs ≡ (ok r, t)
        → Retired t id × (t.next_challenge_id ≡ s.next_challenge_id)
    accepted-Retired s t caller now_ns id bytes inputs r num h =
        let (c, _, found, _, _, sp) = verify_accepted w s caller now_ns id bytes inputs r t h in
        let next : t.next_challenge_id ≡ s.next_challenge_id =
          ap (λ (x : State F P). x.next_challenge_id) sp.rest in
        (
          record {
            issued = omega (arith, num id c found);
            consumed = λ d e. ap from_some (sym e ∙ sp.consumed);
          },
          next,
        )
      where
        from_some : Option (Challenge F P) → Bool
        from_some none = true
        from_some (some c) = c.consumed

    -- In a run of the canister from its initial state, of fewer than 2 ^ 64 messages in all, a
    -- challenge with which one call of `verify` was accepted is never accepted again, whatever is
    -- sent in between and whoever sends it.
    pub challenge_used_once :
        (ms : List (Message P)) (caller : P) (now_ns id : ℕ) (bytes : List ℕ)
        (inputs : VerifyPublicInputs) (r : VerifyOk) (t : State F P)
        → verify w (run w fresh_state ms) caller now_ns id bytes inputs ≡ (ok r, t)
        → (ms' : List (Message P)) (caller' : P) (now_ns' : ℕ) (bytes' : List ℕ)
          (inputs' : VerifyPublicInputs) (r' : VerifyOk)
        → length ms + length ms' < 2 ^ 64
        → (verify w (run w t ms') caller' now_ns' id bytes' inputs').0 ≢ ok r'
    unfolding fresh_state
    challenge_used_once ms caller now_ns id bytes inputs r t h ms' caller' now_ns' bytes' inputs' r'
          small h' =
        let (num, le) = run-IsNumbered ms fresh_state (omega arith) fresh-IsNumbered in
        let (retired, next) = accepted-Retired _ t caller now_ns id bytes inputs r num h in
        let later = run-Retired ms' t id (omega (arith, le, next)) retired in
        let q : Outcome VerifyOk × State F P =
          verify w (run w t ms') caller' now_ns' id bytes' inputs' in
        let (c, _, found, m, _, _) =
          verify_accepted w (run w t ms') caller' now_ns' id bytes' inputs' r' q.1
            (λ i. (h' i, q.1)) in
        let used : c.consumed ≡ true = later.consumed c found in
        let unused : c.consumed ≡ false = m.fresh in cc

    -- In a run of the canister in which fewer than 2 ^ 64 challenges can be issued, two proofs
    -- that are accepted, the second after any messages in between, have nullifier texts that
    -- stand for different field elements, however the texts are written. The field's encoding is
    -- lawful.
    pub nullifier_spent_once :
        Encoding F
        → (s : State F P) (caller : P) (now_ns id : ℕ) (bytes : List ℕ)
          (inputs : VerifyPublicInputs) (r : VerifyOk) (t : State F P)
        → verify w s caller now_ns id bytes inputs ≡ (ok r, t)
        → (ms : List (Message P)) (caller' : P) (now_ns' id' : ℕ) (bytes' : List ℕ)
          (inputs' : VerifyPublicInputs) (r' : VerifyOk)
        → s.next_challenge_id + length ms < 2 ^ 64
        → (verify w (run w t ms) caller' now_ns' id' bytes' inputs').0 ≡ ok r'
        → (x : F) × (y : F) × (parse_fe inputs.nullifier ≡ ok x)
          × (parse_fe inputs'.nullifier ≡ ok y)
          × (x ≢ y)
    nullifier_spent_once laws s caller now_ns id bytes inputs r t h ms caller' now_ns' id' bytes'
          inputs' r' small h' =
        let (c, _, _, m, pr, sp) = verify_accepted w s caller now_ns id bytes inputs r t h in
        let next : t.next_challenge_id ≡ s.next_challenge_id =
          ap (λ (x : State F P). x.next_challenge_id) sp.rest in
        let q : Outcome VerifyOk × State F P =
          verify w (run w t ms) caller' now_ns' id' bytes' inputs' in
        let (c', _, _, m', pr', _) =
          verify_accepted w (run w t ms) caller' now_ns' id' bytes' inputs' r' q.1
            (λ i. (h' i, q.1)) in
        let spent : is_spent t r.nullifier ≡ true =
          sp.spent r.nullifier ∙ ground (arith, list_beq_iff r.nullifier r.nullifier) in
        let still : is_spent (run w t ms) r.nullifier ≡ true =
          run-Keeps w ms t (omega (arith, next)) r.nullifier spent in
        (
          pr.nullifier,
          pr'.nullifier,
          pr.parsed,
          pr'.parsed,
          λ same.
              let keys : ok r.nullifier ≡ ok r'.nullifier =
                sym m.canonical
                ∙ (canonical_nullifier_iff laws inputs.nullifier inputs'.nullifier pr.nullifier
                      pr'.nullifier pr.parsed pr'.parsed).1
                    same
                ∙ m'.canonical in
              let one : r.nullifier ≡ r'.nullifier = cc in cc (still, m'.unspent, one),
        )
