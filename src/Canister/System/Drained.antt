-- ===== src/Canister/System/Drained.antt =====
-- Proofs that enough heartbeats forget every challenge that has expired.
use yaqeen_stark_winterfell.Prelude.{
  ℕ, ◌+◌, ◌*◌, ◌^◌, ◌<◌, ◌≤◌, ◌≡◌, refl, ap, Bool, none, some, List, [], ◌∷◌, map, length, All,
  nat_eq, arith, inl, inr, Option-cases,
}
use yaqeen_stark_winterfell.Prelude.Map.{get}
use yaqeen_stark_winterfell.Field.{FieldOps}
use yaqeen_stark_winterfell.Canister.Outcome.{Outcome, ok, err, trap}
use yaqeen_stark_winterfell.Canister.State.{
  State, Principals, Challenge, VerifyPublicInputs, VerifyOk, fresh_state,
}
use yaqeen_stark_winterfell.Canister.Admin.{bootstrap_admin_impl, add_admin_impl, remove_admin_impl}
use yaqeen_stark_winterfell.Canister.Tree.{submit_record_impl}
use yaqeen_stark_winterfell.Canister.Throttle.{check_and_update_throttle}
use yaqeen_stark_winterfell.Canister.Challenges.{
  request_challenge_impl, issue, issue_if, heartbeat_impl,
}
use yaqeen_stark_winterfell.Canister.Challenges.Pruned.{
  IsWindow, AllExpired, backlog, Prunes, prune_challenges-Prunes,
}
use yaqeen_stark_winterfell.Canister.Verify.{Winterfell, verify}
use yaqeen_stark_winterfell.Canister.Verify.Accepted.{verify_accepted}
use yaqeen_stark_winterfell.Canister.Verify.Rejected.{verify_rejected}
use yaqeen_stark_winterfell.Canister.Verify.Total.{verify-Returns}
use yaqeen_stark_winterfell.Canister.System.{
  Message, bootstrap_admin, add_admin, remove_admin, submit_record, request_challenge, verify_proof,
  heartbeat, deliver, run,
}
use yaqeen_stark_winterfell.Canister.System.Filing.{submit_record_impl_rest}
use yaqeen_stark_winterfell.Canister.System.Frames.{settle_lem, Ages, prune_challenges-get}
use yaqeen_stark_winterfell.Canister.System.Keeps.{Outcome-cases, deliver-Keeps}

module _ {F P : Type 0} where
  abbrev oldest : State F P → ℕ
  oldest s = s.oldest_unpruned_challenge_id

  IsWindow-Ages :
      (s t : State F P)
      → Ages s t
      → oldest t ≡ oldest s
      → s.next_challenge_id + 1 < 2 ^ 64
      → IsWindow s
      → IsWindow t
  IsWindow-Ages s t a e small w = record {
    oldest = omega (arith, a.next, e, w.oldest);
    next = omega (arith, a.next_le);
    inside = λ j c h. elim (a.stored j c h) [
      | inl x ↦
          let (le, below) = w.inside j c x in (omega (arith, le, e), omega (arith, below, a.next))
      | inr (inl (d, x, y)) ↦
          let (le, below) = w.inside j d x in (omega (arith, le, e), omega (arith, below, a.next))
      | inr (inr (x, y)) ↦ (omega (arith, x, e, w.oldest), y)
    ];
  }

module _ {F P : Type 0} ⦃o : FieldOps F⦄ ⦃p : Principals P⦄ where
  heartbeat_impl-Prunes :
      (s : State F P) (now_ns : ℕ) → IsWindow s → Prunes s (heartbeat_impl s now_ns) now_ns 50
  unfolding heartbeat_impl
  heartbeat_impl-Prunes s now_ns w =
      let done = prune_challenges-Prunes s now_ns 50 w in
      record {
        window = record {
          oldest = done.window.oldest;
          next = done.window.next;
          inside = done.window.inside;
        };
        progress = done.progress;
      }

  bootstrap_admin_impl-oldest :
      (s : State F P) (c : Bool) (a : P) → oldest (bootstrap_admin_impl s c a).1 ≡ oldest s
  unfolding bootstrap_admin_impl
  bootstrap_admin_impl-oldest s c a = ground arith

  add_admin_impl-oldest : (s : State F P) (c a : P) → oldest (add_admin_impl s c a).1 ≡ oldest s
  unfolding add_admin_impl
  add_admin_impl-oldest s c a = ground arith

  remove_admin_impl-oldest :
      (s : State F P) (c a : P) → oldest (remove_admin_impl s c a).1 ≡ oldest s
  unfolding remove_admin_impl
  remove_admin_impl-oldest s c a = ground arith

  issue_if-oldest :
      (result : Outcome (Unit {0})) (s : State F P) (c : P) (now_ns purpose : ℕ)
      → oldest (issue_if result s c now_ns purpose).1 ≡ oldest s
  unfolding issue
  issue_if-oldest (ok _) s c now_ns purpose = refl
  issue_if-oldest (err e) s c now_ns purpose = refl
  issue_if-oldest trap s c now_ns purpose = refl

  request_challenge_impl-oldest :
      (s : State F P) (c : P) (now_ns purpose : ℕ)
      → oldest (request_challenge_impl s c now_ns purpose).1 ≡ oldest s
  unfolding request_challenge_impl
  request_challenge_impl-oldest s c now_ns purpose =
      let q =
        check_and_update_throttle s.last_challenge_call_at s.challenge_throttle_log c now_ns in
      let u : State F P = record s { last_challenge_call_at = q.1; challenge_throttle_log = q.2 } in
      issue_if-oldest q.0 u c now_ns purpose

  module _ {Proof : Type 0} (w : Winterfell F Proof) where
    verify-oldest :
        (s : State F P) (caller : P) (now_ns id : ℕ) (bytes : List ℕ) (inputs : VerifyPublicInputs)
        → oldest (verify w s caller now_ns id bytes inputs).1 ≡ oldest s
    verify-oldest s caller now_ns id bytes inputs =
        let q : Outcome VerifyOk × State F P = verify w s caller now_ns id bytes inputs in
        elim (Outcome-cases q.0) [
          | inl (r, e) ↦
              let (c, _, found, _, _, sp) =
                verify_accepted w s caller now_ns id bytes inputs r q.1 (λ i. (e i, q.1)) in
              ap oldest sp.rest
          | inr (inl (e, h)) ↦ ap oldest (verify_rejected w s caller now_ns id bytes inputs e h)
          | inr (inr h) ↦ absurd (verify-Returns w s caller now_ns id bytes inputs h)
        ]

    deliver-IsWindow :
        (s : State F P) (m : Message P)
        → s.next_challenge_id + 1 < 2 ^ 64
        → IsWindow s
        → IsWindow (deliver w s m)
    unfolding deliver
    deliver-IsWindow s (heartbeat now_ns) small win = (heartbeat_impl-Prunes s now_ns win).window
    deliver-IsWindow s (bootstrap_admin c a) small win =
        IsWindow-Ages s _ (deliver-Keeps w s (bootstrap_admin c a) small).ages
          (settle_lem (λ t. oldest t ≡ oldest s) s (bootstrap_admin_impl s c a) refl
            (bootstrap_admin_impl-oldest s c a))
          small win
    deliver-IsWindow s (add_admin c a) small win =
        IsWindow-Ages s _ (deliver-Keeps w s (add_admin c a) small).ages
          (settle_lem (λ t. oldest t ≡ oldest s) s (add_admin_impl s c a) refl
            (add_admin_impl-oldest s c a))
          small win
    deliver-IsWindow s (remove_admin c a) small win =
        IsWindow-Ages s _ (deliver-Keeps w s (remove_admin c a) small).ages
          (settle_lem (λ t. oldest t ≡ oldest s) s (remove_admin_impl s c a) refl
            (remove_admin_impl-oldest s c a))
          small win
    deliver-IsWindow s (submit_record c r) small win =
        IsWindow-Ages s _ (deliver-Keeps w s (submit_record c r) small).ages
          (settle_lem (λ t. oldest t ≡ oldest s) s (submit_record_impl s c r) refl
            (ap oldest (submit_record_impl_rest s c r)))
          small win
    deliver-IsWindow s (request_challenge c now_ns purpose) small win =
        IsWindow-Ages s _ (deliver-Keeps w s (request_challenge c now_ns purpose) small).ages
          (settle_lem (λ t. oldest t ≡ oldest s) s (request_challenge_impl s c now_ns purpose) refl
            (request_challenge_impl-oldest s c now_ns purpose))
          small win
    deliver-IsWindow s (verify_proof c now_ns id bytes inputs) small win =
        IsWindow-Ages s _ (deliver-Keeps w s (verify_proof c now_ns id bytes inputs) small).ages
          (settle_lem (λ t. oldest t ≡ oldest s) s (verify w s c now_ns id bytes inputs) refl
            (verify-oldest s c now_ns id bytes inputs))
          small win

    run-IsWindow :
        (ms : List (Message P)) (s : State F P)
        → s.next_challenge_id + length ms < 2 ^ 64
        → IsWindow s
        → IsWindow (run w s ms)
    unfolding run
    run-IsWindow [] s small win = win
    run-IsWindow (m ∷ ms) s small win =
        let a = (deliver-Keeps w s m (omega arith)).ages in
        run-IsWindow ms (deliver w s m) (omega (arith, a.next_le))
          (deliver-IsWindow s m (omega arith) win)

    still_expired :
        (s t : State F P) (ts : List ℕ)
        → ((j : ℕ) (c : Challenge F P) → get t.challenges j ≡ some c → get s.challenges j ≡ some c)
        → All (AllExpired s) ts
        → All (AllExpired t) ts
    still_expired s t [] kept h = tt
    still_expired s t (now_ns ∷ ts) kept (all, h) =
        (λ j c found. all j c (kept j c found), still_expired s t ts kept h)

    heartbeats_drain :
        (ts : List ℕ) (s : State F P)
        → IsWindow s
        → All (AllExpired s) ts
        → backlog s ≤ 50 * length ts
        → (j : ℕ) → get (run w s (map heartbeat ts)).challenges j ≡ none
    unfolding run deliver heartbeat_impl
    heartbeats_drain [] s win all few j = elim (Option-cases (get s.challenges j)) [
      | inl e ↦ e
      | inr (c, e) ↦ let (le, below) = win.inside j c e in absurd (omega (arith, le, below, few))
    ]
    heartbeats_drain (now_ns ∷ ts) s win (now, later) few j =
        let done = heartbeat_impl-Prunes s now_ns win in
        heartbeats_drain ts (heartbeat_impl s now_ns) done.window
          (still_expired s (heartbeat_impl s now_ns) ts
            (λ i c h. prune_challenges-get s now_ns 50 i c h) later)
          (omega (arith, done.progress now, few)) j

    fresh-IsWindow : IsWindow (fresh_state {F = F} {P = P})
    unfolding fresh_state get
    fresh-IsWindow = record { oldest = omega arith; next = omega arith; inside = λ j c h. cc }

    -- After a run of the canister from its initial state, of fewer than 2 ^ 64 messages,
    -- heartbeats at times at which every stored challenge has expired leave no challenge stored,
    -- if there are enough of them: at 50 challenges each, for the numbers from the oldest one not
    -- pruned to the next one to issue.
    pub heartbeats_forget :
        (ms : List (Message P)) (ts : List ℕ)
        → length ms < 2 ^ 64
        → All (AllExpired (run w fresh_state ms)) ts
        → backlog (run w fresh_state ms) ≤ 50 * length ts
        → (j : ℕ) → get (run w (run w fresh_state ms) (map heartbeat ts)).challenges j ≡ none
    unfolding fresh_state
    heartbeats_forget ms ts small expired enough j =
        heartbeats_drain ts (run w fresh_state ms)
          (run-IsWindow ms fresh_state (omega arith) fresh-IsWindow) expired enough j
