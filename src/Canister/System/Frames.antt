-- ===== src/Canister/System/Frames.antt =====
-- Proofs about the challenges and nullifiers across the messages other than `verify`.
use yaqeen_stark_winterfell.Prelude.{
  ℕ, zero, suc, ◌+◌, ◌^◌, ◌<◌, ◌≤◌, ◌≡◌, refl, ap, sym, ◌∙◌, Bool, true, some, nat_beq, nat_eq,
  pair_eq, leb, arith, ◌⊎◌, inl, inr, Bool-cases, Option-cases,
}
use yaqeen_stark_winterfell.Prelude.Words.{add64, ltb_i64}
use yaqeen_stark_winterfell.Prelude.Map.{Map, get, remove, get-insert, get-remove}
use yaqeen_stark_winterfell.Field.{FieldOps}
use yaqeen_stark_winterfell.Canister.Outcome.{Text, Outcome, ok, err, trap}
use yaqeen_stark_winterfell.Canister.State.{State, Principals, Challenge}
use yaqeen_stark_winterfell.Canister.Admin.{bootstrap_admin_impl, add_admin_impl, remove_admin_impl}
use yaqeen_stark_winterfell.Canister.Throttle.{check_and_update_throttle}
use yaqeen_stark_winterfell.Canister.Challenges.{
  request_challenge_impl, issue, issue_if, prune_challenges, heartbeat_impl, new_challenge,
}
use yaqeen_stark_winterfell.Canister.System.{settle}

module _ {F P : Type 0} where
  -- The part of the state that decides which proofs may still be accepted.
  abbrev pub book : State F P → Map ℕ (Challenge F P) × ℕ × Map Text Bool
  book s = (s.challenges, s.next_challenge_id, s.nullifiers)

  -- A property of the states before and after a call holds of the state that is kept.
  pub settle_lem :
      {A : Type 0} (Q : State F P → Type 0) (s : State F P) (call : Outcome A × State F P)
      → Q s
      → Q call.1
      → Q (settle s call.0 call.1)
  settle_lem Q s (ok _, t) a b = b
  settle_lem Q s (err _, t) a b = b
  settle_lem Q s (trap, t) a b = a

  -- How the challenges may change: one that is stored afterwards was stored before, or is consumed
  -- and was stored before, or is the next one.
  pub record Ages (s t : State F P) : Type 0 where
    pub next : s.next_challenge_id ≤ t.next_challenge_id
    pub next_le : t.next_challenge_id ≤ s.next_challenge_id + 1
    pub stored :
        (j : ℕ) (c : Challenge F P)
        → get t.challenges j ≡ some c
        → (get s.challenges j ≡ some c)
          ⊎ (((d : Challenge F P) × (get s.challenges j ≡ some d) × (c.consumed ≡ true))
              ⊎ ((j ≡ s.next_challenge_id) × (j < t.next_challenge_id)))

  pub Ages-same :
      (s t : State F P)
      → t.challenges ≡ s.challenges
      → t.next_challenge_id ≡ s.next_challenge_id
      → Ages s t
  Ages-same s t e n = record {
    next = omega arith;
    next_le = omega arith;
    stored = λ j c h. inl (ap (λ m. get m j) (sym e) ∙ h);
  }

  pub Ages-book : (s t : State F P) → book t ≡ book s → Ages s t
  Ages-book s t e = Ages-same s t (ap (λ b. b.0) e) (ap (λ b. b.1) e)

  -- Pruning forgets challenges and changes none.
  pub prune_challenges-get :
      (s : State F P) (now_ns n j : ℕ) (c : Challenge F P)
      → get (prune_challenges s now_ns n).challenges j ≡ some c
      → get s.challenges j ≡ some c
  unfolding prune_challenges
  prune_challenges-get s now_ns zero j c h = h
  prune_challenges-get s now_ns (suc n) j c h =
      let id : ℕ = s.oldest_unpruned_challenge_id in
      let skipped : State F P = record s { oldest_unpruned_challenge_id = add64 id 1 } in
      let dropped : State F P = record s {
        challenges = remove s.challenges id;
        oldest_unpruned_challenge_id = add64 id 1;
      } in
      elim (Bool-cases (leb s.next_challenge_id id)) [
        | inl e ↦ rw e at h
        | inr e ↦ elim (Option-cases (get s.challenges id)) [
          | inl f ↦ prune_challenges-get skipped now_ns n j c (rw (e, f) at h)
          | inr (d, f) ↦ elim (Bool-cases (ltb_i64 d.expires_at now_ns)) [
            | inl g ↦
                let below : get (remove s.challenges id) j ≡ some c =
                  prune_challenges-get dropped now_ns n j c (rw (e, f, g) at h) in
                ground (arith, get-remove s.challenges id j)
            | inr g ↦ rw (e, f, g) at h
          ]
        ]
      ]

  -- `t` with the two fields that pruning writes taken from `s`.
  abbrev pub unpruned : State F P → State F P → State F P
  unpruned s t = record t {
    challenges = s.challenges;
    oldest_unpruned_challenge_id = s.oldest_unpruned_challenge_id;
  }

  pub prune_challenges_rest :
      (s : State F P) (now_ns n : ℕ) → unpruned s (prune_challenges s now_ns n) ≡ s
  unfolding prune_challenges
  prune_challenges_rest s now_ns zero = refl
  prune_challenges_rest s now_ns (suc n) =
      let id : ℕ = s.oldest_unpruned_challenge_id in
      let skipped : State F P = record s { oldest_unpruned_challenge_id = add64 id 1 } in
      let dropped : State F P = record s {
        challenges = remove s.challenges id;
        oldest_unpruned_challenge_id = add64 id 1;
      } in
      elim (Bool-cases (leb s.next_challenge_id id)) [
        | inl e ↦ rw e refl
        | inr e ↦ elim (Option-cases (get s.challenges id)) [
          | inl f ↦ rw (e, f) (ap (unpruned s) (prune_challenges_rest skipped now_ns n))
          | inr (d, f) ↦ elim (Bool-cases (ltb_i64 d.expires_at now_ns)) [
            | inl g ↦ rw (e, f, g) (ap (unpruned s) (prune_challenges_rest dropped now_ns n))
            | inr g ↦ rw (e, f, g) refl
          ]
        ]
      ]

module _ {F P : Type 0} ⦃o : FieldOps F⦄ ⦃p : Principals P⦄ where
  pub bootstrap_admin_impl-book :
      (s : State F P) (c : Bool) (a : P) → book (bootstrap_admin_impl s c a).1 ≡ book s
  unfolding bootstrap_admin_impl
  bootstrap_admin_impl-book s c a = ground arith

  pub add_admin_impl-book : (s : State F P) (c a : P) → book (add_admin_impl s c a).1 ≡ book s
  unfolding add_admin_impl
  add_admin_impl-book s c a = ground arith

  pub remove_admin_impl-book : (s : State F P) (c a : P) → book (remove_admin_impl s c a).1 ≡ book s
  unfolding remove_admin_impl
  remove_admin_impl-book s c a = ground arith

  issue-Ages :
      (s : State F P) (c : P) (now_ns purpose : ℕ)
      → s.next_challenge_id + 1 < 2 ^ 64
      → Ages s (issue s c now_ns purpose).1
  unfolding issue add64
  issue-Ages s c now_ns purpose small =
      let id : ℕ = s.next_challenge_id in
      record {
        next = omega arith;
        next_le = omega arith;
        stored = λ j d h. elim (Bool-cases (nat_beq id j)) [
          | inl e ↦ inr (inr (ground arith, ground arith))
          | inr e ↦
              inl (ground (arith, get-insert s.challenges id (new_challenge s c now_ns purpose) j))
        ];
      }

  issue_if-Ages :
      (result : Outcome (Unit {0})) (s : State F P) (c : P) (now_ns purpose : ℕ)
      → s.next_challenge_id + 1 < 2 ^ 64
      → Ages s (issue_if result s c now_ns purpose).1
        × ((issue_if result s c now_ns purpose).1.nullifiers ≡ s.nullifiers)
  unfolding issue
  issue_if-Ages (ok _) s c now_ns purpose small = (issue-Ages s c now_ns purpose small, refl)
  issue_if-Ages (err e) s c now_ns purpose small = (Ages-same s s refl refl, refl)
  issue_if-Ages trap s c now_ns purpose small = (Ages-same s s refl refl, refl)

  Ages-rebase :
      (s u t : State F P)
      → u.challenges ≡ s.challenges
      → u.next_challenge_id ≡ s.next_challenge_id
      → Ages u t
      → Ages s t
  Ages-rebase s u t e n a = record {
    next = omega (arith, a.next);
    next_le = omega (arith, a.next_le);
    stored = λ j c h. elim (a.stored j c h) [
      | inl x ↦ inl (ap (λ m. get m j) (sym e) ∙ x)
      | inr (inl (d, x, y)) ↦ inr (inl (d, ap (λ m. get m j) (sym e) ∙ x, y))
      | inr (inr (x, y)) ↦ inr (inr (x ∙ n, y))
    ];
  }

  pub request_challenge_impl-Ages :
      (s : State F P) (c : P) (now_ns purpose : ℕ)
      → s.next_challenge_id + 1 < 2 ^ 64
      → Ages s (request_challenge_impl s c now_ns purpose).1
        × ((request_challenge_impl s c now_ns purpose).1.nullifiers ≡ s.nullifiers)
  unfolding request_challenge_impl
  request_challenge_impl-Ages s c now_ns purpose small =
      let q =
        check_and_update_throttle s.last_challenge_call_at s.challenge_throttle_log c now_ns in
      let u : State F P = record s { last_challenge_call_at = q.1; challenge_throttle_log = q.2 } in
      let (ages, nullifiers) = issue_if-Ages q.0 u c now_ns purpose small in
      (Ages-rebase s u (request_challenge_impl s c now_ns purpose).1 refl refl ages, nullifiers)

  pub heartbeat_impl-Ages :
      (s : State F P) (now_ns : ℕ)
      → Ages s (heartbeat_impl s now_ns) × ((heartbeat_impl s now_ns).nullifiers ≡ s.nullifiers)
  unfolding heartbeat_impl
  heartbeat_impl-Ages s now_ns =
      let rest = prune_challenges_rest s now_ns 50 in
      let next : (prune_challenges s now_ns 50).next_challenge_id ≡ s.next_challenge_id =
        ap (λ (x : State F P). x.next_challenge_id) rest in
      (
        record {
          next = omega arith;
          next_le = omega arith;
          stored = λ j c h. inl (prune_challenges-get s now_ns 50 j c h);
        },
        ap (λ (x : State F P). x.nullifiers) rest,
      )
