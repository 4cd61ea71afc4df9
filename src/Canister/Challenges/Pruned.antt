-- ===== src/Canister/Challenges/Pruned.antt =====
-- Proofs that heartbeats come to an end with the challenges that have expired.
use yaqeen_stark_winterfell.Prelude.{
  ℕ, zero, suc, ◌+◌, ◌-◌, ◌^◌, ◌<◌, ◌≤◌, ◌≡◌, ◌≢◌, true, some, nat_beq, nat_eq, leb, arith, inl,
  inr, Bool-cases, Option-cases,
}
use yaqeen_stark_winterfell.Prelude.Words.{add64, ltb_i64}
use yaqeen_stark_winterfell.Prelude.Map.{Map, get, remove, get-remove}
use yaqeen_stark_winterfell.Canister.State.{State, Challenge}
use yaqeen_stark_winterfell.Canister.Challenges.{prune_challenges}

one_up : (id : ℕ) → id + 1 < 2 ^ 64 → add64 id 1 ≡ id + 1
unfolding add64
one_up id small = omega arith

get-remove_found :
    {V : Type 0} (m : Map ℕ V) (k j : ℕ) (v : V)
    → get (remove m k) j ≡ some v
    → (get m j ≡ some v) × (k ≢ j)
get-remove_found m k j v h = elim (Bool-cases (nat_beq k j)) [
  | inl same ↦ cc (rw (get-remove m k j, same) at h)
  | inr other ↦ (rw (get-remove m k j, other) at h, λ e. ground (arith, e))
]

module _ {F P : Type 0} where
  -- The stored challenges have numbers from the oldest one not pruned to the next one to issue.
  pub record IsWindow (s : State F P) : Type 0 where
    pub oldest : s.oldest_unpruned_challenge_id ≤ s.next_challenge_id
    pub next : s.next_challenge_id < 2 ^ 64
    pub inside :
        (id : ℕ) (c : Challenge F P)
        → get s.challenges id ≡ some c
        → (s.oldest_unpruned_challenge_id ≤ id) × (id < s.next_challenge_id)

  abbrev pub AllExpired : State F P → ℕ → Type 0
  AllExpired s now_ns =
      (id : ℕ) (c : Challenge F P)
      → get s.challenges id ≡ some c
      → ltb_i64 c.expires_at now_ns ≡ true

  abbrev pub backlog : State F P → ℕ
  backlog s = s.next_challenge_id - s.oldest_unpruned_challenge_id

  -- Pruning keeps the window, and where all have expired each round takes one off the backlog.
  pub record Prunes (s t : State F P) (now_ns n : ℕ) : Type 0 where
    pub window : IsWindow t
    pub progress : AllExpired s now_ns → backlog t ≤ backlog s - n

  pub prune_challenges-Prunes :
      (s : State F P) (now_ns n : ℕ) → IsWindow s → Prunes s (prune_challenges s now_ns n) now_ns n
  unfolding prune_challenges
  prune_challenges-Prunes s now_ns zero w = record { window = w; progress = λ all. omega arith }
  prune_challenges-Prunes s now_ns (suc n) w =
      let id : ℕ = s.oldest_unpruned_challenge_id in
      let skipped : State F P = record s { oldest_unpruned_challenge_id = add64 id 1 } in
      let dropped : State F P = record s {
        challenges = remove s.challenges id;
        oldest_unpruned_challenge_id = add64 id 1;
      } in
      elim (Bool-cases (leb s.next_challenge_id id)) [
        | inl e ↦ rw e (record { window = w; progress = λ all. ground arith })
        | inr e ↦
            let below : id < s.next_challenge_id = ground arith in
            let up : add64 id 1 ≡ id + 1 = one_up id (omega (arith, below, w.next)) in
            elim (Option-cases (get s.challenges id)) [
              | inl f ↦
                  let rest : Prunes skipped (prune_challenges skipped now_ns n) now_ns n =
                    prune_challenges-Prunes skipped now_ns n (record {
                      oldest = omega (arith, up, below);
                      next = w.next;
                      inside = λ j c h.
                          let (a, b) = w.inside j c h in
                          let apart : id ≢ j = λ same. cc in (omega (arith, a, apart, up), b);
                    }) in
                  rw (e, f)
                    (record {
                      window = rest.window;
                      progress = λ all. omega (arith, rest.progress all, up);
                    })
              | inr (d, f) ↦ elim (Bool-cases (ltb_i64 d.expires_at now_ns)) [
                | inl g ↦
                    let rest : Prunes dropped (prune_challenges dropped now_ns n) now_ns n =
                      prune_challenges-Prunes dropped now_ns n (record {
                        oldest = omega (arith, up, below);
                        next = w.next;
                        inside = λ j c h.
                            let (found, apart) = get-remove_found s.challenges id j c h in
                            let (a, b) = w.inside j c found in (omega (arith, a, apart, up), b);
                      }) in
                    rw (e, f, g)
                      (record {
                        window = rest.window;
                        progress = λ all.
                            let fewer : AllExpired dropped now_ns =
                              λ j c h. all j c (get-remove_found s.challenges id j c h).0 in
                            omega (arith, rest.progress fewer, up);
                      })
                | inr g ↦ rw (e, f, g) (record { window = w; progress = λ all. cc (all id d f, g) })
              ]
            ]
      ]
