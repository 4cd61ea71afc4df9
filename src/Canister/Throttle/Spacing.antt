-- ===== src/Canister/Throttle/Spacing.antt =====
-- Proofs about the times at which the throttle lets one principal's calls through.
use yaqeen_stark_winterfell.Prelude.{
  ℕ, zero, suc, ◌+◌, ◌^◌, ◌<◌, ◌≤◌, ◌≡◌, false, some, List, [], ◌∷◌, nat_beq_iff, arith, ◌⊎◌, inl,
  inr, Bool-cases,
}
use yaqeen_stark_winterfell.Prelude.Words.{sub64, ltb_i64}
use yaqeen_stark_winterfell.Prelude.Map.{Map, get, get-insert_self, get-remove}
use yaqeen_stark_winterfell.Canister.Outcome.{ok}
use yaqeen_stark_winterfell.Canister.State.{
  Principals, principal_eq, min_call_interval_ns, throttle_retention_ns,
}
use yaqeen_stark_winterfell.Canister.Throttle.{check_and_update_throttle, evict, prune_throttle_log}

-- Of two times that are not negative, the later is the interval past the earlier.
interval_le :
    (a b k : ℕ) → a ≤ b → b < 2 ^ 63 → k < 2 ^ 63 → ltb_i64 (sub64 b a) k ≡ false → a + k ≤ b
unfolding ltb_i64 sub64
interval_le a b k le small k_small h = ground arith

module _ {P : Type 0} ⦃p : Principals P⦄ where
  check-recorded :
      (store : Map P ℕ) (log : List (P × ℕ)) (caller : P) (now_ns : ℕ)
      → (check_and_update_throttle store log caller now_ns).0 ≡ ok tt
      → get (check_and_update_throttle store log caller now_ns).1 caller ≡ some now_ns
  unfolding check_and_update_throttle
  check-recorded store log caller now_ns h = ground (arith, get-insert_self store caller now_ns)

  check-interval :
      (store : Map P ℕ) (log : List (P × ℕ)) (caller : P) (now_ns last : ℕ)
      → get store caller ≡ some last
      → (check_and_update_throttle store log caller now_ns).0 ≡ ok tt
      → ltb_i64 (sub64 now_ns last) min_call_interval_ns ≡ false
  unfolding check_and_update_throttle
  check-interval store log caller now_ns last e h = ground arith

  evict-get :
      (store : Map P ℕ) (who caller : P) (ts last : ℕ)
      → get store caller ≡ some last
      → (get (evict store who ts) caller ≡ some last) ⊎ (last ≡ ts)
  unfolding evict
  evict-get store who caller ts last e =
      ground (arith, get-remove store who caller, p.eq.eq_iff who caller, nat_beq_iff last ts)

  -- Pruning drops an entry only once it is older than the retention time.
  prune_throttle_log-get :
      (store : Map P ℕ) (log : List (P × ℕ)) (now_ns n : ℕ) (caller : P) (last : ℕ)
      → get store caller ≡ some last
      → (get (prune_throttle_log store log now_ns n).0 caller ≡ some last)
        ⊎ (ltb_i64 (sub64 now_ns last) throttle_retention_ns ≡ false)
  unfolding prune_throttle_log
  prune_throttle_log-get store log now_ns zero caller last e = inl e
  prune_throttle_log-get store [] now_ns (suc n) caller last e = inl e
  prune_throttle_log-get store ((who, ts) ∷ log) now_ns (suc n) caller last e =
      elim (Bool-cases (ltb_i64 (sub64 now_ns ts) throttle_retention_ns)) [
        | inl young ↦ rw young (inl e)
        | inr old ↦ elim (evict-get store who caller ts last e) [
          | inl kept ↦
              rw old (prune_throttle_log-get (evict store who ts) log now_ns n caller last kept)
          | inr same ↦ inr (rw same old)
        ]
      ]

  -- Of two calls of one principal that the throttle lets through, the second after the first's
  -- record was pruned any number of rounds at a time in between, and both at times that an i64
  -- holds, the second is at least MIN_CALL_INTERVAL_NS after the first.
  pub throttle_spacing :
      (store : Map P ℕ) (log : List (P × ℕ)) (caller : P) (first pruned second n : ℕ)
      → first ≤ pruned
      → pruned ≤ second
      → second < 2 ^ 63
      → (check_and_update_throttle store log caller first).0 ≡ ok tt
      → (let (r, store', log') = check_and_update_throttle store log caller first in
          let (store'', log'') = prune_throttle_log store' log' pruned n in
          (check_and_update_throttle store'' log'' caller second).0 ≡ ok tt)
      → first + min_call_interval_ns ≤ second
  throttle_spacing store log caller first pruned second n a b small h h' =
      let q = check_and_update_throttle store log caller first in
      let recorded : get q.1 caller ≡ some first = check-recorded store log caller first h in
      let u = prune_throttle_log q.1 q.2 pruned n in
      elim (prune_throttle_log-get q.1 q.2 pruned n caller first recorded) [
        | inl kept ↦
            interval_le first second min_call_interval_ns (omega arith) small (omega arith)
              (check-interval u.0 u.1 caller second first kept h')
        | inr old ↦
            let apart : first + throttle_retention_ns ≤ pruned =
              interval_le first pruned throttle_retention_ns a (omega arith) (omega arith) old in
            omega arith
      ]
