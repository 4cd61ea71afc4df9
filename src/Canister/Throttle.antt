-- ===== src/Canister/Throttle.antt =====
-- The rate limit of a public method and its pruning: `check_and_update_throttle` and
-- `prune_throttle_log`. `HashMap` and `VecDeque` arguments that the code mutates are passed on.
pub mod Spacing
use yaqeen_stark_winterfell.Prelude.{
  ℕ, zero, suc, none, some, List, [], ◌∷◌, ◌++◌, ◌==◌, nat_beq, if◌then◌else◌,
}
use yaqeen_stark_winterfell.Prelude.Words.{sub64, ltb_i64}
use yaqeen_stark_winterfell.Prelude.Map.{Map, get, insert, remove}
use yaqeen_stark_winterfell.Canister.Outcome.{Outcome, ok, err, anonymous_caller, rate_limited}
use yaqeen_stark_winterfell.Canister.State.{
  Principals, principal_eq, min_call_interval_ns, throttle_retention_ns,
}

module _ {P : Type 0} ⦃p : Principals P⦄ where
  -- The call is let through and recorded.
  abbrev pub admit : Map P ℕ → List (P × ℕ) → P → ℕ → Outcome (Unit {0}) × Map P ℕ × List (P × ℕ)
  admit store log caller now_ns = (ok tt, insert store caller now_ns, log ++ (caller, now_ns) ∷ [])

  unfoldable pub check_and_update_throttle :
      Map P ℕ → List (P × ℕ) → P → ℕ → Outcome (Unit {0}) × Map P ℕ × List (P × ℕ)
  check_and_update_throttle store log caller now_ns =
      if caller == p.anonymous
      then (err anonymous_caller, store, log)
      else elim (get store caller) [
        | none ↦ admit store log caller now_ns
        | some last ↦
            if ltb_i64 (sub64 now_ns last) min_call_interval_ns
            then (err rate_limited, store, log)
            else admit store log caller now_ns
      ]

  -- The entry of `who` goes if it still has the time stamp `ts`.
  unfoldable pub evict : Map P ℕ → P → ℕ → Map P ℕ
  evict store who ts = elim (get store who) [
    | none ↦ store
    | some last ↦ if nat_beq last ts then remove store who else store
  ]

  -- The `while` loop, with `n` of its rounds left.
  unfoldable pub prune_throttle_log : Map P ℕ → List (P × ℕ) → ℕ → ℕ → Map P ℕ × List (P × ℕ)
  prune_throttle_log store log now_ns zero = (store, log)
  prune_throttle_log store [] now_ns (suc n) = (store, [])
  prune_throttle_log store ((who, ts) ∷ log) now_ns (suc n) =
      let rest = prune_throttle_log (evict store who ts) log now_ns n in
      if ltb_i64 (sub64 now_ns ts) throttle_retention_ns then (store, (who, ts) ∷ log) else rest
