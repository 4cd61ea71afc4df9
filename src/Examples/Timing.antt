-- ===== src/Examples/Timing.antt =====
-- The theorems on the throttle and the heartbeat.
use yaqeen_stark_winterfell.Prelude.{ℕ, ◌+◌, ◌≤◌, ◌≡◌, refl, false, some, [], ◌∷◌, nat_eq, arith}
use yaqeen_stark_winterfell.Prelude.Words.{ltb_i64, sub64}
use yaqeen_stark_winterfell.Prelude.Map.{get, insert}
use yaqeen_stark_winterfell.Canister.Outcome.{ok}
use yaqeen_stark_winterfell.Canister.Throttle.{check_and_update_throttle, prune_throttle_log}
use yaqeen_stark_winterfell.Canister.Throttle.Spacing.{throttle_spacing}
use yaqeen_stark_winterfell.Canister.Challenges.{heartbeat_impl}
use yaqeen_stark_winterfell.Canister.Challenges.Expiry.{heartbeat_impl-challenges}
use yaqeen_stark_winterfell.Examples.Instances.{bits, accounts, challenge, issued}

first_call : (check_and_update_throttle {P = ℕ} ((3, 4) ∷ []) [] 7 10).0 ≡ ok tt
unfolding check_and_update_throttle get
first_call = refl

second_call :
    (let (r, store', log') = check_and_update_throttle {P = ℕ} ((3, 4) ∷ []) [] 7 10 in
      let (store'', log'') = prune_throttle_log store' log' 20 50 in
      (check_and_update_throttle store'' log'' 7 5_000_000_000).0 ≡ ok tt)
unfolding check_and_update_throttle get insert prune_throttle_log ltb_i64 sub64
second_call = refl

throttle_spacing_example : 10 + 2_000_000_000 ≤ 5_000_000_000
throttle_spacing_example =
    throttle_spacing {P = ℕ} ((3, 4) ∷ []) [] 7 10 20 5_000_000_000 50 (omega arith) (omega arith)
      (omega arith) first_call second_call

heartbeat_impl-challenges_example :
    (get (heartbeat_impl issued 20).challenges 0 ≡ some challenge
      → get issued.challenges 0 ≡ some challenge)
    × (get issued.challenges 0 ≡ some challenge
        → ltb_i64 challenge.expires_at 20 ≡ false
        → get (heartbeat_impl issued 20).challenges 0 ≡ some challenge)
heartbeat_impl-challenges_example = heartbeat_impl-challenges issued 20 0 challenge
