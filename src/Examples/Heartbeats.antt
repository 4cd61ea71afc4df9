-- ===== src/Examples/Heartbeats.antt =====
-- The pruning of the challenges, at a run with one challenge.
use yaqeen_stark_winterfell.Prelude.{
  ℕ, ◌≡◌, refl, sym, ap, Bool, Option, none, some, [], ◌∷◌, map, nat_eq, nat_beq, arith, Bool-cases,
  inl, inr,
}
use yaqeen_stark_winterfell.Prelude.Map.{get, insert}
use yaqeen_stark_winterfell.Prelude.Words.{add64, ltb_i64}
use yaqeen_stark_winterfell.Canister.State.{Challenge, fresh_state}
use yaqeen_stark_winterfell.Canister.Challenges.{request_challenge_impl, issue}
use yaqeen_stark_winterfell.Canister.Challenges.Pruned.{AllExpired, backlog}
use yaqeen_stark_winterfell.Canister.Throttle.{check_and_update_throttle}
use yaqeen_stark_winterfell.Canister.System.{heartbeat, deliver, run}
use yaqeen_stark_winterfell.Canister.System.Drained.{heartbeats_forget}
use yaqeen_stark_winterfell.Examples.Instances.{bits, accounts, proofs}
use yaqeen_stark_winterfell.Examples.Runs.{requests, requested, asked}

-- A time long after the challenge's expiry.
abbrev late : ℕ
late = 1_000_000_000_000_000_000

abbrev expiry_of : Option (Challenge Bool ℕ) → ℕ
expiry_of none = 0
expiry_of (some c) = c.expires_at

requested-AllExpired : AllExpired requested late
unfolding run deliver request_challenge_impl issue check_and_update_throttle get insert fresh_state
    ltb_i64 add64
requested-AllExpired id c h = elim (Bool-cases (nat_beq 0 id)) [
  | inl e ↦
      let is_asked : some asked ≡ some c = rw e at h in
      ap (λ x. ltb_i64 (expiry_of x) late) (sym is_asked)
  | inr e ↦ cc (rw e at h)
]

requested-backlog : backlog requested ≡ 1
unfolding run deliver request_challenge_impl issue check_and_update_throttle get fresh_state add64
requested-backlog = refl

heartbeats_forget_example :
    get (run proofs requested (map heartbeat (late ∷ []))).challenges 0 ≡ none
heartbeats_forget_example =
    heartbeats_forget proofs requests (late ∷ []) (omega arith) (requested-AllExpired, tt)
      (omega (arith, requested-backlog)) 0
