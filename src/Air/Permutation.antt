-- ===== src/Air/Permutation.antt =====
-- The permutation of air/src/lib.rs and the plain hash over it. An array `[E; 8]` is a list of
-- eight elements, and the code's indices into it are below eight.
use Prim.Native.Nat.{bit_xor}
use yaqeen_stark_winterfell.Prelude.{
  ℕ, zero, suc, ◌+◌, ◌-◌, ◌*◌, ◌/◌, ◌%◌, ◌^◌, Option, none, some, List, [], ◌∷◌, length, get_or,
  take, tabulate, leb, if◌then◌else◌,
}
use yaqeen_stark_winterfell.Field.{FieldOps, ◌⊕◌, ◌⊗◌}
use yaqeen_stark_winterfell.Air.Layout.{state_width, rounds}

-- One step of the xorshift generator on a `u64`: `next` of `round_constants`.
unfoldable pub next_seed : ℕ → ℕ
next_seed seed =
    let a = bit_xor seed (seed * 2 ^ 13 % 2 ^ 64) in
    let b = bit_xor a (a / 2 ^ 7) in bit_xor b (b * 2 ^ 17 % 2 ^ 64)

-- `MIX`
abbrev pub mix_coeffs : List ℕ
mix_coeffs = 2 ∷ 3 ∷ 1 ∷ 1 ∷ 1 ∷ 1 ∷ 1 ∷ 1 ∷ []

module _ {F : Type 0} ⦃o : FieldOps F⦄ where
  -- `n` lanes, two draws each, and the generator's state after them.
  unfoldable pub draw_lanes : ℕ → ℕ → List F × ℕ
  unfolding next_seed
  draw_lanes zero seed = ([], seed)
  draw_lanes (suc n) seed =
      let hi = next_seed seed in
      let lo = next_seed hi in
      let (lanes, seed') = draw_lanes n lo in (o.new (hi * 2 ^ 64 + lo) ∷ lanes, seed')

  unfoldable pub draw_rounds : ℕ → ℕ → List (List F)
  unfolding draw_lanes
  draw_rounds zero seed = []
  draw_rounds (suc n) seed =
      let (lanes, seed') = draw_lanes state_width seed in lanes ∷ draw_rounds n seed'

  unfoldable pub round_constants : List (List F)
  unfolding draw_rounds
  round_constants = draw_rounds rounds 0x5441_5145_454e_2d31

  abbrev pub lane : List F → ℕ → F
  lane state i = get_or state i o.zero_fe

  -- The inner loop of `mix`, for the last `n` values of `j`.
  unfoldable pub mix_sum : List F → ℕ → ℕ → ℕ → F → F
  mix_sum state i zero j acc = acc
  mix_sum state i (suc n) j acc =
      mix_sum state i n (suc j)
        (acc ⊕ lane state ((i + j) % state_width) ⊗ o.new (get_or mix_coeffs j 0))

  unfoldable pub mix : List F → List F
  unfolding mix_sum
  mix state = tabulate state_width 0 (λ i. mix_sum state i state_width 0 o.zero_fe)

  unfoldable pub sbox : List F → List F
  sbox state = tabulate state_width 0 (λ i. o.exp (lane state i) 3)

  unfoldable pub apply_round : List F → List F → List F
  unfolding mix sbox
  apply_round state rc = mix (sbox (tabulate state_width 0 (λ i. lane state i ⊕ lane rc i)))

  -- `state[..inputs.len()].copy_from_slice(inputs)` on zeros.
  unfoldable pub absorb : List F → List F
  absorb inputs = tabulate state_width 0 (lane inputs)

  unfoldable pub run_rounds : List F → List (List F) → List F
  run_rounds state [] = state
  run_rounds state (rc ∷ rcs) = run_rounds (apply_round state rc) rcs

  -- The body of `hash` after its assertion; every caller passes at most six inputs.
  unfoldable pub digest : List F → F
  unfolding absorb run_rounds
  digest inputs = lane (run_rounds (absorb inputs) (take (rounds - 1) round_constants)) 0

  -- `none` is the panic of the assertion.
  unfoldable pub hash : List F → Option F
  unfolding digest
  hash inputs = if leb (length inputs) state_width then some (digest inputs) else none
