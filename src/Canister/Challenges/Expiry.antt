-- ===== src/Canister/Challenges/Expiry.antt =====
-- Proofs about what a heartbeat forgets and keeps of the challenges.
use yaqeen_stark_winterfell.Prelude.{
  ℕ, zero, suc, ◌≡◌, false, some, nat_beq, nat_beq_iff, nat_eq, leb, arith, inl, inr, Bool-cases,
  Option-cases,
}
use yaqeen_stark_winterfell.Prelude.Words.{add64, ltb_i64}
use yaqeen_stark_winterfell.Prelude.Map.{get, remove, get-remove}
use yaqeen_stark_winterfell.Field.{FieldOps}
use yaqeen_stark_winterfell.Canister.State.{State, Challenge, Principals}
use yaqeen_stark_winterfell.Canister.Challenges.{prune_challenges, heartbeat_impl}
use yaqeen_stark_winterfell.Canister.System.Frames.{prune_challenges-get}

module _ {F P : Type 0} where
  prune_challenges-keeps :
      (s : State F P) (now_ns n j : ℕ) (c : Challenge F P)
      → get s.challenges j ≡ some c
      → ltb_i64 c.expires_at now_ns ≡ false
      → get (prune_challenges s now_ns n).challenges j ≡ some c
  unfolding prune_challenges
  prune_challenges-keeps s now_ns zero j c h alive = h
  prune_challenges-keeps s now_ns (suc n) j c h alive =
      let id : ℕ = s.oldest_unpruned_challenge_id in
      let skipped : State F P = record s { oldest_unpruned_challenge_id = add64 id 1 } in
      let dropped : State F P = record s {
        challenges = remove s.challenges id;
        oldest_unpruned_challenge_id = add64 id 1;
      } in
      elim (Bool-cases (leb s.next_challenge_id id)) [
        | inl e ↦ rw e h
        | inr e ↦ elim (Option-cases (get s.challenges id)) [
          | inl f ↦ rw (e, f) (prune_challenges-keeps skipped now_ns n j c h alive)
          | inr (d, f) ↦ elim (Bool-cases (ltb_i64 d.expires_at now_ns)) [
            | inl g ↦
                rw (e, f, g)
                  (prune_challenges-keeps dropped now_ns n j c
                    (elim (Bool-cases (nat_beq id j)) [
                      | inl same ↦ let one : id ≡ j = (nat_beq_iff id j).0 same in cc
                      | inr other ↦ ground (arith, get-remove s.challenges id j)
                    ])
                    alive)
            | inr g ↦ rw (e, f, g) h
          ]
        ]
      ]

module _ {F P : Type 0} ⦃o : FieldOps F⦄ ⦃p : Principals P⦄ where
  -- A challenge that is stored after a heartbeat was stored before it, unchanged, and a stored
  -- challenge that has not expired at the heartbeat's time is stored, unchanged, after it.
  pub heartbeat_impl-challenges :
      (s : State F P) (now_ns j : ℕ) (c : Challenge F P)
      → (get (heartbeat_impl s now_ns).challenges j ≡ some c → get s.challenges j ≡ some c)
        × (get s.challenges j ≡ some c
            → ltb_i64 c.expires_at now_ns ≡ false
            → get (heartbeat_impl s now_ns).challenges j ≡ some c)
  unfolding heartbeat_impl
  heartbeat_impl-challenges s now_ns j c =
      (prune_challenges-get s now_ns 50 j c, prune_challenges-keeps s now_ns 50 j c)
