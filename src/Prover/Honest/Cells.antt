-- ===== src/Prover/Honest/Cells.antt =====
-- What the writes of `build_trace` leave in each cell.
use yaqeen_stark_winterfell.Prelude.{
  ℕ, zero, suc, ◌+◌, ◌<◌, ◌≤◌, ◌≡◌, ◌⊎◌, inl, inr, refl, ap, ◌∙◌, ◌&&◌, List, [], ◌∷◌, length,
  get_or, tabulate, nat_beq, ltb, leb, if◌then◌else◌, arith,
}
use yaqeen_stark_winterfell.Field.{FieldOps}
use yaqeen_stark_winterfell.Air.Layout.{state_width}
use yaqeen_stark_winterfell.Air.Permutation.{lane, apply_round, mix, run_rounds}
use yaqeen_stark_winterfell.Air.Job.{constants_of}
use yaqeen_stark_winterfell.Prover.Trace.{Columns, put, fill, put_all, job_rounds}

module _ {F : Type 0} where
  pub fill-cell :
      (c start n : ℕ) (v : F) (cols : Columns F) (c' r' : ℕ)
      → fill c start n v cols c' r'
        ≡ (if nat_beq c' c && (leb start r' && ltb r' (start + n)) then v else cols c' r')
  unfolding fill
  fill-cell c start zero v cols c' r' = ground arith
  fill-cell c start (suc n) v cols c' r' =
      ground (arith, fill-cell c (start + 1) n v (put c start v cols) c' r')

  pub fill-other :
      (c start n : ℕ) (v : F) (cols : Columns F) (c' r' : ℕ)
      → (c' < c) ⊎ (c < c')
      → fill c start n v cols c' r' ≡ cols c' r'
  fill-other c start n v cols c' r' h = ground (arith, fill-cell c start n v cols c' r')

  pub fill-inside :
      (c n : ℕ) (v : F) (cols : Columns F) (r' : ℕ) → r' < n → fill c 0 n v cols c r' ≡ v
  fill-inside c n v cols r' h = ground (arith, fill-cell c 0 n v cols c r')

  -- The cells that `put_all` does not write.
  pub put_all-other :
      (c r : ℕ) (vs : List F) (cols : Columns F) (c' r' : ℕ)
      → (r' < r) ⊎ ((r < r') ⊎ ((c' < c) ⊎ (c + length vs ≤ c')))
      → put_all c r vs cols c' r' ≡ cols c' r'
  unfolding put_all
  put_all-other c r [] cols c' r' h = refl
  put_all-other c r (v ∷ vs) cols c' r' h =
      ground (arith, put_all-other (c + 1) r vs (put c r v cols) c' r')

  -- The cells that it writes.
  pub put_all-cell :
      (c r : ℕ) (vs : List F) (cols : Columns F) (i : ℕ) (d : F)
      → i < length vs
      → put_all c r vs cols (c + i) r ≡ get_or vs i d
  unfolding put_all
  put_all-cell c r [] cols i d h = absurd (omega arith)
  put_all-cell c r (v ∷ vs) cols zero d h =
      put_all-other (c + 1) r vs (put c r v cols) (c + 0) r (inr (inr (inl (omega arith))))
      ∙ ground arith
  put_all-cell c r (v ∷ vs) cols (suc i) d h =
      let e : c + suc i ≡ c + 1 + i = omega arith in
      ap (λ k. put_all (c + 1) r vs (put c r v cols) k r) e
      ∙ put_all-cell (c + 1) r vs (put c r v cols) i d (omega arith)

  pub put_all-cell_zero :
      (r : ℕ) (vs : List F) (cols : Columns F) (i : ℕ) (d : F)
      → i < length vs
      → put_all 0 r vs cols i r ≡ get_or vs i d
  put_all-cell_zero r vs cols i d h =
      let e : i ≡ 0 + i = omega arith in
      ap (λ k. put_all 0 r vs cols k r) e ∙ put_all-cell 0 r vs cols i d h

module _ {F : Type 0} ⦃o : FieldOps F⦄ where
  pub length-apply_round : (state rc : List F) → length (apply_round state rc) ≡ state_width
  unfolding apply_round mix
  length-apply_round state rc = refl

  pub job_rounds-other :
      (start n r : ℕ) (state : List F) (cols : Columns F) (c' r' : ℕ)
      → (r' ≤ start + r) ⊎ ((start + r + n < r') ⊎ (state_width ≤ c'))
      → (job_rounds start n r state cols).1 c' r' ≡ cols c' r'
  unfolding job_rounds
  job_rounds-other start zero r state cols c' r' h = refl
  job_rounds-other start (suc n) r state cols c' r' h =
      let next : List F = apply_round state (constants_of r) in
      let wide = length-apply_round state (constants_of r) in
      job_rounds-other start n (suc r) next (put_all 0 (start + r + 1) next cols) c' r'
        (ground arith)
      ∙ put_all-other 0 (start + r + 1) next cols c' r' (ground (arith, wide))

  -- Round by round, the lanes that a job writes.
  pub job_rounds-lanes :
      (start n r : ℕ) (state : List F) (cols : Columns F) (m c : ℕ)
      → m < n
      → c < state_width
      → (job_rounds start n r state cols).1 c (start + (r + m) + 1)
        ≡ lane (run_rounds state (tabulate (suc m) r constants_of)) c
  unfolding job_rounds run_rounds
  job_rounds-lanes start zero r state cols m c h small = absurd (omega arith)
  job_rounds-lanes start (suc n) r state cols zero c h small =
      let next : List F = apply_round state (constants_of r) in
      let wide = length-apply_round state (constants_of r) in
      let e : start + (r + 0) + 1 ≡ start + r + 1 = omega arith in
      ap (λ k. (job_rounds start n (suc r) next (put_all 0 (start + r + 1) next cols)).1 c k) e
      ∙ job_rounds-other start n (suc r) next (put_all 0 (start + r + 1) next cols) c
          (start + r + 1) (inl (omega arith))
      ∙ put_all-cell_zero (start + r + 1) next cols c o.zero_fe (omega (arith, wide))
  job_rounds-lanes start (suc n) r state cols (suc m) c h small =
      let next : List F = apply_round state (constants_of r) in
      let e : start + (r + suc m) + 1 ≡ start + (suc r + m) + 1 = omega arith in
      ap (λ k. (job_rounds start n (suc r) next (put_all 0 (start + r + 1) next cols)).1 c k) e
      ∙ job_rounds-lanes start n (suc r) next (put_all 0 (start + r + 1) next cols) m c
          (omega arith) small
