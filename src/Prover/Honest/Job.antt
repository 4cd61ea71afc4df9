-- ===== src/Prover/Honest/Job.antt =====
-- The cells after one job of `run_job`.
use yaqeen_stark_winterfell.Prelude.{
  ℕ, suc, ◌+◌, ◌-◌, ◌<◌, ◌≤◌, ◌≡◌, ◌⊎◌, inl, inr, ap, ◌∙◌, List, length, tabulate, nat_beq,
  if◌then◌else◌, arith,
}
use yaqeen_stark_winterfell.Field.{FieldOps}
use yaqeen_stark_winterfell.Air.Layout.{rounds, state_width, aux_a, t_owner, t_nullifier}
use yaqeen_stark_winterfell.Air.Permutation.{lane, run_rounds}
use yaqeen_stark_winterfell.Air.Job.{constants_of}
use yaqeen_stark_winterfell.Prover.Trace.{Columns, fill, put_all, job_rounds}
use yaqeen_stark_winterfell.Prover.Honest.Cells.{
  fill-cell, put_all-other, put_all-cell, put_all-cell_zero, job_rounds-other, job_rounds-lanes,
}

module _ {F : Type 0} ⦃o : FieldOps F⦄ (cols : Columns F) (start t : ℕ) (init aux : List F)
    (eight : length init ≡ state_width) (four : length aux ≡ 4) (above : t_owner ≤ t)
    (below : t ≤ t_nullifier) where
  -- The three writes of a job before its rounds.
  abbrev written : Columns F
  written = put_all 0 start init (put_all aux_a start aux (fill t start rounds o.one_fe cols))

  abbrev pub after : Columns F
  after = (job_rounds start (rounds - 1) 0 init written).1

  abbrev pub Outside : ℕ → ℕ → Type 0
  Outside c r = (r < start) ⊎ ((start + 8 ≤ r) ⊎ ((t_nullifier < c) ⊎ ((12 ≤ c) × (c < t_owner))))

  pub after-other : (c r : ℕ) → Outside c r → after c r ≡ cols c r
  after-other c r h =
      job_rounds-other start (rounds - 1) 0 init written c r (ground arith)
      ∙ put_all-other 0 start init (put_all aux_a start aux (fill t start rounds o.one_fe cols)) c r
          (ground (arith, eight))
      ∙ put_all-other aux_a start aux (fill t start rounds o.one_fe cols) c r (ground (arith, four))
      ∙ ground (arith, fill-cell t start rounds o.one_fe cols c r)

  pub after-init : (c : ℕ) → c < state_width → after c start ≡ lane init c
  after-init c h =
      job_rounds-other start (rounds - 1) 0 init written c start (inl (omega arith))
      ∙ put_all-cell_zero start init _ c o.zero_fe (omega (arith, eight))

  pub after-aux : (i : ℕ) → i < 4 → after (aux_a + i) start ≡ lane aux i
  after-aux i h =
      job_rounds-other start (rounds - 1) 0 init written (aux_a + i) start (inl (omega arith))
      ∙ put_all-other 0 start init _ (aux_a + i) start (inr (inr (inr (omega (arith, eight)))))
      ∙ put_all-cell aux_a start aux _ i o.zero_fe (omega (arith, four))

  pub after-type :
      (c : ℕ)
      → t_owner ≤ c
      → cols c start ≡ o.zero_fe
      → after c start ≡ (if nat_beq c t then o.one_fe else o.zero_fe)
  after-type c h clean =
      job_rounds-other start (rounds - 1) 0 init written c start (inl (omega arith))
      ∙ put_all-other 0 start init _ c start (inr (inr (inr (omega (arith, eight)))))
      ∙ put_all-other aux_a start aux _ c start (inr (inr (inr (omega (arith, four)))))
      ∙ ground (arith, fill-cell t start rounds o.one_fe cols c start)

  pub after-lanes :
      (m c : ℕ)
      → m < rounds - 1
      → c < state_width
      → after c (start + m + 1) ≡ lane (run_rounds init (tabulate (suc m) 0 constants_of)) c
  after-lanes m c h small =
      let e : start + m + 1 ≡ start + (0 + m) + 1 = omega arith in
      ap (λ r. after c r) e ∙ job_rounds-lanes start (rounds - 1) 0 init written m c h small
