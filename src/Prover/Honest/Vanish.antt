-- ===== src/Prover/Honest/Vanish.antt =====
-- Proofs that the transition constraints vanish on an honest trace.
use yaqeen_stark_winterfell.Prelude.{
  ℕ, ◌+◌, ◌-◌, ◌*◌, ◌/◌, ◌%◌, ◌^◌, ◌<◌, ◌≤◌, ◌≡◌, ◌≢◌, refl, ap, sym, ◌∙◌, subst, inl, inr, List,
  [], ◌∷◌, ◌++◌, All, All-append_intro, All-tabulate_intro, tabulate, ltb, nat_beq, leb,
  if◌then◌else◌, arith, Bool-cases,
}
use yaqeen_stark_winterfell.Field.{FieldOps, Arithmetic, ◌⊖◌, ◌⊗◌}
use yaqeen_stark_winterfell.Field.Algebra.{sub_self}
use yaqeen_stark_winterfell.Air.Layout.{
  state_width, range_bits, trace_length, job_count, held_secret, held_pid, t_leaf, t_owner,
  t_nullifier, aux_d, job_type_column, job_owner, job_leaf, job_nullifier, job_merkle_last,
}
use yaqeen_stark_winterfell.Air.Permutation.{lane}
use yaqeen_stark_winterfell.Air.Inputs.{PublicInputs}
use yaqeen_stark_winterfell.Air.Constraints.{
  state_result, held_results, type_results, bit_result, range_result, evaluate_transition,
  weighted_sum, periodic_values_at, Steps,
}
use yaqeen_stark_winterfell.Air.Job.{periodic-is_first}
use yaqeen_stark_winterfell.Prover.Trace.{Witness, Columns}
use yaqeen_stark_winterfell.Prover.Honest.Kinds.{kind_of, kind_of-column, JobOk}
use yaqeen_stark_winterfell.Prover.Honest.Stages.{first-JobOk}
use yaqeen_stark_winterfell.Prover.Honest.Whole.{HonestTrace, diff_of}
use yaqeen_stark_winterfell.Prover.Honest.Rounds.{round_vanishes}
use yaqeen_stark_winterfell.Prover.Honest.Links.{HoldsFor, link_vanishes}
use yaqeen_stark_winterfell.Prover.Honest.Types.{
  types_off, types_vanish, zero_boolean, bit_boolean, closed, closed_first,
}
use yaqeen_stark_winterfell.Prover.Honest.Range.{range_vanishes}

pub in_types : (j : ℕ) → (t_owner ≤ job_type_column j) × (job_type_column j ≤ t_nullifier)
unfolding job_type_column
in_types j = ground arith

module _ {F : Type 0} ⦃o : FieldOps F⦄ where
  -- Columns as a trace by row and column.
  abbrev pub rows_of : Columns F → ℕ → ℕ → F
  rows_of cols r c = cols c r

  kind_of-HoldsFor :
      (w : Witness F) (j : ℕ) (row : ℕ → F)
      → row held_secret ≡ w.owner_secret
      → row held_pid ≡ w.property_id
      → HoldsFor (kind_of w j) row
  kind_of-HoldsFor w j row a b = elim (Bool-cases (nat_beq j job_owner)) [
    | inl e ↦ rw e (a, b)
    | inr e ↦ elim (Bool-cases (nat_beq j job_leaf)) [
      | inl f ↦ rw (e, f) tt
      | inr f ↦ elim (Bool-cases (nat_beq j job_nullifier)) [
        | inl g ↦ rw (e, f, g) (a, b)
        | inr g ↦ elim (Bool-cases (leb j job_merkle_last)) [
          | inl h ↦ rw (e, f, g, h) tt
          | inr h ↦ rw (e, f, g, h) tt
        ]
      ]
    ]
  ]

  module _ (laws : Arithmetic F) (w : Witness F) (cols : Columns F) (inputs : PublicInputs F)
      (honest : HonestTrace w cols inputs) where
    abbrev job_at : (j : ℕ) → j < job_count → JobOk cols j (kind_of w j) (cols 0 (j * 8 - 1))
    job_at j h = honest.stage.jobs j h

    lanes_vanish :
        (r i : ℕ)
        → r < trace_length - 1
        → i < state_width
        → state_result (rows_of cols r) (rows_of cols (r + 1)) (periodic_values_at r) i ≡ o.zero_fe
    lanes_vanish r i h small = elim (Bool-cases (ltb (r % 8) 7)) [
      | inl e ↦
          round_vanishes laws cols (r / 8) (kind_of w (r / 8)) _ (job_at (r / 8) (omega arith)) r
            (r % 8) i (omega arith) (ground arith) small
      | inr e ↦
          let last : r % 8 ≡ 7 = ground arith in
          let before : (r / 8 + 1) * 8 - 1 ≡ r = omega arith in
          link_vanishes laws cols (r / 8 + 1) (kind_of w (r / 8 + 1)) r (r + 1) i last (omega arith)
            small
            (kind_of-HoldsFor w (r / 8 + 1) (rows_of cols r) (honest.stage.held r (omega arith)).0
              (honest.stage.held r (omega arith)).1)
            (subst (λ b. JobOk cols (r / 8 + 1) (kind_of w (r / 8 + 1)) (cols 0 b)) before
              (job_at (r / 8 + 1) (omega arith)))
    ]

    held_vanish :
        (r next : ℕ)
        → r < trace_length
        → next < trace_length
        → All (λ x. x ≡ o.zero_fe) (held_results (rows_of cols r) (rows_of cols next))
    held_vanish r next h h' =
        let (secret, pid) = honest.stage.held r h in
        let (secret', pid') = honest.stage.held next h' in
        (
          (λ i. secret' i ⊖ secret i) ∙ sub_self laws w.owner_secret,
          ((λ i. pid' i ⊖ pid i) ∙ sub_self laws w.property_id, tt),
        )

    bit_vanishes : (r i : ℕ) → i < range_bits → bit_result (rows_of cols r) i ≡ o.zero_fe
    bit_vanishes r i h =
        let bit = honest.bits i r h in
        ap (λ b. b ⊗ b ⊖ b) bit ∙ elim (Bool-cases (nat_beq r 8)) [
          | inl e ↦ rw e (bit_boolean laws (diff_of w / 2 ^ i))
          | inr e ↦ rw e (zero_boolean laws)
        ]

    is_first_of : (r : ℕ) → r % 8 ≢ 0 → lane (periodic_values_at {F = F} r) state_width ≡ o.zero_fe
    is_first_of r h = periodic-is_first r ∙ ground arith

    types_at :
        (r : ℕ)
        → r < trace_length
        → All
            (λ x. x ≡ o.zero_fe)
            (type_results (rows_of cols r) (lane (periodic_values_at r) state_width))
    types_at r h = elim (Bool-cases (nat_beq (r % 8) 0)) [
      | inl e ↦
          let start : r / 8 * 8 ≡ r = ground arith in
          subst
            (λ x.
              All (λ y. y ≡ o.zero_fe)
                (type_results (rows_of cols x) (lane (periodic_values_at r) state_width)))
            start
            (types_vanish laws cols (r / 8) (kind_of w (r / 8)) _ _ (job_at (r / 8) (omega arith)))
      | inr e ↦ types_off laws (rows_of cols r) _ (is_first_of r (ground arith))
    ]

    -- Off the leaf's row the range check is gated off.
    leaf_flag : (j : ℕ) → j < job_count → j ≢ 1 → cols t_leaf (j * 8) ≡ o.zero_fe
    unfolding job_type_column
    leaf_flag j h other =
        (job_at j h).type_of t_leaf (omega arith) (omega arith)
        ∙ ap (λ c. if nat_beq t_leaf c then o.one_fe else o.zero_fe) (kind_of-column w j)
        ∙ ground arith

    module _ (later : w.current_timestamp < w.license_expiry) (fits : diff_of w < 2 ^ range_bits)
        (small : w.license_expiry < 2 ^ 64) where
      abbrev excess : ℕ → F
      excess r =
          weighted_sum (rows_of cols r) range_bits 0 o.zero_fe
          ⊖ (cols aux_d r ⊖ inputs.current_timestamp ⊖ o.one_fe)

      leaf_range : (g : F) → range_result inputs (rows_of cols 8) g ≡ o.zero_fe
      leaf_range g =
          range_vanishes laws inputs (rows_of cols 8) g w.current_timestamp w.license_expiry later
            fits small (λ k lt. honest.bits k 8 lt) ((job_at 1 (omega arith)).aux 3 (omega arith))
            honest.current_timestamp

      range_at :
          (r : ℕ)
          → r < trace_length
          → range_result inputs (rows_of cols r) (lane (periodic_values_at r) state_width)
            ≡ o.zero_fe
      range_at r h =
          let g : F = lane (periodic_values_at r) state_width in
          elim (Bool-cases (nat_beq (r % 8) 0)) [
            | inr e ↦ closed_first laws g (cols t_leaf r) (excess r) (is_first_of r (ground arith))
            | inl e ↦ elim (Bool-cases (nat_beq (r / 8) 1)) [
              | inl f ↦
                  let at : 8 ≡ r = ground arith in
                  subst (λ x. range_result inputs (rows_of cols x) g ≡ o.zero_fe) at (leaf_range g)
              | inr f ↦
                  let start : r / 8 * 8 ≡ r = ground arith in
                  closed laws g (cols t_leaf r) (excess r) (
                    ap (λ x. cols t_leaf x) (sym start)
                    ∙ leaf_flag (r / 8) (omega arith) (ground arith))
            ]
          ]

      -- A row's results vanish, whichever row comes next, if those of the lanes do.
      pub row_vanishes :
          (r next : ℕ)
          → r < trace_length
          → next < trace_length
          → ((i : ℕ)
              → i < state_width
              → state_result (rows_of cols r) (rows_of cols next) (periodic_values_at r) i
                ≡ o.zero_fe)
          → All
              (λ x. x ≡ o.zero_fe)
              (evaluate_transition inputs
                (rows_of cols r)
                (rows_of cols next)
                (periodic_values_at r))
      unfolding evaluate_transition
      row_vanishes r next h h' lanes =
          let P : F → Type 0 = λ x. x ≡ o.zero_fe in
          let cur : ℕ → F = rows_of cols r in
          let nxt : ℕ → F = rows_of cols next in
          let periodic : List F = periodic_values_at r in
          let g : F = lane periodic state_width in
          let ranged : List F = range_result inputs cur g ∷ [] in
          let bits : List F = tabulate range_bits 0 (bit_result cur) in
          let last : All P ranged = (range_at r h, tt) in
          All-append_intro P (tabulate state_width 0 (state_result cur nxt periodic))
            (held_results cur nxt ++ type_results cur g ++ bits ++ ranged)
            (All-tabulate_intro P state_width 0 (state_result cur nxt periodic)
              (λ i a b. lanes i (omega arith)))
            (All-append_intro P (held_results cur nxt) (type_results cur g ++ bits ++ ranged)
              (held_vanish r next h h')
              (All-append_intro P (type_results cur g) (bits ++ ranged) (types_at r h) (
                All-append_intro P bits ranged
                  (All-tabulate_intro P range_bits 0 (bit_result cur)
                    (λ i a b. bit_vanishes r i (omega arith)))
                  last)))

      pub Steps-vanish : (r : ℕ) → r < trace_length - 1 → Steps inputs (rows_of cols) r
      Steps-vanish r h =
          row_vanishes r (r + 1) (omega arith) (omega arith) (λ i small. lanes_vanish r i h small)

      -- Round the end, from the last row to the first.
      pub wrap_vanishes :
          All
            (λ x. x ≡ o.zero_fe)
            (evaluate_transition inputs
              (rows_of cols 255)
              (rows_of cols 0)
              (periodic_values_at 255))
      wrap_vanishes = row_vanishes 255 0 (omega arith) (omega arith) (λ i small.
          link_vanishes laws cols 0 (kind_of w 0) 255 0 i refl refl small
            (honest.stage.held 255 (omega arith))
            (first-JobOk w cols (cols 0 0) (cols 0 255) (job_at 0 (omega arith))))
