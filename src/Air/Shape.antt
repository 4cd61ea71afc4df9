-- ===== src/Air/Shape.antt =====
-- Proofs about `TitleAir::new`, and about the constraints and assertions that it declares.
use native.Mathlib.Nat.{pow-succ'}
use yaqeen_stark_winterfell.Prelude.{
  ℕ, zero, suc, ◌+◌, ◌^◌, ◌<◌, ◌≤◌, ◌≡◌, ◌≢◌, ◌⊎◌, inl, inr, refl, ap, sym, subst, ◌∙◌, Bool, true,
  false, ◌&&◌, none, some, List, [], ◌∷◌, map, length, All, All-map, IsDistinct, contains, ltb,
  nat_eq, nat_beq, nat_beq_iff, pair_eq, if◌then◌else◌, arith, Bool-cases,
}
use yaqeen_stark_winterfell.Field.{FieldOps}
use yaqeen_stark_winterfell.Air.Layout.{
  trace_width, trace_length, job_count, num_transition_constraints, job_start_row, job_type_column,
  row_leaf_first, row_merkle_last_output, row_nullifier_first, row_nullifier_output, job_last_row,
}
use yaqeen_stark_winterfell.Air.Inputs.{PublicInputs}
use yaqeen_stark_winterfell.Air.Context.{
  Degree, with_cycles, base, num_cycles, WinterAir, Documented,
}
use yaqeen_stark_winterfell.Air.Constraints.{
  Assertion, TitleAir, with_context, transition_degrees, new_air, evaluate_transition,
  get_assertions,
}

abbrev pub cell : {F : Type 0} → Assertion F → ℕ × ℕ
cell a = (a.column, a.step)

abbrev in_trace : ℕ × ℕ → Bool
in_trace (c, r) = ltb c trace_width && ltb r trace_length

abbrev every : List (ℕ × ℕ) → Bool
every [] = true
every (x ∷ l) = in_trace x && every l

abbrev distinct : List (ℕ × ℕ) → Bool
distinct [] = true
distinct (x ∷ l) = (if contains l x then false else true) && distinct l

distinct-IsDistinct : (l : List (ℕ × ℕ)) → distinct l ≡ true → IsDistinct l
distinct-IsDistinct [] h = tt
distinct-IsDistinct (x ∷ l) h = ground (arith, distinct-IsDistinct l)

every-All :
    (l : List (ℕ × ℕ)) → every l ≡ true → All (λ x. (x.0 < trace_width) × (x.1 < trace_length)) l
every-All [] h = tt
every-All (x ∷ l) h = ground (arith, every-All l)

module _ {F : Type 0} ⦃o : FieldOps F⦄ where
  cells_every : (pub_inputs : PublicInputs F) → every (map cell (get_assertions pub_inputs)) ≡ true
  unfolding get_assertions row_leaf_first row_merkle_last_output row_nullifier_first
      row_nullifier_output job_start_row job_last_row job_type_column
  cells_every pub_inputs = refl

  cells_distinct :
      (pub_inputs : PublicInputs F) → distinct (map cell (get_assertions pub_inputs)) ≡ true
  unfolding get_assertions contains row_leaf_first row_merkle_last_output row_nullifier_first
      row_nullifier_output job_start_row job_last_row job_type_column
  cells_distinct pub_inputs = refl

-- A power of two between two and four is two.
no_power_three : (k : ℕ) → 0 < k → 2 ^ k ≢ 3
no_power_three zero h = absurd (omega arith)
no_power_three (suc k) h = λ e. omega (arith, pow-succ' 2 k, e)

abbrev within_four : List Degree → Bool
within_four [] = true
within_four (d ∷ l) = ltb (base d + num_cycles d) 5 && within_four l

within_four-All : (l : List Degree) → within_four l ≡ true → All (λ d. base d + num_cycles d ≤ 4) l
within_four-All [] h = tt
within_four-All (d ∷ l) h = ground (arith, within_four-All l)

-- The periodic factor counted, every declared degree is at most four.
degrees_four : All (λ d. base d + num_cycles d ≤ 4) transition_degrees
unfolding transition_degrees
degrees_four = within_four-All transition_degrees refl

degrees_count : length transition_degrees ≡ num_transition_constraints
unfolding transition_degrees
degrees_count = refl

module _ {F Options Context : Type 0} (winter : WinterAir Options Context) (width rows : ℕ)
    (pub_inputs : PublicInputs F) (options : Options) where
  opened :
      width ≡ trace_width
      → rows ≡ trace_length
      → new_air winter width rows pub_inputs options
        ≡ with_context pub_inputs
            (winter.new_context width rows transition_degrees (7 + job_count) options)
  unfolding new_air
  opened wide long =
      let a : nat_beq trace_width width ≡ true = (nat_beq_iff trace_width width).1 (sym wide) in
      let b : nat_beq trace_length rows ≡ true = (nat_beq_iff trace_length rows).1 (sym long) in
      rw (a, b) refl

  other_shape :
      (width ≢ trace_width) ⊎ (rows ≢ trace_length)
      → new_air winter width rows pub_inputs options ≡ none
  unfolding new_air
  other_shape bad = elim (Bool-cases (nat_beq trace_width width)) [
    | inr e ↦ rw e refl
    | inl e ↦ elim (Bool-cases (nat_beq trace_length rows)) [
      | inr f ↦ rw (e, f) refl
      | inl f ↦
          let wide : width ≡ trace_width = sym ((nat_beq_iff trace_width width).0 e) in
          let long : rows ≡ trace_length = sym ((nat_beq_iff trace_length rows).0 f) in
          elim bad [ inl narrow ↦ absurd (narrow wide) | inr short ↦ absurd (short long) ]
    ]
  ]

module _ {Options Context : Type 0} (winter : WinterAir Options Context)
    (laws : Documented winter) where
  -- Below four, the blowup factor does not accommodate the constraints on the lanes.
  too_small :
      (options : Options)
      → winter.blowup_factor options < 4
      → ¬ All (λ d. winter.min_blowup_factor d ≤ winter.blowup_factor options) transition_degrees
  unfolding transition_degrees
  too_small options small all =
      let (k, power, positive) = laws.blowup_power options in
      let needed : 4 ≤ winter.min_blowup_factor (with_cycles 3 8) + 1 =
        laws.needs (with_cycles 3 8) in
      no_power_three k positive (omega (arith, power, all.0, needed, small))

  large_enough :
      (options : Options)
      → 4 ≤ winter.blowup_factor options
      → All (λ d. winter.min_blowup_factor d ≤ winter.blowup_factor options) transition_degrees
  large_enough options large =
      let (k, power, positive) = laws.blowup_power options in
      subst (λ b. All (λ d. winter.min_blowup_factor d ≤ b) transition_degrees) (sym power)
        (All-map transition_degrees
          (λ d four. laws.accommodates d k positive (omega (arith, four, large, power)))
          degrees_four)

module _ {F Options Context : Type 0} (winter : WinterAir Options Context)
    (laws : Documented winter) where
  refused :
      (width rows : ℕ) (pub_inputs : PublicInputs F) (options : Options)
      → winter.blowup_factor options < 4
      → new_air winter width rows pub_inputs options ≡ none
  refused width rows pub_inputs options small = elim (Bool-cases (nat_beq width trace_width)) [
    | inr e ↦ other_shape winter width rows pub_inputs options (inl (λ f. ground (arith, f)))
    | inl e ↦ elim (Bool-cases (nat_beq rows trace_length)) [
      | inr f ↦ other_shape winter width rows pub_inputs options (inr (λ g. ground (arith, g)))
      | inl f ↦
          opened winter width rows pub_inputs options ((nat_beq_iff width trace_width).0 e)
            ((nat_beq_iff rows trace_length).0 f)
          ∙ ap (with_context pub_inputs) (
              laws.context_refused width rows transition_degrees (7 + job_count) options
                (too_small winter laws options small))
    ]
  ]

  pub new_air_made :
      (width rows : ℕ) (pub_inputs : PublicInputs F) (options : Options)
      → width ≡ trace_width
      → rows ≡ trace_length
      → 4 ≤ winter.blowup_factor options
      → (context : Context) × (new_air winter width rows pub_inputs options
          ≡ some (record { context = context; pub_inputs = pub_inputs }))
        × (winter.num_transition_constraints context ≡ num_transition_constraints)
        × (winter.num_assertions context ≡ 7 + job_count)
  new_air_made width rows pub_inputs options wide long large =
      let (context, made, constraints, assertions) =
        laws.context_made width rows transition_degrees (7 + job_count) options
          (omega (arith, degrees_count)) (omega arith) (large_enough winter laws options large) in
      (
        context,
        opened winter width rows pub_inputs options wide long ∙ ap (with_context pub_inputs) made,
        constraints ∙ degrees_count,
        assertions,
      )

module _ {F Options Context : Type 0} ⦃o : FieldOps F⦄ (winter : WinterAir Options Context)
    (laws : Documented winter) where
  -- On the declared width and length and with a blowup factor of at least four, `TitleAir::new`
  -- does not panic and keeps the public inputs; the context that it makes has as many constraints
  -- as `evaluate_transition` has results, and as many assertions as `get_assertions` has; the
  -- asserted cells are distinct and lie in the trace. Winterfell makes a context as its
  -- documentation says.
  pub new_air_lem :
      (pub_inputs : PublicInputs F) (options : Options) (cur nxt : ℕ → F) (periodic_values : List F)
      → 4 ≤ winter.blowup_factor options
      → (air : TitleAir F Context) × (new_air winter trace_width trace_length pub_inputs options
          ≡ some air)
        × (air.pub_inputs ≡ pub_inputs)
        × (winter.num_transition_constraints air.context
            ≡ length (evaluate_transition pub_inputs cur nxt periodic_values))
        × (winter.num_assertions air.context ≡ length (get_assertions pub_inputs))
        × IsDistinct (map cell (get_assertions pub_inputs))
        × All
            (λ x. (x.0 < trace_width) × (x.1 < trace_length))
            (map cell (get_assertions pub_inputs))
  unfolding evaluate_transition get_assertions
  new_air_lem pub_inputs options cur nxt periodic_values large =
      let (context, made, constraints, assertions) =
        new_air_made winter laws trace_width trace_length pub_inputs options refl refl large in
      (
        record { context = context; pub_inputs = pub_inputs },
        made,
        refl,
        constraints,
        assertions,
        distinct-IsDistinct (map cell (get_assertions pub_inputs)) (cells_distinct pub_inputs),
        every-All (map cell (get_assertions pub_inputs)) (cells_every pub_inputs),
      )

  -- On another width or another length than the declared ones, or with a blowup factor below
  -- four, `TitleAir::new` panics. Winterfell refuses a context as its documentation says.
  pub new_air_panics :
      (width rows : ℕ) (pub_inputs : PublicInputs F) (options : Options)
      → (width ≢ trace_width) ⊎ ((rows ≢ trace_length) ⊎ (winter.blowup_factor options < 4))
      → new_air winter width rows pub_inputs options ≡ none
  new_air_panics width rows pub_inputs options (inl narrow) =
      other_shape winter width rows pub_inputs options (inl narrow)
  new_air_panics width rows pub_inputs options (inr (inl short)) =
      other_shape winter width rows pub_inputs options (inr short)
  new_air_panics width rows pub_inputs options (inr (inr small)) =
      refused winter laws width rows pub_inputs options small
