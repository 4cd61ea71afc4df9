-- ===== src/Harness/Options.antt =====
-- The constraint system that the harness makes: `demo_proof_options` of e2e_support.rs, and
-- `TitleAir::new` on them, as bin/e2e_harness.rs and fuzz_support.rs call it.
use yaqeen_stark_winterfell.Prelude.{◌≡◌, ◌∙◌, refl, ap, Option, none, some, arith}
use yaqeen_stark_winterfell.Air.Layout.{trace_width, trace_length}
use yaqeen_stark_winterfell.Air.Inputs.{PublicInputs}
use yaqeen_stark_winterfell.Air.Context.{WinterAir, Documented}
use yaqeen_stark_winterfell.Air.Constraints.{TitleAir, new_air}
use yaqeen_stark_winterfell.Air.Shape.{new_air_made}

abbrev pub or_panic : {A B : Type 0} → Option A → (A → Option B) → Option B
or_panic none f = none
or_panic (some a) f = f a

module _ {Options Context : Type 0} where
  unfoldable pub demo_proof_options : WinterAir Options Context → Option Options
  demo_proof_options winter = winter.new_options 28 8 0 4 7

module _ {F Options Context : Type 0} where
  -- `TitleAir::new` on the declared shape and the demonstration's options.
  unfoldable pub demo_air : WinterAir Options Context → PublicInputs F → Option (TitleAir F Context)
  unfolding demo_proof_options new_air
  demo_air winter pub_inputs =
      or_panic (demo_proof_options winter)
        (λ options. new_air winter trace_width trace_length pub_inputs options)

  -- It does not panic: the options are in range, and eight accommodates the constraints.
  pub demo_air_made :
      (winter : WinterAir Options Context)
      → Documented winter
      → (pub_inputs : PublicInputs F)
      → (context : Context) × (demo_air winter pub_inputs
          ≡ some (record { context = context; pub_inputs = pub_inputs }))
  unfolding demo_air demo_proof_options
  demo_air_made winter laws pub_inputs =
      let (options, made, blowup) =
        laws.options_made 28 8 0 4 7 3 2 3 (omega arith) (omega arith) refl (omega arith)
          (omega arith) (omega arith) refl (omega arith) (omega arith) refl (omega arith) in
      let (context, done, constraints, assertions) =
        new_air_made winter laws trace_width trace_length pub_inputs options refl refl
          (omega (arith, blowup)) in
      (
        context,
        ap (λ x. or_panic x (λ y. new_air winter trace_width trace_length pub_inputs y)) made
            ∙ done,
      )
