-- ===== src/Air/Context.antt =====
-- The parts of the crate winterfell that `TitleAir::new` calls: a parameter of the model, with what
-- its documentation says of the calls as named laws.
use yaqeen_stark_winterfell.Prelude.{
  ℕ, ◌+◌, ◌-◌, ◌^◌, ◌<◌, ◌≤◌, ◌≡◌, Option, none, some, List, length, All,
}

-- `TransitionConstraintDegree`: `new`, and `with_cycles` of one cycle.
pub data Degree : Type 0 where
  plain : ℕ → Degree
  with_cycles : ℕ → ℕ → Degree

-- The degree in the trace's columns, and the number of periodic factors.
abbrev pub base : Degree → ℕ
base (plain b) = b
base (with_cycles b cycle) = b

abbrev pub num_cycles : Degree → ℕ
num_cycles (plain b) = 0
num_cycles (with_cycles b cycle) = 1

-- `ProofOptions::new` without a field extension and with linear batching, `AirContext::new` on the
-- width and length of a trace, and the methods on what they return. `none` is a panic.
pub record WinterAir (Options Context : Type 0) : Type 0 where
  pub new_options :
      (num_queries blowup_factor grinding_factor fri_folding_factor fri_remainder_max_degree : ℕ)
      → Option Options
  pub blowup_factor : Options → ℕ
  pub min_blowup_factor : Degree → ℕ
  pub new_context :
      (width length : ℕ) → List Degree → (num_assertions : ℕ) → Options → Option Context
  pub num_transition_constraints : Context → ℕ
  pub num_assertions : Context → ℕ

module _ {Options Context : Type 0} where
  -- The documented behaviour. The options are made from numbers in the documented ranges, and keep
  -- the blowup factor. A context is made for some degrees and some assertions, whose numbers it
  -- keeps, if the blowup factor accommodates each degree, and not if it does not. A power of two
  -- accommodates a degree that it is not below, the periodic factors counted, and nothing that is
  -- two or more below that does.
  pub record Documented (winter : WinterAir Options Context) : Type 0 where
    pub options_made :
        (q blowup g folding remainder k j m : ℕ)
        → 0 < q
        → q < 256
        → blowup ≡ 2 ^ k
        → 0 < k
        → k < 8
        → g < 33
        → folding ≡ 2 ^ j
        → 0 < j
        → j < 5
        → remainder ≡ 2 ^ m - 1
        → m < 9
        → (options : Options) × (winter.new_options q blowup g folding remainder ≡ some options)
          × (winter.blowup_factor options ≡ blowup)
    pub blowup_power :
        (options : Options) → (k : ℕ) × (winter.blowup_factor options ≡ 2 ^ k) × (0 < k)
    pub context_made :
        (width rows : ℕ) (degrees : List Degree) (n : ℕ) (options : Options)
        → 0 < length degrees
        → 0 < n
        → All (λ d. winter.min_blowup_factor d ≤ winter.blowup_factor options) degrees
        → (context : Context) × (winter.new_context width rows degrees n options ≡ some context)
          × (winter.num_transition_constraints context ≡ length degrees)
          × (winter.num_assertions context ≡ n)
    pub context_refused :
        (width rows : ℕ) (degrees : List Degree) (n : ℕ) (options : Options)
        → ¬ All (λ d. winter.min_blowup_factor d ≤ winter.blowup_factor options) degrees
        → winter.new_context width rows degrees n options ≡ none
    pub accommodates :
        (d : Degree) (k : ℕ)
        → 0 < k
        → base d + num_cycles d ≤ 2 ^ k
        → winter.min_blowup_factor d ≤ 2 ^ k
    pub needs : (d : Degree) → base d + num_cycles d ≤ winter.min_blowup_factor d + 1
