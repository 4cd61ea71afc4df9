-- ===== src/Examples/Polynomials.antt =====
-- The declared degrees, over the polynomials with coefficients in the field of two elements, lowest
-- first.
use yaqeen_stark_winterfell.Prelude.{
  ℕ, zero, suc, ◌+◌, ◌*◌, ◌%◌, ◌≤◌, Bool, true, false, List, [], ◌∷◌, length, tabulate,
  All-tabulate_intro, list_eq, nat_beq, if◌then◌else◌, arith, inl, inr, Bool-cases,
}
use yaqeen_stark_winterfell.Field.{FieldOps}
use yaqeen_stark_winterfell.Air.Inputs.{PublicInputs}
use yaqeen_stark_winterfell.Air.Constraints.{evaluate_transition, transition_degrees}
use yaqeen_stark_winterfell.Air.Degrees.{BoundsDegrees, AreWithin}
use yaqeen_stark_winterfell.Air.Degrees.Declared.{declared_degrees}
use yaqeen_stark_winterfell.Examples.Instances.{bits}

abbrev Poly : Type 0
Poly = List Bool

abbrev plus : Poly → Poly → Poly
plus [] b = b
plus (x ∷ a) [] = x ∷ a
plus (x ∷ a) (y ∷ b) = bits.add x y ∷ plus a b

abbrev product : Poly → Poly → Poly
product [] b = []
product (x ∷ a) b = let rest = product a b in plus (if x then b else []) (false ∷ rest)

abbrev power : Poly → ℕ → Poly
power a zero = true ∷ []
power a (suc n) = product a (power a n)

instance abbrev polynomials : FieldOps Poly
polynomials = record {
  modulus = 2;
  zero_fe = [];
  one_fe = true ∷ [];
  add = plus;
  sub = plus;
  mul = product;
  exp = power;
  new = λ n. if nat_beq (n % 2) 1 then true ∷ [] else [];
  as_int = λ a. 0;
  eq = list_eq ⦃a = bits.eq⦄;
}

-- The degree is at most `d`.
abbrev HasDegree : ℕ → Poly → Type 0
HasDegree d a = length a ≤ d + 1

length-plus : (n : ℕ) (a b : Poly) → length a ≤ n → length b ≤ n → length (plus a b) ≤ n
length-plus n [] b h k = k
length-plus n (x ∷ a) [] h k = h
length-plus zero (x ∷ a) (y ∷ b) h k = absurd (omega arith)
length-plus (suc n) (x ∷ a) (y ∷ b) h k =
    omega (arith, length-plus n a b (omega arith) (omega arith))

length-product : (e : ℕ) (a b : Poly) → length b ≤ e + 1 → length (product a b) ≤ length a + e
length-product e [] b h = omega arith
length-product e (x ∷ a) b h =
    length-plus (suc (length a) + e) (if x then b else []) (false ∷ product a b)
      (elim (Bool-cases x) [ inl t ↦ rw t (omega (arith, h)) | inr f ↦ rw f (omega arith) ])
      (omega (arith, length-product e a b h))

length-power : (d n : ℕ) (a : Poly) → HasDegree d a → HasDegree (n * d) (power a n)
length-power d zero a h = omega arith
length-power d (suc n) a h =
    omega (arith, length-product (n * d) a (power a n) (length-power d n a h), h)

polynomials-BoundsDegrees : BoundsDegrees Poly HasDegree
polynomials-BoundsDegrees = record {
  zero_within = omega arith;
  one_within = omega arith;
  new_within = λ n. elim (Bool-cases (nat_beq (n % 2) 1)) [
    | inl e ↦ rw e (omega arith)
    | inr e ↦ rw e (omega arith)
  ];
  add_within = λ d a b. length-plus (d + 1) a b;
  sub_within = λ d a b. length-plus (d + 1) a b;
  mul_within = λ d e a b h k. omega (arith, length-product e a b k, h);
  exp_within = length-power;
  widen = λ d e a le h. omega (arith, le, h);
}

-- Columns of degree two, `1 + x + x ^ 2`, and periodic ones of degree one, `x`.
abbrev column : ℕ → Poly
column c = true ∷ true ∷ true ∷ []

abbrev cycle : List Poly
cycle = tabulate 10 0 (λ i. false ∷ true ∷ [])

abbrev constants : PublicInputs Poly
constants = record {
  registry_id = [];
  merkle_root = [];
  purpose = [];
  request_nonce = [];
  current_timestamp = true ∷ [];
  nullifier = [];
}

declared_degrees_example :
    AreWithin HasDegree 2 1 (evaluate_transition constants column column cycle) transition_degrees
declared_degrees_example =
    declared_degrees HasDegree polynomials-BoundsDegrees 2 1 (omega arith) column column cycle
      (λ c. omega arith) (λ c. omega arith)
      (All-tabulate_intro (HasDegree 1) 10 0 (λ i. false ∷ true ∷ []) (λ k a b. omega arith))
      constants (omega arith)
