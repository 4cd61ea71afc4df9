-- ===== src/Examples/Five.antt =====
-- The field of five elements, whose characteristic is above three.
use yaqeen_stark_winterfell.Prelude.{
  ◌⊎◌, inl, inr, ℕ, zero, suc, ◌+◌, ◌-◌, ◌*◌, ◌%◌, ◌≡◌, ◌↔◌, refl, ap, sym, ◌∙◌, Bool, true, ◌&&◌,
  ◌||◌, nat_beq, Bool-cases, arith, if◌then◌else◌,
}
use yaqeen_stark_winterfell.Field.{FieldOps, Arithmetic}
use yaqeen_stark_winterfell.Air.Facts.{IsLarge}

pub data Five : Type 0 where
  f0 f1 f2 f3 f4 : Five

abbrev value : Five → ℕ
value f0 = 0
value f1 = 1
value f2 = 2
value f3 = 3
value f4 = 4

abbrev of_value : ℕ → Five
of_value n =
    if nat_beq n 0
    then f0
    else if nat_beq n 1
    then f1
    else if nat_beq n 2
    then f2
    else if nat_beq n 3
    then f3
    else f4

abbrev reduce : ℕ → Five
reduce n = of_value (n % 5)

abbrev plus : Five → Five → Five
plus a b = reduce (value a + value b)

abbrev minus : Five → Five → Five
minus a b = reduce (value a + 5 - value b)

abbrev times : Five → Five → Five
times a b = reduce (value a * value b)

abbrev power : Five → ℕ → Five
power a zero = f1
power a (suc n) = times a (power a n)

abbrev five_beq : Five → Five → Bool
five_beq a b = nat_beq (value a) (value b)

of_value-value : (a : Five) → of_value (value a) ≡ a
of_value-value f0 = refl
of_value-value f1 = refl
of_value-value f2 = refl
of_value-value f3 = refl
of_value-value f4 = refl

same_value : (a b : Five) → five_beq a b ≡ true → a ≡ b
same_value a b h =
    let e : value a ≡ value b = ground arith in
    sym (of_value-value a) ∙ ap of_value e ∙ of_value-value b

pub five_beq_iff : (a b : Five) → (five_beq a b ≡ true) ↔ (a ≡ b)
five_beq_iff a b = (same_value a b, λ e. let same : value a ≡ value b = ap value e in ground arith)

instance abbrev pub fives : FieldOps Five
fives = record {
  modulus = 5;
  zero_fe = f0;
  one_fe = f1;
  add = plus;
  sub = minus;
  mul = times;
  exp = power;
  new = reduce;
  as_int = value;
  eq = record { eq = five_beq; eq_iff = five_beq_iff };
}

-- A test that holds of every element.
abbrev every : (Five → Bool) → Bool
every p = p f0 && p f1 && p f2 && p f3 && p f4

at : (p : Five → Bool) → every p ≡ true → (a : Five) → p a ≡ true
at p h f0 = ground arith
at p h f1 = ground arith
at p h f2 = ground arith
at p h f3 = ground arith
at p h f4 = ground arith

-- An equation in one, two or three variables, by trying all.
equation : (f g : Five → Five) → every (λ a. five_beq (f a) (g a)) ≡ true → (a : Five) → f a ≡ g a
equation f g h a = same_value (f a) (g a) (at (λ x. five_beq (f x) (g x)) h a)

equation2 :
    (f g : Five → Five → Five)
    → every (λ a. every (λ b. five_beq (f a b) (g a b))) ≡ true
    → (a b : Five) → f a b ≡ g a b
equation2 f g h a = equation (f a) (g a) (at (λ x. every (λ b. five_beq (f x b) (g x b))) h a)

equation3 :
    (f g : Five → Five → Five → Five)
    → every (λ a. every (λ b. every (λ c. five_beq (f a b c) (g a b c)))) ≡ true
    → (a b c : Five) → f a b c ≡ g a b c
equation3 f g h a =
    equation2 (f a) (g a) (at (λ x. every (λ b. every (λ c. five_beq (f x b c) (g x b c)))) h a)

no_divisor :
    (a b : Five)
    → ((if five_beq (times a b) f0 then five_beq a f0 || five_beq b f0 else true)) ≡ true
no_divisor a b =
    at (λ y. if five_beq (times a y) f0 then five_beq a f0 || five_beq y f0 else true)
      (at
        (λ x. every (λ y. if five_beq (times x y) f0 then five_beq x f0 || five_beq y f0 else true))
        refl a)
      b

value-reduce : (n : ℕ) → value (reduce n) ≡ n % 5
value-reduce n = ground arith

zero_factor : (a b : Five) → times a b ≡ f0 → (a ≡ f0) ⊎ (b ≡ f0)
zero_factor a b h = elim (Bool-cases (five_beq a f0)) [
  | inl e ↦ inl (same_value a f0 e)
  | inr e ↦
      inr (same_value b f0 (ground (arith, no_divisor a b, e, (five_beq_iff (times a b) f0).1 h)))
]

add_reduce : (n m : ℕ) → reduce (n + m) ≡ plus (reduce n) (reduce m)
add_reduce n m =
    let e : (n + m) % 5 ≡ (value (reduce n) + value (reduce m)) % 5 =
      omega (arith, value-reduce n, value-reduce m) in
    ap of_value e

pub fives-Arithmetic : Arithmetic Five
fives-Arithmetic = record {
  add_comm = equation2 (λ a b. plus a b) (λ a b. plus b a) refl;
  add_assoc = equation3 (λ a b c. plus (plus a b) c) (λ a b c. plus a (plus b c)) refl;
  add-zero = equation (λ a. plus a f0) (λ a. a) refl;
  mul_comm = equation2 (λ a b. times a b) (λ a b. times b a) refl;
  mul_assoc = equation3 (λ a b c. times (times a b) c) (λ a b c. times a (times b c)) refl;
  mul-one = equation (λ a. times a f1) (λ a. a) refl;
  mul-add = equation3 (λ a b c. times a (plus b c)) (λ a b c. plus (times a b) (times a c)) refl;
  sub-add_cancel = equation2 (λ a b. plus (minus a b) b) (λ a b. a) refl;
  eq-zero_of_mul = zero_factor;
  one-ne-zero = λ e. cc;
  new-zero = refl;
  new-one = refl;
  new-add = λ n m h. add_reduce n m;
}

pub fives-IsLarge : IsLarge Five
fives-IsLarge = record { two-ne-zero = λ e. cc; three-ne-zero = λ e. cc }
