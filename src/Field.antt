-- ===== src/Field.antt =====
-- `winterfell::math::fields::f128::BaseElement`, a crate the repository depends on. Its operations
-- are a parameter of the model, and what the code relies on are the laws below.
pub mod Algebra
use Prim.Native.Nat.{ℕ, ◌+◌, ◌%◌, ◌^◌, ◌≤◌, ◌<◌}
use yaqeen_stark_winterfell.Prelude.{PartialEq, ◌≡◌, ◌⊎◌}

-- `ZERO`, `ONE`, the arithmetic, `exp`, `new` from a `u128`, and the canonical integer that
-- `Display` prints.
pub record FieldOps (F : Type 0) : Type 0 where
  pub modulus : ℕ
  pub zero_fe : F
  pub one_fe : F
  pub add : F → F → F
  pub sub : F → F → F
  pub mul : F → F → F
  pub exp : F → ℕ → F
  pub new : ℕ → F
  pub as_int : F → ℕ
  pub eq : PartialEq F

module _ {F : Type 0} ⦃o : FieldOps F⦄ where
  infixl 65 ◌⊕◌ ◌⊖◌
  infixl 70 ◌⊗◌
  abbrev pub ◌⊕◌ : F → F → F
  a ⊕ b = o.add a b

  abbrev pub ◌⊖◌ : F → F → F
  a ⊖ b = o.sub a b

  abbrev pub ◌⊗◌ : F → F → F
  a ⊗ b = o.mul a b

  instance abbrev pub field_eq : PartialEq F
  field_eq = o.eq

-- The elements are the integers below the modulus, and `new` reduces a `u128`.
pub record Encoding (F : Type 0) ⦃o : FieldOps F⦄ : Type 0 where
  pub modulus_le : o.modulus ≤ 2 ^ 128
  pub as_int-lt : (x : F) → o.as_int x < o.modulus
  pub new-as_int : (x : F) → o.new (o.as_int x) ≡ x
  pub as_int-new : (n : ℕ) → n < 2 ^ 128 → o.as_int (o.new n) ≡ n % o.modulus

-- The arithmetic is that of a field (no inverse is used).
pub record Arithmetic (F : Type 0) ⦃o : FieldOps F⦄ : Type 0 where
  pub add_comm : (a b : F) → a ⊕ b ≡ b ⊕ a
  pub add_assoc : (a b c : F) → a ⊕ b ⊕ c ≡ a ⊕ (b ⊕ c)
  pub add-zero : (a : F) → a ⊕ o.zero_fe ≡ a
  pub mul_comm : (a b : F) → a ⊗ b ≡ b ⊗ a
  pub mul_assoc : (a b c : F) → a ⊗ b ⊗ c ≡ a ⊗ (b ⊗ c)
  pub mul-one : (a : F) → a ⊗ o.one_fe ≡ a
  pub mul-add : (a b c : F) → a ⊗ (b ⊕ c) ≡ a ⊗ b ⊕ a ⊗ c
  pub sub-add_cancel : (a b : F) → a ⊖ b ⊕ b ≡ a
  pub eq-zero_of_mul : (a b : F) → a ⊗ b ≡ o.zero_fe → (a ≡ o.zero_fe) ⊎ (b ≡ o.zero_fe)
  pub one-ne-zero : ¬ (o.one_fe ≡ o.zero_fe)
  pub new-zero : o.new 0 ≡ o.zero_fe
  pub new-one : o.new 1 ≡ o.one_fe
  pub new-add : (n m : ℕ) → n + m < 2 ^ 128 → o.new (n + m) ≡ o.new n ⊕ o.new m
