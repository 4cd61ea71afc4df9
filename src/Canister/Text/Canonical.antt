-- ===== src/Canister/Text/Canonical.antt =====
-- Proofs about `canonical_nullifier`, `parse_fe` and `fe_to_string`.
use yaqeen_stark_winterfell.Prelude.{◌≡◌, ◌↔◌, ap, arith}
use yaqeen_stark_winterfell.Field.{FieldOps, Encoding}
use yaqeen_stark_winterfell.Canister.Outcome.{Text, ok}
use yaqeen_stark_winterfell.Canister.Text.{parse_fe, fe_to_string, canonical_nullifier}
use yaqeen_stark_winterfell.Canister.Text.Decimal.{parse_u128-print_u128}

module _ {F : Type 0} ⦃o : FieldOps F⦄ (laws : Encoding F) where
  -- Every field element is read back by `parse_fe` from the text that `fe_to_string` prints for
  -- it. The field's encoding is lawful.
  pub parse_fe-fe_to_string : (x : F) → parse_fe (fe_to_string x) ≡ ok x
  unfolding parse_fe fe_to_string
  parse_fe-fe_to_string x =
      rw
        (
          parse_u128-print_u128 (o.as_int x) (omega (arith, laws.as_int-lt x, laws.modulus_le)),
          parse_fe,
        )
        (ap ok (laws.new-as_int x))

  -- Printing is injective.
  pub fe_to_string_inj : (x y : F) → fe_to_string x ≡ fe_to_string y → x ≡ y
  fe_to_string_inj x y e = cc (parse_fe-fe_to_string x, parse_fe-fe_to_string y, e)

  -- Two texts that parse as field elements have the same canonical form exactly when they stand
  -- for the same field element. The field's encoding is lawful.
  pub canonical_nullifier_iff :
      (a b : Text) (x y : F)
      → parse_fe a ≡ ok x
      → parse_fe b ≡ ok y
      → (canonical_nullifier F a ≡ canonical_nullifier F b) ↔ (x ≡ y)
  unfolding canonical_nullifier
  canonical_nullifier_iff a b x y p q =
      (λ e. fe_to_string_inj x y (cc (rw (p, q) at e)), λ e. rw (p, q, e))
