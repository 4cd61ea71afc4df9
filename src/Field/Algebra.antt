-- ===== src/Field/Algebra.antt =====
-- Consequences of the field's laws.
use yaqeen_stark_winterfell.Prelude.{refl, ◌≡◌, sym, ap, ◌∙◌, ◌⊎◌, inl, inr}
use yaqeen_stark_winterfell.Field.{FieldOps, Arithmetic, ◌⊕◌, ◌⊖◌, ◌⊗◌}

module _ {F : Type 0} ⦃o : FieldOps F⦄ (laws : Arithmetic F) where
  pub zero-add : (a : F) → o.zero_fe ⊕ a ≡ a
  zero-add a = laws.add_comm o.zero_fe a ∙ laws.add-zero a

  pub eq_of_sub : (a b : F) → a ⊖ b ≡ o.zero_fe → a ≡ b
  eq_of_sub a b h = sym (laws.sub-add_cancel a b) ∙ ap (λ x. x ⊕ b) h ∙ zero-add b

  -- Addition cancels, since what is added can be taken away.
  pub add_cancel : (a b c : F) → a ⊕ c ≡ b ⊕ c → a ≡ b
  add_cancel a b c h =
      let n : F = o.zero_fe ⊖ c in
      let e : c ⊕ n ≡ o.zero_fe = laws.add_comm c n ∙ laws.sub-add_cancel o.zero_fe c in
      let undo : (x : F) → x ⊕ c ⊕ n ≡ x =
        λ x. laws.add_assoc x c n ∙ ap (λ y. x ⊕ y) e ∙ laws.add-zero x in
      sym (undo a) ∙ ap (λ x. x ⊕ n) h ∙ undo b

  -- What is added last is what a subtraction takes away.
  pub add-sub_cancel : (a b : F) → a ⊕ b ⊖ b ≡ a
  add-sub_cancel a b = add_cancel (a ⊕ b ⊖ b) a b (laws.sub-add_cancel (a ⊕ b) b)

  pub mul-zero : (a : F) → a ⊗ o.zero_fe ≡ o.zero_fe
  mul-zero a = add_cancel (a ⊗ o.zero_fe) o.zero_fe (a ⊗ o.zero_fe) (
      sym (laws.mul-add a o.zero_fe o.zero_fe)
      ∙ ap (λ x. a ⊗ x) (laws.add-zero o.zero_fe)
      ∙ sym (zero-add (a ⊗ o.zero_fe)))

  pub zero-mul : (a : F) → o.zero_fe ⊗ a ≡ o.zero_fe
  zero-mul a = laws.mul_comm o.zero_fe a ∙ mul-zero a

  pub one-mul : (a : F) → o.one_fe ⊗ a ≡ a
  one-mul a = laws.mul_comm o.one_fe a ∙ laws.mul-one a

  pub sub-zero : (a : F) → a ⊖ o.zero_fe ≡ a
  sub-zero a = sym (laws.add-zero (a ⊖ o.zero_fe)) ∙ laws.sub-add_cancel a o.zero_fe

  pub sub_self : (a : F) → a ⊖ a ≡ o.zero_fe
  sub_self a = add_cancel (a ⊖ a) o.zero_fe a (laws.sub-add_cancel a a ∙ sym (zero-add a))

  -- A gate that is open selects the first of two values, and one that is closed the second.
  pub gate_first : (a b : F) → (o.one_fe ⊖ o.zero_fe) ⊗ a ⊕ o.zero_fe ⊗ b ≡ a
  gate_first a b =
      ap (λ x. x ⊗ a ⊕ o.zero_fe ⊗ b) (sub-zero o.one_fe)
      ∙ ap (λ x. o.one_fe ⊗ a ⊕ x) (zero-mul b)
      ∙ laws.add-zero (o.one_fe ⊗ a)
      ∙ one-mul a

  pub gate_second : (a b : F) → (o.one_fe ⊖ o.one_fe) ⊗ a ⊕ o.one_fe ⊗ b ≡ b
  gate_second a b =
      ap (λ x. x ⊗ a ⊕ o.one_fe ⊗ b) (sub_self o.one_fe)
      ∙ ap (λ x. x ⊕ o.one_fe ⊗ b) (zero-mul a)
      ∙ zero-add (o.one_fe ⊗ b)
      ∙ one-mul b

  -- A constraint that compares a value with what its gate selects vanishes on that.
  pub vanish_first :
      (g a x y : F) → g ≡ o.zero_fe → a ≡ x → a ⊖ ((o.one_fe ⊖ g) ⊗ x ⊕ g ⊗ y) ≡ o.zero_fe
  vanish_first g a x y closed same = rw (closed, same, gate_first x y) (sub_self x)

  pub vanish_second :
      (g a x y : F) → g ≡ o.one_fe → a ≡ y → a ⊖ ((o.one_fe ⊖ g) ⊗ x ⊕ g ⊗ y) ≡ o.zero_fe
  vanish_second g a x y open_gate same = rw (open_gate, same, gate_second x y) (sub_self y)

  -- What is boolean is zero or one.
  pub zero_or_one : (t : F) → t ⊗ t ⊖ t ≡ o.zero_fe → (t ≡ o.zero_fe) ⊎ (t ≡ o.one_fe)
  zero_or_one t h =
      let square : t ⊗ t ≡ t = eq_of_sub (t ⊗ t) t h in
      let product : t ⊗ (t ⊖ o.one_fe) ≡ o.zero_fe = add_cancel (t ⊗ (t ⊖ o.one_fe)) o.zero_fe t (
        ap (λ x. t ⊗ (t ⊖ o.one_fe) ⊕ x) (sym (laws.mul-one t))
        ∙ sym (laws.mul-add t (t ⊖ o.one_fe) o.one_fe)
        ∙ ap (λ x. t ⊗ x) (laws.sub-add_cancel t o.one_fe)
        ∙ square
        ∙ sym (zero-add t)) in
      elim (laws.eq-zero_of_mul t (t ⊖ o.one_fe) product) [
        | inl e ↦ inl e
        | inr e ↦ inr (eq_of_sub t o.one_fe e)
      ]

  -- A one-hot selection among four values.
  pub pick_first : (a b c d : F) → o.one_fe ⊗ a ⊕ o.zero_fe ⊗ b ⊕ o.zero_fe ⊗ c ⊕ o.zero_fe ⊗ d ≡ a
  pick_first a b c d =
      rw
        (
          zero-mul b,
          zero-mul c,
          zero-mul d,
          one-mul a,
          laws.add-zero a,
          laws.add-zero a,
          laws.add-zero a,
        )
        refl

  pub pick_second : (a b c d : F) → o.zero_fe ⊗ a ⊕ o.one_fe ⊗ b ⊕ o.zero_fe ⊗ c ⊕ o.zero_fe ⊗ d ≡ b
  pick_second a b c d =
      rw
        (
          zero-mul a,
          zero-mul c,
          zero-mul d,
          one-mul b,
          zero-add b,
          laws.add-zero b,
          laws.add-zero b,
        )
        refl

  pub pick_third : (a b c d : F) → o.zero_fe ⊗ a ⊕ o.zero_fe ⊗ b ⊕ o.one_fe ⊗ c ⊕ o.zero_fe ⊗ d ≡ c
  pick_third a b c d =
      rw
        (
          zero-mul a,
          zero-mul b,
          zero-mul d,
          one-mul c,
          zero-add o.zero_fe,
          zero-add c,
          laws.add-zero c,
        )
        refl

  pub pick_fourth : (a b c d : F) → o.zero_fe ⊗ a ⊕ o.zero_fe ⊗ b ⊕ o.zero_fe ⊗ c ⊕ o.one_fe ⊗ d ≡ d
  pick_fourth a b c d =
      rw
        (
          zero-mul a,
          zero-mul b,
          zero-mul c,
          one-mul d,
          zero-add o.zero_fe,
          zero-add o.zero_fe,
          zero-add d,
        )
        refl

  pub pick_left : (a b : F) → o.one_fe ⊗ a ⊕ o.zero_fe ⊗ b ≡ a
  pick_left a b = rw (one-mul a, zero-mul b) (laws.add-zero a)

  pub pick_right : (a b : F) → o.zero_fe ⊗ a ⊕ o.one_fe ⊗ b ≡ b
  pick_right a b = rw (one-mul b, zero-mul a) (zero-add b)

  pub pick_none : (a b : F) → o.zero_fe ⊗ a ⊕ o.zero_fe ⊗ b ≡ o.zero_fe
  pick_none a b = rw (zero-mul a, zero-mul b) (zero-add o.zero_fe)

  -- The two values of a direction bit.
  pub side_zero : (a b : F) → o.zero_fe ⊗ a ⊕ (o.one_fe ⊖ o.zero_fe) ⊗ b ≡ b
  side_zero a b = laws.add_comm (o.zero_fe ⊗ a) ((o.one_fe ⊖ o.zero_fe) ⊗ b) ∙ gate_first b a

  pub side_one : (a b : F) → o.one_fe ⊗ a ⊕ (o.one_fe ⊖ o.one_fe) ⊗ b ≡ a
  side_one a b = laws.add_comm (o.one_fe ⊗ a) ((o.one_fe ⊖ o.one_fe) ⊗ b) ∙ gate_second b a
