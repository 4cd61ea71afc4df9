-- ===== src/Prover/Honest/Types.antt =====
-- The constraints on the type columns, the direction bit and the range-check bits of the honest trace.
use yaqeen_stark_winterfell.Prelude.{
  ℕ, ◌*◌, ◌%◌, ◌≡◌, ◌⊎◌, inl, inr, ap, ◌∙◌, Bool, true, false, [], ◌∷◌, All, nat_beq, if◌then◌else◌,
  arith, Bool-cases,
}
use yaqeen_stark_winterfell.Field.{FieldOps, Arithmetic, ◌⊕◌, ◌⊖◌, ◌⊗◌}
use yaqeen_stark_winterfell.Field.Algebra.{mul-zero, zero-mul, one-mul, zero-add, sub_self}
use yaqeen_stark_winterfell.Air.Layout.{aux_b, t_owner, t_leaf, t_merkle, t_nullifier}
use yaqeen_stark_winterfell.Air.Constraints.{type_results}
use yaqeen_stark_winterfell.Prover.Trace.{Columns}
use yaqeen_stark_winterfell.Prover.Honest.Kinds.{
  Kind, owner_kind, leaf_kind, merkle_kind, nullifier_kind, kind_column, JobOk,
}
use yaqeen_stark_winterfell.Prover.Honest.Links.{JobOk-HasType}

All-six :
    {F : Type 0} {z a b c d e f : F}
    → a ≡ z
    → b ≡ z
    → c ≡ z
    → d ≡ z
    → e ≡ z
    → f ≡ z
    → All (λ x. x ≡ z) (a ∷ b ∷ c ∷ d ∷ e ∷ f ∷ [])
All-six p q r s t u = (p, (q, (r, (s, (t, (u, tt))))))

module _ {F : Type 0} ⦃o : FieldOps F⦄ (laws : Arithmetic F) where
  -- Zero and one are boolean.
  pub zero_boolean : o.zero_fe ⊗ o.zero_fe ⊖ o.zero_fe ≡ o.zero_fe
  zero_boolean = ap (λ x. x ⊖ o.zero_fe) (zero-mul laws o.zero_fe) ∙ sub_self laws o.zero_fe

  pub one_boolean : o.one_fe ⊗ o.one_fe ⊖ o.one_fe ≡ o.zero_fe
  one_boolean = ap (λ x. x ⊖ o.one_fe) (one-mul laws o.one_fe) ∙ sub_self laws o.one_fe

  flag_boolean :
      (b : Bool) (x : F) → x ≡ (if b then o.one_fe else o.zero_fe) → x ⊗ x ⊖ x ≡ o.zero_fe
  flag_boolean true x e = rw e one_boolean
  flag_boolean false x e = rw e zero_boolean

  gated : (g x : F) → x ≡ o.zero_fe → g ⊗ x ≡ o.zero_fe
  gated g x e = ap (λ y. g ⊗ y) e ∙ mul-zero laws g

  -- Off the first row of a job nothing is asked of the types.
  pub types_off :
      (cur : ℕ → F) (is_first : F)
      → is_first ≡ o.zero_fe
      → All (λ x. x ≡ o.zero_fe) (type_results cur is_first)
  types_off cur is_first off =
      let off_at : (x : F) → is_first ⊗ x ≡ o.zero_fe =
        λ x. ap (λ g. g ⊗ x) off ∙ zero-mul laws x in
      All-six (off_at _) (off_at _) (off_at _) (off_at _) (off_at _) (
        ap (λ x. x ⊗ (cur aux_b ⊗ cur aux_b ⊖ cur aux_b)) (off_at (cur t_merkle)) ∙ zero-mul laws _)

  one_hot :
      (a b c d : F)
      → ((a ≡ o.one_fe) × (b ≡ o.zero_fe) × (c ≡ o.zero_fe) × (d ≡ o.zero_fe))
        ⊎ (((a ≡ o.zero_fe) × (b ≡ o.one_fe) × (c ≡ o.zero_fe) × (d ≡ o.zero_fe))
            ⊎ (((a ≡ o.zero_fe) × (b ≡ o.zero_fe) × (c ≡ o.one_fe) × (d ≡ o.zero_fe))
                ⊎ ((a ≡ o.zero_fe) × (b ≡ o.zero_fe) × (c ≡ o.zero_fe) × (d ≡ o.one_fe))))
      → a ⊕ b ⊕ c ⊕ d ⊖ o.one_fe ≡ o.zero_fe
  one_hot a b c d (inl (p, q, r, s)) =
      rw (p, q, r, s, laws.add-zero o.one_fe, laws.add-zero o.one_fe, laws.add-zero o.one_fe)
        (sub_self laws o.one_fe)
  one_hot a b c d (inr (inl (p, q, r, s))) =
      rw (p, q, r, s, zero-add laws o.one_fe, laws.add-zero o.one_fe, laws.add-zero o.one_fe)
        (sub_self laws o.one_fe)
  one_hot a b c d (inr (inr (inl (p, q, r, s)))) =
      rw (p, q, r, s, zero-add laws o.zero_fe, zero-add laws o.one_fe, laws.add-zero o.one_fe)
        (sub_self laws o.one_fe)
  one_hot a b c d (inr (inr (inr (p, q, r, s)))) =
      rw (p, q, r, s, zero-add laws o.zero_fe, zero-add laws o.zero_fe, zero-add laws o.one_fe)
        (sub_self laws o.one_fe)

  -- One of the four columns of a row has a one.
  kind_one_hot :
      (cols : Columns F) (j : ℕ) (k : Kind F) (before : F)
      → JobOk cols j k before
      → cols t_owner (j * 8)
          ⊕ cols t_leaf (j * 8)
          ⊕ cols t_merkle (j * 8)
          ⊕ cols t_nullifier (j * 8)
          ⊖ o.one_fe
        ≡ o.zero_fe
  kind_one_hot cols j (owner_kind s p) before ok =
      let t = JobOk-HasType cols j _ before ok in
      one_hot _ _ _ _ (inl (t.is_owner, t.is_leaf, t.is_merkle, t.is_nullifier))
  kind_one_hot cols j (leaf_kind r e) before ok =
      let t = JobOk-HasType cols j _ before ok in
      one_hot _ _ _ _ (inr (inl (t.is_owner, t.is_leaf, t.is_merkle, t.is_nullifier)))
  kind_one_hot cols j (merkle_kind s b) before ok =
      let t = JobOk-HasType cols j _ before ok in
      one_hot _ _ _ _ (inr (inr (inl (t.is_owner, t.is_leaf, t.is_merkle, t.is_nullifier))))
  kind_one_hot cols j (nullifier_kind s p u n) before ok =
      let t = JobOk-HasType cols j _ before ok in
      one_hot _ _ _ _ (inr (inr (inr (t.is_owner, t.is_leaf, t.is_merkle, t.is_nullifier))))

  pub closed_first : (g t x : F) → g ≡ o.zero_fe → g ⊗ t ⊗ x ≡ o.zero_fe
  closed_first g t x e = ap (λ y. y ⊗ t ⊗ x) e ∙ ap (λ y. y ⊗ x) (zero-mul laws t) ∙ zero-mul laws x

  pub closed : (g t x : F) → t ≡ o.zero_fe → g ⊗ t ⊗ x ≡ o.zero_fe
  closed g t x e = ap (λ y. y ⊗ x) (gated g t e) ∙ zero-mul laws x

  -- On a Merkle step the direction bit is boolean; elsewhere its constraint is gated off.
  direction :
      (cols : Columns F) (j : ℕ) (k : Kind F) (before is_first : F)
      → JobOk cols j k before
      → (let b = cols aux_b (j * 8) in is_first ⊗ cols t_merkle (j * 8) ⊗ (b ⊗ b ⊖ b)) ≡ o.zero_fe
  direction cols j (owner_kind s p) before is_first ok =
      closed is_first _ _ (JobOk-HasType cols j _ before ok).is_merkle
  direction cols j (leaf_kind r e) before is_first ok =
      closed is_first _ _ (JobOk-HasType cols j _ before ok).is_merkle
  direction cols j (merkle_kind s b) before is_first ok =
      gated (is_first ⊗ cols t_merkle (j * 8)) _
        (flag_boolean b (cols aux_b (j * 8)) (ok.aux 1 (omega arith)))
  direction cols j (nullifier_kind s p u n) before is_first ok =
      closed is_first _ _ (JobOk-HasType cols j _ before ok).is_merkle

  pub types_vanish :
      (cols : Columns F) (j : ℕ) (k : Kind F) (before is_first : F)
      → JobOk cols j k before
      → All (λ x. x ≡ o.zero_fe) (type_results (λ c. cols c (j * 8)) is_first)
  types_vanish cols j k before is_first ok =
      let t = JobOk-HasType cols j k before ok in
      All-six (gated is_first _ (flag_boolean (nat_beq t_owner (kind_column k)) _ t.is_owner))
        (gated is_first _ (flag_boolean (nat_beq t_leaf (kind_column k)) _ t.is_leaf))
        (gated is_first _ (flag_boolean (nat_beq t_merkle (kind_column k)) _ t.is_merkle))
        (gated is_first _ (flag_boolean (nat_beq t_nullifier (kind_column k)) _ t.is_nullifier))
        (gated is_first _ (kind_one_hot cols j k before ok)) (direction cols j k before is_first ok)

  -- An integer's bit is boolean.
  pub bit_boolean : (n : ℕ) → o.new (n % 2) ⊗ o.new (n % 2) ⊖ o.new (n % 2) ≡ o.zero_fe
  bit_boolean n = elim (Bool-cases (nat_beq (n % 2) 0)) [
    | inl e ↦
        let even : n % 2 ≡ 0 = ground arith in flag_boolean false _ (ap o.new even ∙ laws.new-zero)
    | inr e ↦
        let odd : n % 2 ≡ 1 = ground arith in flag_boolean true _ (ap o.new odd ∙ laws.new-one)
  ]
