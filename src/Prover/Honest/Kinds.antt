-- ===== src/Prover/Honest/Kinds.antt =====
-- The kinds of job that `build_trace` runs, and what a job leaves in the rows that it fills.
use yaqeen_stark_winterfell.Prelude.{
  ℕ, suc, ◌+◌, ◌-◌, ◌*◌, ◌<◌, ◌≤◌, ◌≡◌, refl, Bool, false, List, [], ◌∷◌, length, get_or, tabulate,
  nat_beq, leb, if◌then◌else◌, arith,
}
use yaqeen_stark_winterfell.Field.{FieldOps}
use yaqeen_stark_winterfell.Air.Layout.{
  domain_leaf, domain_owner_commitment, domain_nullifier, domain_node, rounds, state_width,
  job_owner, job_leaf, job_merkle_first, job_merkle_last, job_nullifier, job_type_column, aux_a,
  t_owner, t_leaf, t_merkle, t_nullifier,
}
use yaqeen_stark_winterfell.Air.Permutation.{lane, run_rounds}
use yaqeen_stark_winterfell.Air.Job.{constants_of}
use yaqeen_stark_winterfell.Prover.Trace.{Witness, Columns}

-- A job with the values that its first row takes besides the digest before it.
pub data Kind (F : Type 0) : Type 0 where
  owner_kind : F → F → Kind F
  leaf_kind : F → F → Kind F
  merkle_kind : F → Bool → Kind F
  nullifier_kind : F → F → F → F → Kind F

module _ {F : Type 0} where
  abbrev pub kind_column : Kind F → ℕ
  kind_column (owner_kind secret property_id) = t_owner
  kind_column (leaf_kind registry_id expiry) = t_leaf
  kind_column (merkle_kind sibling bit) = t_merkle
  kind_column (nullifier_kind secret property_id purpose nonce) = t_nullifier

module _ {F : Type 0} ⦃o : FieldOps F⦄ where
  -- The lanes of the first row, given the digest before.
  abbrev pub kind_init : F → Kind F → List F
  kind_init before (owner_kind secret property_id) =
      o.new domain_owner_commitment
      ∷ secret
      ∷ property_id
      ∷ o.zero_fe
      ∷ o.zero_fe
      ∷ o.zero_fe
      ∷ o.zero_fe
      ∷ o.zero_fe
      ∷ []
  kind_init before (leaf_kind registry_id expiry) =
      o.new domain_leaf
      ∷ registry_id
      ∷ before
      ∷ o.zero_fe
      ∷ o.one_fe
      ∷ expiry
      ∷ o.zero_fe
      ∷ o.zero_fe
      ∷ []
  kind_init before (merkle_kind sibling bit) =
      o.new domain_node
      ∷ (if bit then sibling else before)
      ∷ (if bit then before else sibling)
      ∷ o.zero_fe
      ∷ o.zero_fe
      ∷ o.zero_fe
      ∷ o.zero_fe
      ∷ o.zero_fe
      ∷ []
  kind_init before (nullifier_kind secret property_id purpose nonce) =
      o.new domain_nullifier
      ∷ secret
      ∷ property_id
      ∷ purpose
      ∷ nonce
      ∷ o.zero_fe
      ∷ o.zero_fe
      ∷ o.zero_fe
      ∷ []

  abbrev pub kind_aux : Kind F → List F
  kind_aux (owner_kind secret property_id) = o.zero_fe ∷ o.zero_fe ∷ o.zero_fe ∷ o.zero_fe ∷ []
  kind_aux (leaf_kind registry_id expiry) = registry_id ∷ o.zero_fe ∷ o.one_fe ∷ expiry ∷ []
  kind_aux (merkle_kind sibling bit) =
      sibling ∷ (if bit then o.one_fe else o.zero_fe) ∷ o.zero_fe ∷ o.zero_fe ∷ []
  kind_aux (nullifier_kind secret property_id purpose nonce) =
      purpose ∷ nonce ∷ o.zero_fe ∷ o.zero_fe ∷ []

  pub kind_init-eight : (before : F) (k : Kind F) → length (kind_init before k) ≡ state_width
  kind_init-eight before (owner_kind s p) = refl
  kind_init-eight before (leaf_kind r e) = refl
  kind_init-eight before (merkle_kind s b) = refl
  kind_init-eight before (nullifier_kind s p u n) = refl

  pub kind_aux-four : (k : Kind F) → length (kind_aux k) ≡ 4
  kind_aux-four (owner_kind s p) = refl
  kind_aux-four (leaf_kind r e) = refl
  kind_aux-four (merkle_kind s b) = refl
  kind_aux-four (nullifier_kind s p u n) = refl

  -- The job that `build_trace` runs in each place. The padding is Merkle steps with zeros.
  abbrev pub kind_of : Witness F → ℕ → Kind F
  kind_of w j =
      if nat_beq j job_owner
      then owner_kind w.owner_secret w.property_id
      else if nat_beq j job_leaf
      then leaf_kind w.registry_id (o.new w.license_expiry)
      else if nat_beq j job_nullifier
      then nullifier_kind w.owner_secret w.property_id w.purpose w.request_nonce
      else if leb j job_merkle_last
      then merkle_kind (get_or w.merkle_siblings (j - job_merkle_first) o.zero_fe)
          (get_or w.merkle_bits (j - job_merkle_first) false)
      else merkle_kind o.zero_fe false

  pub kind_of-column : (w : Witness F) (j : ℕ) → kind_column (kind_of w j) ≡ job_type_column j
  unfolding job_type_column
  kind_of-column w j = ground arith

  -- What a job of a kind leaves in its rows.
  pub record JobOk (cols : Columns F) (j : ℕ) (k : Kind F) (before : F) : Type 0 where
    pub init : (c : ℕ) → c < state_width → cols c (j * 8) ≡ lane (kind_init before k) c
    pub aux : (i : ℕ) → i < 4 → cols (aux_a + i) (j * 8) ≡ lane (kind_aux k) i
    pub type_of :
        (c : ℕ)
        → t_owner ≤ c
        → c ≤ t_nullifier
        → cols c (j * 8) ≡ (if nat_beq c (kind_column k) then o.one_fe else o.zero_fe)
    pub lanes :
        (m c : ℕ)
        → m < rounds - 1
        → c < state_width
        → cols c (j * 8 + m + 1)
          ≡ lane (run_rounds (kind_init before k) (tabulate (suc m) 0 constants_of)) c

  pub kind_column-range : (k : Kind F) → (t_owner ≤ kind_column k) × (kind_column k ≤ t_nullifier)
  kind_column-range (owner_kind s p) = (omega arith, omega arith)
  kind_column-range (leaf_kind r e) = (omega arith, omega arith)
  kind_column-range (merkle_kind s b) = (omega arith, omega arith)
  kind_column-range (nullifier_kind s p u n) = (omega arith, omega arith)
