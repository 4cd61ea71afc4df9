-- ===== src/Air/Inputs.antt =====
-- `PublicInputs` of air/src/lib.rs.
use yaqeen_stark_winterfell.Prelude.{List, [], ◌∷◌}

pub record PublicInputs (F : Type 0) : Type 0 where
  pub registry_id : F
  pub merkle_root : F
  pub purpose : F
  pub request_nonce : F
  pub current_timestamp : F
  pub nullifier : F

unfoldable pub to_elements : {F : Type 0} → PublicInputs F → List F
to_elements i =
    i.registry_id ∷ i.merkle_root ∷ i.purpose ∷ i.request_nonce ∷ i.current_timestamp ∷ i.nullifier
    ∷ []
