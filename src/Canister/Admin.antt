-- ===== src/Canister/Admin.antt =====
-- The allow-list of administrators: `is_admin`, `bootstrap_admin`, `add_admin`, `remove_admin`.
-- A call returns its result and the state after it.
pub mod Laws
use yaqeen_stark_winterfell.Prelude.{
  Bool, true, false, List, [], ◌∷◌, ◌++◌, PartialEq, ◌==◌, length, leb, contains, retain_ne,
  if◌then◌else◌,
}
use yaqeen_stark_winterfell.Canister.Outcome.{
  Outcome, ok, err, not_controller, already_bootstrapped, unauthorized, last_admin,
}
use yaqeen_stark_winterfell.Canister.State.{State, Principals, principal_eq}

abbrev pub is_empty : {A : Type 0} → List A → Bool
is_empty [] = true
is_empty (x ∷ l) = false

module _ {F P : Type 0} ⦃p : Principals P⦄ where
  unfoldable pub is_admin : State F P → P → Bool
  is_admin s a = contains s.admins a

  unfoldable pub bootstrap_admin_impl : State F P → Bool → P → Outcome (Unit {0}) × State F P
  bootstrap_admin_impl s caller_is_controller real_admin =
      if caller_is_controller
      then if is_empty s.admins
        then (ok tt, record s { admins = s.admins ++ real_admin ∷ [] })
        else (err already_bootstrapped, s)
      else (err not_controller, s)

  unfoldable pub add_admin_impl : State F P → P → P → Outcome (Unit {0}) × State F P
  unfolding is_admin
  add_admin_impl s caller new_admin =
      if is_admin s caller
      then if contains s.admins new_admin
        then (ok tt, s)
        else (ok tt, record s { admins = s.admins ++ new_admin ∷ [] })
      else (err unauthorized, s)

  unfoldable pub remove_admin_impl : State F P → P → P → Outcome (Unit {0}) × State F P
  unfolding is_admin
  remove_admin_impl s caller old_admin =
      if is_admin s caller
      then if leb (length s.admins) 1
        then (err last_admin, s)
        else (ok tt, record s { admins = retain_ne s.admins old_admin })
      else (err unauthorized, s)
