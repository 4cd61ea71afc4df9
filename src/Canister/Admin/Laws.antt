-- ===== src/Canister/Admin/Laws.antt =====
-- Proofs about the allow-list.
use yaqeen_stark_winterfell.Prelude.{
  ◌+◌, ◌≤◌, ◌<◌, ◌≡◌, ◌≢◌, refl, Bool, true, false, ◌||◌, List, [], ◌∷◌, ◌++◌, PartialEq, ◌==◌,
  length, contains, retain_ne, IsDistinct, arith, if◌then◌else◌,
}
use yaqeen_stark_winterfell.Canister.Outcome.{ok}
use yaqeen_stark_winterfell.Canister.State.{State, Principals, principal_eq}
use yaqeen_stark_winterfell.Canister.Admin.{
  is_admin, bootstrap_admin_impl, add_admin_impl, remove_admin_impl, is_empty,
}

module _ {A : Type 0} ⦃e : PartialEq A⦄ where
  contains-append_one : (l : List A) (x y : A) → contains (l ++ x ∷ []) y ≡ (contains l y || x == y)
  unfolding contains
  contains-append_one [] x y = ground arith
  contains-append_one (a ∷ l) x y = ground (arith, contains-append_one l x y)

  contains-retain_ne :
      (l : List A) (x y : A) → contains (retain_ne l x) y ≡ (if x == y then false else contains l y)
  unfolding contains retain_ne
  contains-retain_ne [] x y = ground arith
  contains-retain_ne (a ∷ l) x y =
      ground (arith, contains-retain_ne l x y, e.eq_iff a x, e.eq_iff a y, e.eq_iff x y)

  retain_ne-absent : (l : List A) (x : A) → contains l x ≡ false → retain_ne l x ≡ l
  unfolding contains retain_ne
  retain_ne-absent [] x h = refl
  retain_ne-absent (a ∷ l) x h = ground (arith, retain_ne-absent l x)

  -- At most one element is dropped from a list with no repetition.
  length-retain_ne : (l : List A) (x : A) → IsDistinct l → length l ≤ length (retain_ne l x) + 1
  unfolding retain_ne
  length-retain_ne [] x h = omega arith
  length-retain_ne (a ∷ l) x h =
      ground (arith, length-retain_ne l x, retain_ne-absent l x, e.eq_iff a x)

  IsDistinct-append_one :
      (l : List A) (x : A) → IsDistinct l → contains l x ≡ false → IsDistinct (l ++ x ∷ [])
  unfolding contains
  IsDistinct-append_one [] x d h = ground arith
  IsDistinct-append_one (a ∷ l) x d h =
      ground
        (arith, IsDistinct-append_one l x, contains-append_one l x a, e.eq_iff a x, e.eq_iff x a)

  IsDistinct-retain_ne : (l : List A) (x : A) → IsDistinct l → IsDistinct (retain_ne l x)
  unfolding retain_ne
  IsDistinct-retain_ne [] x d = tt
  IsDistinct-retain_ne (a ∷ l) x d =
      ground (arith, IsDistinct-retain_ne l x, contains-retain_ne l x a)

  contains-empty : (l : List A) (x : A) → is_empty l ≡ true → contains l x ≡ false
  unfolding contains
  contains-empty [] x h = refl
  contains-empty (a ∷ l) x h = cc

-- The list that the operations keep: no principal stands twice on it.
abbrev pub HasDistinctAdmins : {F P : Type 0} ⦃p : Principals P⦄ → State F P → Type 0
HasDistinctAdmins s = IsDistinct s.admins

module _ {F P : Type 0} ⦃p : Principals P⦄ (s : State F P) (d : HasDistinctAdmins s) where
  pub bootstrap_admin_impl-distinct :
      (controller : Bool) (a : P) → HasDistinctAdmins (bootstrap_admin_impl s controller a).1
  unfolding bootstrap_admin_impl
  bootstrap_admin_impl-distinct controller a =
      ground (arith, contains-empty s.admins a, IsDistinct-append_one s.admins a d)

  pub add_admin_impl-distinct : (caller a : P) → HasDistinctAdmins (add_admin_impl s caller a).1
  unfolding add_admin_impl
  add_admin_impl-distinct caller a = ground (arith, IsDistinct-append_one s.admins a d)

  pub remove_admin_impl-distinct :
      (caller a : P) → HasDistinctAdmins (remove_admin_impl s caller a).1
  unfolding remove_admin_impl
  remove_admin_impl-distinct caller a = ground (arith, IsDistinct-retain_ne s.admins a d)

  -- Once there is an administrator, there is one after any removal.
  pub remove_admin_impl-nonempty :
      (caller a : P) → 0 < length s.admins → 0 < length (remove_admin_impl s caller a).1.admins
  unfolding remove_admin_impl
  remove_admin_impl-nonempty caller a h = ground (arith, length-retain_ne s.admins a d)

module _ {F P : Type 0} ⦃p : Principals P⦄ (s : State F P) (caller a x : P) where
  -- A removal that succeeds was asked for by an administrator, took the named principal off the
  -- allow-list and nobody else; one that does not succeed leaves the state as it was.
  pub remove_admin_impl_lem :
      ((remove_admin_impl s caller a).0 ≡ ok tt
        → (is_admin s caller ≡ true)
          × (is_admin (remove_admin_impl s caller a).1 x
              ≡ (if a == x then false else is_admin s x)))
      × ((remove_admin_impl s caller a).0 ≢ ok tt → (remove_admin_impl s caller a).1 ≡ s)
  unfolding remove_admin_impl
  remove_admin_impl_lem = ground (arith, contains-retain_ne s.admins a x)

  -- An addition that succeeds was asked for by an administrator, put the named principal on the
  -- allow-list and changed nobody else's membership; one that does not succeed leaves the state
  -- as it was.
  pub add_admin_impl_lem :
      ((add_admin_impl s caller a).0 ≡ ok tt
        → (is_admin s caller ≡ true)
          × (is_admin (add_admin_impl s caller a).1 x ≡ (if a == x then true else is_admin s x)))
      × ((add_admin_impl s caller a).0 ≢ ok tt → (add_admin_impl s caller a).1 ≡ s)
  unfolding add_admin_impl
  add_admin_impl_lem = ground (arith, contains-append_one s.admins a x, p.eq.eq_iff a x)
