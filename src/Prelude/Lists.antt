-- ===== src/Prelude/Lists.antt =====
-- Lists measured and indexed by native numbers, under the library's names.
use Prim.Native.Nat.{ℕ, zero, suc, ◌+◌, ◌<◌, ◌≤◌}
use mathlib.Core.Path.{◌≡◌, refl, ap, ◌∙◌, subst}
use mathlib.Core.List.{List, [], ◌∷◌, ◌++◌}
use mathlib.Core.Option.{Option, none, some}
use native.Mathlib.Omega.{arith}
use mathlib.Core.Bool.{Bool, false, ◌||◌}
use yaqeen_stark_winterfell.Prelude.Tests.{PartialEq, ◌==◌, if◌then◌else◌}

module _ {ℓ} {A : Type ℓ} where
  abbrev pub length : List A → ℕ
  length [] = 0
  length (x ∷ xs) = suc (length xs)

  abbrev pub get_elem? : List A → ℕ → Option A
  get_elem? [] i = none
  get_elem? (x ∷ xs) zero = some x
  get_elem? (x ∷ xs) (suc i) = get_elem? xs i

  abbrev pub get_or : List A → ℕ → A → A
  get_or [] i d = d
  get_or (x ∷ xs) zero d = x
  get_or (x ∷ xs) (suc i) d = get_or xs i d

  abbrev pub take : ℕ → List A → List A
  take zero xs = []
  take (suc n) [] = []
  take (suc n) (x ∷ xs) = x ∷ take n xs

  -- `f i, …, f (i + n - 1)`: a Rust range under `map`, or `std::array::from_fn`.
  abbrev pub tabulate : ℕ → ℕ → (ℕ → A) → List A
  tabulate zero i f = []
  tabulate (suc n) i f = f i ∷ tabulate n (suc i) f

  pub length-append : (xs ys : List A) → length (xs ++ ys) ≡ length xs + length ys
  length-append [] ys = omega arith
  length-append (x ∷ xs) ys = omega (arith, length-append xs ys)

  pub length-tabulate : (n i : ℕ) (f : ℕ → A) → length (tabulate n i f) ≡ n
  length-tabulate zero i f = refl
  length-tabulate (suc n) i f = ap suc (length-tabulate n (suc i) f)

  -- A predicate on every element.
  abbrev pub All {κ} : (A → Type κ) → List A → Type κ
  All P [] = Unit
  All P (x ∷ xs) = P x × All P xs

  pub All-append {κ} : (P : A → Type κ) (xs ys : List A) → All P (xs ++ ys) → All P xs × All P ys
  All-append P [] ys h = (tt, h)
  All-append P (x ∷ xs) ys (p, h) = let (a, b) = All-append P xs ys h in ((p, a), b)

  pub All-map {κ μ} :
      {P : A → Type κ} {Q : A → Type μ} (xs : List A) → ((x : A) → P x → Q x) → All P xs → All Q xs
  All-map [] f h = tt
  All-map (x ∷ xs) f (p, h) = (f x p, All-map xs f h)

  -- The converses of the lemmas on `All`.
  pub All-append_intro {κ} :
      (P : A → Type κ) (xs ys : List A) → All P xs → All P ys → All P (xs ++ ys)
  All-append_intro P [] ys h k = k
  All-append_intro P (x ∷ xs) ys (p, h) k = (p, All-append_intro P xs ys h k)

  pub All-tabulate_intro {κ} :
      (P : A → Type κ) (n i : ℕ) (f : ℕ → A)
      → ((k : ℕ) → i ≤ k → k < i + n → P (f k))
      → All P (tabulate n i f)
  All-tabulate_intro P zero i f h = tt
  All-tabulate_intro P (suc n) i f h = (
    h i (omega arith) (omega arith),
    All-tabulate_intro P n (suc i) f (λ k a b. h k (omega arith) (omega arith)),
  )

  pub All-tabulate {κ} :
      (P : A → Type κ) (n i : ℕ) (f : ℕ → A)
      → All P (tabulate n i f)
      → (k : ℕ) → k < n
      → P (f (i + k))
  All-tabulate P zero i f h k lt = absurd (omega arith)
  All-tabulate P (suc n) i f (p, h) zero lt =
      let e : i ≡ i + 0 = omega arith in subst (λ x. P (f x)) e p
  All-tabulate P (suc n) i f (p, h) (suc k) lt =
      let e : suc i + k ≡ i + suc k = omega arith in
      subst (λ x. P (f x)) e (All-tabulate P n (suc i) f h k (omega arith))

  pub get_or-tabulate :
      (n i : ℕ) (f : ℕ → A) (k : ℕ) (d : A) → k < n → get_or (tabulate n i f) k d ≡ f (i + k)
  get_or-tabulate zero i f k d lt = absurd (omega arith)
  get_or-tabulate (suc n) i f zero d lt = let e : i ≡ i + 0 = omega arith in ap f e
  get_or-tabulate (suc n) i f (suc k) d lt =
      let e : suc i + k ≡ i + suc k = omega arith in
      get_or-tabulate n (suc i) f k d (omega arith) ∙ ap f e

  -- The same from zero, as Rust's arrays are made.
  pub get_or-tabulate_zero :
      (n : ℕ) (f : ℕ → A) (k : ℕ) (d : A) → k < n → get_or (tabulate n 0 f) k d ≡ f k
  get_or-tabulate_zero n f k d lt =
      let e : 0 + k ≡ k = omega arith in get_or-tabulate n 0 f k d lt ∙ ap f e

  pub All-tabulate_zero {κ} :
      (P : A → Type κ) (n : ℕ) (f : ℕ → A) → All P (tabulate n 0 f) → (k : ℕ) → k < n → P (f k)
  All-tabulate_zero P n f h k lt =
      let e : 0 + k ≡ k = omega arith in subst (λ x. P (f x)) e (All-tabulate P n 0 f h k lt)

  pub get_or-append :
      (xs ys : List A) (k : ℕ) (d : A) → k < length xs → get_or (xs ++ ys) k d ≡ get_or xs k d
  get_or-append [] ys k d lt = absurd (omega arith)
  get_or-append (x ∷ xs) ys zero d lt = refl
  get_or-append (x ∷ xs) ys (suc k) d lt = get_or-append xs ys k d (omega arith)

  -- Functions that agree on the range give one list.
  pub tabulate_ext :
      (n i : ℕ) (f g : ℕ → A)
      → ((k : ℕ) → i ≤ k → k < i + n → f k ≡ g k)
      → tabulate n i f ≡ tabulate n i g
  tabulate_ext zero i f g h = refl
  tabulate_ext (suc n) i f g h = λ j.
      h i (omega arith) (omega arith) j
      ∷ tabulate_ext n (suc i) f g (λ k a b. h k (omega arith) (omega arith)) j

  -- The first elements of a list that is long enough.
  pub take-tabulate :
      (n : ℕ) (xs : List A) (d : A) → n ≤ length xs → take n xs ≡ tabulate n 0 (λ i. get_or xs i d)
  take-tabulate zero xs d h = refl
  take-tabulate (suc n) [] d h = absurd (omega arith)
  take-tabulate (suc n) (x ∷ xs) d h =
      ap (λ l. x ∷ l) (take-tabulate n xs d (omega arith) ∙ tabulate_shift n 0)
    where
      tabulate_shift :
          (m i : ℕ)
          → tabulate m i (λ k. get_or xs k d) ≡ tabulate m (suc i) (λ k. get_or (x ∷ xs) k d)
      tabulate_shift zero i = refl
      tabulate_shift (suc m) i = ap (λ l. get_or xs i d ∷ l) (tabulate_shift m (suc i))

module _ {ℓ} {A : Type ℓ} ⦃e : PartialEq A⦄ where
  -- `iter().any(|a| a == x)` and `contains`.
  unfoldable pub contains : List A → A → Bool
  contains [] x = false
  contains (a ∷ l) x = a == x || contains l x

  -- `retain(|a| a != x)`.
  unfoldable pub retain_ne : List A → A → List A
  retain_ne [] x = []
  retain_ne (a ∷ l) x = let rest = retain_ne l x in if a == x then rest else a ∷ rest

  -- No element stands twice.
  abbrev pub IsDistinct : List A → Type 0
  IsDistinct [] = Unit
  IsDistinct (a ∷ l) = (contains l a ≡ false) × IsDistinct l
