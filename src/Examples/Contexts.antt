-- ===== src/Examples/Contexts.antt =====
-- A concrete crate winterfell, as far as `TitleAir::new` calls it: options are the logarithm of the
-- blowup factor less one, and a context is the numbers of its constraints and assertions.
use yaqeen_stark_winterfell.Prelude.{
  ℕ, zero, suc, ◌+◌, ◌-◌, ◌^◌, ◌<◌, ◌≤◌, ◌≡◌, refl, sym, ap, subst, Bool, true, ◌&&◌, Option, none,
  some, List, [], ◌∷◌, length, All, leb, nat_beq, if◌then◌else◌, arith, Bool-cases, inl, inr,
}
use yaqeen_stark_winterfell.Air.Context.{Degree, base, num_cycles, WinterAir, Documented}

abbrev least : Degree → ℕ
least d = base d + num_cycles d - 1

abbrev fits : ℕ → List Degree → Bool
fits blowup [] = true
fits blowup (d ∷ l) = leb (least d) blowup && fits blowup l

-- The powers of two from 2 to 128.
abbrev log_of : ℕ → Option ℕ
log_of b =
    if nat_beq b 2
    then some 0
    else if nat_beq b 4
    then some 1
    else if nat_beq b 8
    then some 2
    else if nat_beq b 16
    then some 3
    else if nat_beq b 32
    then some 4
    else if nat_beq b 64
    then some 5
    else if nat_beq b 128
    then some 6
    else none

abbrev pub small_winter : WinterAir ℕ (ℕ × ℕ)
small_winter = record {
  new_options = λ q b g f r. log_of b;
  blowup_factor = λ k. 2 ^ (k + 1);
  min_blowup_factor = least;
  new_context = λ width rows degrees n k.
      if fits (2 ^ (k + 1)) degrees then some (length degrees, n) else none;
  num_transition_constraints = λ c. c.0;
  num_assertions = λ c. c.1;
}

fits-true : (b : ℕ) (l : List Degree) → All (λ d. least d ≤ b) l → fits b l ≡ true
fits-true b [] h = refl
fits-true b (d ∷ l) (p, h) = ground (arith, p, fits-true b l h)

fits-All : (b : ℕ) (l : List Degree) → fits b l ≡ true → All (λ d. least d ≤ b) l
fits-All b [] h = tt
fits-All b (d ∷ l) h = ground (arith, fits-All b l)

log_of-power :
    (b k : ℕ) → b ≡ 2 ^ k → 0 < k → k < 8 → (j : ℕ) × (log_of b ≡ some j) × (2 ^ (j + 1) ≡ b)
log_of-power b k e positive small =
    subst (λ x. (j : ℕ) × (log_of x ≡ some j) × (2 ^ (j + 1) ≡ x)) (sym e) (powers k positive small)
  where
    powers : (k : ℕ) → 0 < k → k < 8 → (j : ℕ) × (log_of (2 ^ k) ≡ some j) × (2 ^ (j + 1) ≡ 2 ^ k)
    powers zero positive small = absurd (omega arith)
    powers (suc zero) positive small = (0, refl, refl)
    powers (suc (suc zero)) positive small = (1, refl, refl)
    powers (suc (suc (suc zero))) positive small = (2, refl, refl)
    powers (suc (suc (suc (suc zero)))) positive small = (3, refl, refl)
    powers (suc (suc (suc (suc (suc zero))))) positive small = (4, refl, refl)
    powers (suc (suc (suc (suc (suc (suc zero)))))) positive small = (5, refl, refl)
    powers (suc (suc (suc (suc (suc (suc (suc zero))))))) positive small = (6, refl, refl)
    powers (suc (suc (suc (suc (suc (suc (suc (suc k)))))))) positive small = absurd (omega arith)

pub small_winter-Documented : Documented small_winter
small_winter-Documented = record {
  options_made = λ q b g f r k j m q0 q1 e k0 k1 g1 f1 j0 j1 r1 m1. log_of-power b k e k0 k1;
  blowup_power = λ k. (k + 1, refl, omega arith);
  context_made = λ width rows degrees n k some_degree some_assertion h. (
    (length degrees, n),
    ap (λ b. if b then some (length degrees, n) else none) (fits-true (2 ^ (k + 1)) degrees h),
    refl,
    refl,
  );
  context_refused = λ width rows degrees n k bad. elim (Bool-cases (fits (2 ^ (k + 1)) degrees)) [
    | inl e ↦ absurd (bad (fits-All (2 ^ (k + 1)) degrees e))
    | inr e ↦ ap (λ b. if b then some (length degrees, n) else none) e
  ];
  accommodates = λ d k positive h. omega (arith, h);
  needs = λ d. omega arith;
}
