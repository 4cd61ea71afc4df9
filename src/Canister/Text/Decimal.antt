-- ===== src/Canister/Text/Decimal.antt =====
-- Proofs about printing a number and reading it.
use native.Mathlib.Nat.{pow-suc}
use yaqeen_stark_winterfell.Prelude.{
  ℕ, zero, suc, ◌+◌, ◌-◌, ◌*◌, ◌/◌, ◌%◌, ◌^◌, ◌<◌, ◌≤◌, ◌≡◌, ◌≢◌, refl, ap, ◌∙◌, false, some, [],
  ◌∷◌, ◌++◌, All, ltb, arith, Bool-cases, inl, inr,
}
use yaqeen_stark_winterfell.Canister.Outcome.{Text}
use yaqeen_stark_winterfell.Canister.Text.{
  is_whitespace, trim_start, trim_end, is_digit, read_digits, parse_u128, decimal, print_u128,
}

abbrev IsDigit : ℕ → Type 0
IsDigit c = (b'0' ≤ c) × (c ≤ b'9')

not_whitespace : (c : ℕ) → IsDigit c → is_whitespace c ≡ false
unfolding is_whitespace
not_whitespace c h = ground arith

trim_start-digits : (s : Text) → All IsDigit s → trim_start s ≡ s
unfolding trim_start
trim_start-digits [] h = refl
trim_start-digits (c ∷ s) h = rw (not_whitespace c h.0)

trim_end-digits : (s : Text) → All IsDigit s → trim_end s ≡ s
unfolding trim_end
trim_end-digits [] h = refl
trim_end-digits (c ∷ []) h = rw (not_whitespace c h.0)
trim_end-digits (c ∷ d ∷ s) h = rw (trim_end-digits (d ∷ s) h.1, trim_end)

All-append_one : (s : Text) (c : ℕ) → All IsDigit s → IsDigit c → All IsDigit (s ++ c ∷ [])
All-append_one [] c h p = (p, tt)
All-append_one (d ∷ s) c h p = (h.0, All-append_one s c h.1 p)

decimal-IsDigit : (f n : ℕ) → All IsDigit (decimal f n)
unfolding decimal
decimal-IsDigit zero n = tt
decimal-IsDigit (suc f) n = elim (Bool-cases (ltb n 10)) [
  | inl small ↦ rw small (ground arith)
  | inr large ↦
      rw large (All-append_one (decimal f (n / 10)) _ (decimal-IsDigit f (n / 10)) (omega arith))
]

read_digits_bind :
    (n : ℕ) (s : Text) (c m : ℕ)
    → read_digits n s ≡ some m
    → IsDigit c
    → m * 10 + (c - b'0') < 2 ^ 128
    → read_digits n (s ++ c ∷ []) ≡ some (m * 10 + (c - b'0'))
unfolding read_digits is_digit
read_digits_bind n [] c m e p h = ground arith
read_digits_bind n (d ∷ s) c m e p h = ground (arith, read_digits_bind (n * 10 + (d - b'0')) s c m)

read_digits-decimal : (f n : ℕ) → n < 10 ^ f → n < 2 ^ 128 → read_digits 0 (decimal f n) ≡ some n
unfolding decimal read_digits is_digit
read_digits-decimal zero n h b = ground arith
read_digits-decimal (suc f) n h b = elim (Bool-cases (ltb n 10)) [
  | inl small ↦ rw small (ground arith)
  | inr large ↦ rw large (
      read_digits_bind 0 (decimal f (n / 10)) (b'0' + n % 10) (n / 10)
        (read_digits-decimal f (n / 10) (omega (arith, pow-suc 10 f)) (omega arith)) (omega arith)
        (omega arith)
      ∙ ap some (omega arith))
]

parse_u128-digits :
    (s : Text) (n : ℕ) → All IsDigit s → s ≢ [] → read_digits 0 s ≡ some n → parse_u128 s ≡ some n
unfolding parse_u128
parse_u128-digits [] n h ne e = absurd (ne refl)
parse_u128-digits (c ∷ []) n h ne e = ground arith
parse_u128-digits (c ∷ d ∷ s) n h ne e = ground arith

append_one-ne-nil : (s : Text) (c : ℕ) → (s ++ c ∷ []) ≢ []
append_one-ne-nil [] c e = cc
append_one-ne-nil (d ∷ s) c e = cc

decimal-ne-nil : (f n : ℕ) → decimal (suc f) n ≢ []
unfolding decimal
decimal-ne-nil f n e = elim (Bool-cases (ltb n 10)) [
  | inl small ↦ cc (rw small at e)
  | inr large ↦ append_one-ne-nil (decimal f (n / 10)) _ (rw large at e)
]

-- Trimming and reading undo printing, at every `u128`.
pub parse_u128-print_u128 :
    (n : ℕ) → n < 2 ^ 128 → parse_u128 (trim_end (trim_start (print_u128 n))) ≡ some n
unfolding print_u128
parse_u128-print_u128 n h =
    let digits = decimal-IsDigit 39 n in
    rw (trim_start-digits (decimal 39 n) digits, trim_end-digits (decimal 39 n) digits)
      (parse_u128-digits (decimal 39 n) n digits (decimal-ne-nil 38 n)
        (read_digits-decimal 39 n (omega arith) h))
