-- ===== src/Canister/Text.antt =====
-- Field elements as decimal text: `fe`, `parse_fe`, `fe_to_string` and `canonical_nullifier` of
-- canister/src/lib.rs, with the parts of Rust's library that they call. A text is the list of its
-- code points.
pub mod Decimal
pub mod Canonical
use yaqeen_stark_winterfell.Prelude.{
  ℕ, zero, suc, ◌+◌, ◌-◌, ◌*◌, ◌/◌, ◌%◌, ◌^◌, Bool, true, false, ◌&&◌, ◌||◌, Option, none, some,
  List, [], ◌∷◌, ◌++◌, ltb, leb, nat_beq, if◌then◌else◌,
}
use yaqeen_stark_winterfell.Field.{FieldOps}
use yaqeen_stark_winterfell.Canister.Outcome.{Outcome, ok, err, Error, parse_failed, ◌>>=◌, Text}

-- `char::is_whitespace`: Unicode's White_Space.
unfoldable pub is_whitespace : ℕ → Bool
is_whitespace c =
    (leb 0x9 c && leb c 0xd)
    || nat_beq c 0x20
    || nat_beq c 0x85
    || nat_beq c 0xa0
    || nat_beq c 0x1680
    || (leb 0x2000 c && leb c 0x200a)
    || nat_beq c 0x2028
    || nat_beq c 0x2029
    || nat_beq c 0x202f
    || nat_beq c 0x205f
    || nat_beq c 0x3000

unfoldable pub trim_start : Text → Text
trim_start [] = []
trim_start (c ∷ s) = let rest = trim_start s in if is_whitespace c then rest else c ∷ s

-- A character that is kept, before what is left of the end.
unfoldable pub trim_end : Text → Text
trim_end [] = []
trim_end (c ∷ s) = elim (trim_end s) [
  | [] ↦ if is_whitespace c then [] else c ∷ []
  | d ∷ r ↦ c ∷ d ∷ r
]

unfoldable pub is_digit : ℕ → Bool
is_digit c = leb b'0' c && leb c b'9'

-- The digits of `u128::from_str`, read with overflow checks.
unfoldable pub read_digits : ℕ → Text → Option ℕ
read_digits n [] = some n
read_digits n (c ∷ s) =
    let v = n * 10 + (c - b'0') in
    let rest = read_digits v s in if is_digit c && ltb v (2 ^ 128) then rest else none

-- `u128::from_str`: a sign `+` is allowed before at least one digit.
unfoldable pub parse_u128 : Text → Option ℕ
unfolding read_digits is_digit
parse_u128 [] = none
parse_u128 (c ∷ []) = if nat_beq c b'+' then none else read_digits 0 (c ∷ [])
parse_u128 (c ∷ d ∷ s) = if nat_beq c b'+' then read_digits 0 (d ∷ s) else read_digits 0 (c ∷ d ∷ s)

-- `Display` of an unsigned integer of at most `f` digits.
unfoldable pub decimal : ℕ → ℕ → Text
decimal zero n = []
decimal (suc f) n =
    let rest = decimal f (n / 10) in
    if ltb n 10 then (b'0' + n) ∷ [] else rest ++ (b'0' + n % 10) ∷ []

-- `2 ^ 128` has 39 digits.
unfoldable pub print_u128 : ℕ → Text
unfolding decimal
print_u128 n = decimal 39 n

module _ {F : Type 0} ⦃o : FieldOps F⦄ where
  unfoldable pub fe : ℕ → F
  fe n = o.new n

  unfoldable pub parse_fe : Text → Outcome F
  unfolding parse_u128 trim_start trim_end is_whitespace
  parse_fe s = elim (parse_u128 (trim_end (trim_start s))) [
    | none ↦ err (parse_failed s)
    | some n ↦ ok (o.new n)
  ]

  unfoldable pub fe_to_string : F → Text
  unfolding print_u128
  fe_to_string v = print_u128 (o.as_int v)

-- The field is an explicit argument: neither the text nor the result shows it.
unfoldable pub canonical_nullifier : (F : Type 0) ⦃o : FieldOps F⦄ → Text → Outcome Text
unfolding parse_fe fe_to_string
canonical_nullifier F s = do v ← parse_fe {F = F} s; ok (fe_to_string v)
