-- ===== src/Examples/Instances.antt =====
-- The field of two elements, accounts named by numbers, and a proof system that accepts one proof.
use yaqeen_stark_winterfell.Prelude.{
  ◌⊎◌, inl, inr, ℕ, ◌%◌, ◌<◌, ◌≡◌, ◌↔◌, refl, Bool, true, false, not, ◌&&◌, List, [], ◌∷◌,
  PartialEq, nat_beq, nat_eq, arith, if◌then◌else◌,
}
use yaqeen_stark_winterfell.Field.{FieldOps, Encoding, Arithmetic}
use yaqeen_stark_winterfell.Canister.Outcome.{Text}
use yaqeen_stark_winterfell.Canister.State.{
  Principals, State, Challenge, VerifyPublicInputs, VerifyOk, Record, fresh_state,
}
use yaqeen_stark_winterfell.Canister.Verify.{Winterfell, Reply, returned, failed, panicked}

abbrev xor : Bool → Bool → Bool
xor true b = not b
xor false b = b

pub not-xor_iff : (a b : Bool) → (not (xor a b) ≡ true) ↔ (a ≡ b)
not-xor_iff true true = ground arith
not-xor_iff true false = ground arith
not-xor_iff false true = ground arith
not-xor_iff false false = ground arith

abbrev bit_eq : PartialEq Bool
bit_eq = record { eq = λ a b. not (xor a b); eq_iff = not-xor_iff }

instance abbrev pub bits : FieldOps Bool
bits = record {
  modulus = 2;
  zero_fe = false;
  one_fe = true;
  add = xor;
  sub = xor;
  mul = ◌&&◌;
  exp = λ b n. if nat_beq n 0 then true else b;
  new = λ n. nat_beq (n % 2) 1;
  as_int = λ b. if b then 1 else 0;
  eq = bit_eq;
}

pub bits-Encoding : Encoding Bool
bits-Encoding = record {
  modulus_le = omega arith;
  as_int-lt = below;
  new-as_int = back;
  as_int-new = λ n h. ground arith;
}
  where
    below : (x : Bool) → bits.as_int x < 2
    below true = omega arith
    below false = omega arith

    back : (x : Bool) → bits.new (bits.as_int x) ≡ x
    back true = refl
    back false = refl

-- Account 0 is anonymous.
instance abbrev pub accounts : Principals ℕ
accounts = record { eq = nat_eq; anonymous = 0 }

-- The proof system decodes the one byte 1, panics on the byte 2, and accepts what it decodes.
abbrev decode : List ℕ → Reply Bool
decode [] = failed
decode (b ∷ _) = if nat_beq b 1 then returned true else if nat_beq b 2 then panicked else failed

abbrev pub proofs : Winterfell Bool Bool
proofs = record { from_bytes = decode; verify = λ p i level. returned tt }

abbrev pub one_text : Text
one_text = b'1' ∷ []

-- The challenge 0 for account 7, and a state that holds it.
abbrev pub challenge : Challenge Bool ℕ
challenge = record {
  registry_id = 1;
  merkle_root = true;
  purpose = 9;
  request_nonce = 0;
  current_timestamp = 0;
  expires_at = 300_000_000_000;
  consumed = false;
  requester = 7;
}

abbrev pub issued : State Bool ℕ
issued = record fresh_state {
  admins = 5 ∷ 6 ∷ [];
  challenges = (0, challenge) ∷ [];
  next_challenge_id = 1;
  next_nonce = 1;
}

abbrev pub inputs : VerifyPublicInputs
inputs = record {
  registry_id = 1;
  merkle_root = one_text;
  purpose = 9;
  request_nonce = 0;
  current_timestamp = 0;
  nullifier = b'+' ∷ b'0' ∷ b'3' ∷ [];
}

abbrev pub receipt : VerifyOk
receipt = record { nullifier = one_text }

-- The record of property 44, whose owner commitment is the element one.
abbrev pub deed : Record
deed = record {
  property_id = 44;
  owner_commitment = one_text;
  encumbrance_flag = 0;
  license_status = 1;
  license_expiry = 99;
}

pub bits-Arithmetic : Arithmetic Bool
bits-Arithmetic = record {
  add_comm = add_comm;
  add_assoc = add_assoc;
  add-zero = add-zero;
  mul_comm = mul_comm;
  mul_assoc = mul_assoc;
  mul-one = mul-one;
  mul-add = mul-add;
  sub-add_cancel = sub-add_cancel;
  eq-zero_of_mul = eq-zero_of_mul;
  one-ne-zero = λ e. cc;
  new-zero = refl;
  new-one = refl;
  new-add = λ n m h. ground arith;
}
  where
    add_comm : (a b : Bool) → xor a b ≡ xor b a
    add_comm true true = refl
    add_comm true false = refl
    add_comm false true = refl
    add_comm false false = refl

    add_assoc : (a b c : Bool) → xor (xor a b) c ≡ xor a (xor b c)
    add_assoc true true true = refl
    add_assoc true true false = refl
    add_assoc true false c = refl
    add_assoc false b c = refl

    add-zero : (a : Bool) → xor a false ≡ a
    add-zero true = refl
    add-zero false = refl

    mul_comm : (a b : Bool) → (a && b) ≡ (b && a)
    mul_comm true true = refl
    mul_comm true false = refl
    mul_comm false true = refl
    mul_comm false false = refl

    mul_assoc : (a b c : Bool) → ((a && b) && c) ≡ (a && (b && c))
    mul_assoc true b c = refl
    mul_assoc false b c = refl

    mul-one : (a : Bool) → (a && true) ≡ a
    mul-one true = refl
    mul-one false = refl

    mul-add : (a b c : Bool) → (a && xor b c) ≡ xor (a && b) (a && c)
    mul-add true b c = refl
    mul-add false b c = refl

    sub-add_cancel : (a b : Bool) → xor (xor a b) b ≡ a
    sub-add_cancel true true = refl
    sub-add_cancel true false = refl
    sub-add_cancel false true = refl
    sub-add_cancel false false = refl

    eq-zero_of_mul : (a b : Bool) → (a && b) ≡ false → (a ≡ false) ⊎ (b ≡ false)
    eq-zero_of_mul false b h = inl refl
    eq-zero_of_mul true b h = inr h
