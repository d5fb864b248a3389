-- ===== src/Digits/RoundTrip.antt =====
-- Reading back what `big.Int` prints, in base 10 with a sign and in base 256 with none.
use native.Mathlib.Nat.{div-add-mod, mul_comm}
use theta_rosetta_rpc_adapto.Prelude.{
  ℕ, zero, suc, ◌+◌, ◌*◌, ◌/◌, ◌%◌, ◌≤◌, ◌<◌, ◌≡◌, ◌≢◌, ◌-◌, ◌∙◌, refl, sym, ap, inl, inr, List, [],
  ◌∷◌, map, All, some, arith, ◌==◌, Bool-cases, true, false,
}
use theta_rosetta_rpc_adapto.Prelude.Int.{ℤ, pos, negsuc, neg}
use theta_rosetta_rpc_adapto.Digits.{
  to_base_onto, to_base, from_base_onto, from_base, big_bytes, to_char, natural_string, big_string,
  read_digits, read_natural, signed, set_string, minus_sign,
}

-- Every digit that is put in front is below the base.
to_base_onto-below :
    (b fuel n : ℕ) (acc : List ℕ)
    → 1 < b
    → All (λ d. d < b) acc
    → All (λ d. d < b) (to_base_onto b fuel n acc)
unfolding to_base_onto
to_base_onto-below b zero n acc h k = k
to_base_onto-below b (suc fuel) n acc h k =
    ground (arith, to_base_onto-below b fuel (n / b) ((n % b) ∷ acc) h (omega arith, k))

div_mod : (b n : ℕ) → (n / b) * b + n % b ≡ n
div_mod b n = omega (arith, div-add-mod n b, mul_comm (n / b) b)

div-le-fuel : (b fuel n : ℕ) → 1 < b → n ≤ suc fuel → n ≢ 0 → n / b ≤ fuel
div-le-fuel b fuel n h k p = grind arith

cancel : (d : ℕ) → d + 48 - 48 ≡ d
cancel d = omega arith

from_base_onto-to_base :
    (b fuel n : ℕ) (acc : List ℕ)
    → 1 < b
    → n ≤ fuel
    → from_base_onto b 0 (to_base_onto b fuel n acc) ≡ from_base_onto b n acc
unfolding to_base_onto from_base_onto
from_base_onto-to_base b zero n acc h k = let none_left : n ≡ 0 = omega arith in rw none_left
from_base_onto-to_base b (suc fuel) n acc h k = elim (Bool-cases (n == 0)) [
  | inl done ↦ let none_left : n ≡ 0 = ground arith in rw none_left
  | inr more ↦ rw more (
      from_base_onto-to_base b fuel (n / b) ((n % b) ∷ acc) h
        (div-le-fuel b fuel n h k (ground arith))
      ∙ ap (λ m. from_base_onto b m acc) (div_mod b n))
]

-- The digits of a number stand for it, in every base.
pub from_base-to_base : (b n : ℕ) → 1 < b → from_base b (to_base b n) ≡ n
unfolding from_base to_base from_base_onto
from_base-to_base b n h = from_base_onto-to_base b n n [] h (omega arith)

-- So the keys of two heights differ.
pub big_bytes-injective : (m n : ℕ) → big_bytes m ≡ big_bytes n → m ≡ n
unfolding big_bytes
big_bytes-injective m n e =
    sym (from_base-to_base 256 m (omega arith))
    ∙ ap (from_base 256) e
    ∙ from_base-to_base 256 n (omega arith)

read_digits-to_char :
    (acc : ℕ) (ds : List ℕ)
    → All (λ d. d < 10) ds
    → read_digits acc (map to_char ds) ≡ some (from_base_onto 10 acc ds)
unfolding read_digits from_base_onto
read_digits-to_char acc [] h = refl
read_digits-to_char acc (d ∷ ds) h =
    ground (arith, read_digits-to_char (acc * 10 + (d + 48 - 48)) ds h.1, cancel d)

read_natural-to_char :
    (ds : List ℕ) (n : ℕ)
    → All (λ d. d < 10) ds
    → from_base 10 ds ≡ suc n
    → read_natural (map to_char ds) ≡ some (suc n)
unfolding read_natural from_base from_base_onto
read_natural-to_char [] n h e = absurd (omega arith)
read_natural-to_char (d ∷ ds) n h e = read_digits-to_char 0 (d ∷ ds) h ∙ ap some e

to_base-below : (n : ℕ) → All (λ d. d < 10) (to_base 10 n)
unfolding to_base
to_base-below n = to_base_onto-below 10 n n [] (omega arith) tt

read_natural-natural_string : (n : ℕ) → read_natural (natural_string (suc n)) ≡ some (suc n)
unfolding natural_string
read_natural-natural_string n =
    read_natural-to_char (to_base 10 (suc n)) n (to_base-below (suc n))
      (from_base-to_base 10 (suc n) (omega arith))

-- A text of digits starts with neither sign.
set_string_unsigned :
    (ds : List ℕ) → set_string (map to_char ds) ≡ signed false (read_natural (map to_char ds))
unfolding set_string read_natural
set_string_unsigned [] = refl
set_string_unsigned (d ∷ ds) = ground arith

set_string-natural_string : (n : ℕ) → set_string (natural_string (suc n)) ≡ some (pos (suc n))
unfolding natural_string signed
set_string-natural_string n =
    set_string_unsigned (to_base 10 (suc n)) ∙ ap (signed false) (read_natural-natural_string n)

set_string-minus_sign : (n : ℕ) → set_string (minus_sign ∷ natural_string (suc n)) ≡ some (negsuc n)
unfolding set_string signed neg
set_string-minus_sign n = ap (signed true) (read_natural-natural_string n)

-- `SetString` reads what `String` prints.
pub set_string-big_string : (z : ℤ) → set_string (big_string z) ≡ some z
unfolding big_string set_string read_natural signed
set_string-big_string (pos zero) = refl
set_string-big_string (pos (suc n)) = set_string-natural_string n
set_string-big_string (negsuc n) = set_string-minus_sign n
