-- ===== src/Digits.antt =====
-- The texts of `big.Int` (math/big of the Go standard library, as common/utils.go and
-- common/stake_service.go use it): `String`, `SetString` in base 10, and `Bytes`.
pub mod RoundTrip
use theta_rosetta_rpc_adapto.Prelude.{
  ℕ, zero, suc, ◌+◌, ◌-◌, ◌*◌, ◌/◌, ◌%◌, Bool, true, false, ◌&&◌, Option, none, some, List, [], ◌∷◌,
  ◌++◌, map, ltb, leb, ◌==◌, if◌then◌else◌,
}
use theta_rosetta_rpc_adapto.Prelude.Int.{ℤ, pos, negsuc, neg}

-- The bytes of a text or of a key.
abbrev pub Bytes : Type 0
Bytes = List ℕ

-- The digits of `n`, most significant first, in front of `acc`; `fuel` bounds their number.
to_base_onto : ℕ → ℕ → ℕ → List ℕ → List ℕ
to_base_onto b zero n acc = acc
to_base_onto b (suc fuel) n acc =
    let rest = to_base_onto b fuel (n / b) ((n % b) ∷ acc) in if n == 0 then acc else rest

-- `n` digits are enough for `n`.
unfoldable pub to_base : ℕ → ℕ → List ℕ
unfolding to_base_onto
to_base b n = to_base_onto b n n []

from_base_onto : ℕ → ℕ → List ℕ → ℕ
from_base_onto b acc [] = acc
from_base_onto b acc (d ∷ ds) = from_base_onto b (acc * b + d) ds

unfoldable pub from_base : ℕ → List ℕ → ℕ
unfolding from_base_onto
from_base b ds = from_base_onto b 0 ds

-- `(*big.Int).Bytes` of a number that is not negative: big-endian, with no leading zero byte.
unfoldable pub big_bytes : ℕ → Bytes
unfolding to_base
big_bytes n = to_base 256 n

abbrev to_char : ℕ → ℕ
to_char d = d + 48

abbrev pub minus_sign : ℕ
minus_sign = 45

abbrev pub plus_sign : ℕ
plus_sign = 43

natural_string : ℕ → Bytes
unfolding to_base
natural_string zero = 48 ∷ []
natural_string (suc n) = map to_char (to_base 10 (suc n))

-- `(*big.Int).String`
unfoldable pub big_string : ℤ → Bytes
unfolding natural_string
big_string (pos n) = natural_string n
big_string (negsuc n) = minus_sign ∷ natural_string (suc n)

-- `(*big.Int).String` through a pointer: "<nil>" where it is nil.
unfoldable pub big_pointer_string : Option ℤ → Bytes
unfolding big_string
big_pointer_string none = 60 ∷ 110 ∷ 105 ∷ 108 ∷ 62 ∷ []
big_pointer_string (some z) = big_string z

is_digit : ℕ → Bool
is_digit c = leb 48 c && leb c 57

read_digits : ℕ → Bytes → Option ℕ
unfolding is_digit
read_digits acc [] = some acc
read_digits acc (c ∷ cs) =
    let rest = read_digits (acc * 10 + (c - 48)) cs in if is_digit c then rest else none

-- One digit at least.
read_natural : Bytes → Option ℕ
unfolding read_digits
read_natural [] = none
read_natural (c ∷ cs) = read_digits 0 (c ∷ cs)

signed : Bool → Option ℕ → Option ℤ
signed minus none = none
signed true (some n) = some (neg (pos n))
signed false (some n) = some (pos n)

-- `(*big.Int).SetString(s, 10)`
unfoldable pub set_string : Bytes → Option ℤ
unfolding read_natural signed neg
set_string [] = none
set_string (c ∷ cs) =
    if c == minus_sign
    then signed true (read_natural cs)
    else if c == plus_sign
    then signed false (read_natural cs)
    else signed false (read_natural (c ∷ cs))
