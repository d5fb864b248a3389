-- ===== src/Hex.antt =====
-- `hex.EncodeToString` and `hex.DecodeString` of the Go standard library, as services/construction.go
-- uses them, on the bytes of a text.
pub mod RoundTrip
use Prim.Native.String
use Prim.Native.Char.{code}
use theta_rosetta_rpc_adapto.Prelude.{
  ℕ, zero, suc, ◌+◌, ◌-◌, ◌*◌, ◌/◌, ◌%◌, String, Option, none, some, List, [], ◌∷◌, ltb, leb, ◌&&◌,
  if◌then◌else◌,
}
use theta_rosetta_rpc_adapto.Digits.{Bytes}

-- The code points of a text: its bytes, if it is ASCII. Others are no digits either way.
abbrev pub codes : String → Bytes
codes String.[] = []
codes (String.◌∷◌ c s) = code c ∷ codes s

unfoldable pub hex_digit : ℕ → ℕ
hex_digit d = if ltb d 10 then d + 48 else d + 87

unfoldable pub hex_encode : Bytes → Bytes
unfolding hex_digit
hex_encode [] = []
hex_encode (b ∷ bs) = hex_digit (b / 16) ∷ hex_digit (b % 16) ∷ hex_encode bs

-- A digit's value; both cases of the letters are read.
unfoldable pub hex_value : ℕ → Option ℕ
hex_value c =
    if leb 48 c && leb c 57
    then some (c - 48)
    else if leb 97 c && leb c 102
    then some (c - 87)
    else if leb 65 c && leb c 70
    then some (c - 55)
    else none

abbrev pub hex_byte : Option ℕ → Option ℕ → Option Bytes → Option Bytes
hex_byte (some hi) (some lo) (some rest) = some ((hi * 16 + lo) ∷ rest)
hex_byte (some hi) (some lo) none = none
hex_byte (some hi) none rest = none
hex_byte none lo rest = none

-- `none` is an error: an odd length, or a character that is no digit.
unfoldable pub hex_decode : Bytes → Option Bytes
unfolding hex_value
hex_decode [] = some []
hex_decode (c ∷ []) = none
hex_decode (c ∷ d ∷ cs) = hex_byte (hex_value c) (hex_value d) (hex_decode cs)

abbrev pub digit_texts : List String
digit_texts =
    "0" ∷ "1" ∷ "2" ∷ "3" ∷ "4" ∷ "5" ∷ "6" ∷ "7" ∷ "8" ∷ "9" ∷ "a" ∷ "b" ∷ "c" ∷ "d" ∷ "e" ∷ "f"
    ∷ []

abbrev pub text_at : List String → ℕ → String
text_at [] i = ""
text_at (x ∷ xs) zero = x
text_at (x ∷ xs) (suc i) = text_at xs i

-- `hex.EncodeToString` as a part of a message.
unfoldable pub hex_text : Bytes → String
hex_text [] = ""
hex_text (b ∷ bs) =
    String.◌++◌ (text_at digit_texts (b / 16))
      (String.◌++◌ (text_at digit_texts (b % 16)) (hex_text bs))
