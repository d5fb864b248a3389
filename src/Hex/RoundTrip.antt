-- ===== src/Hex/RoundTrip.antt =====
-- Decoding gives back what was encoded.
use theta_rosetta_rpc_adapto.Prelude.{ℕ, ◌/◌, ◌%◌, ◌<◌, ◌≡◌, refl, ap, some, [], ◌∷◌, All, arith}
use theta_rosetta_rpc_adapto.Digits.{Bytes}
use theta_rosetta_rpc_adapto.Hex.{hex_digit, hex_encode, hex_value, hex_decode}

abbrev pub AreBytes : Bytes → Type 0
AreBytes bs = All (λ (b : ℕ). b < 256) bs

hex_value-hex_digit : (d : ℕ) → d < 16 → hex_value (hex_digit d) ≡ some d
unfolding hex_value hex_digit
hex_value-hex_digit d h = ground arith

-- Decoding the hexadecimal text of bytes gives the bytes.
pub hex_decode-hex_encode : (bs : Bytes) → AreBytes bs → hex_decode (hex_encode bs) ≡ some bs
unfolding hex_decode hex_encode
hex_decode-hex_encode [] h = refl
hex_decode-hex_encode (b ∷ bs) h =
    rw
      (
        hex_value-hex_digit (b / 16) (omega arith),
        hex_value-hex_digit (b % 16) (omega arith),
        hex_decode-hex_encode bs h.1,
      )
      (ap (λ n. some (n ∷ bs)) (omega arith))
