-- ===== src/Settings/Hex.antt =====
-- The hexadecimal text of a byte string, read back.
use droidcli.Common.{
  ℕ, ◌+◌, ◌*◌, ◌/◌, ◌%◌, ◌<◌, some, [], ◌∷◌, ◌≡◌, refl, ap, arith, Bytes, All, is_empty, false,
}
use droidcli.Settings.{hex_digit, hex_encode, nibble, decode_pairs, hex_decode}

nibble-hex_digit : (n : ℕ) → n < 16 → nibble (hex_digit n) ≡ some n
unfolding nibble
nibble-hex_digit n h = ground arith

whole_byte : (c : ℕ) → c / 16 * 16 + c % 16 ≡ c
whole_byte c = omega arith

decode_pairs-hex_encode :
    (bytes : Bytes) → All (λ c. c < 256) bytes → decode_pairs (hex_encode bytes) ≡ some bytes
unfolding decode_pairs hex_encode
decode_pairs-hex_encode [] h = refl
decode_pairs-hex_encode (c ∷ bytes) (l, h) =
    rw
      (
        nibble-hex_digit (c / 16) (omega (arith, l)),
        nibble-hex_digit (c % 16) (omega arith),
        decode_pairs-hex_encode bytes h,
      )
      (ap (λ n. some (n ∷ bytes)) (whole_byte c))

pub hex_decode-hex_encode :
    (bytes : Bytes)
    → is_empty bytes ≡ false
    → All (λ c. c < 256) bytes
    → hex_decode (hex_encode bytes) ≡ some bytes
unfolding hex_decode hex_encode
hex_decode-hex_encode [] e h = cc
hex_decode-hex_encode (c ∷ bytes) e h = decode_pairs-hex_encode (c ∷ bytes) h
