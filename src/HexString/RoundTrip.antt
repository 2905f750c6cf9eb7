-- ===== src/HexString/RoundTrip.antt =====
-- Writing and reading hexadecimal strings undo each other.
use private_data_objects.Prelude.{
  ◌≡◌, refl, ap, ℕ, ◌*◌, ◌/◌, ◌%◌, ◌<◌, arith, true, [], ◌∷◌, ByteArray, ◌==◌, length,
}
use private_data_objects.Outcome.{ok}
use private_data_objects.HexString.{
  toupper, hex_to_nibble, hex_to_byte, hex_loop, hex_string_to_binary, hex_digit,
  binary_to_hex_string,
}

-- Every element is a byte.
abbrev pub AreBytes : ByteArray → Type 0
AreBytes [] = Unit
AreBytes (byte ∷ bytes) = (byte < 256) × AreBytes bytes

hex_to_nibble-hex_digit : (n : ℕ) → n < 16 → hex_to_nibble (hex_digit n) ≡ ok n
unfolding hex_to_nibble hex_digit toupper
hex_to_nibble-hex_digit n h = ground arith

hex_loop-binary :
    (bytes : ByteArray) → AreBytes bytes → hex_loop (binary_to_hex_string bytes) ≡ ok bytes
unfolding hex_loop binary_to_hex_string hex_to_byte
hex_loop-binary [] h = refl
hex_loop-binary (byte ∷ bytes) (h, hs) =
    rw
      (
        hex_to_nibble-hex_digit (byte / 16) (omega arith),
        hex_to_nibble-hex_digit (byte % 16) (omega arith),
        hex_loop-binary bytes hs,
      )
      (ap (λ b. ok (b ∷ bytes)) (omega arith))

pub length-binary : (bytes : ByteArray) → length (binary_to_hex_string bytes) ≡ 2 * length bytes
unfolding binary_to_hex_string
length-binary [] = refl
length-binary (byte ∷ bytes) = omega (arith, length-binary bytes)

-- Bytes that are written as a hexadecimal string are read back.
pub hex_string_to_binary-binary_to_hex_string :
    (bytes : ByteArray)
    → AreBytes bytes
    → hex_string_to_binary (binary_to_hex_string bytes) ≡ ok bytes
unfolding hex_string_to_binary
hex_string_to_binary-binary_to_hex_string bytes h =
    let even : (length (binary_to_hex_string bytes) % 2 == 0) ≡ true =
      ground (arith, length-binary bytes) in
    rw even (hex_loop-binary bytes h)
