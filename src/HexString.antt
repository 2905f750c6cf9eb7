-- ===== src/HexString.antt =====
-- common/hex_string.cpp: bytes as hexadecimal digits. A string is the list of the codes of its
-- characters.
pub mod RoundTrip
use private_data_objects.Prelude.{
  ℕ, ◌+◌, ◌-◌, ◌*◌, ◌/◌, ◌%◌, Bool, true, false, not, ◌&&◌, List, [], ◌∷◌, ByteArray, ◌==◌, leb,
  if◌then◌else◌, length,
}
use private_data_objects.Outcome.{Outcome, ok, err, value_error, throw_if, ◌>>=◌, ◌>>◌}

-- `toupper` in the C locale
unfoldable pub toupper : ℕ → ℕ
toupper c = if leb b'a' c && leb c b'z' then c - 32 else c

unfoldable pub hex_to_nibble : ℕ → Outcome ℕ
unfolding toupper
hex_to_nibble digit =
    let hex : ℕ = toupper digit in
    if leb b'A' hex && leb hex b'F'
    then ok (10 + (hex - b'A'))
    else if leb b'0' hex && leb hex b'9'
    then ok (hex - b'0')
    else err value_error

-- `(c1 << 4) | c2` of two nibbles, which have no bit in common.
unfoldable pub hex_to_byte : ℕ → ℕ → Outcome ℕ
unfolding hex_to_nibble
hex_to_byte digit₁ digit₂ = do
  c1 ← hex_to_nibble digit₁
  c2 ← hex_to_nibble digit₂
  ok (16 * c1 + c2)

-- The loop over the pairs of digits.
unfoldable pub hex_loop : ByteArray → Outcome ByteArray
unfolding hex_to_byte
hex_loop [] = ok []
hex_loop (digit ∷ []) = ok []
hex_loop (digit₁ ∷ digit₂ ∷ rest) = do
  byte ← hex_to_byte digit₁ digit₂
  bytes ← hex_loop rest
  ok (byte ∷ bytes)

unfoldable pub hex_string_to_binary : ByteArray → Outcome ByteArray
unfolding hex_loop
hex_string_to_binary hex_string = do
  throw_if (not (length hex_string % 2 == 0)) value_error
  hex_loop hex_string

-- The character of `hexDigits` at a nibble.
unfoldable pub hex_digit : ℕ → ℕ
hex_digit n = if leb n 9 then b'0' + n else b'A' + (n - 10)

unfoldable pub binary_to_hex_string : ByteArray → ByteArray
unfolding hex_digit
binary_to_hex_string [] = []
binary_to_hex_string (byte ∷ bytes) =
    hex_digit (byte / 16) ∷ hex_digit (byte % 16) ∷ binary_to_hex_string bytes
