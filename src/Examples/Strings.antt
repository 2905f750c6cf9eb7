-- ===== src/Examples/Strings.antt =====
-- Hexadecimal strings.
use private_data_objects.Prelude.{◌≡◌, refl, arith, [], ◌∷◌}
use private_data_objects.Outcome.{ok, err, value_error}
use private_data_objects.HexString.{hex_string_to_binary, binary_to_hex_string}
use private_data_objects.HexString.RoundTrip.{hex_string_to_binary-binary_to_hex_string}

hex_string_to_binary-binary_to_hex_string_example :
    hex_string_to_binary (binary_to_hex_string (0 ∷ 171 ∷ 255 ∷ [])) ≡ ok (0 ∷ 171 ∷ 255 ∷ [])
hex_string_to_binary-binary_to_hex_string_example =
    hex_string_to_binary-binary_to_hex_string (0 ∷ 171 ∷ 255 ∷ [])
      ((omega arith), ((omega arith), ((omega arith), tt)))

odd_length : hex_string_to_binary (b'a' ∷ []) ≡ err value_error
unfolding hex_string_to_binary
odd_length = refl
