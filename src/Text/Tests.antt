-- ===== src/Text/Tests.antt =====
-- The theorems on strings at numbers.
use mintos.Base.{◌≡◌, ◌-◌, ◌^◌, [], ◌∷◌, arith}
use mintos.Text.{
  hex_to_string, hex_string_to_qword, decimal_to_string, decimal_string_to_long, reverse_string,
}
use mintos.Text.Reverse.{reverse_string-eq-reverse}
use mintos.Text.RoundTrip.{
  hex_string_to_qword-hex_to_string, decimal_string_to_long-decimal_to_string,
}

reverse_string-eq-reverse_example : reverse_string (1 ∷ 2 ∷ 3 ∷ 4 ∷ 5 ∷ []) ≡ 5 ∷ 4 ∷ 3 ∷ 2 ∷ 1 ∷ []
reverse_string-eq-reverse_example = reverse_string-eq-reverse (1 ∷ 2 ∷ 3 ∷ 4 ∷ 5 ∷ [])

hex_string_to_qword-hex_to_string_example :
    hex_string_to_qword (hex_to_string 0xdead_beef_0000_0012) ≡ 0xdead_beef_0000_0012
hex_string_to_qword-hex_to_string_example =
    hex_string_to_qword-hex_to_string 0xdead_beef_0000_0012 (ground arith)

decimal_string_to_long-decimal_to_string_example :
    decimal_string_to_long (decimal_to_string (2 ^ 64 - 1203)) ≡ 2 ^ 64 - 1203
decimal_string_to_long-decimal_to_string_example =
    decimal_string_to_long-decimal_to_string (2 ^ 64 - 1203) (ground arith) (ground arith)
