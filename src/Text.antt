-- ===== src/Text.antt =====
-- 02.Kernel64/Utility.c: strings and the conversions of numbers. A string is the list of its
-- characters before the NUL. A `long` is its 64-bit pattern, negative from 2 ^ 63 on; QWORD and
-- `long` arithmetic is modulo 2 ^ 64.
pub mod Reverse
pub mod RoundTrip
mod Tests
use mintos.Base.{
  ℕ, zero, suc, ◌+◌, ◌-◌, ◌*◌, ◌/◌, ◌%◌, ◌^◌, Bool, List, [], ◌∷◌, ◌&&◌, ◌==◌, leb, ltb,
  if◌then◌else◌, length, get_or, set,
}

-- kStrLen
abbrev pub str_len : List ℕ → ℕ
str_len s = length s

-- The loop of kReverseString: `n` turns from index `i` on.
unfoldable pub swap_ends : (n i : ℕ) → List ℕ → List ℕ
swap_ends zero i s = s
swap_ends (suc n) i s =
    let last = str_len s - 1 - i in
    let x = get_or s i 0 in let y = get_or s last 0 in swap_ends n (i + 1) (set (set s i y) last x)

-- kReverseString
unfoldable pub reverse_string : List ℕ → List ℕ
reverse_string s = swap_ends (str_len s / 2) 0 s

-- The loop of kHexToString: the digits, lowest first. A QWORD has 16 of them at most.
unfoldable pub hex_digits : (fuel value : ℕ) → List ℕ
hex_digits zero v = []
hex_digits (suc fuel) v =
    let d = v % 16 in
    let c = if leb 10 d then b'a' + (d - 10) else b'0' + d in
    let rest = hex_digits fuel (v / 16) in if v == 0 then [] else c ∷ rest

-- kHexToString: the string; the result of the function is its length.
unfoldable pub hex_to_string : ℕ → List ℕ
hex_to_string v = if v == 0 then b'0' ∷ [] else reverse_string (hex_digits 16 v)

-- The loop of kDecimalToString, at most 19 digits.
unfoldable pub decimal_digits : (fuel value : ℕ) → List ℕ
decimal_digits zero v = []
decimal_digits (suc fuel) v =
    let rest = decimal_digits fuel (v / 10) in if v == 0 then [] else (b'0' + v % 10) ∷ rest

-- The negative of a `long`.
abbrev pub negate : ℕ → ℕ
negate v = (2 ^ 64 - v) % 2 ^ 64

-- The loop runs while the `long` is above 0.
abbrev pub long_digits : ℕ → List ℕ
long_digits v = if ltb v (2 ^ 63) then decimal_digits 19 v else []

-- kDecimalToString: the string; the result of the function is its length.
unfoldable pub decimal_to_string : ℕ → List ℕ
decimal_to_string v =
    if v == 0
    then b'0' ∷ []
    else if leb (2 ^ 63) v
    then b'-' ∷ reverse_string (long_digits (negate v))
    else reverse_string (long_digits v)

-- kIToA
abbrev pub i_to_a : ℕ → (radix : ℕ) → List ℕ
i_to_a v radix = if radix == 16 then hex_to_string v else decimal_to_string v

-- A turn of the loop of kHexStringToQword.
abbrev pub hex_step : ℕ → ℕ → ℕ
hex_step v c =
    if leb b'A' c && leb c b'Z'
    then (v * 16 + (c - b'A' + 10)) % 2 ^ 64
    else if leb b'a' c && leb c b'z'
    then (v * 16 + (c - b'a' + 10)) % 2 ^ 64
    else (v * 16 + c + (2 ^ 64 - b'0')) % 2 ^ 64

unfoldable pub hex_value : ℕ → List ℕ → ℕ
hex_value v [] = v
hex_value v (c ∷ s) = hex_value (hex_step v c) s

-- kHexStringToQword
unfoldable pub hex_string_to_qword : List ℕ → ℕ
hex_string_to_qword s = hex_value 0 s

-- The loop of kDecimalStringToLong.
abbrev pub decimal_step : ℕ → ℕ → ℕ
decimal_step v c = (v * 10 + c + (2 ^ 64 - b'0')) % 2 ^ 64

unfoldable pub decimal_value : ℕ → List ℕ → ℕ
decimal_value v [] = v
decimal_value v (c ∷ s) = decimal_value (decimal_step v c) s

-- kDecimalStringToLong
unfoldable pub decimal_string_to_long : List ℕ → ℕ
decimal_string_to_long [] = 0
decimal_string_to_long (c ∷ s) =
    if c == b'-' then negate (decimal_value 0 s) else decimal_value 0 (c ∷ s)

-- kAToI
abbrev pub a_to_i : List ℕ → (radix : ℕ) → ℕ
a_to_i s radix = if radix == 16 then hex_string_to_qword s else decimal_string_to_long s
