-- ===== src/Text/RoundTrip.antt =====
-- What kIToA writes kAToI reads back.
use mintos.Base.{
  ℕ, zero, suc, ◌+◌, ◌-◌, ◌*◌, ◌/◌, ◌%◌, ◌^◌, ◌<◌, ◌≡◌, ◌≢◌, refl, false, List, [], ◌∷◌, ◌++◌,
  arith, ◌==◌, leb, if◌then◌else◌, Bool-cases, inl, inr, has, has-append, lt→ltb, ap, ◌∙◌,
}
use mintos.Text.{
  hex_digits, hex_to_string, hex_step, hex_value, hex_string_to_qword, decimal_digits,
  decimal_to_string, decimal_step, decimal_value, decimal_string_to_long, long_digits, negate,
  reverse_string, swap_ends,
}
use mintos.Text.Reverse.{reverse, reverse_string-eq-reverse}

hex_value-snoc :
    (v : ℕ) (s : List ℕ) (c : ℕ) → hex_value v (s ++ c ∷ []) ≡ hex_step (hex_value v s) c
unfolding hex_value
hex_value-snoc v [] c = refl
hex_value-snoc v (x ∷ s) c = hex_value-snoc (hex_step v x) s c

decimal_value-snoc :
    (v : ℕ) (s : List ℕ) (c : ℕ)
    → decimal_value v (s ++ c ∷ []) ≡ decimal_step (decimal_value v s) c
unfolding decimal_value
decimal_value-snoc v [] c = refl
decimal_value-snoc v (x ∷ s) c = decimal_value-snoc (decimal_step v x) s c

-- The numbers below `power b n` have `n` digits to the base at most.
abbrev power : ℕ → ℕ → ℕ
power b zero = 1
power b (suc n) = b * power b n

hex_digit : ℕ → ℕ
hex_digit d = if leb 10 d then b'a' + (d - 10) else b'0' + d

hex_step-digit : (v : ℕ) → v < 2 ^ 64 → hex_step (v / 16) (hex_digit (v % 16)) ≡ v
unfolding hex_digit
hex_step-digit v h = elim (Bool-cases (leb 10 (v % 16))) [
  | inl letter ↦ rw letter (ground arith)
  | inr digit ↦ rw digit (ground arith)
]

hex_digits-value :
    (fuel v : ℕ) → v < power 16 fuel → v < 2 ^ 64 → hex_value 0 (reverse (hex_digits fuel v)) ≡ v
unfolding hex_digits hex_value hex_digit
hex_digits-value zero v h w = omega arith
hex_digits-value (suc fuel) v h w = elim (Bool-cases (v == 0)) [
  | inl at ↦ rw at (ground arith)
  | inr more ↦
      let rest = hex_digits-value fuel (v / 16) (omega arith) (omega arith) in
      rw more (
        hex_value-snoc 0 (reverse (hex_digits fuel (v / 16))) (hex_digit (v % 16))
        ∙ ap (λ p. hex_step p (hex_digit (v % 16))) rest
        ∙ hex_step-digit v w)
]

-- kHexStringToQword reads back what kHexToString writes, for every QWORD.
pub hex_string_to_qword-hex_to_string :
    (v : ℕ) → v < 2 ^ 64 → hex_string_to_qword (hex_to_string v) ≡ v
unfolding hex_string_to_qword hex_to_string
hex_string_to_qword-hex_to_string v h = elim (Bool-cases (v == 0)) [
  | inl at ↦ unfold hex_value in rw at (ground arith)
  | inr more ↦ rw more (
      ap (hex_value 0) (reverse_string-eq-reverse (hex_digits 16 v))
      ∙ hex_digits-value 16 v (omega (arith, h)) h)
]

decimal_digits-value :
    (fuel v : ℕ)
    → v < power 10 fuel
    → v < 2 ^ 63
    → decimal_value 0 (reverse (decimal_digits fuel v)) ≡ v
unfolding decimal_digits decimal_value
decimal_digits-value zero v h w = omega arith
decimal_digits-value (suc fuel) v h w = elim (Bool-cases (v == 0)) [
  | inl at ↦ rw at (ground arith)
  | inr more ↦
      let rest = decimal_digits-value fuel (v / 10) (omega arith) (omega arith) in
      rw more (
        decimal_value-snoc 0 (reverse (decimal_digits fuel (v / 10))) (b'0' + v % 10)
        ∙ ap (λ p. decimal_step p (b'0' + v % 10)) rest
        ∙ omega (arith, w))
]

-- No digit is a minus sign.
decimal_digits-no_minus : (fuel v : ℕ) → has b'-' (decimal_digits fuel v) ≡ false
unfolding decimal_digits
decimal_digits-no_minus zero v = refl
decimal_digits-no_minus (suc fuel) v = elim (Bool-cases (v == 0)) [
  | inl at ↦ rw at refl
  | inr more ↦
      let digit : (b'-' == (b'0' + v % 10)) ≡ false = ground arith in
      rw (more, digit) (decimal_digits-no_minus fuel (v / 10))
]

has-reverse-false : (a : ℕ) (s : List ℕ) → has a s ≡ false → has a (reverse s) ≡ false
has-reverse-false a [] h = refl
has-reverse-false a (x ∷ s) h =
    rw (has-append a (reverse s) (x ∷ [])) (ground (arith, has-reverse-false a s))

unsigned : (s : List ℕ) → has b'-' s ≡ false → decimal_string_to_long s ≡ decimal_value 0 s
unfolding decimal_string_to_long decimal_value
unsigned [] h = refl
unsigned (c ∷ s) h = let no_minus : (c == b'-') ≡ false = ground arith in rw no_minus refl

long_digits-value : (v : ℕ) → v < 2 ^ 63 → decimal_value 0 (reverse_string (long_digits v)) ≡ v
long_digits-value v h = rw (lt→ltb v (2 ^ 63) h) (
    ap (decimal_value 0) (reverse_string-eq-reverse (decimal_digits 19 v))
    ∙ decimal_digits-value 19 v (omega (arith, h)) h)

-- kDecimalStringToLong reads back what kDecimalToString writes, for every `long` but the least.
pub decimal_string_to_long-decimal_to_string :
    (v : ℕ) → v < 2 ^ 64 → v ≢ 2 ^ 63 → decimal_string_to_long (decimal_to_string v) ≡ v
unfolding decimal_to_string
decimal_string_to_long-decimal_to_string v h least = elim (Bool-cases (v == 0)) [
  | inl at ↦ unfold decimal_string_to_long decimal_value in rw at (ground arith)
  | inr more ↦ elim (Bool-cases (leb (2 ^ 63) v)) [
    | inl negative ↦
        let value = long_digits-value (negate v) (ground arith) in
        unfold decimal_string_to_long in rw (more, negative) (ap negate value ∙ ground arith)
    | inr positive ↦
        let small : v < 2 ^ 63 = ground arith in
        let s = decimal_digits 19 v in
        let no_minus : has b'-' (reverse_string (long_digits v)) ≡ false =
          rw (lt→ltb v (2 ^ 63) small, reverse_string-eq-reverse s)
            (has-reverse-false b'-' s (decimal_digits-no_minus 19 v)) in
        rw (more, positive)
          (unsigned (reverse_string (long_digits v)) no_minus ∙ long_digits-value v small)
  ]
]

-- For the least `long` kDecimalToString writes a minus sign and no digit, which kDecimalStringToLong
-- reads as 0.
least_long : decimal_to_string (2 ^ 63) ≡ b'-' ∷ []
unfolding decimal_to_string reverse_string swap_ends
least_long = refl
