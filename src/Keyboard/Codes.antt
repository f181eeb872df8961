-- ===== src/Keyboard/Codes.antt =====
-- What kConvertScanCodeToASCIICode does with letters, the keypad, the Pause key and extended keys.
use mintos.Base.{
  xor, ℕ, zero, suc, ◌+◌, ◌-◌, ◌%◌, ◌≤◌, ◌<◌, ◌≡◌, refl, Bool, true, false, not, ◌&&◌, ◌||◌, some,
  List, [], ◌∷◌, arith, ◌==◌, leb, ltb, Bool-cases, inl, inr, ==_iff, if◌then◌else◌, get_or, length,
  le→leb, lt→leb_false,
}
use mintos.Keyboard.{
  KeyboardManager, key_flags_down, entry, is_alphabet_scan_code, is_number_or_symbol_scan_code,
  is_use_combined_code, convert_scan_code_to_ascii_code,
}
use mintos.Keyboard.Table.{key_mapping_table}

-- Whether a test is true of the scan codes under a bound.
every : (ℕ → Bool) → (bound : ℕ) → Bool
every test zero = true
every test (suc bound) = if test bound then every test bound else false

every-true : (test : ℕ → Bool) (bound c : ℕ) → c < bound → every test bound ≡ true → test c ≡ true
unfolding every
every-true test zero c lt h = absurd (omega arith)
every-true test (suc bound) c lt h = elim (Bool-cases (c == bound)) [
  | inl last ↦ rw ((==_iff c bound).0 last) (ground arith)
  | inr other ↦ every-true test bound c (ground arith) (ground arith)
]

abbrev pub normal : ℕ → ℕ
normal c = (get_or key_mapping_table c (0, 0)).0

-- In the table the combined code of a letter is its capital.
abbrev letter_entry : ℕ → Bool
letter_entry c =
    if leb b'a' (normal c) && leb (normal c) b'z'
    then (get_or key_mapping_table c (0, 0)).1 + 32 == normal c
    else true

letter_table : every letter_entry 89 ≡ true
unfolding every
letter_table = refl

-- No key of the keypad is a letter.
abbrev keypad_entry : ℕ → Bool
keypad_entry c = not (leb 71 c && leb c 83) || not (leb b'a' (normal c) && leb (normal c) b'z')

keypad_table : every keypad_entry 89 ≡ true
unfolding every
keypad_table = refl

or_not : (a b : Bool) → (not a || not b) ≡ true → a ≡ true → b ≡ false
or_not true b h e = ground arith
or_not false b h e = cc

keypad_not_letter_normal :
    (c : ℕ) → 71 ≤ c → c ≤ 83 → (leb b'a' (normal c) && leb (normal c) b'z') ≡ false
keypad_not_letter_normal c lo hi =
    or_not (leb 71 c && leb c 83) (leb b'a' (normal c) && leb (normal c) b'z')
      (every-true keypad_entry 89 c (omega arith) keypad_table) (rw (le→leb _ _ lo, le→leb _ _ hi))

get_or_inside {ℓ} :
    {A : Type ℓ} (xs : List A) (i : ℕ) (a b : A) → i < length xs → get_or xs i a ≡ get_or xs i b
get_or_inside [] i a b h = absurd (omega arith)
get_or_inside (x ∷ xs) zero a b h = refl
get_or_inside (x ∷ xs) (suc i) a b h = get_or_inside xs i a b (omega arith)

-- A manager that waits for no further byte of a longer code.
pub record IsReady (k : KeyboardManager) : Type 0 where
  pub no_skip : k.skip_count_for_pause ≡ 0
  pub no_extended : k.extended_code_in ≡ false

module _ (beyond : ℕ → ℕ × ℕ) (k : KeyboardManager) where
  convert_ready :
      (c : ℕ)
      → IsReady k
      → c < 0xe0
      → (convert_scan_code_to_ascii_code beyond k c).0
        ≡ some (
          (if is_use_combined_code beyond k c
              then (entry beyond (c % 128)).1
              else (entry beyond (c % 128)).0),
          (if ltb c 128 then key_flags_down else 0),
        )
  unfolding convert_scan_code_to_ascii_code
  convert_ready c v small = ground arith

  pub entry_inside : (c : ℕ) → c < 89 → entry beyond c ≡ get_or key_mapping_table c (0, 0)
  unfolding entry
  entry_inside c h = get_or_inside key_mapping_table c (beyond c) (0, 0) h

  is_alphabet_inside :
      (c : ℕ) → c < 89 → b'a' ≤ normal c → normal c ≤ b'z' → is_alphabet_scan_code beyond c ≡ true
  unfolding is_alphabet_scan_code
  is_alphabet_inside c h lo hi = rw (entry_inside c h, le→leb _ _ lo, le→leb _ _ hi)

  capital :
      (c : ℕ)
      → c < 89
      → b'a' ≤ normal c
      → normal c ≤ b'z'
      → (get_or key_mapping_table c (0, 0)).1 ≡ normal c - 32
  capital c h lo hi = ground (arith, every-true letter_entry 89 c h letter_table)

  -- Pressing or releasing a letter key of the table gives the letter in lower case, or its capital
  -- where exactly one of Shift and Caps Lock is on, and the flag for down on a press only.
  pub letter_case :
      (c : ℕ)
      → IsReady k
      → c < 0xe0
      → c % 128 < 89
      → b'a' ≤ normal (c % 128)
      → normal (c % 128) ≤ b'z'
      → (convert_scan_code_to_ascii_code beyond k c).0
        ≡ some (
          (if xor k.shift_down k.caps_lock_on then normal (c % 128) - 32 else normal (c % 128)),
          (if ltb c 128 then key_flags_down else 0),
        )
  unfolding is_use_combined_code
  letter_case c v small inside lo hi = rw (
    convert_ready c v small,
    is_alphabet_inside (c % 128) inside lo hi,
    entry_inside (c % 128) inside,
    capital (c % 128) inside lo hi,
  )

  -- Behind 0xe0 a key of the keypad has its normal code.
  pub keypad_normal :
      (c : ℕ)
      → k.extended_code_in ≡ true
      → 71 ≤ c % 128
      → c % 128 ≤ 83
      → is_use_combined_code beyond k c ≡ false
  unfolding is_use_combined_code is_alphabet_scan_code is_number_or_symbol_scan_code
  keypad_normal c e lo hi = rw (
    entry_inside (c % 128) (omega arith),
    keypad_not_letter_normal (c % 128) lo hi,
    lt→leb_false (c % 128) 53 (omega arith),
    le→leb 2 (c % 128) (omega arith),
    le→leb _ _ lo,
    le→leb _ _ hi,
    e,
  )
