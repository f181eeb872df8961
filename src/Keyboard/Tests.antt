-- ===== src/Keyboard/Tests.antt =====
-- The theorems on the keyboard at a manager with Caps Lock on.
use mintos.Base.{ℕ, ◌%◌, ◌<◌, ◌≤◌, ◌≡◌, refl, true, false, [], ◌∷◌, ◌+◌, arith, some, none}
use mintos.Keyboard.{
  KeyboardManager, KeyData, key_pause, key_flags_down, key_flags_extended_key,
  convert_scan_code_to_ascii_code,
}
use mintos.Keyboard.Codes.{normal, IsReady, letter_case}
use mintos.Keyboard.Sequences.{convert_all, pause_sequence, extended_sequence, lock_parity}
use mintos.Keyboard.Typing.{IsLetter, put_all, put_all-letters}
use mintos.Queue.{Queue, initialize_queue}
use mintos.Queue.Holds.{Holds, initialize_queue-Holds}

abbrev behind : ℕ → ℕ × ℕ
behind c = (0, 0)

abbrev caps : KeyboardManager
caps = record {
  shift_down = false;
  caps_lock_on = true;
  num_lock_on = false;
  extended_code_in = false;
  skip_count_for_pause = 0;
}

caps-IsReady : IsReady caps
caps-IsReady = record { no_skip = refl; no_extended = refl }

-- The key A.
letter_case_example : (convert_scan_code_to_ascii_code behind caps 30).0 ≡ some (65, key_flags_down)
letter_case_example =
    letter_case behind caps 30 caps-IsReady (ground arith) (ground arith) (ground arith)
      (ground arith)

pause_sequence_example :
    convert_all behind caps (0xe1 ∷ 0x1d ∷ 0x45 ∷ [])
    ≡ (some (key_pause, key_flags_down) ∷ none ∷ none ∷ [], caps)
pause_sequence_example = pause_sequence behind caps 0x1d 0x45 refl

-- The cursor key Up.
extended_sequence_example :
    IsReady (convert_all behind caps (0xe0 ∷ 72 ∷ [])).1
    × ((convert_all behind caps (0xe0 ∷ 72 ∷ [])).0
        ≡ none ∷ some (0x94, key_flags_extended_key + key_flags_down) ∷ [])
extended_sequence_example =
    extended_sequence behind caps 72 caps-IsReady (ground arith) (ground arith) (ground arith)

lock_parity_example :
    let k' = (convert_all behind caps (58 ∷ 186 ∷ 69 ∷ 58 ∷ [])).1 in
    (k'.caps_lock_on ≡ true) × (k'.num_lock_on ≡ true)
lock_parity_example =
    lock_parity behind (58 ∷ 186 ∷ 69 ∷ 58 ∷ []) caps caps-IsReady
      (ground arith, (ground arith, (ground arith, (ground arith, tt))))

letter :
    (c : ℕ)
    → c < 0xe0
    → c % 128 < 89
    → b'a' ≤ normal (c % 128)
    → normal (c % 128) ≤ b'z'
    → IsLetter c
letter c single in_table low high = record {
  single = single;
  in_table = in_table;
  low = low;
  high = high;
}

abbrev no_key : KeyData
no_key = record { scan_code = 0; ascii_code = 0; flags = 0 }

abbrev empty_two : Queue KeyData
empty_two = initialize_queue (no_key ∷ no_key ∷ []) 2

empty_two-Holds : Holds no_key empty_two []
empty_two-Holds =
    initialize_queue-Holds no_key (no_key ∷ no_key ∷ []) 2 refl (ground arith) (ground arith)

-- A is pressed and released with Caps Lock on; B no longer fits.
put_all-letters_example :
    let r = put_all behind caps empty_two (30 ∷ 158 ∷ 48 ∷ []) in
    (r.0 ≡ caps)
    × Holds no_key r.1 (
        record { scan_code = 30; ascii_code = b'A'; flags = key_flags_down }
        ∷ record { scan_code = 158; ascii_code = b'A'; flags = 0 }
        ∷ [])
unfolding initialize_queue
put_all-letters_example =
    put_all-letters behind no_key caps empty_two [] (30 ∷ 158 ∷ 48 ∷ []) caps-IsReady
      (
        letter 30 (omega arith) (omega arith) (omega arith) (omega arith),
        (
          letter 158 (omega arith) (omega arith) (omega arith) (omega arith),
          (letter 48 (omega arith) (omega arith) (omega arith) (omega arith), tt),
        ),
      )
      empty_two-Holds
