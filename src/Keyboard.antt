-- ===== src/Keyboard.antt =====
-- 02.Kernel64/Keyboard.c: scan codes to key codes, and the key queue. BYTE values are numbers below
-- 256. The port input and output of the controller is left out.
pub mod Codes
pub mod Sequences
pub mod Typing
mod Tests
pub mod Table
use mintos.Base.{
  xor, ℕ, ◌+◌, ◌-◌, ◌%◌, ◌<◌, Bool, true, false, not, ◌&&◌, ◌||◌, Option, none, some, List, [], ◌∷◌,
  ◌==◌, leb, ltb, if◌then◌else◌, get_or,
}
use mintos.Keyboard.Table.{key_mapping_table}
use mintos.Queue.{Queue, put_queue, get_queue, is_queue_empty}

-- KEYBOARDMANAGER
pub record KeyboardManager : Type 0 where
  pub shift_down : Bool
  pub caps_lock_on : Bool
  pub num_lock_on : Bool
  pub extended_code_in : Bool
  pub skip_count_for_pause : ℕ

-- KEYDATA
pub record KeyData : Type 0 where
  pub scan_code : ℕ
  pub ascii_code : ℕ
  pub flags : ℕ

abbrev pub key_pause : ℕ
key_pause = 0xa0

abbrev pub key_flags_down : ℕ
key_flags_down = 1

abbrev pub key_flags_extended_key : ℕ
key_flags_extended_key = 2

-- `bScanCode & 0x7f` and `bScanCode & 0x80` on a byte.
abbrev pub down_scan_code : ℕ → ℕ
down_scan_code c = c % 128

abbrev pub is_up : ℕ → Bool
is_up c = leb 128 (c % 256)

-- kIsNumberPadScanCode
abbrev pub is_number_pad_scan_code : ℕ → Bool
is_number_pad_scan_code c = leb 71 c && leb c 83

-- UpdateCombinationKeyStatus
unfoldable pub update_combination_key_status : KeyboardManager → ℕ → KeyboardManager
update_combination_key_status k c =
    let d = down_scan_code c in
    let down = not (is_up c) in
    if (d == 42) || (d == 54)
    then record k { shift_down = down }
    else if (d == 58) && down
    then record k { caps_lock_on = not k.caps_lock_on }
    else if (d == 69) && down
    then record k { num_lock_on = not k.num_lock_on }
    else k

-- The call of kPutQueue, made where the scan code gave a key.
unfoldable put_key : Queue KeyData → ℕ → Option (ℕ × ℕ) → Bool × Queue KeyData
put_key q c none = (false, q)
put_key q c (some (code, flags)) =
    put_queue q (record { scan_code = c; ascii_code = code; flags = flags })

-- `beyond i` is what lies in memory at index `i` of the table, where `i` is past its end.
module _ (beyond : ℕ → ℕ × ℕ) where
  unfoldable pub entry : ℕ → ℕ × ℕ
  entry i = get_or key_mapping_table i (beyond i)

  -- kIsAlphabetScanCode
  unfoldable pub is_alphabet_scan_code : ℕ → Bool
  is_alphabet_scan_code c = leb b'a' (entry c).0 && leb (entry c).0 b'z'

  -- kIsNumberOrSymbolScanCode
  unfoldable pub is_number_or_symbol_scan_code : ℕ → Bool
  is_number_or_symbol_scan_code c = leb 2 c && (leb c 53 && not (is_alphabet_scan_code c))

  -- kIsUseCombinedCode
  unfoldable pub is_use_combined_code : KeyboardManager → ℕ → Bool
  is_use_combined_code k c =
      let d = down_scan_code c in
      if is_alphabet_scan_code d
      then xor k.shift_down k.caps_lock_on
      else if is_number_or_symbol_scan_code d
      then k.shift_down
      else if is_number_pad_scan_code d && not k.extended_code_in
      then k.num_lock_on
      else false

  -- kConvertScanCodeToASCIICode: the option is the code and the flags where the function returns
  -- TRUE.
  unfoldable pub convert_scan_code_to_ascii_code :
      KeyboardManager → ℕ → Option (ℕ × ℕ) × KeyboardManager
  convert_scan_code_to_ascii_code k c =
      let e = entry (down_scan_code c) in
      let code = if is_use_combined_code k c then e.1 else e.0 in
      let extended = if k.extended_code_in then key_flags_extended_key else 0 in
      let flags = if is_up c then extended else extended + key_flags_down in
      if ltb 0 k.skip_count_for_pause
      then (none, record k { skip_count_for_pause = k.skip_count_for_pause - 1 })
      else if c == 0xe1
      then (some (key_pause, key_flags_down), record k { skip_count_for_pause = 2 })
      else if c == 0xe0
      then (none, record k { extended_code_in = true })
      else (
        some (code, flags),
        update_combination_key_status (record k { extended_code_in = false }) c,
      )

  -- kConvertScanCodeAndPutQueue, with the manager and the key queue that it changes.
  unfoldable pub convert_scan_code_and_put_queue :
      KeyboardManager → Queue KeyData → ℕ → Bool × KeyboardManager × Queue KeyData
  unfolding put_key
  convert_scan_code_and_put_queue k q c =
      let r = convert_scan_code_to_ascii_code k c in let p = put_key q c r.0 in (p.0, r.1, p.1)

-- kGetKeyFromKeyQueue
unfoldable pub get_key_from_key_queue : KeyData → Queue KeyData → Option KeyData × Queue KeyData
get_key_from_key_queue d q = if is_queue_empty q then (none, q) else get_queue d q
