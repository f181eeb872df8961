-- ===== src/Keyboard/Sequences.antt =====
-- Sequences of scan codes: the Pause key, extended keys, the lock keys, and the key queue.
use mintos.Base.{
  Option-cases, xor, ℕ, ◌+◌, ◌%◌, ◌≤◌, ◌<◌, ◌≡◌, refl, Bool, true, false, Option, none, some, List,
  [], ◌∷◌, ◌++◌, arith, ◌==◌, if◌then◌else◌, length, Bool-cases, inl, inr, ltb, le→ltb_false,
  ne→==_false, ◌∙◌, ap,
}
use mintos.Keyboard.{
  KeyboardManager, KeyData, key_pause, key_flags_down, key_flags_extended_key, entry,
  is_use_combined_code, convert_scan_code_to_ascii_code, convert_scan_code_and_put_queue,
  update_combination_key_status,
}
use mintos.Keyboard.Codes.{IsReady, normal, entry_inside, keypad_normal}
use mintos.Queue.{Queue}
use mintos.Queue.Holds.{Holds, put-Holds, put-full, put-room}

module _ (beyond : ℕ → ℕ × ℕ) where
  -- The bytes go through kConvertScanCodeToASCIICode one after another.
  unfoldable pub convert_all : KeyboardManager → List ℕ → List (Option (ℕ × ℕ)) × KeyboardManager
  convert_all k [] = ([], k)
  convert_all k (c ∷ cs) =
      let r = convert_scan_code_to_ascii_code beyond k c in
      let rest = convert_all r.1 cs in (r.0 ∷ rest.0, rest.1)

  -- The three bytes of the Pause key, the last two of any value, make one key that is pressed, and
  -- leave the manager as it was.
  pub pause_sequence :
      (k : KeyboardManager) (a b : ℕ)
      → k.skip_count_for_pause ≡ 0
      → convert_all k (0xe1 ∷ a ∷ b ∷ []) ≡ (some (key_pause, key_flags_down) ∷ none ∷ none ∷ [], k)
  unfolding convert_all convert_scan_code_to_ascii_code
  pause_sequence k a b h = ground arith

  convert_extended :
      (k : KeyboardManager) (c : ℕ)
      → k.skip_count_for_pause ≡ 0
      → k.extended_code_in ≡ true
      → c < 0xe0
      → convert_scan_code_to_ascii_code beyond k c ≡ (
        some (
          (if is_use_combined_code beyond k c
              then (entry beyond (c % 128)).1
              else (entry beyond (c % 128)).0),
          (if ltb c 128 then key_flags_extended_key + key_flags_down else key_flags_extended_key),
        ),
        update_combination_key_status (record k { extended_code_in = false }) c,
      )
  unfolding convert_scan_code_to_ascii_code
  convert_extended k c skip ext small = ground arith

  update-IsReady :
      (k : KeyboardManager) (c : ℕ)
      → k.skip_count_for_pause ≡ 0
      → IsReady (update_combination_key_status (record k { extended_code_in = false }) c)
  unfolding update_combination_key_status
  update-IsReady k c h = ground arith

  convert-prefix :
      (k : KeyboardManager)
      → k.skip_count_for_pause ≡ 0
      → convert_scan_code_to_ascii_code beyond k 0xe0 ≡ (none, record k { extended_code_in = true })
  unfolding convert_scan_code_to_ascii_code
  convert-prefix k h = ground arith

  -- A manager that waits for no further byte reads 0xe0 and then a byte of a single key on the
  -- keypad as one key with its normal code, whatever Num Lock says, with the flag for extended keys
  -- and, on a press only, the flag for down. It waits for nothing afterwards.
  pub extended_sequence :
      (k : KeyboardManager) (c : ℕ)
      → IsReady k
      → c < 0xe0
      → 71 ≤ c % 128
      → c % 128 ≤ 83
      → IsReady (convert_all k (0xe0 ∷ c ∷ [])).1
        × ((convert_all k (0xe0 ∷ c ∷ [])).0
            ≡ none
              ∷ some (
                normal (c % 128),
                (if ltb c 128
                    then key_flags_extended_key + key_flags_down
                    else key_flags_extended_key),
              )
              ∷ [])
  unfolding convert_all
  extended_sequence k c v small lo hi =
      let k' : KeyboardManager = record k { extended_code_in = true } in
      let e = convert_extended k' c v.no_skip refl small in
      rw (convert-prefix k v.no_skip, e)
        (
          update-IsReady k' c v.no_skip,
          rw (keypad_normal beyond k' c refl lo hi, entry_inside beyond k' (c % 128) (omega arith)),
        )

-- What a key queue of the capacity answers and holds afterwards, when it holds `xs` and the scan
-- code gives the key `o` or none.
unfoldable pub queued : (capacity : ℕ) → List KeyData → ℕ → Option (ℕ × ℕ) → Bool × List KeyData
queued capacity xs c none = (false, xs)
queued capacity xs c (some (code, flags)) =
    if length xs == capacity
    then (false, xs)
    else (true, xs ++ record { scan_code = c; ascii_code = code; flags = flags } ∷ [])

-- How often a key is pressed in the sequence, as a parity.
abbrev pub odd_presses : ℕ → List ℕ → Bool
odd_presses key [] = false
odd_presses key (c ∷ cs) = xor (c == key) (odd_presses key cs)

-- Each byte is the code of one key.
abbrev pub AllSingle : List ℕ → Type 0
AllSingle [] = Unit
AllSingle (c ∷ cs) = (c < 0xe0) × AllSingle cs

xor_not : (a b c : Bool) → xor (xor a b) c ≡ xor a (xor b c)
xor_not true true true = refl
xor_not true true false = refl
xor_not true false true = refl
xor_not true false false = refl
xor_not false b c = refl

module _ (beyond : ℕ → ℕ × ℕ) where
  pub convert_single :
      (k : KeyboardManager) (c : ℕ)
      → IsReady k
      → c < 0xe0
      → (convert_scan_code_to_ascii_code beyond k c).1
        ≡ update_combination_key_status (record k { extended_code_in = false }) c
  unfolding convert_scan_code_to_ascii_code
  convert_single k c v small = rw (
    le→ltb_false 0 k.skip_count_for_pause (omega arith),
    ne→==_false c 0xe1 (omega arith),
    ne→==_false c 0xe0 (omega arith),
  )

  update-locks :
      (k : KeyboardManager) (c : ℕ)
      → c < 0xe0
      → let k' = update_combination_key_status k c in
        (k'.caps_lock_on ≡ xor k.caps_lock_on (c == 58))
        × (k'.num_lock_on ≡ xor k.num_lock_on (c == 69))
  unfolding update_combination_key_status
  update-locks k c small = (ground arith, ground arith)

  convert-locks :
      (k : KeyboardManager) (c : ℕ)
      → IsReady k
      → c < 0xe0
      → let k' = (convert_scan_code_to_ascii_code beyond k c).1 in
        IsReady k'
        × (k'.caps_lock_on ≡ xor k.caps_lock_on (c == 58))
        × (k'.num_lock_on ≡ xor k.num_lock_on (c == 69))
  convert-locks k c v small =
      let l = update-locks (record k { extended_code_in = false }) c small in
      rw (convert_single k c v small) (update-IsReady beyond k c v.no_skip, l.0, l.1)

  -- After any sequence of codes of single keys, Caps Lock and Num Lock have changed exactly if their
  -- keys (58 and 69) were pressed an odd number of times.
  pub lock_parity :
      (cs : List ℕ) (k : KeyboardManager)
      → IsReady k
      → AllSingle cs
      → let k' = (convert_all beyond k cs).1 in
        (k'.caps_lock_on ≡ xor k.caps_lock_on (odd_presses 58 cs))
        × (k'.num_lock_on ≡ xor k.num_lock_on (odd_presses 69 cs))
  unfolding convert_all
  lock_parity [] k v all = (ground arith, ground arith)
  lock_parity (c ∷ cs) k v all =
      let k' = (convert_scan_code_to_ascii_code beyond k c).1 in
      let e = convert-locks k c v all.0 in
      let ih = lock_parity cs k' e.0 all.1 in
      (
        ih.0 ∙ ap (λ b. xor b (odd_presses 58 cs)) e.1 ∙ xor_not k.caps_lock_on (c == 58) _,
        ih.1 ∙ ap (λ b. xor b (odd_presses 69 cs)) e.2 ∙ xor_not k.num_lock_on (c == 69) _,
      )

  -- kConvertScanCodeAndPutQueue keeps the manager of the conversion. On a queue that holds `xs` it
  -- returns FALSE and leaves the queue's keys where the code gives no key or the queue is full;
  -- otherwise it returns TRUE and puts the scan code with the key's code and flags behind `xs`.
  pub convert_put :
      (d : KeyData) (k : KeyboardManager) (q : Queue KeyData) (xs : List KeyData) (c : ℕ)
      → Holds d q xs
      → let r = convert_scan_code_and_put_queue beyond k q c in
        let e = convert_scan_code_to_ascii_code beyond k c in
        let after = queued q.max_data_count xs c e.0 in
        (r.0 ≡ after.0) × (r.1 ≡ e.1) × Holds d r.2 after.1
  unfolding convert_scan_code_and_put_queue queued
  convert_put d k q xs c v = elim (Option-cases (convert_scan_code_to_ascii_code beyond k c).0) [
    | inl nothing ↦ rw nothing (refl, refl, v)
    | inr (key, e) ↦
        let x : KeyData = record { scan_code = c; ascii_code = key.0; flags = key.1 } in
        elim (Bool-cases (length xs == q.max_data_count)) [
          | inl full ↦ rw (e, full, put-full d q xs x v (ground (arith, full))) (refl, refl, v)
          | inr room ↦
              rw (e, room)
                ((put-room d q xs x v room).0, refl, put-Holds d q xs x v (ground (arith, v.fits)))
        ]
  ]
