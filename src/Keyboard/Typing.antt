-- ===== src/Keyboard/Typing.antt =====
-- Typing letters: from the scan codes to the keys in the queue.
use mintos.Base.{
  xor, ℕ, zero, suc, ◌-◌, ◌%◌, ◌≤◌, ◌<◌, ◌≡◌, refl, Bool, true, false, List, [], ◌∷◌, ◌++◌,
  append-nil, append_assoc, arith, ◌==◌, if◌then◌else◌, length, take, Bool-cases, Option-cases, inl,
  inr, ltb, ==_iff, ◌∙◌, ap, sym, subst, length-append,
}
use mintos.Keyboard.{
  KeyboardManager, KeyData, key_flags_down, convert_scan_code_to_ascii_code,
  convert_scan_code_and_put_queue, put_key, update_combination_key_status,
}
use mintos.Keyboard.Codes.{IsReady, normal, letter_case}
use mintos.Keyboard.Sequences.{queued, convert_put, convert_single}
use mintos.Queue.{Queue, put_queue, is_queue_full}
use mintos.Queue.Holds.{Holds}

-- The code of a letter's key, for a press or a release.
pub record IsLetter (c : ℕ) : Type 0 where
  pub single : c < 0xe0
  pub in_table : c % 128 < 89
  pub low : b'a' ≤ normal (c % 128)
  pub high : normal (c % 128) ≤ b'z'

abbrev pub AllLetters : List ℕ → Type 0
AllLetters [] = Unit
AllLetters (c ∷ cs) = IsLetter c × AllLetters cs

-- The keys that a user expects for the codes, in capitals or not.
abbrev pub letter_key : (capitals : Bool) → ℕ → KeyData
letter_key capitals c = record {
  scan_code = c;
  ascii_code = if capitals then normal (c % 128) - 32 else normal (c % 128);
  flags = if ltb c 128 then key_flags_down else 0;
}

abbrev pub letter_keys : (capitals : Bool) → List ℕ → List KeyData
letter_keys capitals [] = []
letter_keys capitals (c ∷ cs) = letter_key capitals c ∷ letter_keys capitals cs

-- A key that the table gives no letter is not that of a letter.
other_key :
    (c key : ℕ)
    → IsLetter c
    → (b'a' ≤ normal key → normal key ≤ b'z' → true ≡ false)
    → (c % 128 == key) ≡ false
other_key c key l none = elim (Bool-cases (c % 128 == key)) [
  | inr ne ↦ ne
  | inl at ↦
      let same : c % 128 ≡ key = (==_iff (c % 128) key).0 at in
      let contra : true ≡ false =
        none (subst (λ z. b'a' ≤ normal z) same l.low) (subst (λ z. normal z ≤ b'z') same l.high) in
      absurd (ground (arith, contra))
]

-- What is taken behind `xs` with no room left, and with room for one item at least.
append_none : (xs ys : List KeyData) (n : ℕ) → n ≡ 0 → xs ++ take n ys ≡ xs
append_none xs ys zero h = append-nil xs
append_none xs ys (suc n) h = absurd (ground (arith, h))

append_nothing : (xs : List KeyData) (n : ℕ) → xs ++ take n [] ≡ xs
append_nothing xs zero = append-nil xs
append_nothing xs (suc n) = append-nil xs

append_one :
    (xs ys : List KeyData) (y : KeyData) (n n' : ℕ)
    → n ≡ suc n'
    → (xs ++ y ∷ []) ++ take n' ys ≡ xs ++ take n (y ∷ ys)
append_one xs ys y n n' e = rw e (append_assoc xs (y ∷ []) (take n' ys))

module _ (beyond : ℕ → ℕ × ℕ) where
  -- The bytes go through kConvertScanCodeAndPutQueue one after another.
  unfoldable pub put_all :
      KeyboardManager → Queue KeyData → List ℕ → KeyboardManager × Queue KeyData
  put_all k q [] = (k, q)
  put_all k q (c ∷ cs) = let r = convert_scan_code_and_put_queue beyond k q c in put_all r.1 r.2 cs

  -- A letter changes no state of the keyboard.
  letter-state :
      (k : KeyboardManager) (c : ℕ)
      → IsReady k
      → IsLetter c
      → (convert_scan_code_to_ascii_code beyond k c).1 ≡ record k { extended_code_in = false }
  unfolding update_combination_key_status
  letter-state k c v l =
      convert_single beyond k c v l.single
      ∙ rw
          (
            other_key c 42 l (λ lo hi. ground arith),
            other_key c 54 l (λ lo hi. ground arith),
            other_key c 58 l (λ lo hi. ground arith),
            other_key c 69 l (λ lo hi. ground arith),
          )
          refl

  put_queue-capacity :
      (q : Queue KeyData) (x : KeyData) → (put_queue q x).1.max_data_count ≡ q.max_data_count
  unfolding put_queue
  put_queue-capacity q x = elim (Bool-cases (is_queue_full q)) [
    | inl e ↦ rw e refl
    | inr e ↦ rw e refl
  ]

  same_capacity :
      (k : KeyboardManager) (q : Queue KeyData) (c : ℕ)
      → (convert_scan_code_and_put_queue beyond k q c).2.max_data_count ≡ q.max_data_count
  unfolding convert_scan_code_and_put_queue put_key
  same_capacity k q c = elim (Option-cases (convert_scan_code_to_ascii_code beyond k c).0) [
    | inl nothing ↦ rw nothing refl
    | inr (key, e) ↦
        rw e (put_queue-capacity q (record { scan_code = c; ascii_code = key.0; flags = key.1 }))
  ]

  -- One letter, on a queue that holds `xs`.
  put_letter :
      (d : KeyData) (k : KeyboardManager) (q : Queue KeyData) (xs : List KeyData) (c : ℕ)
      → IsReady k
      → IsLetter c
      → Holds d q xs
      → let r = convert_scan_code_and_put_queue beyond k q c in
        let one = letter_keys (xor k.shift_down k.caps_lock_on) (c ∷ []) in
        (r.1 ≡ record k { extended_code_in = false })
        × Holds d r.2 (if length xs == q.max_data_count then xs else xs ++ one)
  unfolding queued
  put_letter d k q xs c v l h =
      let p = convert_put beyond d k q xs c h in
      let r = convert_scan_code_and_put_queue beyond k q c in
      let code = letter_case beyond k c v l.single l.in_table l.low l.high in
      let held = subst (λ o. Holds d r.2 (queued q.max_data_count xs c o).1) code p.2 in
      (
        p.1 ∙ letter-state k c v l,
        elim (Bool-cases (length xs == q.max_data_count)) [
          | inl full ↦ rw full (rw full at held)
          | inr room ↦ rw room (rw room at held)
        ],
      )

  -- From a keyboard that waits for no further byte, the codes of letters, presses and releases, put
  -- into a key queue that holds `xs` the keys of these letters in their order, as many as there is
  -- room for, in capitals where exactly one of Shift and Caps Lock is on. The keys that no longer fit
  -- are dropped, and Shift and Caps Lock stay.
  pub put_all-letters :
      (d : KeyData) (k : KeyboardManager) (q : Queue KeyData) (xs : List KeyData) (cs : List ℕ)
      → IsReady k
      → AllLetters cs
      → Holds d q xs
      → ((put_all k q cs).0 ≡ k)
        × Holds d (put_all k q cs).1 (
            xs
            ++ take
                (q.max_data_count - length xs)
                (letter_keys (xor k.shift_down k.caps_lock_on) cs))
  unfolding put_all
  put_all-letters d k q xs [] v l h =
      (refl, subst (Holds d q) (sym (append_nothing xs (q.max_data_count - length xs))) h)
  put_all-letters d k q xs (c ∷ cs) v l h =
      let r = convert_scan_code_and_put_queue beyond k q c in
      let one = put_letter d k q xs c v l.0 h in
      let same : record k { extended_code_in = false } ≡ k =
        ap (λ b. record k { extended_code_in = b }) (sym v.no_extended) in
      let kept : r.1 ≡ k = one.0 ∙ same in
      let capacity = same_capacity k q c in
      let keys = letter_keys (xor k.shift_down k.caps_lock_on) in
      let key = letter_key (xor k.shift_down k.caps_lock_on) c in
      let claim = λ (z : KeyboardManager) (ys : List KeyData).
        ((put_all z r.2 cs).0 ≡ k) × Holds d (put_all z r.2 cs).1 ys in
      let goal_keys = xs ++ take (q.max_data_count - length xs) (key ∷ keys cs) in
      let done = λ (ys : List KeyData) (e : ys ≡ goal_keys) (p : claim k ys).
        subst (λ z. claim z goal_keys) (sym kept) (subst (claim k) e p) in
      elim (Bool-cases (length xs == q.max_data_count)) [
        | inl full ↦
            done (xs ++ take (r.2.max_data_count - length xs) (keys cs))
              (append_none xs (keys cs) _ (ground (arith, capacity, full))
                ∙ sym (append_none xs (key ∷ keys cs) _ (ground (arith, full))))
              (put_all-letters d k r.2 xs cs v l.1 (rw full at one.1))
        | inr room ↦
            let ys = xs ++ key ∷ [] in
            done (ys ++ take (r.2.max_data_count - length ys) (keys cs))
              (append_one xs (keys cs) key (q.max_data_count - length xs)
                (r.2.max_data_count - length ys)
                (ground (arith, capacity, room, h.fits, length-append xs (key ∷ []))))
              (put_all-letters d k r.2 ys cs v l.1 (rw room at one.1))
      ]
