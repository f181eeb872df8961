-- ===== src/DynamicMemory/Find.antt =====
-- 02.Kernel64/DynamicMemory.c: the scan of a bitmap by words is the search for the lowest exist bit.
use mintos.Base.{
  ℕ, zero, suc, ◌+◌, ◌-◌, ◌*◌, ◌/◌, ◌%◌, ◌≤◌, ◌<◌, ◌≡◌, refl, ◌⊎◌, inl, inr, Bool, true, false,
  Option, none, some, arith, ltb, ◌==◌, ==_iff, if◌then◌else◌, Bool-cases, ◌&&◌, ◌∙◌, sym, ap,
}
use mintos.DynamicMemory.{none_set, find_free_from}

-- The lowest of the `n` offsets from `o` on whose bit is set.
abbrev pub first_set : (n o : ℕ) → (ℕ → Bool) → Option ℕ
first_set zero o bits = none
first_set (suc n) o bits = if bits o then some o else first_set n (o + 1) bits

first_set-skip :
    (k n o : ℕ) (bits : ℕ → Bool)
    → none_set k o bits ≡ true
    → k ≤ n
    → first_set n o bits ≡ first_set (n - k) (o + k) bits
unfolding none_set
first_set-skip zero n o bits h le =
    let same_n : n ≡ n - 0 = omega arith in
    let same_o : o ≡ o + 0 = omega arith in
    ap (λ p. first_set p o bits) same_n ∙ ap (λ p. first_set (n - 0) p bits) same_o
first_set-skip (suc k) zero o bits h le = absurd (omega arith)
first_set-skip (suc k) (suc n) o bits h le = elim (Bool-cases (bits o)) [
  | inl set_it ↦ ground arith
  | inr unset ↦
      let same_n : n - k ≡ suc n - suc k = omega arith in
      let same_o : o + 1 + k ≡ o + suc k = omega arith in
      rw unset (
        first_set-skip k n (o + 1) bits (ground arith) (omega arith)
        ∙ ap (λ p. first_set p (o + 1 + k) bits) same_n
        ∙ ap (λ p. first_set (suc n - suc k) p bits) same_o)
]

-- What holds at the offsets that the scan reaches: it stands at a byte, or the word there has a set
-- bit, or no whole word is left.
abbrev pub Aligned : (max : ℕ) → (ℕ → Bool) → ℕ → Type 0
Aligned max bits i = (i % 8 ≡ 0) ⊎ (none_set 64 (i / 8 * 8) bits ≡ false) ⊎ (max - i < 64)

-- The end of the bitmap, whatever the fuel.
find_free_from-end :
    (fuel max : ℕ) (bits : ℕ → Bool) (i : ℕ) → max ≤ i → find_free_from fuel max bits i ≡ none
unfolding find_free_from
find_free_from-end zero max bits i h = refl
find_free_from-end (suc fuel) max bits i h = ground arith

-- The next offset, where the scan did not pass over the word.
Aligned-next :
    (max : ℕ) (bits : ℕ → Bool) (i : ℕ)
    → (ltb 0 ((max - i) / 64) && none_set 64 (i / 8 * 8) bits) ≡ false
    → Aligned max bits (i + 1)
Aligned-next max bits i h = elim (Bool-cases (ltb 0 ((max - i) / 64))) [
  | inl whole ↦ elim (Bool-cases ((i + 1) % 8 == 0)) [
    | inl at_byte ↦ inl ((==_iff _ 0).0 at_byte)
    | inr within ↦
        let same : (i + 1) / 8 ≡ i / 8 = ground arith in inr (inl (rw same (rw whole at h)))
  ]
  | inr part ↦ inr (inr (ground arith))
]

and_right : (a b : Bool) → (a && b) ≡ true → b ≡ true
and_right true b h = h
and_right false b h = ground arith

-- A word is passed over only from a byte on.
skip_at_byte :
    (max : ℕ) (bits : ℕ → Bool) (i : ℕ)
    → Aligned max bits i
    → (ltb 0 ((max - i) / 64) && none_set 64 (i / 8 * 8) bits) ≡ true
    → i / 8 * 8 ≡ i
skip_at_byte max bits i (inl at) h = omega (arith, at)
skip_at_byte max bits i (inr (inl set_it)) h =
    let contra : none_set 64 (i / 8 * 8) bits ≡ true = and_right (ltb 0 ((max - i) / 64)) _ h in
    ground (arith, contra, set_it)
skip_at_byte max bits i (inr (inr short)) h =
    let none_left : ltb 0 ((max - i) / 64) ≡ false = ground (arith, short) in
    let contra : (ltb 0 ((max - i) / 64) && none_set 64 (i / 8 * 8) bits) ≡ false =
      rw none_left refl in
    ground (arith, contra, h)

pub find_free_from-first_set :
    (fuel max : ℕ) (bits : ℕ → Bool) (i : ℕ)
    → Aligned max bits i
    → max ≤ i + fuel
    → find_free_from fuel max bits i ≡ first_set (max - i) i bits
unfolding find_free_from
find_free_from-first_set zero max bits i a h =
    let over : max - i ≡ 0 = omega (arith, h) in rw over refl
find_free_from-first_set (suc fuel) max bits i a h =
    let word = ltb 0 ((max - i) / 64) && none_set 64 (i / 8 * 8) bits in
    elim (Bool-cases (ltb i max)) [
      | inr out ↦ let over : max - i ≡ 0 = ground arith in rw (out, over) refl
      | inl inside ↦ elim (Bool-cases word) [
        | inl skip ↦
            let at : i / 8 * 8 ≡ i = skip_at_byte max bits i a skip in
            let whole : 64 ≤ max - i = ground arith in
            let zeros : none_set 64 i bits ≡ true =
              rw at at (and_right (ltb 0 ((max - i) / 64)) (none_set 64 (i / 8 * 8) bits) skip) in
            let same_n : max - (i + 64) ≡ max - i - 64 = omega arith in
            rw (inside, skip)
              (find_free_from-first_set fuel max bits (i + 64) (inl (ground arith))
                  (omega (arith, h))
                ∙ ap (λ p. first_set p (i + 64) bits) same_n
                ∙ sym (first_set-skip 64 (max - i) i bits zeros whole))
        | inr stay ↦ elim (Bool-cases (bits i)) [
          | inl set_it ↦
              let more : max - i ≡ suc (max - (i + 1)) = ground arith in
              rw (inside, stay, set_it, more, set_it) refl
          | inr unset ↦
              let more : max - i ≡ suc (max - (i + 1)) = ground arith in
              rw (inside, stay, unset, more, unset)
                (find_free_from-first_set fuel max bits (i + 1) (Aligned-next max bits i stay)
                  (omega (arith, h)))
        ]
      ]
    ]
