-- ===== src/Text/Reverse.antt =====
-- Swapping the ends inwards, as kReverseString does, reverses a string.
use mintos.Base.{
  ℕ, zero, suc, ◌+◌, ◌-◌, ◌/◌, ◌≤◌, ◌<◌, ◌≡◌, ◌≢◌, ◌⊎◌, inl, inr, refl, List, [], ◌∷◌, ◌++◌, arith,
  ◌==◌, Bool-cases, ==_iff, length, get_or, set, length-set, length-append, get_or-set_self,
  get_or-set_ne, ◌∙◌, sym, ap, subst,
}
use mintos.Text.{swap_ends, reverse_string}

-- The string in the other order.
abbrev pub reverse : List ℕ → List ℕ
reverse [] = []
reverse (x ∷ xs) = reverse xs ++ x ∷ []

abbrev swapped : ℕ → List ℕ → List ℕ
swapped i s = set (set s i (get_or s (length s - 1 - i) 0)) (length s - 1 - i) (get_or s i 0)

swapped-length : (i : ℕ) (s : List ℕ) → length (swapped i s) ≡ length s
swapped-length i s =
    length-set (set s i (get_or s (length s - 1 - i) 0)) (length s - 1 - i) (get_or s i 0)
    ∙ length-set s i (get_or s (length s - 1 - i) 0)

module _ (i : ℕ) (s : List ℕ) (inside : i + i + 1 < length s) where
  swapped-first : get_or (swapped i s) i 0 ≡ get_or s (length s - 1 - i) 0
  swapped-first =
      get_or-set_ne (set s i (get_or s (length s - 1 - i) 0)) (length s - 1 - i) i (get_or s i 0) 0
        (omega (arith, inside))
      ∙ get_or-set_self s i (get_or s (length s - 1 - i) 0) 0 (omega (arith, inside))

  swapped-last : get_or (swapped i s) (length s - 1 - i) 0 ≡ get_or s i 0
  swapped-last =
      get_or-set_self (set s i (get_or s (length s - 1 - i) 0)) (length s - 1 - i) (get_or s i 0) 0
        (omega (arith, inside, length-set s i (get_or s (length s - 1 - i) 0)))

  swapped-other : (j : ℕ) → i ≢ j → length s - 1 - i ≢ j → get_or (swapped i s) j 0 ≡ get_or s j 0
  swapped-other j ni nl =
      get_or-set_ne (set s i (get_or s (length s - 1 - i) 0)) (length s - 1 - i) j (get_or s i 0) 0
        nl
      ∙ get_or-set_ne s i j (get_or s (length s - 1 - i) 0) 0 ni

swap_ends-length : (n i : ℕ) (s : List ℕ) → length (swap_ends n i s) ≡ length s
unfolding swap_ends
swap_ends-length zero i s = refl
swap_ends-length (suc n) i s = swap_ends-length n (i + 1) (swapped i s) ∙ swapped-length i s

-- Outside of the part that is left the string stays.
swap_ends-outside :
    (n i : ℕ) (s : List ℕ) (j : ℕ)
    → i + n ≡ length s / 2
    → (j < i) ⊎ (length s ≤ i + j)
    → get_or (swap_ends n i s) j 0 ≡ get_or s j 0
unfolding swap_ends
swap_ends-outside zero i s j e out = refl
swap_ends-outside (suc n) i s j e out =
    let same = swapped-length i s in
    swap_ends-outside n (i + 1) (swapped i s) j (ground (arith, same)) (ground (arith, same))
    ∙ swapped-other i s (ground arith) j (ground arith) (ground arith)

-- Inside of it the string is reversed.
swap_ends-inside :
    (n i : ℕ) (s : List ℕ) (j : ℕ)
    → i + n ≡ length s / 2
    → i ≤ j
    → i + j < length s
    → get_or (swap_ends n i s) j 0 ≡ get_or s (length s - 1 - j) 0
unfolding swap_ends
swap_ends-inside zero i s j e lo hi =
    let middle : j ≡ length s - 1 - j = omega arith in ap (λ p. get_or s p 0) middle
swap_ends-inside (suc n) i s j e lo hi =
    let same = swapped-length i s in
    let inside : i + i + 1 < length s = ground arith in
    let next : i + 1 + n ≡ length (swapped i s) / 2 = ground (arith, same) in
    elim (Bool-cases (i == j)) [
      | inl first ↦
          let at : i ≡ j = (==_iff i j).0 first in
          subst
            (λ p. get_or (swap_ends n (i + 1) (swapped i s)) p 0 ≡ get_or s (length s - 1 - p) 0) at
            (swap_ends-outside n (i + 1) (swapped i s) i next (inl (omega arith))
              ∙ swapped-first i s inside)
      | inr not_first ↦ elim (Bool-cases (i + j + 1 == length s)) [
        | inl last ↦
            let at : length s - 1 - i ≡ j = ground (arith, last) in
            let back : i ≡ length s - 1 - j = omega (arith, at, inside) in
            swap_ends-outside n (i + 1) (swapped i s) j next (inr (omega (arith, at, inside, same)))
            ∙ ap (λ p. get_or (swapped i s) p 0) (sym at)
            ∙ swapped-last i s inside
            ∙ ap (λ p. get_or s p 0) back
        | inr within ↦
            swap_ends-inside n (i + 1) (swapped i s) j next (ground arith) (ground (arith, same))
            ∙ ap (λ m. get_or (swapped i s) (m - 1 - j) 0) same
            ∙ swapped-other i s inside (length s - 1 - j) (ground arith) (ground arith)
      ]
    ]

get_or-append_before :
    (xs ys : List ℕ) (j : ℕ) → j < length xs → get_or (xs ++ ys) j 0 ≡ get_or xs j 0
get_or-append_before [] ys j h = absurd (omega arith)
get_or-append_before (x ∷ xs) ys zero h = refl
get_or-append_before (x ∷ xs) ys (suc j) h = get_or-append_before xs ys j (omega arith)

get_or-append_at : (xs : List ℕ) (y : ℕ) (j : ℕ) → j ≡ length xs → get_or (xs ++ y ∷ []) j 0 ≡ y
get_or-append_at [] y zero h = refl
get_or-append_at [] y (suc j) h = absurd (omega arith)
get_or-append_at (x ∷ xs) y zero h = absurd (omega arith)
get_or-append_at (x ∷ xs) y (suc j) h = get_or-append_at xs y j (omega arith)

pub length-reverse : (xs : List ℕ) → length (reverse xs) ≡ length xs
length-reverse [] = refl
length-reverse (x ∷ xs) = omega (arith, length-append (reverse xs) (x ∷ []), length-reverse xs)

get_or-suc : (x : ℕ) (xs : List ℕ) (j : ℕ) → 0 < j → get_or (x ∷ xs) j 0 ≡ get_or xs (j - 1) 0
get_or-suc x xs zero h = absurd (omega arith)
get_or-suc x xs (suc j) h = let same : j ≡ suc j - 1 = omega arith in ap (λ p. get_or xs p 0) same

get_or-reverse :
    (xs : List ℕ) (j : ℕ)
    → j < length xs
    → get_or (reverse xs) j 0 ≡ get_or xs (length xs - 1 - j) 0
get_or-reverse [] j h = absurd (omega arith)
get_or-reverse (x ∷ xs) j h = elim (Bool-cases (j == length xs)) [
  | inl last ↦
      let at : j ≡ length xs = (==_iff j (length xs)).0 last in
      let first : 0 ≡ suc (length xs) - 1 - j = omega (arith, at) in
      get_or-append_at (reverse xs) x j (omega (arith, at, length-reverse xs))
      ∙ ap (λ p. get_or (x ∷ xs) p 0) first
  | inr before ↦
      let inside : j < length xs = ground arith in
      let same : length xs - 1 - j ≡ suc (length xs) - 1 - j - 1 = omega (arith, inside) in
      get_or-append_before (reverse xs) (x ∷ []) j (omega (arith, inside, length-reverse xs))
      ∙ get_or-reverse xs j inside
      ∙ ap (λ p. get_or xs p 0) same
      ∙ sym (get_or-suc x xs (suc (length xs) - 1 - j) (omega (arith, inside)))
]

-- Two strings of one length with the same characters are the same.
same_characters :
    (xs ys : List ℕ)
    → length xs ≡ length ys
    → ((j : ℕ) → j < length ys → get_or xs j 0 ≡ get_or ys j 0)
    → xs ≡ ys
same_characters [] [] e h = refl
same_characters [] (y ∷ ys) e h = absurd (omega arith)
same_characters (x ∷ xs) [] e h = absurd (omega arith)
same_characters (x ∷ xs) (y ∷ ys) e h =
    let first : x ≡ y = h 0 (omega arith) in
    let rest : xs ≡ ys = same_characters xs ys (omega arith) (λ j lt. h (suc j) (omega arith)) in
    rw (first, rest) refl

-- kReverseString, which swaps the characters from both ends inwards, reverses the string.
pub reverse_string-eq-reverse : (s : List ℕ) → reverse_string s ≡ reverse s
unfolding reverse_string
reverse_string-eq-reverse s =
    same_characters (swap_ends (length s / 2) 0 s) (reverse s)
      (swap_ends-length (length s / 2) 0 s ∙ sym (length-reverse s))
      (λ j lt.
        let inside : j < length s = omega (arith, lt, length-reverse s) in
        swap_ends-inside (length s / 2) 0 s j (omega arith) (omega arith) (omega (arith, inside))
        ∙ sym (get_or-reverse s j inside))
