-- ===== src/FileSystem/Known.antt =====
-- The tags of a cache table between two calls: of blocks, or free.
use mintos.Base.{
  ℕ, zero, suc, ◌+◌, ◌-◌, ◌<◌, ◌≡◌, ◌⊎◌, inl, inr, refl, false, Option, none, some, List, [], ◌∷◌,
  arith, ◌==◌, ltb, length, get_or, set, Bool-cases, Option-cases, ap,
}
use mintos.Cache.{
  CacheBuffer, CacheTable, zero_buffer, invalid_tag, find_tag, bubble, sort_rounds, renumber,
  cut_down_access_time, oldest,
}
use mintos.Cache.Lookup.{IsBlock}

abbrev pub IsKnown : ℕ → Type 0
IsKnown tag = IsBlock tag ⊎ (tag ≡ invalid_tag)

abbrev pub AllKnown : List CacheBuffer → Type 0
AllKnown [] = Unit
AllKnown (x ∷ xs) = IsKnown x.tag × AllKnown xs

bubble-AllKnown : (n : ℕ) (xs : List CacheBuffer) → AllKnown xs → AllKnown (bubble n xs).1
unfolding bubble
bubble-AllKnown zero xs k = k
bubble-AllKnown (suc n) [] k = k
bubble-AllKnown (suc n) (x ∷ []) k = k
bubble-AllKnown (suc n) (x ∷ y ∷ r) k = elim (Bool-cases (ltb y.access_time x.access_time)) [
  | inl swap ↦ rw swap (k.1.0, bubble-AllKnown n (x ∷ r) (k.0, k.1.1))
  | inr keep ↦ rw keep (k.0, bubble-AllKnown n (y ∷ r) k.1)
]

sort_rounds-AllKnown :
    (rounds n : ℕ) (xs : List CacheBuffer) → AllKnown xs → AllKnown (sort_rounds rounds n xs)
unfolding sort_rounds
sort_rounds-AllKnown zero n xs k = k
sort_rounds-AllKnown (suc rounds) n xs k =
    let once = bubble-AllKnown n xs k in
    elim (Bool-cases (bubble n xs).0) [
      | inl sorted ↦ rw sorted once
      | inr more ↦ rw more (sort_rounds-AllKnown rounds (n - 1) (bubble n xs).1 once)
    ]

renumber-AllKnown : (i : ℕ) (xs : List CacheBuffer) → AllKnown xs → AllKnown (renumber i xs)
unfolding renumber
renumber-AllKnown i [] k = tt
renumber-AllKnown i (x ∷ xs) k = (k.0, renumber-AllKnown (i + 1) xs k.1)

pub cut_down_access_time-AllKnown :
    (t : CacheTable) → AllKnown t.buffers → AllKnown (cut_down_access_time t).buffers
unfolding cut_down_access_time
cut_down_access_time-AllKnown t k =
    let n = length t.buffers in
    elim (Bool-cases (ltb t.access_time 0xffff_fffe)) [
      | inl early ↦ rw early k
      | inr late ↦ rw late (
          renumber-AllKnown 0 (sort_rounds (n - 1) (n - 1) t.buffers)
            (sort_rounds-AllKnown (n - 1) (n - 1) t.buffers k))
    ]

pub AllKnown-set :
    (xs : List CacheBuffer) (i : ℕ) (e : CacheBuffer)
    → AllKnown xs
    → IsKnown e.tag
    → AllKnown (set xs i e)
AllKnown-set [] i e k h = tt
AllKnown-set (x ∷ xs) zero e k h = (h, k.1)
AllKnown-set (x ∷ xs) (suc i) e k h = (k.0, AllKnown-set xs i e k.1 h)

pub AllKnown-at :
    (xs : List CacheBuffer) (i : ℕ)
    → AllKnown xs
    → i < length xs
    → IsKnown (get_or xs i zero_buffer).tag
AllKnown-at [] i k h = absurd (omega arith)
AllKnown-at (x ∷ xs) zero k h = k.0
AllKnown-at (x ∷ xs) (suc i) k h = AllKnown-at xs i k.1 (omega arith)

-- A write over a write leaves the later one.
pub set-set :
    (xs : List CacheBuffer) (i : ℕ) (e e' : CacheBuffer) → set (set xs i e) i e' ≡ set xs i e'
set-set [] i e e' = refl
set-set (x ∷ xs) zero e e' = refl
set-set (x ∷ xs) (suc i) e e' = ap (λ r. x ∷ r) (set-set xs i e e')

find_tag-none_tail :
    (tag : ℕ) (x : CacheBuffer) (xs : List CacheBuffer)
    → find_tag tag (x ∷ xs) ≡ none
    → ((x.tag == tag) ≡ false) × (find_tag tag xs ≡ none)
unfolding find_tag
find_tag-none_tail tag x xs f = elim (Bool-cases (x.tag == tag)) [
  | inl at ↦ let contra : some 0 ≡ none = rw (find_tag, at) at f in absurd (ground (arith, contra))
  | inr ne ↦ elim (Option-cases (find_tag tag xs)) [
    | inl rest ↦ (ne, rest)
    | inr (j, e) ↦
        let contra : some (j + 1) ≡ none = rw (find_tag, ne, e) at f in
        absurd (ground (arith, contra))
  ]
]

-- In a table with no free entry the tag of each entry is a block's.
pub busy-IsBlock :
    (xs : List CacheBuffer) (i : ℕ)
    → AllKnown xs
    → find_tag invalid_tag xs ≡ none
    → i < length xs
    → IsBlock (get_or xs i zero_buffer).tag
busy-IsBlock [] i k f h = absurd (omega arith)
busy-IsBlock (x ∷ xs) zero k f h =
    let used = (find_tag-none_tail invalid_tag x xs f).0 in
    elim k.0 [ inl b ↦ b | inr e ↦ ground (arith, used, e) ]
busy-IsBlock (x ∷ xs) (suc i) k f h =
    busy-IsBlock xs i k.1 (find_tag-none_tail invalid_tag x xs f).1 (omega arith)

abbrev index_or_zero : Option ℕ → ℕ
index_or_zero none = 0
index_or_zero (some i) = i

-- The victim is an entry of the table.
pub oldest-inside :
    (xs : List CacheBuffer) (i time : ℕ) (found : Option ℕ) (k : ℕ)
    → ((j : ℕ) → found ≡ some j → j < i)
    → oldest i time found xs ≡ some k
    → k < i + length xs
unfolding oldest
oldest-inside [] i time found k b h = omega (arith, b k h)
oldest-inside (x ∷ xs) i time found k b h = elim (Bool-cases (x.tag == invalid_tag)) [
  | inl free ↦ let at : i ≡ k = ap index_or_zero (rw (oldest, free) at h) in omega (arith, at)
  | inr used ↦ elim (Bool-cases (ltb x.access_time time)) [
    | inl older ↦ omega (
      arith,
      oldest-inside xs (i + 1) x.access_time (some i) k
          (λ j e. let at : i ≡ j = ap index_or_zero e in omega (arith, at))
          (rw (oldest, used, older) at h),
    )
    | inr younger ↦ omega (
      arith,
      oldest-inside xs (i + 1) time found k (λ j e. omega (arith, b j e))
          (rw (oldest, used, younger) at h),
    )
  ]
]
