-- ===== src/FileSystem/Entries.antt =====
-- What writes to one entry do to what a cache table holds.
use mintos.Base.{
  ℕ, zero, suc, ◌+◌, ◌<◌, ◌≡◌, ◌≢◌, inl, inr, refl, false, Option, none, some, List, [], ◌∷◌, arith,
  ◌==◌, length, get_or, set, Bool-cases, Option-cases, subst, ==_iff, ==_self, ap, ◌∙◌, sym,
  ne→==_false,
}
use mintos.Cache.{CacheBuffer, zero_buffer, find_tag}
use mintos.Cache.Lookup.{lookup, lookup-none_tail, IsBlock, DistinctTags}

-- An entry with the old tag, change flag and bytes changes nothing.
pub lookup-set_same :
    (tag : ℕ) (xs : List CacheBuffer) (i : ℕ) (e : CacheBuffer)
    → e.tag ≡ (get_or xs i zero_buffer).tag
    → e.changed ≡ (get_or xs i zero_buffer).changed
    → e.buffer ≡ (get_or xs i zero_buffer).buffer
    → lookup tag (set xs i e) ≡ lookup tag xs
lookup-set_same tag [] i e t c b = refl
lookup-set_same tag (x ∷ xs) zero e t c b = rw (t, c, b) refl
lookup-set_same tag (x ∷ xs) (suc i) e t c b = rw (lookup-set_same tag xs i e t c b) refl

not_first :
    (x : CacheBuffer) (xs : List CacheBuffer) (i : ℕ)
    → DistinctTags (x ∷ xs)
    → let e = get_or xs i zero_buffer in
      IsBlock e.tag → lookup e.tag xs ≡ some (e.changed, e.buffer) → (x.tag == e.tag) ≡ false
not_first x xs i d b found =
    let e = get_or xs i zero_buffer in
    elim (Bool-cases (x.tag == e.tag)) [
      | inr ne ↦ ne
      | inl same ↦
          let at : x.tag ≡ e.tag = (==_iff x.tag e.tag).0 same in
          let gone : lookup e.tag xs ≡ none = rw at at (d.0 (omega (arith, at, b))) in
          ground (arith, gone, found)
    ]

-- The block of an entry that a table with each block once has at index `i`.
pub lookup-at :
    (xs : List CacheBuffer) (i : ℕ)
    → DistinctTags xs
    → i < length xs
    → let e = get_or xs i zero_buffer in
      IsBlock e.tag → lookup e.tag xs ≡ some (e.changed, e.buffer)
lookup-at [] i d h b = absurd (omega arith)
lookup-at (x ∷ xs) zero d h b = rw (==_self x.tag) refl
lookup-at (x ∷ xs) (suc i) d h b =
    rw (not_first x xs i d b (lookup-at xs i d.1 (omega arith) b))
      (lookup-at xs i d.1 (omega arith) b)

-- The new entry of a tag that the table does not hold is found.
pub lookup-set_new :
    (tag : ℕ) (xs : List CacheBuffer) (i : ℕ) (e : CacheBuffer)
    → e.tag ≡ tag
    → i < length xs
    → lookup tag xs ≡ none
    → lookup tag (set xs i e) ≡ some (e.changed, e.buffer)
lookup-set_new tag [] i e t h no_entry = absurd (omega arith)
lookup-set_new tag (x ∷ xs) zero e t h no_entry = rw ((==_iff e.tag tag).1 t) refl
lookup-set_new tag (x ∷ xs) (suc i) e t h no_entry = elim (Bool-cases (x.tag == tag)) [
  | inl at ↦ ground arith
  | inr ne ↦ rw ne (lookup-set_new tag xs i e t (omega arith) (rw ne at no_entry))
]

-- Blocks that neither the old nor the new entry holds stay.
pub lookup-set_other :
    (tag : ℕ) (xs : List CacheBuffer) (i : ℕ) (e : CacheBuffer)
    → e.tag ≢ tag
    → (get_or xs i zero_buffer).tag ≢ tag
    → lookup tag (set xs i e) ≡ lookup tag xs
lookup-set_other tag [] i e n o = refl
lookup-set_other tag (x ∷ xs) zero e n o =
    rw (ne→==_false e.tag tag n, ne→==_false x.tag tag o) refl
lookup-set_other tag (x ∷ xs) (suc i) e n o = rw (lookup-set_other tag xs i e n o) refl

-- The block of the old entry is gone where it stood once.
pub lookup-set_gone :
    (xs : List CacheBuffer) (i : ℕ) (e : CacheBuffer)
    → DistinctTags xs
    → i < length xs
    → let g = (get_or xs i zero_buffer).tag in IsBlock g → e.tag ≢ g → lookup g (set xs i e) ≡ none
lookup-set_gone [] i e d h b n = absurd (omega arith)
lookup-set_gone (x ∷ xs) zero e d h b n = rw (ne→==_false e.tag x.tag n) (d.0 b)
lookup-set_gone (x ∷ xs) (suc i) e d h b n =
    rw (not_first x xs i d b (lookup-at xs i d.1 (omega arith) b))
      (lookup-set_gone xs i e d.1 (omega arith) b n)

lookup-set_absent :
    (tag : ℕ) (xs : List CacheBuffer) (i : ℕ) (e : CacheBuffer)
    → e.tag ≢ tag
    → lookup tag xs ≡ none
    → lookup tag (set xs i e) ≡ none
lookup-set_absent tag [] i e n h = refl
lookup-set_absent tag (x ∷ xs) zero e n h =
    rw (ne→==_false e.tag tag n) ((lookup-none_tail tag x xs h).1)
lookup-set_absent tag (x ∷ xs) (suc i) e n h =
    let t = lookup-none_tail tag x xs h in rw t.0 (lookup-set_absent tag xs i e n t.1)

-- A new entry for a block that the table does not hold leaves each block once.
pub DistinctTags-set :
    (xs : List CacheBuffer) (i : ℕ) (e : CacheBuffer)
    → DistinctTags xs
    → (IsBlock e.tag → lookup e.tag xs ≡ none)
    → DistinctTags (set xs i e)
DistinctTags-set [] i e d h = tt
DistinctTags-set (x ∷ xs) zero e d h = (λ b. (lookup-none_tail e.tag x xs (h b)).1, d.1)
DistinctTags-set (x ∷ xs) (suc i) e d h = (
  λ b.
      let apart : e.tag ≢ x.tag = λ same.
        let at : x.tag ≡ e.tag = sym same in
        let t = lookup-none_tail e.tag x xs (h (omega (arith, at, b))) in ground (arith, t.0, at) in
      lookup-set_absent x.tag xs i e apart (d.0 b),
  DistinctTags-set xs i e d.1 (λ b. (lookup-none_tail e.tag x xs (h b)).1),
)

pub DistinctTags-set_same :
    (xs : List CacheBuffer) (i : ℕ) (e : CacheBuffer)
    → DistinctTags xs
    → e.tag ≡ (get_or xs i zero_buffer).tag
    → e.changed ≡ (get_or xs i zero_buffer).changed
    → e.buffer ≡ (get_or xs i zero_buffer).buffer
    → DistinctTags (set xs i e)
DistinctTags-set_same [] i e d t c b = tt
DistinctTags-set_same (x ∷ xs) zero e d t c b = (rw t d.0, d.1)
DistinctTags-set_same (x ∷ xs) (suc i) e d t c b = (
  λ block. lookup-set_same x.tag xs i e t c b ∙ d.0 block,
  DistinctTags-set_same xs i e d.1 t c b,
)

-- The search by tag and the lookup agree.
pub find_tag-none :
    (tag : ℕ) (xs : List CacheBuffer) → find_tag tag xs ≡ none → lookup tag xs ≡ none
unfolding find_tag
find_tag-none tag [] h = refl
find_tag-none tag (x ∷ xs) h = elim (Bool-cases (x.tag == tag)) [
  | inl at ↦ ground arith
  | inr ne ↦ elim (Option-cases (find_tag tag xs)) [
    | inl rest ↦ rw ne (find_tag-none tag xs rest)
    | inr (i, e) ↦
        let contra : some (i + 1) ≡ none = rw (find_tag, ne, e) at h in ground (arith, contra)
  ]
]

-- Entry `i` holds the tag.
abbrev pub Found : ℕ → List CacheBuffer → ℕ → Type 0
Found tag xs i =
    let e = get_or xs i zero_buffer in
    (i < length xs) × (e.tag ≡ tag) × (lookup tag xs ≡ some (e.changed, e.buffer))

abbrev index_or_zero : Option ℕ → ℕ
index_or_zero none = 0
index_or_zero (some i) = i

pub find_tag-Found :
    (tag : ℕ) (xs : List CacheBuffer) (i : ℕ) → find_tag tag xs ≡ some i → Found tag xs i
unfolding find_tag
find_tag-Found tag [] i h = absurd (ground arith)
find_tag-Found tag (x ∷ xs) i h = elim (Bool-cases (x.tag == tag)) [
  | inl at ↦
      let first : 0 ≡ i = ap index_or_zero (rw (find_tag, at) at h) in
      subst (λ p. Found tag (x ∷ xs) p) first (omega arith, (==_iff x.tag tag).0 at, rw at refl)
  | inr ne ↦ elim (Option-cases (find_tag tag xs)) [
    | inl rest ↦
        let contra : none ≡ some i = rw (find_tag, ne, rest) at h in absurd (ground (arith, contra))
    | inr (j, e) ↦
        let later : j + 1 ≡ i = ap index_or_zero (rw (find_tag, ne, e) at h) in
        let next : suc j ≡ i = omega (arith, later) in
        let r = find_tag-Found tag xs j e in
        subst (λ p. Found tag (x ∷ xs) p) next (omega (arith, r.0), r.1, rw ne r.2)
  ]
]

-- New bytes for the block of an entry leave each block once.
pub DistinctTags-set_bytes :
    (xs : List CacheBuffer) (i : ℕ) (e : CacheBuffer)
    → DistinctTags xs
    → i < length xs
    → e.tag ≡ (get_or xs i zero_buffer).tag
    → DistinctTags (set xs i e)
DistinctTags-set_bytes [] i e d h t = tt
DistinctTags-set_bytes (x ∷ xs) zero e d h t = (rw t d.0, d.1)
DistinctTags-set_bytes (x ∷ xs) (suc i) e d h t = (
  λ b.
      let old = get_or xs i zero_buffer in
      let apart : e.tag ≢ x.tag = λ same.
        let at : old.tag ≡ x.tag = sym t ∙ same in
        let found = lookup-at xs i d.1 (omega arith) (omega (arith, at, b)) in
        let contra = sym (d.0 b) ∙ ap (λ a. lookup a xs) (sym at) ∙ found in
        ground (arith, contra) in
      lookup-set_absent x.tag xs i e apart (d.0 b),
  DistinctTags-set_bytes xs i e d.1 (omega arith) t,
)
