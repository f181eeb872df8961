-- ===== src/Cache/Lookup.antt =====
-- What a table holds under a tag, and that sorting by age does not change it.
use mintos.Base.{
  ℕ, zero, suc, ◌+◌, ◌-◌, ◌<◌, ◌≡◌, refl, Bool, false, Option, none, some, List, [], ◌∷◌, arith,
  ◌==◌, ltb, if◌then◌else◌, length, Bool-cases, inl, inr, ◌∙◌, ==_iff, ap,
}
use mintos.Cache.{CacheBuffer, CacheTable, bubble, sort_rounds, renumber, cut_down_access_time}

-- A tag of a block, below the two that the manager keeps for itself.
abbrev pub IsBlock : ℕ → Type 0
IsBlock tag = tag < 0xffff_fffe

-- The first entry with the tag: whether it is changed, and its bytes.
abbrev pub lookup : ℕ → List CacheBuffer → Option (Bool × List ℕ)
lookup tag [] = none
lookup tag (x ∷ xs) = if x.tag == tag then some (x.changed, x.buffer) else lookup tag xs

-- No block stands in two entries.
abbrev pub DistinctTags : List CacheBuffer → Type 0
DistinctTags [] = Unit
DistinctTags (x ∷ xs) = (IsBlock x.tag → lookup x.tag xs ≡ none) × DistinctTags xs

-- The same blocks with the same contents, in any order and of any age, where they stand once.
pub record Rearranged (xs ys : List CacheBuffer) : Type 0 where
  pub same : DistinctTags xs → (tag : ℕ) → IsBlock tag → lookup tag ys ≡ lookup tag xs
  pub distinct : DistinctTags xs → DistinctTags ys
  pub count : length ys ≡ length xs

pub lookup-none_tail :
    (tag : ℕ) (y : CacheBuffer) (r : List CacheBuffer)
    → lookup tag (y ∷ r) ≡ none
    → ((y.tag == tag) ≡ false) × (lookup tag r ≡ none)
lookup-none_tail tag y r h = elim (Bool-cases (y.tag == tag)) [
  | inl same_tag ↦ ground arith
  | inr ne ↦ (ne, ground arith)
]

-- The entries `x` and `y` in the other order, over a rearranged rest.
swap-same :
    (x y : CacheBuffer) (r s : List CacheBuffer)
    → DistinctTags (x ∷ y ∷ r)
    → Rearranged (x ∷ r) s
    → (tag : ℕ) → IsBlock tag
    → lookup tag (y ∷ s) ≡ lookup tag (x ∷ y ∷ r)
swap-same x y r s d ih tag h =
    let rest = ih.same (λ b. (lookup-none_tail x.tag y r (d.0 b)).1, d.1.1) tag h in
    elim (Bool-cases (y.tag == tag)) [
      | inl at_y ↦ elim (Bool-cases (x.tag == tag)) [
        | inl at_x ↦
            let x_is = (==_iff x.tag tag).0 at_x in
            let ne = (lookup-none_tail x.tag y r (d.0 (omega (arith, x_is, h)))).0 in
            let apart : (y.tag == tag) ≡ false = rw x_is at ne in ground arith
        | inr not_x ↦ rw (at_y, not_x) refl
      ]
      | inr not_y ↦ rw (not_y, rest) refl
    ]

swap-distinct :
    (x y : CacheBuffer) (r s : List CacheBuffer)
    → DistinctTags (x ∷ y ∷ r)
    → Rearranged (x ∷ r) s
    → DistinctTags (y ∷ s)
swap-distinct x y r s d ih =
    let dx : DistinctTags (x ∷ r) = (λ b. (lookup-none_tail x.tag y r (d.0 b)).1, d.1.1) in
    (
      λ b. elim (Bool-cases (x.tag == y.tag)) [
        | inl at_x ↦
            let x_is = (==_iff x.tag y.tag).0 at_x in
            let ne = (lookup-none_tail x.tag y r (d.0 (omega (arith, x_is, b)))).0 in
            let apart : (y.tag == y.tag) ≡ false = rw x_is at ne in ground arith
        | inr not_x ↦ ih.same dx y.tag b ∙ rw not_x (d.1.0 b)
      ],
      ih.distinct dx,
    )

bubble-Rearranged : (n : ℕ) (xs : List CacheBuffer) → Rearranged xs (bubble n xs).1
unfolding bubble
bubble-Rearranged zero xs = record { same = λ d tag h. refl; distinct = λ d. d; count = refl }
bubble-Rearranged (suc n) [] = record { same = λ d tag h. refl; distinct = λ d. d; count = refl }
bubble-Rearranged (suc n) (x ∷ []) = record {
  same = λ d tag h. refl;
  distinct = λ d. d;
  count = refl;
}
bubble-Rearranged (suc n) (x ∷ y ∷ r) = elim (Bool-cases (ltb y.access_time x.access_time)) [
  | inl swap ↦
      let ih = bubble-Rearranged n (x ∷ r) in
      rw swap (record {
        same = λ d tag h. swap-same x y r (bubble n (x ∷ r)).1 d ih tag h;
        distinct = λ d. swap-distinct x y r (bubble n (x ∷ r)).1 d ih;
        count = omega (arith, ih.count);
      })
  | inr keep ↦
      let ih = bubble-Rearranged n (y ∷ r) in
      rw keep (record {
        same = λ d tag h. ground (arith, ih.same d.1 tag h);
        distinct = λ d. (λ h. ih.same d.1 x.tag h ∙ d.0 h, ih.distinct d.1);
        count = omega (arith, ih.count);
      })
]

Rearranged-trans :
    (xs ys zs : List CacheBuffer) → Rearranged xs ys → Rearranged ys zs → Rearranged xs zs
Rearranged-trans xs ys zs s t = record {
  same = λ d tag h. t.same (s.distinct d) tag h ∙ s.same d tag h;
  distinct = λ d. t.distinct (s.distinct d);
  count = t.count ∙ s.count;
}

sort_rounds-Rearranged :
    (rounds n : ℕ) (xs : List CacheBuffer) → Rearranged xs (sort_rounds rounds n xs)
unfolding sort_rounds
sort_rounds-Rearranged zero n xs = record {
  same = λ d tag h. refl;
  distinct = λ d. d;
  count = refl;
}
sort_rounds-Rearranged (suc rounds) n xs =
    let first = bubble-Rearranged n xs in
    elim (Bool-cases (bubble n xs).0) [
      | inl sorted ↦ rw sorted first
      | inr not_yet ↦ rw not_yet (
          Rearranged-trans xs (bubble n xs).1 (sort_rounds rounds (n - 1) (bubble n xs).1) first
            (sort_rounds-Rearranged rounds (n - 1) (bubble n xs).1))
    ]

renumber-lookup : (i tag : ℕ) (xs : List CacheBuffer) → lookup tag (renumber i xs) ≡ lookup tag xs
unfolding renumber
renumber-lookup i tag [] = refl
renumber-lookup i tag (x ∷ xs) = rw (renumber-lookup (i + 1) tag xs) refl

renumber-distinct : (i : ℕ) (xs : List CacheBuffer) → DistinctTags xs → DistinctTags (renumber i xs)
unfolding renumber
renumber-distinct i [] d = tt
renumber-distinct i (x ∷ xs) d =
    (λ b. renumber-lookup (i + 1) x.tag xs ∙ d.0 b, renumber-distinct (i + 1) xs d.1)

renumber-length : (i : ℕ) (xs : List CacheBuffer) → length (renumber i xs) ≡ length xs
unfolding renumber
renumber-length i [] = refl
renumber-length i (x ∷ xs) = ap suc (renumber-length (i + 1) xs)

renumber-Rearranged : (i : ℕ) (xs : List CacheBuffer) → Rearranged xs (renumber i xs)
renumber-Rearranged i xs = record {
  same = λ d tag h. renumber-lookup i tag xs;
  distinct = renumber-distinct i xs;
  count = renumber-length i xs;
}

pub cut_down_access_time-Rearranged :
    (t : CacheTable) → Rearranged t.buffers (cut_down_access_time t).buffers
unfolding cut_down_access_time
cut_down_access_time-Rearranged t = elim (Bool-cases (ltb t.access_time 0xffff_fffe)) [
  | inl early ↦ rw early (record { same = λ d tag h. refl; distinct = λ d. d; count = refl })
  | inr late ↦
      let n = length t.buffers in
      let sorted = sort_rounds (n - 1) (n - 1) t.buffers in
      rw late (
        Rearranged-trans t.buffers sorted (renumber 0 sorted)
          (sort_rounds-Rearranged (n - 1) (n - 1) t.buffers) (renumber-Rearranged 0 sorted))
]

-- Sorting the entries by age and numbering them anew, which kCutDownAccessTime does when the clock
-- is about to wrap, changes neither the number of entries nor what a table holds for the tag of a
-- block, where no block stands in two entries; and then none stands in two entries afterwards.
pub cut_down_access_time-lookup :
    (t : CacheTable) (tag : ℕ)
    → DistinctTags t.buffers
    → IsBlock tag
    → (lookup tag (cut_down_access_time t).buffers ≡ lookup tag t.buffers)
      × DistinctTags (cut_down_access_time t).buffers
      × (length (cut_down_access_time t).buffers ≡ length t.buffers)
cut_down_access_time-lookup t tag d b =
    let r = cut_down_access_time-Rearranged t in (r.same d tag b, r.distinct d, r.count)
