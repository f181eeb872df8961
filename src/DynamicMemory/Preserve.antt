-- ===== src/DynamicMemory/Preserve.antt =====
-- 02.Kernel64/DynamicMemory.c: allocation and release keep the exist counts and the bitmaps in
-- agreement.
use mintos.Base.{
  ℕ, zero, suc, ◌+◌, ◌-◌, ◌*◌, ◌/◌, ◌%◌, ◌≤◌, ◌<◌, ◌≡◌, Bool, true, false, Option, none, some,
  arith, ◌==◌, ltb, if◌then◌else◌, Bool-cases, Option-cases, inl, inr, ap, sym, ◌∙◌, ltb→lt, leb,
  subst,
}
use mintos.DynamicMemory.{
  DynamicMemory, block_count_of_level, find_free_block_in_bitmap, set_flag_in_bitmap, find_level,
  split, allocation_buddy_block, match_size, free_buddy_block, get_flag_in_bitmap,
  get_block_list_index_of_match_size, block_size,
}
use mintos.DynamicMemory.Find.{first_set}
use mintos.DynamicMemory.Counted.{
  AllCounted, set_flag_in_bitmap-AllCounted, find_free_block_in_bitmap-first_set,
}

abbrev or_else {ℓ} : {A : Type ℓ} → A → Option A → A
or_else a none = a
or_else a (some b) = b

first_set-bound :
    (n o : ℕ) (bits : ℕ → Bool) (p : ℕ)
    → first_set n o bits ≡ some p
    → (o ≤ p) × (p < o + n) × (bits p ≡ true)
first_set-bound zero o bits p h = ground arith
first_set-bound (suc n) o bits p h = elim (Bool-cases (bits o)) [
  | inl b ↦ let at : o ≡ p = ground (arith, b) in (omega (arith, at), omega (arith, at), rw at at b)
  | inr b ↦
      let r = first_set-bound n (o + 1) bits p (rw b at h) in
      (omega (arith, r.0), omega (arith, r.1), r.2)
]

-- The count of the next level is half of this one's.
next_count :
    (m : DynamicMemory) (level : ℕ)
    → block_count_of_level m (level + 1) ≡ block_count_of_level m level / 2
next_count m level =
    let next : level + 1 ≡ suc level = omega arith in ap (block_count_of_level m) next

-- The level that the search ends at is one of those searched, and its block is free there.
pub record IsFound (n : ℕ) (m : DynamicMemory) (level : ℕ) (r : ℕ × ℕ) : Type 0 where
  pub from : level ≤ r.0
  pub below : r.0 < level + n
  pub inside : r.1 < block_count_of_level m r.0
  pub free : (m.bitmap_of_level r.0).bits r.1 ≡ true

pub find_level-IsFound :
    (n : ℕ) (m : DynamicMemory) (level : ℕ) (r : ℕ × ℕ)
    → AllCounted m
    → level + n ≤ m.max_level_count
    → find_level n m level ≡ some r
    → IsFound n m level r
unfolding find_level
find_level-IsFound zero m level r c le h = ground arith
find_level-IsFound (suc n) m level r c le h =
    elim (Option-cases (find_free_block_in_bitmap m level)) [
      | inl no_block ↦
          let found =
            find_level-IsFound n m (level + 1) r c (omega arith) (rw (find_level, no_block) at h) in
          record {
            from = omega (arith, found.from);
            below = omega (arith, found.below);
            inside = found.inside;
            free = found.free;
          }
      | inr (o, e) ↦
          let at : (level, o) ≡ r = ap (λ q. or_else r q) (rw (find_level, e) at h) in
          let b =
            first_set-bound (block_count_of_level m level) 0 (m.bitmap_of_level level).bits o
              (sym (find_free_block_in_bitmap-first_set m level c (omega arith)) ∙ e) in
          subst (λ q. IsFound (suc n) m level q) at
            (record {
              from = omega arith;
              below = omega arith;
              inside = omega (arith, b.1);
              free = b.2;
            })
    ]

pub split-AllCounted :
    (n level : ℕ) (m : DynamicMemory) (o : ℕ)
    → AllCounted m
    → o < block_count_of_level m (level + n)
    → AllCounted (split n level m o).0
unfolding split
split-AllCounted zero level m o c h = c
split-AllCounted (suc n) level m o c h =
    let up : level + suc n ≡ suc (level + n) = omega arith in
    let inside : o < block_count_of_level m (level + n) / 2 = rw up at h in
    let m1 = set_flag_in_bitmap m (level + n) (o * 2) false in
    let c1 : AllCounted m1 =
      set_flag_in_bitmap-AllCounted m (level + n) (o * 2) false c (λ l. omega (arith, inside)) in
    split-AllCounted n level (set_flag_in_bitmap m1 (level + n) (o * 2 + 1) true) (o * 2)
      (set_flag_in_bitmap-AllCounted m1 (level + n) (o * 2 + 1) true c1
        (λ l. omega (arith, inside)))
      (omega (arith, inside))

none_some {ℓ κ} : {A : Type ℓ} {P : Type κ} {a : A} → none ≡ some a → P
none_some h = absurd (ground arith)

match_size-bound :
    (n level size r : ℕ) → match_size n level size ≡ some r → (level ≤ r) × (r < level + n)
unfolding match_size
match_size-bound zero level size r h = ground arith
match_size-bound (suc n) level size r h = elim (Bool-cases (leb size (block_size level))) [
  | inl fits ↦
      let at : level ≡ r = ap (or_else r) (rw (match_size, fits) at h) in
      (omega (arith, at), omega (arith, at))
  | inr small ↦
      let b = match_size-bound n (level + 1) size r (rw (match_size, small) at h) in
      (omega (arith, b.0), omega (arith, b.1))
]

-- Taking a block from the bitmaps, from its own level or by splitting a larger one, keeps the exist
-- counts equal to the number of exist bits of every level, and sets no bit behind a level's end.
pub allocation_buddy_block-AllCounted :
    (m : DynamicMemory) (size : ℕ) (r : DynamicMemory × ℕ)
    → AllCounted m
    → allocation_buddy_block m size ≡ some r
    → AllCounted r.0
unfolding allocation_buddy_block
allocation_buddy_block-AllCounted m size r c h =
    elim (Option-cases (get_block_list_index_of_match_size m size)) [
      | inl no_level ↦ none_some (rw (allocation_buddy_block, no_level) at h)
      | inr (level, e) ↦
          let b = match_size-bound m.max_level_count 0 size level e in
          elim (Option-cases (find_level (m.max_level_count - level) m level)) [
            | inl no_block ↦ none_some (rw (allocation_buddy_block, e, no_block) at h)
            | inr (found, f) ↦
                let is =
                  find_level-IsFound (m.max_level_count - level) m level found c
                    (omega (arith, b.1)) f in
                let there : level + (found.0 - level) ≡ found.0 = omega (arith, is.from) in
                let m0 = set_flag_in_bitmap m found.0 found.1 false in
                subst (λ q. AllCounted q.0)
                  (ap (or_else r) (rw (allocation_buddy_block, e, f) at h))
                  (split-AllCounted (found.0 - level) level m0 found.1
                    (set_flag_in_bitmap-AllCounted m found.0 found.1 false c (λ l. is.inside))
                    (rw there is.inside))
          ]
    ]

half_inside :
    (o count : ℕ) → o < count → (if o % 2 == 0 then o + 1 else o - 1) < count → o / 2 < count / 2
half_inside o count h b = ground arith

pub free_buddy_block-AllCounted :
    (n : ℕ) (m : DynamicMemory) (level o : ℕ)
    → AllCounted m
    → (level < m.max_level_count → o < block_count_of_level m level)
    → level + n ≤ m.max_level_count
    → AllCounted (free_buddy_block n m level o)
unfolding free_buddy_block
free_buddy_block-AllCounted zero m level o c h le = c
free_buddy_block-AllCounted (suc n) m level o c h le =
    let buddy : ℕ = if o % 2 == 0 then o + 1 else o - 1 in
    let m1 = set_flag_in_bitmap m level o true in
    let c1 = set_flag_in_bitmap-AllCounted m level o true c h in
    elim (Bool-cases (get_flag_in_bitmap m1 level buddy)) [
      | inr taken ↦ rw taken c1
      | inl free ↦
          let count = block_count_of_level m level in
          let inside : level < m.max_level_count = omega (arith, le) in
          elim (Bool-cases (ltb buddy count)) [
            | inr out ↦
                let none_there : get_flag_in_bitmap m1 level buddy ≡ false =
                  (c1 level inside).bounded buddy (ground (arith, out)) in
                ground (arith, none_there, free)
            | inl buddy_in ↦
                let m2 = set_flag_in_bitmap m1 level buddy false in
                let c2 =
                  set_flag_in_bitmap-AllCounted m1 level buddy false c1
                    (λ l. ltb→lt buddy count buddy_in) in
                let c3 = set_flag_in_bitmap-AllCounted m2 level o false c2 h in
                rw free (
                  free_buddy_block-AllCounted n (set_flag_in_bitmap m2 level o false) (level + 1)
                    (o / 2) c3
                    (λ l.
                      rw (next_count m level)
                        (half_inside o count (h inside) (ltb→lt buddy count buddy_in)))
                    (omega (arith, le)))
          ]
    ]
