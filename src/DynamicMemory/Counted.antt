-- ===== src/DynamicMemory/Counted.antt =====
-- 02.Kernel64/DynamicMemory.c: the exist counts agree with the bitmaps, from the initialisation on.
use mintos.Base.{
  ℕ, ◌-◌, ◌≤◌, ◌<◌, ◌≡◌, refl, Bool, true, false, arith, ◌==◌, Bool-cases, inl, inr, ==_iff,
  ne→==_false, ap, sym, ◌∙◌,
}
use mintos.DynamicMemory.{
  DynamicMemory, Bitmap, block_count_of_level, find_free_block_in_bitmap, set_bit,
  set_flag_in_bitmap,
}
use mintos.DynamicMemory.Find.{first_set, find_free_from-first_set}
use mintos.DynamicMemory.Count.{
  count_set, count_set-add, count_set-drop, count_set-same, count_set-none,
}

-- A bitmap of `count` blocks: its exist count is the number of its exist bits, and no bit is set
-- behind the last block.
pub record IsCounted (count : ℕ) (b : Bitmap) : Type 0 where
  pub counted : count_set count 0 b.bits ≡ b.exist_bit_count
  pub bounded : (o : ℕ) → count ≤ o → b.bits o ≡ false

-- Every level in use has such a bitmap.
abbrev pub AllCounted : DynamicMemory → Type 0
AllCounted m =
    (level : ℕ)
    → level < m.max_level_count
    → IsCounted (block_count_of_level m level) (m.bitmap_of_level level)

set_bit-IsCounted :
    (count : ℕ) (b : Bitmap) (o : ℕ) (flag : Bool)
    → IsCounted count b
    → o < count
    → IsCounted count (set_bit b o flag)
unfolding set_bit
set_bit-IsCounted count b o true c h = record {
  counted = elim (Bool-cases (b.bits o)) [
    | inl was ↦ rw (was, count_set-same count 0 o b.bits true was) c.counted
    | inr free ↦
        rw (free, count_set-add count 0 o b.bits (omega arith) (omega (arith, h)) free, c.counted)
          (omega arith)
  ];
  bounded = λ p le. rw (ne→==_false p o (omega (arith, h, le))) (c.bounded p le);
}
set_bit-IsCounted count b o false c h = record {
  counted = elim (Bool-cases (b.bits o)) [
    | inl was ↦ rw was (
        omega
          (arith, c.counted, count_set-drop count 0 o b.bits (omega arith) (omega (arith, h)) was))
    | inr free ↦ rw (free, count_set-same count 0 o b.bits false free) c.counted
  ];
  bounded = λ p le. rw (ne→==_false p o (omega (arith, h, le))) (c.bounded p le);
}

-- A write inside a level keeps all levels.
pub set_flag_in_bitmap-AllCounted :
    (m : DynamicMemory) (level o : ℕ) (flag : Bool)
    → AllCounted m
    → (level < m.max_level_count → o < block_count_of_level m level)
    → AllCounted (set_flag_in_bitmap m level o flag)
set_flag_in_bitmap-AllCounted m level o flag c h j hj = elim (Bool-cases (j == level)) [
  | inl at ↦
      let same : j ≡ level = (==_iff j level).0 at in
      let inside : level < m.max_level_count = rw same at hj in
      rw (at, same)
        (set_bit-IsCounted _ (m.bitmap_of_level level) o flag (c level inside) (h inside))
  | inr ne ↦ rw ne (c j hj)
]

-- kFindFreeBlockInBitmap returns the lowest exist bit of a level in use, and -1 where the level has
-- none, where the exist counts agree with the bitmaps: passing over zero words and the shortcut on
-- the count do not change the result.
pub find_free_block_in_bitmap-first_set :
    (m : DynamicMemory) (level : ℕ)
    → AllCounted m
    → level < m.max_level_count
    → find_free_block_in_bitmap m level
      ≡ first_set (block_count_of_level m level) 0 (m.bitmap_of_level level).bits
unfolding find_free_block_in_bitmap
find_free_block_in_bitmap-first_set m level c h =
    let b = m.bitmap_of_level level in
    let count = block_count_of_level m level in
    elim (Bool-cases (b.exist_bit_count == 0)) [
      | inl empty ↦ rw empty (
          sym (
            count_set-none count 0 b.bits
              ((c level h).counted ∙ (==_iff b.exist_bit_count 0).0 empty)))
      | inr some_bit ↦
          let all : count - 0 ≡ count = omega arith in
          rw some_bit (
            find_free_from-first_set count count b.bits 0 (inl refl) (omega arith)
            ∙ ap (λ n. first_set n 0 b.bits) all)
    ]
