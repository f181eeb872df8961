-- ===== src/DynamicMemory/Start.antt =====
-- 02.Kernel64/DynamicMemory.c: the bitmaps after kInitializeDynamicMemory, and kAllocateMemory and
-- kFreeMemory as wholes.
use mintos.Base.{
  ℕ, zero, suc, ◌+◌, ◌-◌, ◌*◌, ◌/◌, ◌%◌, ◌^◌, ◌<◌, ◌≡◌, refl, Bool, false, arith, ◌==◌, ltb,
  Bool-cases, Option-cases, inl, inr, ne→==_false, ap, ◌||◌, ◌⊎◌, ◌∙◌, leb, ◌&&◌, if◌then◌else◌,
}
use mintos.Mutex.{update}
use mintos.DynamicMemory.{
  DynamicMemory, Bitmap, block_count_of_level, bits_of_bytes, clear_byte, clear_bytes,
  initial_bitmap, allocation_buddy_block, get_buddy_block_size, allocate_memory, free_memory,
  block_size, dynamic_memory_min_size,
}
use mintos.DynamicMemory.Count.{count_set, count_set-add}
use mintos.DynamicMemory.Counted.{IsCounted, AllCounted}
use mintos.DynamicMemory.Preserve.{allocation_buddy_block-AllCounted, free_buddy_block-AllCounted}

count_set-clear : (n o : ℕ) → count_set n o (λ p. false) ≡ 0
count_set-clear zero o = refl
count_set-clear (suc n) o = count_set-clear n (o + 1)

-- The bytes that the loop has cleared.
clear_bytes-cleared :
    (n i : ℕ) (bits : ℕ → Bool) (o : ℕ)
    → clear_bytes n i bits o ≡ (if leb i (o / 8) && ltb (o / 8) (i + n) then false else bits o)
unfolding clear_bytes
clear_bytes-cleared zero i bits o = ground arith
clear_bytes-cleared (suc n) i bits o =
    clear_bytes-cleared n (i + 1) (clear_byte bits i) o ∙ ground arith

-- After the loop over whole bytes and the last byte no bit is set.
clear_bytes-whole :
    (count : ℕ) (bits : ℕ → Bool) (o : ℕ)
    → count % 8 ≡ 0
    → clear_bytes (count / 8) 0 (bits_of_bytes count bits) o ≡ false
clear_bytes-whole count bits o e =
    clear_bytes-cleared (count / 8) 0 (bits_of_bytes count bits) o ∙ ground (arith, e)

clear_bytes-rest :
    (count : ℕ) (bits : ℕ → Bool) (o : ℕ)
    → clear_byte (clear_bytes (count / 8) 0 (bits_of_bytes count bits)) (count / 8) o ≡ false
clear_bytes-rest count bits o =
    ground (arith, clear_bytes-cleared (count / 8) 0 (bits_of_bytes count bits) o)

pub initial_bitmap-IsCounted :
    (before : Bitmap) (count : ℕ) → IsCounted count (initial_bitmap before count)
unfolding initial_bitmap
initial_bitmap-IsCounted before count = elim (Bool-cases (count % 8 == 0)) [
  | inl whole ↦
      let clear : clear_bytes (count / 8) 0 (bits_of_bytes count before.bits) ≡ (λ o. false) =
        λ i o. clear_bytes-whole count before.bits o (ground (arith, whole)) i in
      rw (whole, clear) (record { counted = count_set-clear count 0; bounded = λ o le. refl })
  | inr part ↦
      let clear : clear_byte (clear_bytes (count / 8) 0 (bits_of_bytes count before.bits))
            (count / 8)
          ≡ (λ o. false) =
        λ i o. clear_bytes-rest count before.bits o i in
      elim (Bool-cases (count % 8 % 2 == 1)) [
        | inl odd ↦
            let last = count / 8 * 8 + (count % 8 - 1) in
            let is_last : suc last ≡ count = ground (arith, odd) in
            rw (part, odd, clear)
              (record {
                counted =
                    count_set-add count 0 last (λ o. false) (omega arith) (omega (arith, is_last))
                      refl
                    ∙ ap suc (count_set-clear count 0);
                bounded = λ o le. rw (ne→==_false o last (omega (arith, is_last, le))) refl;
              })
        | inr even ↦
            rw (part, even, clear)
              (record { counted = count_set-clear count 0; bounded = λ o le. refl })
      ]
]

-- kAllocateMemory keeps the exist counts of all levels equal to the number of their exist bits,
-- whether it succeeds or not.
pub allocate_memory-AllCounted :
    (m : DynamicMemory) (size : ℕ) → AllCounted m → AllCounted (allocate_memory m size).1
unfolding allocate_memory
allocate_memory-AllCounted m size c =
    let aligned = get_buddy_block_size m size in
    let outside = ltb m.end_address ((m.start_address + m.used_size + aligned) % 2 ^ 64) in
    elim (Bool-cases ((aligned == 0) || outside)) [
      | inl refused ↦ rw refused c
      | inr accepted ↦ elim (Option-cases (allocation_buddy_block m aligned)) [
        | inl no_block ↦ rw (accepted, no_block) c
        | inr (r, e) ↦ rw (accepted, e) (allocation_buddy_block-AllCounted m aligned r c e)
      ]
    ]

block_inside :
    (b : Bool) (level offset count max : ℕ)
    → (b || (level == 0xff)) ≡ false
    → (level ≡ 0xff) ⊎ ((level < max) × (offset < count))
    → offset < count
block_inside b level offset count max h (inl e) = ground arith
block_inside b level offset count max h (inr i) = i.1

level_inside :
    (b : Bool) (level max : ℕ) (P : Type 0)
    → (b || (level == 0xff)) ≡ false
    → (level ≡ 0xff) ⊎ ((level < max) × P)
    → level < max
level_inside b level max P h (inl e) = ground arith
level_inside b level max P h (inr i) = i.0

-- kFreeMemory keeps the exist counts of all levels equal to the number of their exist bits, where
-- the size index of the address is either 0xff, so that the call is refused, or a level in use with
-- a block at the address.
pub free_memory-AllCounted :
    (m : DynamicMemory) (address : ℕ)
    → let relative_address = (address + 2 ^ 64 - m.start_address) % 2 ^ 64 in
      let level =
        m.allocated_block_list_index (relative_address / dynamic_memory_min_size % 2 ^ 32) in
      AllCounted m
      → (level ≡ 0xff)
        ⊎ ((level < m.max_level_count)
            × (relative_address / block_size level % 2 ^ 32 < block_count_of_level m level))
      → AllCounted (free_memory m address).1
unfolding free_memory
free_memory-AllCounted m address c h =
    let relative_address = (address + 2 ^ 64 - m.start_address) % 2 ^ 64 in
    let i = relative_address / dynamic_memory_min_size % 2 ^ 32 in
    let level = m.allocated_block_list_index i in
    let offset = relative_address / block_size level % 2 ^ 32 in
    let m1 = record m { allocated_block_list_index = update m.allocated_block_list_index i 0xff } in
    elim (Bool-cases ((address == 0) || (level == 0xff))) [
      | inl refused ↦ rw refused c
      | inr accepted ↦ rw accepted (
          free_buddy_block-AllCounted (m.max_level_count - level) m1 level offset c
            (λ l.
              block_inside (address == 0) level offset (block_count_of_level m level)
                (m.max_level_count) accepted h)
            (omega (arith, level_inside (address == 0) level m.max_level_count _ accepted h)))
    ]
