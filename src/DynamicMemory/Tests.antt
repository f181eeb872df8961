-- ===== src/DynamicMemory/Tests.antt =====
-- The theorems on the buddy allocator at a memory of five blocks of 1 KB.
use mintos.Base.{◌≡◌, inr, refl, true, some, arith}
use mintos.DynamicMemory.{
  DynamicMemory, initial_bitmap, shift_right, block_count_of_level, find_free_block_in_bitmap,
  allocation_buddy_block, allocate_memory, free_memory, initialize_dynamic_memory, find_level,
  split, find_free_from, match_size, set_bit, levels, bitmap_size, clear_bytes,
}
use mintos.DynamicMemory.Counted.{AllCounted, find_free_block_in_bitmap-first_set}
use mintos.DynamicMemory.Start.{
  initial_bitmap-IsCounted, allocate_memory-AllCounted, free_memory-AllCounted,
}

-- A memory in which every bit is set and every index is 3.
abbrev garbage : DynamicMemory
garbage = record {
  max_level_count = 0;
  block_count_of_smallest_block = 0;
  used_size = 0;
  start_address = 0;
  end_address = 0;
  allocated_block_list_index = λ i. 3;
  bitmap_of_level = λ level. record { bits = λ o. true; exist_bit_count = 7 };
}

abbrev five : DynamicMemory
five = record {
  max_level_count = 3;
  block_count_of_smallest_block = 5;
  used_size = 0;
  start_address = 0x1200000;
  end_address = 0x1201400;
  allocated_block_list_index = λ i. 0xff;
  bitmap_of_level = λ level. initial_bitmap (garbage.bitmap_of_level level) (shift_right 5 level);
}

five-AllCounted : AllCounted five
five-AllCounted level h =
    initial_bitmap-IsCounted (garbage.bitmap_of_level level) (block_count_of_level five level)

find_free_block_in_bitmap-first_set_example : find_free_block_in_bitmap five 0 ≡ some 4
unfolding initial_bitmap clear_bytes
find_free_block_in_bitmap-first_set_example =
    find_free_block_in_bitmap-first_set five 0 five-AllCounted (ground arith)

-- A megabyte is less than what lies below the dynamic memory: the size wraps, and there is no level.
no_level : (initialize_dynamic_memory garbage 1).max_level_count ≡ 0
unfolding initialize_dynamic_memory levels bitmap_size
no_level = refl

some_levels : (initialize_dynamic_memory garbage 64).max_level_count ≡ 16
unfolding initialize_dynamic_memory levels bitmap_size
some_levels = refl

after-AllCounted : AllCounted (allocate_memory five 2000).1
after-AllCounted = allocate_memory-AllCounted five 2000 five-AllCounted

allocate_memory-AllCounted_example : AllCounted (allocate_memory five 2000).1
allocate_memory-AllCounted_example = allocate_memory-AllCounted five 2000 five-AllCounted

abbrev after : DynamicMemory
after = (allocate_memory five 2000).1

after_address : (allocate_memory five 2000).0 ≡ some 0x1200000
unfolding allocate_memory allocation_buddy_block match_size find_level find_free_block_in_bitmap
    find_free_from split set_bit initial_bitmap clear_bytes
after_address = refl

free_memory-AllCounted_example : AllCounted (free_memory after 0x1200000).1
unfolding allocate_memory allocation_buddy_block match_size find_level find_free_block_in_bitmap
    find_free_from split set_bit initial_bitmap clear_bytes
free_memory-AllCounted_example =
    free_memory-AllCounted after 0x1200000 after-AllCounted (inr (ground arith, ground arith))
