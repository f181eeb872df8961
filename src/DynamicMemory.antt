-- ===== src/DynamicMemory.antt =====
-- 02.Kernel64/DynamicMemory.c and DynamicMemory.h: the buddy allocator.
-- A bitmap is the function from an offset to its bit, bit `o % 8` of byte `o / 8`; an exist bit is a
-- block that can be allocated. `pbAllocatedBlockListIndex` is a function from its index. Between
-- kLockForSystemData and kUnlockForSystemData a function is one step. QWORD arithmetic is modulo
-- 2 ^ 64 where it can wrap; an `int` is its 32-bit word. A negative block count matters in
-- kInitializeDynamicMemory alone, since no other loop has a round then; a negative index or offset of
-- kFreeMemory, for an address that kAllocateMemory did not return, is the word. The result -1 is
-- `none`.
pub mod Count
pub mod Find
pub mod Counted
pub mod Preserve
pub mod Start
mod Tests
use mintos.Base.{
  ℕ, zero, suc, ◌+◌, ◌-◌, ◌*◌, ◌/◌, ◌%◌, ◌^◌, Bool, true, false, not, ◌&&◌, ◌||◌, Option, none,
  some, ◌==◌, ltb, leb, if◌then◌else◌, ◌>>=◌,
}
use mintos.Mutex.{update}
use mintos.Task.{task_stack_pool_address, task_stack_size, task_max_count}

abbrev pub dynamic_memory_min_size : ℕ
dynamic_memory_min_size = 1024

-- The end of the stack pool, rounded up to 1 MB.
abbrev pub dynamic_memory_start_address : ℕ
dynamic_memory_start_address =
    (task_stack_pool_address + task_stack_size * task_max_count + 0xfffff) / 2 ^ 20 * 2 ^ 20

-- BITMAP
pub record Bitmap : Type 0 where
  pub bits : ℕ → Bool
  pub exist_bit_count : ℕ

-- DYNAMICMEMORY
pub record DynamicMemory : Type 0 where
  pub max_level_count : ℕ
  pub block_count_of_smallest_block : ℕ
  pub used_size : ℕ
  pub start_address : ℕ
  pub end_address : ℕ
  pub allocated_block_list_index : ℕ → ℕ
  pub bitmap_of_level : ℕ → Bitmap

-- kCalculateDynamicMemorySize, with what kGetTotalRAMSize returns in megabytes.
abbrev pub calculate_dynamic_memory_size : ℕ → ℕ
calculate_dynamic_memory_size total_ram_size =
    let ram_size = total_ram_size * 1024 * 1024 % 2 ^ 64 in
    let limit = 3 * 1024 * 1024 * 1024 in
    ((if ltb limit ram_size then limit else ram_size) + 2 ^ 64 - dynamic_memory_start_address)
    % 2 ^ 64

-- How often `count >> i` is above 0. The count is a `long`, so 64 rounds are enough.
unfoldable pub levels : (fuel count : ℕ) → ℕ
levels zero count = 0
levels (suc fuel) count = let rest = levels fuel (count / 2) in if count == 0 then 0 else suc rest

-- The bytes of the bitmaps and their headers, sizeof(BITMAP) = 16 each.
unfoldable pub bitmap_size : (levels count : ℕ) → ℕ
bitmap_size zero count = 0
bitmap_size (suc n) count = (16 + (count + 7) / 8 + bitmap_size n (count / 2)) % 2 ^ 32

-- kCalculateMetaBlockCount
abbrev pub calculate_meta_block_count : ℕ → ℕ
calculate_meta_block_count dynamic_ram_size =
    let count = dynamic_ram_size / dynamic_memory_min_size in
    let index_size = count % 2 ^ 32 in
    let size = bitmap_size (levels 64 count) count in
    (index_size + size + dynamic_memory_min_size - 1) % 2 ^ 32 / dynamic_memory_min_size

-- C's `>>` on a number that is not negative.
abbrev pub shift_right : (n places : ℕ) → ℕ
shift_right n zero = n
shift_right n (suc places) = shift_right n places / 2

-- `iBlockCountOfSmallestBlock >> level`
abbrev pub block_count_of_level : DynamicMemory → ℕ → ℕ
block_count_of_level m level = shift_right m.block_count_of_smallest_block level

-- The bits that lie in the bytes of a bitmap of `count` blocks. The bytes behind them belong to the
-- next bitmap, so a bitmap has no bits there.
abbrev pub bits_of_bytes : ℕ → (ℕ → Bool) → (ℕ → Bool)
bits_of_bytes count bits o = ltb o ((count + 7) / 8 * 8) && bits o

-- `*pbCurrentBitmapPosition = 0x00` at byte `i` of a bitmap.
abbrev pub clear_byte : (ℕ → Bool) → ℕ → (ℕ → Bool)
clear_byte bits i o = if o / 8 == i then false else bits o

-- The loop over the whole bytes of a bitmap, with `n` rounds to go.
unfoldable pub clear_bytes : (n i : ℕ) → (ℕ → Bool) → (ℕ → Bool)
clear_bytes zero i bits = bits
clear_bytes (suc n) i bits = clear_bytes n (i + 1) (clear_byte bits i)

-- A round of the loop over the levels, for a level of `count` blocks: all blocks have a buddy but the
-- last of an odd count, which exists.
unfoldable pub initial_bitmap : Bitmap → ℕ → Bitmap
initial_bitmap before count =
    let whole = clear_bytes (count / 8) 0 (bits_of_bytes count before.bits) in
    let rest = count % 8 in
    let all = clear_byte whole (count / 8) in
    if rest == 0
    then record { bits = whole; exist_bit_count = 0 }
    else if rest % 2 == 1
    then record { bits = update all (count / 8 * 8 + (rest - 1)) true; exist_bit_count = 1 }
    else record { bits = all; exist_bit_count = 0 }

-- The loop that marks the index of each block as free, with `n` rounds to go.
unfoldable pub clear_index : (n i : ℕ) → (ℕ → ℕ) → (ℕ → ℕ)
clear_index zero i index = index
clear_index (suc n) i index = clear_index n (i + 1) (update index i 0xff)

-- kInitializeDynamicMemory on what the memory holds before it. The block count is an `int`: where it
-- is negative, its word is 2 ^ 31 or more and no loop has a round.
unfoldable pub initialize_dynamic_memory : DynamicMemory → ℕ → DynamicMemory
initialize_dynamic_memory before total_ram_size =
    let size = calculate_dynamic_memory_size total_ram_size in
    let meta = calculate_meta_block_count size in
    let count = (size / dynamic_memory_min_size + 2 ^ 64 - meta) % 2 ^ 64 % 2 ^ 32 in
    let rounds = if ltb count (2 ^ 31) then count else 0 in
    let max_level = levels 32 rounds in
    record {
      max_level_count = max_level;
      block_count_of_smallest_block = count;
      used_size = 0;
      start_address = dynamic_memory_start_address + meta * dynamic_memory_min_size;
      end_address = (dynamic_memory_start_address + size) % 2 ^ 64;
      allocated_block_list_index = clear_index rounds 0 before.allocated_block_list_index;
      bitmap_of_level = λ level.
          if ltb level max_level
          then initial_bitmap (before.bitmap_of_level level) (shift_right count level)
          else before.bitmap_of_level level;
    }

-- `DYNAMICMEMORY_MIN_SIZE << level` as a QWORD: the shift is one of a 32-bit `int`, whose sign is
-- extended.
abbrev pub block_size : ℕ → ℕ
block_size level =
    let shifted = dynamic_memory_min_size * 2 ^ level % 2 ^ 32 in
    if ltb shifted (2 ^ 31) then shifted else shifted + (2 ^ 64 - 2 ^ 32)

-- The loop of kGetBuddyBlockSize and kGetBlockListIndexOfMatchSize: the first of `n` levels from
-- `level` whose blocks have the size.
unfoldable pub match_size : (n level size : ℕ) → Option ℕ
match_size zero level size = none
match_size (suc n) level size =
    let rest = match_size n (level + 1) size in
    if leb size (block_size level) then some level else rest

-- kGetBuddyBlockSize
abbrev pub get_buddy_block_size : DynamicMemory → ℕ → ℕ
get_buddy_block_size m size = elim (match_size m.max_level_count 0 size) [
  | none ↦ 0
  | some level ↦ block_size level
]

-- kGetBlockListIndexOfMatchSize
abbrev pub get_block_list_index_of_match_size : DynamicMemory → ℕ → Option ℕ
get_block_list_index_of_match_size m size = match_size m.max_level_count 0 size

-- Whether the `n` bits from offset `o` on are 0.
unfoldable pub none_set : (n o : ℕ) → (ℕ → Bool) → Bool
none_set zero o bits = true
none_set (suc n) o bits = not (bits o) && none_set n (o + 1) bits

-- The loop of kFindFreeBlockInBitmap at offset `i`: the 64 bits from byte `i / 8` on are passed over
-- when they are 0. Each round moves on, so `max` rounds are enough.
unfoldable pub find_free_from : (fuel max : ℕ) → (ℕ → Bool) → ℕ → Option ℕ
find_free_from zero max bits i = none
find_free_from (suc fuel) max bits i =
    let skipped = find_free_from fuel max bits (i + 64) in
    let next = find_free_from fuel max bits (i + 1) in
    if ltb i max
    then (if ltb 0 ((max - i) / 64) && none_set 64 (i / 8 * 8) bits
        then skipped
        else if bits i
        then some i
        else next)
    else none

-- kFindFreeBlockInBitmap
unfoldable pub find_free_block_in_bitmap : DynamicMemory → ℕ → Option ℕ
find_free_block_in_bitmap m level =
    let max = block_count_of_level m level in
    let b = m.bitmap_of_level level in
    if b.exist_bit_count == 0 then none else find_free_from max max b.bits 0

-- kGetFlagInBitmap
abbrev pub get_flag_in_bitmap : DynamicMemory → (level offset : ℕ) → Bool
get_flag_in_bitmap m level offset = (m.bitmap_of_level level).bits offset

-- kSetFlagInBitmap on one bitmap, with DYNAMICMEMORY_EXIST as `true`.
unfoldable pub set_bit : Bitmap → ℕ → Bool → Bitmap
set_bit b o true = record {
  bits = update b.bits o true;
  exist_bit_count = if b.bits o then b.exist_bit_count else b.exist_bit_count + 1;
}
set_bit b o false = record {
  bits = update b.bits o false;
  exist_bit_count = if b.bits o then b.exist_bit_count - 1 else b.exist_bit_count;
}

-- kSetFlagInBitmap
abbrev pub set_flag_in_bitmap : DynamicMemory → (level offset : ℕ) → Bool → DynamicMemory
set_flag_in_bitmap m level o flag = record m {
  bitmap_of_level = update m.bitmap_of_level level (set_bit (m.bitmap_of_level level) o flag);
}

-- The first loop of kAllocationBuddyBlock: the first of `n` levels from `level` with a free block.
unfoldable pub find_level : (n : ℕ) → DynamicMemory → ℕ → Option (ℕ × ℕ)
find_level zero m level = none
find_level (suc n) m level =
    let rest = find_level n m (level + 1) in
    elim (find_free_block_in_bitmap m level) [ none ↦ rest | some o ↦ some (level, o) ]

-- The second loop: the block `o` one level above is split `n` times, down to level `level`.
unfoldable pub split : (n level : ℕ) → DynamicMemory → ℕ → DynamicMemory × ℕ
split zero level m o = (m, o)
split (suc n) level m o =
    let m1 = set_flag_in_bitmap m (level + n) (o * 2) false in
    let m2 = set_flag_in_bitmap m1 (level + n) (o * 2 + 1) true in split n level m2 (o * 2)

-- kAllocationBuddyBlock
unfoldable pub allocation_buddy_block : DynamicMemory → ℕ → Option (DynamicMemory × ℕ)
allocation_buddy_block m aligned_size = do
  level ← get_block_list_index_of_match_size m aligned_size
  found ← find_level (m.max_level_count - level) m level
  some (split (found.0 - level) level (set_flag_in_bitmap m found.0 found.1 false) found.1)

-- kAllocateMemory: the new state, and the address, with NULL as `none`.
unfoldable pub allocate_memory : DynamicMemory → ℕ → Option ℕ × DynamicMemory
allocate_memory m size =
    let aligned_size = get_buddy_block_size m size in
    let outside = ltb m.end_address ((m.start_address + m.used_size + aligned_size) % 2 ^ 64) in
    if (aligned_size == 0) || outside
    then (none, m)
    else elim (allocation_buddy_block m aligned_size) [
      | none ↦ (none, m)
      | some r ↦
          let index : ℕ = elim (get_block_list_index_of_match_size m aligned_size) [
            | none ↦ 0xff
            | some level ↦ level % 2 ^ 8
          ] in
          let relative_address = aligned_size * r.1 % 2 ^ 64 in
          (
            some ((relative_address + m.start_address) % 2 ^ 64),
            record r.0 {
              allocated_block_list_index =
                  update m.allocated_block_list_index (relative_address / dynamic_memory_min_size)
                    index;
              used_size = (m.used_size + aligned_size) % 2 ^ 64;
            },
          )
    ]

-- The loop of kFreeBuddyBlock: the block `o` of the level, with `n` levels left, is given back, and
-- merged with its buddy as long as that is free too.
unfoldable pub free_buddy_block : (n : ℕ) → DynamicMemory → (level o : ℕ) → DynamicMemory
free_buddy_block zero m level o = m
free_buddy_block (suc n) m level o =
    let buddy = if o % 2 == 0 then o + 1 else o - 1 in
    let m1 = set_flag_in_bitmap m level o true in
    let m2 = set_flag_in_bitmap m1 level buddy false in
    let m3 = set_flag_in_bitmap m2 level o false in
    let merged = free_buddy_block n m3 (level + 1) (o / 2) in
    if get_flag_in_bitmap m1 level buddy then merged else m1

-- kFreeMemory
unfoldable pub free_memory : DynamicMemory → ℕ → Bool × DynamicMemory
free_memory m address =
    let relative_address = (address + 2 ^ 64 - m.start_address) % 2 ^ 64 in
    let i = relative_address / dynamic_memory_min_size % 2 ^ 32 in
    let level = m.allocated_block_list_index i in
    let size = block_size level in
    let m1 = record m { allocated_block_list_index = update m.allocated_block_list_index i 0xff } in
    let m2 =
      free_buddy_block (m.max_level_count - level) m1 level (relative_address / size % 2 ^ 32) in
    if (address == 0) || (level == 0xff)
    then (false, m)
    else (true, record m2 { used_size = (m2.used_size + 2 ^ 64 - size) % 2 ^ 64 })

-- kGetDynamicMemoryInformation: the start address, and the total, the metadata's and the used size.
abbrev pub get_dynamic_memory_information : DynamicMemory → ℕ → ℕ × ℕ × ℕ × ℕ
get_dynamic_memory_information m total_ram_size =
    let total = calculate_dynamic_memory_size total_ram_size in
    (
      dynamic_memory_start_address,
      total,
      calculate_meta_block_count (total * dynamic_memory_min_size % 2 ^ 64),
      m.used_size,
    )
