-- ===== src/FileSystem.antt =====
-- 02.Kernel64/FileSystem.c: the blocks of the link table and of the data area, with and without the
-- cache. The functions of the two areas differ only in the cache table, the start address and the
-- number of sectors of a block, so each pair is one function of an area.
-- The driver behind `gs_pfReadHDDSector` and `gs_pfWriteHDDSector` is a parameter.
mod Tests
pub mod Entries
pub mod Coherence
pub mod Known
pub mod Outlet
pub mod Slot
pub mod Branches
pub mod Outcome
pub mod Blocks
use mintos.Base.{ℕ, ◌+◌, ◌*◌, ◌%◌, ◌^◌, Bool, true, false, Option, none, some, List, if◌then◌else◌}
use mintos.Cache.{
  CacheBuffer, CacheTable, entry_at, set_entry, find_cache_buffer, allocate_cache_buffer,
  get_victim_in_cache_buffer,
}

-- What the driver of a disk does with sectors: FALSE is `none`.
pub record Driver (D : Type 0) : Type 0 where
  pub read_sectors : D → (address count : ℕ) → Option (List ℕ)
  pub write_sectors : D → (address count : ℕ) → List ℕ → Option D

-- The link table has blocks of 1 sector, the data area clusters of 8.
pub record Area : Type 0 where
  pub start_address : ℕ
  pub sectors : ℕ

-- What FILESYSTEMMANAGER, the cache table of the area and the disk hold.
pub record Store (D : Type 0) : Type 0 where
  pub disk : D
  pub table : CacheTable
  pub cache_enable : Bool

module _ {D : Type 0} (driver : Driver D) (area : Area) where
  abbrev pub block_address : ℕ → ℕ
  block_address offset = (offset * area.sectors + area.start_address) % 2 ^ 32

  -- kInternalReadClusterLinkTableWithoutCache, kInternalReadClusterWithoutCache
  unfoldable pub read_without_cache : D → ℕ → Option (List ℕ)
  read_without_cache d offset = driver.read_sectors d (block_address offset) area.sectors

  -- kInternalWriteClusterLinkTableWithoutCache, kInternalWriteClusterWithoutCache
  unfoldable pub write_without_cache : D → ℕ → List ℕ → Option D
  write_without_cache d offset bytes =
      driver.write_sectors d (block_address offset) area.sectors bytes

  -- The end of kAllocateCacheBufferWithFlush, at the victim `i`.
  unfoldable pub flush_victim : Store D → ℕ → Option ℕ × Store D
  flush_victim s i =
      let e = entry_at s.table i in
      if e.changed
      then elim (write_without_cache s.disk e.tag e.buffer) [
        | none ↦ (none, s)
        | some d ↦ (some i, record s { disk = d })
      ]
      else (some i, s)

  -- kAllocateCacheBufferWithFlush
  unfoldable pub allocate_cache_buffer_with_flush : Store D → Option ℕ × Store D
  allocate_cache_buffer_with_flush s =
      let a = allocate_cache_buffer s.table in
      let v = get_victim_in_cache_buffer a.1 in
      elim a.0 [
        | some i ↦ (some i, record s { table = a.1 })
        | none ↦ elim v.0 [
          | none ↦ (none, record s { table = v.1 })
          | some i ↦ flush_victim (record s { table = v.1 }) i
        ]
      ]

  -- The entry `i` takes the bytes of a block, as a copy of what is on the disk or as a change.
  unfoldable pub fill_entry : Store D → ℕ → (tag : ℕ) → List ℕ → (changed : Bool) → Store D
  fill_entry s i tag bytes changed = record s {
    table =
        set_entry s.table i
          (record (entry_at s.table i) { tag = tag; changed = changed; buffer = bytes });
  }

  -- kInternalReadClusterLinkTableWithCache, kInternalReadClusterWithCache
  unfoldable pub read_with_cache : Store D → ℕ → Option (List ℕ) × Store D
  read_with_cache s offset =
      let f = find_cache_buffer s.table offset in
      let s1 = record s { table = f.1 } in
      elim f.0 [
        | some i ↦ (some (entry_at f.1 i).buffer, s1)
        | none ↦ elim (read_without_cache s.disk offset) [
          | none ↦ (none, s1)
          | some bytes ↦
              let a = allocate_cache_buffer_with_flush s1 in
              elim a.0 [
                | none ↦ (none, a.1)
                | some i ↦ (some bytes, fill_entry a.1 i offset bytes false)
              ]
        ]
      ]

  -- kInternalWriteClusterLinkTableWithCache, kInternalWriteClusterWithCache
  unfoldable pub write_with_cache : Store D → ℕ → List ℕ → Bool × Store D
  write_with_cache s offset bytes =
      let f = find_cache_buffer s.table offset in
      let s1 = record s { table = f.1 } in
      elim f.0 [
        | some i ↦ (true, fill_entry s1 i (entry_at f.1 i).tag bytes true)
        | none ↦
            let a = allocate_cache_buffer_with_flush s1 in
            elim a.0 [ none ↦ (false, a.1) | some i ↦ (true, fill_entry a.1 i offset bytes true) ]
      ]

  -- kReadClusterLinkTable, kReadCluster
  unfoldable pub read_block : Store D → ℕ → Option (List ℕ) × Store D
  read_block s offset =
      if s.cache_enable then read_with_cache s offset else (read_without_cache s.disk offset, s)

  -- kWriteClusterLinkTable, kWriteCluster
  unfoldable pub write_block : Store D → ℕ → List ℕ → Bool × Store D
  write_block s offset bytes =
      if s.cache_enable
      then write_with_cache s offset bytes
      else elim (write_without_cache s.disk offset bytes) [
        | none ↦ (false, s)
        | some d ↦ (true, record s { disk = d })
      ]
