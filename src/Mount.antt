-- ===== src/Mount.antt =====
-- 02.Kernel64/FileSystem.c: kMount, kFormat, kInitializeFileSystem and kFlushFileSystemCache, on a
-- disk with the two cache tables; Mount.block_ops is what the upper functions work with. The driver
-- is a parameter, and so is what it says of the number of sectors.
mod Tests
pub mod Geometry
pub mod Format
pub mod Flush
pub mod Discard
pub mod Uncached
mod Sample
use mintos.Base.{
  ℕ, zero, suc, ◌+◌, ◌-◌, ◌*◌, ◌/◌, ◌%◌, ◌^◌, Bool, true, false, Option, none, some, List, [], ◌∷◌,
  ◌==◌, if◌then◌else◌, replicate, copy_at, dword_from, set_dword, set_dword_from,
}
use mintos.DynamicMemory.{allocate_memory}
use mintos.Cache.Tables.{initialize_cache_manager}
use mintos.Cache.{CacheBuffer, CacheTable, discard_all_cache_buffer}
use mintos.FileSystem.{Driver, Area, Store, write_without_cache, read_block, write_block}
use mintos.Volume.{
  AreaKind, link_table, data_area, BlockOps, File, Manager, last_cluster, free_cluster, lock,
  unlock,
}

-- FILESYSTEM_SIGNATURE
abbrev pub file_system_signature : ℕ
file_system_signature = 0xb300_cf54

-- The disk with the cache, and the members of FILESYSTEMMANAGER that say where the areas are.
pub record Disk (D : Type 0) : Type 0 where
  pub device : D
  pub link_cache : CacheTable
  pub data_cache : CacheTable
  pub cache_enable : Bool
  pub reserved_sector_count : ℕ
  pub cluster_link_area_start_address : ℕ
  pub data_area_start_address : ℕ

-- Offsets of the DWORDs of MBR, which is packed, and of its partition table.
abbrev pub signature_offset : ℕ
signature_offset = 430

abbrev pub reserved_offset : ℕ
reserved_offset = 434

abbrev pub link_sectors_offset : ℕ
link_sectors_offset = 438

abbrev pub clusters_offset : ℕ
clusters_offset = 442

abbrev pub partition_offset : ℕ
partition_offset = 446

-- dwClusterLinkSectorCount and dwClusterCount of kFormat for the number of sectors.
unfoldable pub format_sizes : (total_sectors : ℕ) → ℕ × ℕ
format_sizes total =
    let most = total / 8 in
    let estimate = (most + 127) % 2 ^ 32 / 128 in
    let remain = (total + 2 ^ 32 + 2 ^ 32 - 1 - estimate) % 2 ^ 32 in
    let clusters = remain / 8 in ((clusters + 127) % 2 ^ 32 / 128, clusters)

-- The MBR that kFormat writes.
unfoldable pub format_mbr : List ℕ → (link_sectors clusters : ℕ) → List ℕ
format_mbr bytes link_sectors clusters =
    let b1 = copy_at bytes partition_offset (replicate 64 0) in
    let b2 = set_dword_from b1 signature_offset file_system_signature in
    let b3 = set_dword_from b2 reserved_offset 0 in
    let b4 = set_dword_from b3 link_sectors_offset link_sectors in
    set_dword_from b4 clusters_offset clusters

module _ {D : Type 0} (driver : Driver D) where
  -- The area of a kind.
  abbrev pub area_of : Disk D → AreaKind → Area
  area_of s link_table = record { start_address = s.cluster_link_area_start_address; sectors = 1 }
  area_of s data_area = record { start_address = s.data_area_start_address; sectors = 8 }

  abbrev pub store_of : Disk D → AreaKind → Store D
  store_of s link_table = record {
    disk = s.device;
    table = s.link_cache;
    cache_enable = s.cache_enable;
  }
  store_of s data_area = record {
    disk = s.device;
    table = s.data_cache;
    cache_enable = s.cache_enable;
  }

  abbrev pub put_store : Disk D → AreaKind → Store D → Disk D
  put_store s link_table t = record s { device = t.disk; link_cache = t.table }
  put_store s data_area t = record s { device = t.disk; data_cache = t.table }

  -- kReadClusterLinkTable, kReadCluster, kWriteClusterLinkTable, kWriteCluster
  abbrev pub block_ops : BlockOps (Disk D)
  block_ops = record {
    read = λ s k b.
        let r = read_block driver (area_of s k) (store_of s k) b in (r.0, put_store s k r.1);
    write = λ s k b bytes.
        let r = write_block driver (area_of s k) (store_of s k) b bytes in (r.0, put_store s k r.1);
  }

  -- kMount at the MBR.
  unfoldable pub mount_at : Manager (Disk D) → List ℕ → Bool × Manager (Disk D)
  mount_at m mbr =
      let reserved = dword_from mbr reserved_offset in
      let link_sectors = dword_from mbr link_sectors_offset in
      if dword_from mbr signature_offset == file_system_signature
      then (
        true,
        unlock (record m {
          mounted = true;
          cluster_link_area_size = link_sectors;
          total_cluster_count = dword_from mbr clusters_offset;
          blocks = record m.blocks {
            reserved_sector_count = reserved;
            cluster_link_area_start_address = (1 + reserved) % 2 ^ 32;
            data_area_start_address = (1 + reserved + link_sectors) % 2 ^ 32;
          };
        }),
      )
      else (false, unlock m)

  -- kMount
  unfoldable pub mount : Manager (Disk D) → Bool × Manager (Disk D)
  mount m = elim (driver.read_sectors m.blocks.device 0 1) [
    | none ↦ (false, unlock (lock m))
    | some mbr ↦ mount_at (lock m) mbr
  ]

  -- The sector `i` of the link table and the root directory that kFormat writes.
  abbrev pub format_sector : ℕ → List ℕ
  format_sector i = set_dword (replicate 512 0) 0 (if i == 0 then last_cluster else free_cluster)

  -- The last loop of kFormat from `i` on, with `left` sectors to go, and the disk that it leaves.
  unfoldable pub format_loop : (left i : ℕ) → D → Bool × D
  format_loop zero i d = (true, d)
  format_loop (suc left) i d =
      let rest = λ (d' : D). format_loop left (i + 1) d' in
      elim (driver.write_sectors d (i + 1) 1 (format_sector i)) [
        | none ↦ (false, d)
        | some d' ↦ rest d'
      ]

  -- What kFormat does with the disk: the sizes, the MBR and the two areas.
  unfoldable pub format_disk : D → (total_sectors : ℕ) → Bool × D
  format_disk d total =
      let sizes = format_sizes total in
      elim (driver.read_sectors d 0 1) [
        | none ↦ (false, d)
        | some mbr ↦ elim (driver.write_sectors d 0 1 (format_mbr mbr sizes.0 sizes.1)) [
          | none ↦ (false, d)
          | some d' ↦ format_loop (sizes.0 + 8) 0 d'
        ]
      ]

  -- kDiscardAllCacheBuffer for both tables.
  abbrev pub discard_caches : Disk D → Disk D
  discard_caches s =
      if s.cache_enable
      then record s {
        link_cache = discard_all_cache_buffer s.link_cache;
        data_cache = discard_all_cache_buffer s.data_cache;
      }
      else s

  -- kFormat, with what gs_pfReadHDDInformation says of the number of sectors.
  unfoldable pub format : (total_sectors : Option ℕ) → Manager (Disk D) → Bool × Manager (Disk D)
  format none m = (false, unlock (lock m))
  format (some total) m =
      let f = format_disk m.blocks.device total in
      let s = record m.blocks { device = f.1 } in
      (f.0, unlock (lock (record m { blocks = if f.0 then discard_caches s else s })))

  -- A loop of kFlushFileSystemCache over the entries of a table.
  unfoldable pub flush_buffers : Area → List CacheBuffer → D → Bool × List CacheBuffer × D
  flush_buffers area [] d = (true, [], d)
  flush_buffers area (x ∷ xs) d =
      let same = flush_buffers area xs d in
      let rest = λ (d' : D). flush_buffers area xs d' in
      if x.changed
      then elim (write_without_cache driver area d x.tag x.buffer) [
        | none ↦ (false, x ∷ xs, d)
        | some d' ↦ let r = rest d' in (r.0, record x { changed = false } ∷ r.1, r.2)
      ]
      else (same.0, x ∷ same.1, same.2)

  -- The flush of the table of an area.
  unfoldable pub flush_area : Disk D → AreaKind → Bool × Disk D
  flush_area s k =
      let t = store_of s k in
      let r = flush_buffers (area_of s k) t.table.buffers t.disk in
      (r.0, put_store s k (record t { table = record t.table { buffers = r.1 }; disk = r.2 }))

  -- kFlushFileSystemCache, whose failures leave without kUnlock.
  unfoldable pub flush_file_system_cache : Manager (Disk D) → Bool × Manager (Disk D)
  flush_file_system_cache m =
      let a = flush_area m.blocks link_table in
      let b = flush_area a.1 data_area in
      if m.blocks.cache_enable
      then (if a.0
          then (if b.0
              then (true, unlock (lock (record m { blocks = b.1 })))
              else (false, lock (record m { blocks = b.1 })))
          else (false, lock (record m { blocks = a.1 })))
      else (true, m)

  -- FILESYSTEM_HANDLE_MAXCOUNT, and its bytes with sizeof(FILE) = 32.
  abbrev pub handle_max_count : ℕ
  handle_max_count = 3072

  -- The end of kInitializeFileSystem.
  unfoldable pub mount_and_allocate :
      (use_cache : Bool) → Manager (Disk D) → Bool × Manager (Disk D)
  mount_and_allocate use_cache m =
      let r = mount m in
      let a = allocate_memory r.1.memory (handle_max_count * 32) in
      let m2 = record r.1 { memory = a.1; handle_pool = replicate handle_max_count File.free } in
      let c = initialize_cache_manager m2.memory in
      if r.0
      then elim a.0 [
        | none ↦ (true, record r.1 { mounted = false })
        | some address ↦ (
          true,
          if use_cache
              then record m2 {
                memory = c.3;
                blocks = record m2.blocks {
                  cache_enable = c.0;
                  link_cache = c.1;
                  data_cache = c.2;
                };
              }
              else m2,
        )
      ]
      else (false, r.1)

  -- kInitializeFileSystem, with what kInitializeHDD and kInitializeRDD return; the driver is that
  -- of the disk that is taken.
  unfoldable pub initialize_file_system :
      (hdd rdd : Bool) → (total_sectors : Option ℕ) → Manager (Disk D) → Bool × Manager (Disk D)
  initialize_file_system hdd rdd total m =
      let m0 = record m {
        mounted = false;
        cluster_link_area_size = 0;
        total_cluster_count = 0;
        last_allocated = 0;
        locks = 0;
        handle_pool = [];
        blocks = record m.blocks {
          cache_enable = false;
          reserved_sector_count = 0;
          cluster_link_area_start_address = 0;
          data_area_start_address = 0;
        };
      } in
      let f = format total m0 in
      if hdd
      then mount_and_allocate true m0
      else if rdd
      then (if f.0 then mount_and_allocate false f.1 else (false, f.1))
      else (false, m0)
