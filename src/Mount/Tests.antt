-- ===== src/Mount/Tests.antt =====
-- Formatting, mounting and flushing a small disk that keeps its sectors.
use mintos.Base.{
  ◌<◌, ◌≤◌, ℕ, ◌+◌, ◌*◌, ◌%◌, ◌^◌, ◌≡◌, refl, sym, ap, ◌∙◌, Bool, true, false, Option, none, some,
  List, [], ◌∷◌, arith, ◌==◌, if◌then◌else◌, length, replicate, ==_self, ne→==_false, Bool-cases,
  inl, inr, ==_iff, copy_at, dword_bytes, set_dword, set_dword_from,
}
use mintos.Cache.{CacheBuffer, CacheTable, discard_buffers, discard_all_cache_buffer}
use mintos.FileSystem.{Driver, read_without_cache, write_without_cache}
use mintos.FileSystem.Coherence.{IsDisk, IsCoherent}
use mintos.Volume.{AreaKind, Manager}
use mintos.Volume.Sample.{no_memory}
use mintos.Mount.{
  Disk, store_of, format_sizes, format_loop, format_disk, format_mbr, mount, format, flush_buffers,
  flush_area, flush_file_system_cache, discard_caches,
}
use mintos.Mount.Geometry.{Fits, format_sizes-Fits}
use mintos.Mount.Format.{IsSectorDisk, IsLaidOut, format-mount}
use mintos.Mount.Flush.{formatted_link_area, flush_area-saves}
use mintos.Mount.Discard.{flush_file_system_cache-mbr}

format_sizes-Fits_example : Fits 16384 (format_sizes 16384).0 (format_sizes 16384).1
format_sizes-Fits_example = format_sizes-Fits 16384 (omega arith) (omega arith)

-- A disk that takes sectors of 512 bytes only.
abbrev Sectors : Type 0
Sectors = ℕ → List ℕ

abbrev sector_size : List ℕ → Bool
sector_size bytes = length bytes == 512

abbrev fit : List ℕ → List ℕ
fit bytes = if sector_size bytes then bytes else replicate 512 0

abbrev driver : Driver Sectors
driver = record {
  read_sectors = λ d a n. some (fit (d a));
  write_sectors =
      λ d a n bytes. if sector_size bytes then some (λ x. if x == a then bytes else d x) else none;
}

abbrev or_zeros : Option (List ℕ) → List ℕ
or_zeros none = []
or_zeros (some bytes) = bytes

abbrev or_disk : Sectors → Option Sectors → Sectors
or_disk d none = d
or_disk d (some e) = e

length-fit : (bytes : List ℕ) → length (fit bytes) ≡ 512
length-fit bytes = elim (Bool-cases (sector_size bytes)) [
  | inl e ↦ rw e ((==_iff (length bytes) 512).0 e)
  | inr e ↦ rw e refl
]

-- The disk after a write that was taken, and that its bytes make a sector.
taken :
    (d d' : Sectors) (a : ℕ) (bytes : List ℕ)
    → driver.write_sectors d a 1 bytes ≡ some d'
    → (sector_size bytes ≡ true) × ((λ x. if x == a then bytes else d x) ≡ d')
taken d d' a bytes h = elim (Bool-cases (sector_size bytes)) [
  | inl e ↦
      let now : some (λ x. if x == a then bytes else d x) ≡ some d' = rw e at h in
      (e, ap (or_disk d) now)
  | inr e ↦ let contra : none ≡ some d' = rw e at h in absurd (ground (arith, contra))
]

driver-written :
    (d d' : Sectors) (a : ℕ) (bytes : List ℕ)
    → driver.write_sectors d a 1 bytes ≡ some d'
    → driver.read_sectors d' a 1 ≡ some bytes
driver-written d d' a bytes h =
    let t = taken d d' a bytes h in
    ap (λ (e : Sectors). some (fit (e a))) (sym t.1) ∙ rw (==_self a) (rw t.0 refl)

driver-IsSectorDisk : IsSectorDisk driver
driver-IsSectorDisk = record {
  sector_size = λ d a bytes h. ap (λ o. length (or_zeros o)) (sym h) ∙ length-fit (d a);
  written = driver-written;
  others = λ d d' a b bytes ne h.
      let t = taken d d' a bytes h in
      ap (λ (e : Sectors). some (fit (e b))) (sym t.1) ∙ rw (ne→==_false b a ne) refl;
}

abbrev empty_cache : CacheTable
empty_cache = record { access_time = 0; buffers = [] }

abbrev new_disk : Manager (Disk Sectors)
new_disk = record {
  blocks = record {
    device = λ a. [];
    link_cache = empty_cache;
    data_cache = empty_cache;
    cache_enable = false;
    reserved_sector_count = 0;
    cluster_link_area_start_address = 0;
    data_area_start_address = 0;
  };
  mounted = false;
  cluster_link_area_size = 0;
  total_cluster_count = 0;
  last_allocated = 0;
  locks = 0;
  handle_pool = [];
  memory = no_memory;
}

formatted : (format driver (some 100) new_disk).0 ≡ true
unfolding format format_disk format_loop format_mbr format_sizes set_dword set_dword_from
    dword_bytes copy_at
formatted = refl

format-mount_example :
    ((mount driver (format driver (some 100) new_disk).1).0 ≡ true)
    × IsLaidOut driver
        (format_sizes 100).0
        (format_sizes 100).1
        (mount driver (format driver (some 100) new_disk).1).1
format-mount_example = format-mount driver driver-IsSectorDisk 100 new_disk formatted

-- A changed sector of the link table that the cache has discarded.
abbrev stale : CacheBuffer
stale = record { tag = 0; access_time = 0; changed = true; buffer = replicate 512 9 }

driver-apart :
    (d d' : Sectors) (a n : ℕ) (bytes : List ℕ)
    → 0 < a
    → a + n ≤ 2 ^ 32
    → driver.write_sectors d a n bytes ≡ some d'
    → driver.read_sectors d' 0 1 ≡ driver.read_sectors d 0 1
driver-apart d d' a n bytes above end h =
    let t = taken d d' a bytes h in
    ap (λ (e : Sectors). some (fit (e 0))) (sym t.1)
    ∙ rw (ne→==_false 0 a (omega (arith, above))) refl

-- A volume of the cache on which both tables have a changed entry, with 16 sectors of links.
abbrev in_use : Manager (Disk Sectors)
in_use = record new_disk {
  blocks = record new_disk.blocks {
    link_cache = record { access_time = 1; buffers = stale ∷ [] };
    data_cache = record {
      access_time = 1;
      buffers = record stale { buffer = replicate 512 7 } ∷ [];
    };
    cache_enable = true;
    cluster_link_area_start_address = 1;
    data_area_start_address = 17;
  };
}

flushed :
    (flush_file_system_cache driver
      (record in_use { blocks = discard_caches driver in_use.blocks })).0
    ≡ true
unfolding flush_file_system_cache flush_area flush_buffers discard_all_cache_buffer discard_buffers
    write_without_cache
flushed = refl

flush_file_system_cache-mbr_example :
    driver.read_sectors
      (flush_file_system_cache driver
        (record in_use { blocks = discard_caches driver in_use.blocks })).1.blocks.device
      0
      1
    ≡ some (replicate 512 9)
flush_file_system_cache-mbr_example =
    flush_file_system_cache-mbr driver driver-written driver-apart in_use refl refl (omega arith)
      (omega arith) flushed

-- A cache of the link table in which block 2 is changed, over a disk with the link table from
-- sector 1.
abbrev cached : Disk Sectors
cached = record new_disk.blocks {
  link_cache = record { access_time = 1; buffers = record stale { tag = 2 } ∷ [] };
  cache_enable = true;
  cluster_link_area_start_address = 1;
}

link_disk : IsDisk driver formatted_link_area
unfolding read_without_cache write_without_cache
link_disk = record {
  written = λ d d' b bytes h w. driver-written d d' ((b * 1 + 1) % 2 ^ 32) bytes w;
  others = λ d d' b c bytes h i ne w.
      driver-IsSectorDisk.others d d' ((b * 1 + 1) % 2 ^ 32) ((c * 1 + 1) % 2 ^ 32) bytes
        (λ e. ne (omega (arith, e, h.1, i.1))) w;
}

cached-IsCoherent :
    IsCoherent driver formatted_link_area (store_of driver cached AreaKind.link_table)
cached-IsCoherent = record {
  distinct = (λ h. refl, tt);
  inside = λ b e h f. elim (Bool-cases (2 == b)) [
    | inl at ↦ let same : 2 ≡ b = (==_iff 2 b).0 at in (omega (arith, same), omega (arith, same))
    | inr other ↦ let contra : none ≡ some e = rw other at f in absurd (ground (arith, contra))
  ];
  clean = λ b bytes h f. elim (Bool-cases (2 == b)) [
    | inl at ↦
        let contra : some (true, replicate 512 9) ≡ some (false, bytes) = rw at at f in
        absurd (ground (arith, contra))
    | inr other ↦
        let contra : none ≡ some (false, bytes) = rw other at f in absurd (ground (arith, contra))
  ];
}

saved : (flush_area driver cached AreaKind.link_table).0 ≡ true
unfolding flush_area flush_buffers write_without_cache
saved = refl

flush_area-saves_example :
    read_without_cache driver formatted_link_area
      (flush_area driver cached AreaKind.link_table).1.device
      2
    ≡ some (replicate 512 9)
flush_area-saves_example =
    flush_area-saves driver cached AreaKind.link_table 2 link_disk cached-IsCoherent
      (λ e. (omega arith, omega arith), tt) (omega arith, omega arith) saved
