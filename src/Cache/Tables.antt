-- ===== src/Cache/Tables.antt =====
-- 02.Kernel64/CacheManager.c: kInitializeCacheManager.
use mintos.Base.{ℕ, ◌*◌, Bool, true, false, none, some, replicate}
use mintos.DynamicMemory.{DynamicMemory, allocate_memory, free_memory}
use mintos.Cache.{CacheTable, invalid_tag, zero_buffer}

-- CACHE_MAXCLUSTERLINKTABLEAREACOUNT
abbrev pub max_cluster_link_table_area_count : ℕ
max_cluster_link_table_area_count = 16

-- CACHE_MAXDATAAREACOUNT
abbrev pub max_data_area_count : ℕ
max_data_area_count = 32

-- A row of `count` entries after kMemSet, each of them with the tag.
unfoldable pub row_of : (count tag : ℕ) → CacheTable
row_of count tag = record {
  access_time = 0;
  buffers = replicate count (record zero_buffer { tag = tag });
}

-- kInitializeCacheManager: whether it succeeds, the rows of the link table and of the data area,
-- and the memory, from which their buffers are taken.
unfoldable pub initialize_cache_manager :
    DynamicMemory → Bool × CacheTable × CacheTable × DynamicMemory
initialize_cache_manager memory =
    let links = row_of max_cluster_link_table_area_count in
    let clusters = row_of max_data_area_count in
    let a = allocate_memory memory (max_cluster_link_table_area_count * 512) in
    let b = allocate_memory a.1 (max_data_area_count * 4096) in
    elim a.0 [
      | none ↦ (false, links 0, clusters 0, a.1)
      | some address ↦ elim b.0 [
        | none ↦ (false, links invalid_tag, clusters 0, (free_memory b.1 address).1)
        | some other ↦ (true, links invalid_tag, clusters invalid_tag, b.1)
      ]
    ]
