-- ===== src/FileSystem/Branches.antt =====
-- The branches of reading and writing a block through the cache.
use mintos.Base.{ℕ, ◌≡◌, refl, true, false, none, some, List}
use mintos.Cache.{CacheTable, find_tag, entry_at, stamp, find_cache_buffer, cut_down_access_time}
use mintos.FileSystem.{
  Driver, Area, Store, read_without_cache, allocate_cache_buffer_with_flush, fill_entry,
  read_with_cache, write_with_cache,
}

pub find_cache_buffer-miss :
    (t : CacheTable) (b : ℕ)
    → find_tag b (cut_down_access_time t).buffers ≡ none
    → find_cache_buffer t b ≡ (none, cut_down_access_time t)
unfolding find_cache_buffer
find_cache_buffer-miss t b h = rw (find_cache_buffer, h) refl

pub find_cache_buffer-hit :
    (t : CacheTable) (b i : ℕ)
    → find_tag b (cut_down_access_time t).buffers ≡ some i
    → find_cache_buffer t b ≡ (some i, stamp (cut_down_access_time t) i)
unfolding find_cache_buffer
find_cache_buffer-hit t b i h = rw (find_cache_buffer, h) refl

module _ {D : Type 0} (driver : Driver D) (area : Area) where
  module _ (s : Store D) (b : ℕ) (t : CacheTable) where
    pub read-hit :
        (i : ℕ)
        → find_cache_buffer s.table b ≡ (some i, t)
        → read_with_cache driver area s b ≡ (some (entry_at t i).buffer, record s { table = t })
    unfolding read_with_cache
    read-hit i e = rw (read_with_cache, e, e) refl

    pub read-failed :
        find_cache_buffer s.table b ≡ (none, t)
        → read_without_cache driver area s.disk b ≡ none
        → read_with_cache driver area s b ≡ (none, record s { table = t })
    unfolding read_with_cache
    read-failed e d = rw (read_with_cache, e, d, e) refl

    pub read-full :
        (bytes : List ℕ) (s' : Store D)
        → find_cache_buffer s.table b ≡ (none, t)
        → read_without_cache driver area s.disk b ≡ some bytes
        → allocate_cache_buffer_with_flush driver area (record s { table = t }) ≡ (none, s')
        → read_with_cache driver area s b ≡ (none, s')
    unfolding read_with_cache
    read-full bytes s' e d a = rw (read_with_cache, e, d, e, a, e, a) refl

    pub read-filled :
        (bytes : List ℕ) (i : ℕ) (s' : Store D)
        → find_cache_buffer s.table b ≡ (none, t)
        → read_without_cache driver area s.disk b ≡ some bytes
        → allocate_cache_buffer_with_flush driver area (record s { table = t }) ≡ (some i, s')
        → read_with_cache driver area s b ≡ (some bytes, fill_entry driver area s' i b bytes false)
    unfolding read_with_cache
    read-filled bytes i s' e d a = rw (read_with_cache, e, d, e, a, e, a) refl

    pub write-hit :
        (i : ℕ) (bytes : List ℕ)
        → find_cache_buffer s.table b ≡ (some i, t)
        → write_with_cache driver area s b bytes
          ≡ (true, fill_entry driver area (record s { table = t }) i (entry_at t i).tag bytes true)
    unfolding write_with_cache
    write-hit i bytes e = rw (write_with_cache, e, e) refl

    pub write-full :
        (bytes : List ℕ) (s' : Store D)
        → find_cache_buffer s.table b ≡ (none, t)
        → allocate_cache_buffer_with_flush driver area (record s { table = t }) ≡ (none, s')
        → write_with_cache driver area s b bytes ≡ (false, s')
    unfolding write_with_cache
    write-full bytes s' e a = rw (write_with_cache, e, e, a, e, a) refl

    pub write-filled :
        (bytes : List ℕ) (i : ℕ) (s' : Store D)
        → find_cache_buffer s.table b ≡ (none, t)
        → allocate_cache_buffer_with_flush driver area (record s { table = t }) ≡ (some i, s')
        → write_with_cache driver area s b bytes ≡ (true, fill_entry driver area s' i b bytes true)
    unfolding write_with_cache
    write-filled bytes i s' e a = rw (write_with_cache, e, e, a, e, a) refl
