-- ===== src/Cache.antt =====
-- 02.Kernel64/CacheManager.c: the tables of cache buffers, replaced by age.
-- A table is one row of `vvstCacheBuffer` with its clock. The bytes behind `pbBuffer` belong to one
-- entry and move with it, so they are a field of the entry. DWORD values are below 2 ^ 32.
-- A pointer to an entry is its index.
pub mod Lookup
pub mod Tables
mod Tests
pub mod Victim
use mintos.Base.{
  ℕ, zero, suc, ◌+◌, ◌-◌, ◌<◌, Bool, true, false, Option, none, some, List, [], ◌∷◌, ◌==◌, ltb,
  if◌then◌else◌, inc32, length, get_or, set,
}

-- CACHE_INVALIDTAG
abbrev pub invalid_tag : ℕ
invalid_tag = 0xffff_ffff

-- CACHEBUFFER
pub record CacheBuffer : Type 0 where
  pub tag : ℕ
  pub access_time : ℕ
  pub changed : Bool
  pub buffer : List ℕ

-- One row of CACHEMANAGER: the entries below `vdwMaxCount`, and the clock `vdwAccessTime`.
pub record CacheTable : Type 0 where
  pub access_time : ℕ
  pub buffers : List CacheBuffer

-- One run of the inner loop of the bubble sort over `n` neighbours, with `bSorted`.
unfoldable pub bubble : ℕ → List CacheBuffer → Bool × List CacheBuffer
bubble zero xs = (true, xs)
bubble (suc n) [] = (true, [])
bubble (suc n) (x ∷ []) = (true, x ∷ [])
bubble (suc n) (x ∷ y ∷ r) =
    let swapped = bubble n (x ∷ r) in
    let kept = bubble n (y ∷ r) in
    if ltb y.access_time x.access_time then (false, y ∷ swapped.1) else (kept.0, x ∷ kept.1)

-- The outer loop: `rounds` are left, and the next run compares `n` neighbours.
unfoldable pub sort_rounds : (rounds n : ℕ) → List CacheBuffer → List CacheBuffer
sort_rounds zero n xs = xs
sort_rounds (suc rounds) n xs =
    let r = bubble n xs in let rest = sort_rounds rounds (n - 1) r.1 in if r.0 then r.1 else rest

-- `pstCacheBuffer[i].dwAccessTime = i`
unfoldable pub renumber : ℕ → List CacheBuffer → List CacheBuffer
renumber i [] = []
renumber i (x ∷ xs) = record x { access_time = i } ∷ renumber (i + 1) xs

-- kCutDownAccessTime
unfoldable pub cut_down_access_time : CacheTable → CacheTable
cut_down_access_time t =
    let n = length t.buffers in
    if ltb t.access_time 0xffff_fffe
    then t
    else record { access_time = n; buffers = renumber 0 (sort_rounds (n - 1) (n - 1) t.buffers) }

-- The index of the first entry with the tag.
unfoldable pub find_tag : ℕ → List CacheBuffer → Option ℕ
find_tag tag [] = none
find_tag tag (x ∷ xs) =
    if x.tag == tag then some 0 else elim (find_tag tag xs) [ none ↦ none | some i ↦ some (i + 1) ]

abbrev pub zero_buffer : CacheBuffer
zero_buffer = record { tag = 0; access_time = 0; changed = false; buffer = [] }

abbrev pub entry_at : CacheTable → ℕ → CacheBuffer
entry_at t i = get_or t.buffers i zero_buffer

abbrev pub set_entry : CacheTable → ℕ → CacheBuffer → CacheTable
set_entry t i e = record t { buffers = set t.buffers i e }

-- `pstCacheBuffer[i].dwAccessTime = vdwAccessTime++`
abbrev pub stamp : CacheTable → ℕ → CacheTable
stamp t i = record {
  access_time = inc32 t.access_time;
  buffers = set t.buffers i (record (entry_at t i) { access_time = t.access_time });
}

-- kFindCacheBuffer
unfoldable pub find_cache_buffer : CacheTable → ℕ → Option ℕ × CacheTable
find_cache_buffer t tag =
    let t' = cut_down_access_time t in
    elim (find_tag tag t'.buffers) [ none ↦ (none, t') | some i ↦ (some i, stamp t' i) ]

-- kAllocateCacheBuffer
unfoldable pub allocate_cache_buffer : CacheTable → Option ℕ × CacheTable
allocate_cache_buffer t =
    let t' = cut_down_access_time t in
    elim (find_tag invalid_tag t'.buffers) [
      | none ↦ (none, t')
      | some i ↦
          (some i, stamp (set_entry t' i (record (entry_at t' i) { tag = invalid_tag - 1 })) i)
    ]

-- The loop of kGetVictimInCacheBuffer at index `i`, with the oldest entry so far.
unfoldable pub oldest : ℕ → ℕ → Option ℕ → List CacheBuffer → Option ℕ
oldest i time found [] = found
oldest i time found (x ∷ xs) =
    let older = ltb x.access_time time in
    let rest =
      oldest (i + 1) (if older then x.access_time else time) (if older then some i else found) xs in
    if x.tag == invalid_tag then some i else rest

-- kGetVictimInCacheBuffer
unfoldable pub get_victim_in_cache_buffer : CacheTable → Option ℕ × CacheTable
get_victim_in_cache_buffer t = elim (oldest 0 0xffff_ffff none t.buffers) [
  | none ↦ (none, t)
  | some i ↦ (some i, stamp t i)
]

-- The loop of kDiscardAllCacheBuffer.
unfoldable pub discard_buffers : List CacheBuffer → List CacheBuffer
discard_buffers [] = []
discard_buffers (x ∷ xs) = record x { tag = invalid_tag } ∷ discard_buffers xs

-- kDiscardAllCacheBuffer
unfoldable pub discard_all_cache_buffer : CacheTable → CacheTable
discard_all_cache_buffer t = record { access_time = 0; buffers = discard_buffers t.buffers }
