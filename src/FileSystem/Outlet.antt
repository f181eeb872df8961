-- ===== src/FileSystem/Outlet.antt =====
-- The outcomes of kAllocateCacheBuffer, kGetVictimInCacheBuffer and the write of a victim.
use mintos.Base.{
  ℕ, ◌-◌, ◌<◌, ◌≡◌, refl, Bool, true, false, Option, none, some, List, arith, length, get_or, set,
  ap, ◌∙◌, get_or-set_self, length-set,
}
use mintos.Cache.{
  CacheBuffer, CacheTable, zero_buffer, invalid_tag, find_tag, entry_at, set_entry, stamp, oldest,
  allocate_cache_buffer, get_victim_in_cache_buffer, cut_down_access_time,
}
use mintos.Cache.Lookup.{DistinctTags}
use mintos.FileSystem.{Driver, Area, Store, write_without_cache, flush_victim}
use mintos.FileSystem.Entries.{lookup-set_other, DistinctTags-set}
use mintos.FileSystem.Coherence.{Alike, Alike-trans, stamp-Alike}

-- A free entry that is marked as taken.
abbrev pub marked : CacheTable → ℕ → CacheTable
marked t i = stamp (set_entry t i (record (entry_at t i) { tag = invalid_tag - 1 })) i

pub marked-Alike :
    (t : CacheTable) (i : ℕ)
    → DistinctTags t.buffers
    → (entry_at t i).tag ≡ invalid_tag
    → Alike t (marked t i)
marked-Alike t i d free =
    let e = record (entry_at t i) { tag = invalid_tag - 1 } in
    let first : Alike t (set_entry t i e) = record {
      distinct = DistinctTags-set t.buffers i e d (λ h. absurd (omega (arith, h)));
      same =
          λ tag h. lookup-set_other tag t.buffers i e (omega (arith, h)) (omega (arith, h, free));
    } in
    Alike-trans t (set_entry t i e) (marked t i) first
      (stamp-Alike (set_entry t i e) i first.distinct)

pub marked_tag :
    (t : CacheTable) (i : ℕ)
    → i < length t.buffers
    → (entry_at (marked t i) i).tag ≡ invalid_tag - 1
marked_tag t i h =
    let e = record (entry_at t i) { tag = invalid_tag - 1 } in
    let once : get_or (set t.buffers i e) i zero_buffer ≡ e =
      get_or-set_self t.buffers i e zero_buffer h in
    ap (λ (x : CacheBuffer). x.tag)
      (get_or-set_self (set t.buffers i e) i
        (record (get_or (set t.buffers i e) i zero_buffer) { access_time = t.access_time })
        zero_buffer (omega (arith, h, length-set t.buffers i e)))
    ∙ ap (λ (x : CacheBuffer). x.tag) once

pub allocate_cache_buffer-busy :
    (t : CacheTable)
    → find_tag invalid_tag (cut_down_access_time t).buffers ≡ none
    → allocate_cache_buffer t ≡ (none, cut_down_access_time t)
unfolding allocate_cache_buffer
allocate_cache_buffer-busy t h = rw (allocate_cache_buffer, h) refl

pub allocate_cache_buffer-free :
    (t : CacheTable) (i : ℕ)
    → find_tag invalid_tag (cut_down_access_time t).buffers ≡ some i
    → allocate_cache_buffer t ≡ (some i, marked (cut_down_access_time t) i)
unfolding allocate_cache_buffer
allocate_cache_buffer-free t i h = rw (allocate_cache_buffer, h) refl

pub get_victim_in_cache_buffer-none :
    (t : CacheTable)
    → oldest 0 0xffff_ffff none t.buffers ≡ none
    → get_victim_in_cache_buffer t ≡ (none, t)
unfolding get_victim_in_cache_buffer
get_victim_in_cache_buffer-none t h = rw (get_victim_in_cache_buffer, h) refl

pub get_victim_in_cache_buffer-some :
    (t : CacheTable) (i : ℕ)
    → oldest 0 0xffff_ffff none t.buffers ≡ some i
    → get_victim_in_cache_buffer t ≡ (some i, stamp t i)
unfolding get_victim_in_cache_buffer
get_victim_in_cache_buffer-some t i h = rw (get_victim_in_cache_buffer, h) refl

abbrev pub flag_of : Bool → Option (Bool × List ℕ) → Bool
flag_of z none = z
flag_of z (some e) = e.0

module _ {D : Type 0} (driver : Driver D) (area : Area) where
  module _ (s : Store D) (i : ℕ) where
    abbrev at : CacheBuffer
    at = entry_at s.table i

    pub flush_victim-clean : at.changed ≡ false → flush_victim driver area s i ≡ (some i, s)
    unfolding flush_victim
    flush_victim-clean h = rw h refl

    pub flush_victim-failed :
        at.changed ≡ true
        → write_without_cache driver area s.disk at.tag at.buffer ≡ none
        → flush_victim driver area s i ≡ (none, s)
    unfolding flush_victim
    flush_victim-failed h w = rw (h, w) refl

    pub flush_victim-written :
        (d : D)
        → at.changed ≡ true
        → write_without_cache driver area s.disk at.tag at.buffer ≡ some d
        → flush_victim driver area s i ≡ (some i, record s { disk = d })
    unfolding flush_victim
    flush_victim-written d h w = rw (h, w) refl
