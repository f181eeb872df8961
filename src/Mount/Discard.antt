-- ===== src/Mount/Discard.antt =====
-- kFlushFileSystemCache after the kDiscardAllCacheBuffer of kFormat, which clears tags and not the
-- changed flags.
use mintos.Base.{
  ℕ, ◌+◌, ◌*◌, ◌%◌, ◌^◌, ◌≤◌, ◌<◌, ◌≡◌, inl, inr, refl, ap, ◌∙◌, Bool, true, false, some, List, [],
  ◌∷◌, arith, subst, Bool-cases, Option-cases,
}
use mintos.Cache.{CacheBuffer, discard_buffers, discard_all_cache_buffer}
use mintos.FileSystem.{Driver, Area, write_without_cache}
use mintos.Volume.{Manager, link_table, data_area}
use mintos.Mount.{Disk, flush_buffers, flush_area, flush_file_system_cache, discard_caches}
use mintos.Mount.Flush.{last_changed, flush-clean, flush-failed, flush-written, flush-discarded}

module _ {D : Type 0} (driver : Driver D)
    (written : (d d' : D) (a : ℕ) (bytes : List ℕ)
      → driver.write_sectors d a 1 bytes ≡ some d'
      → driver.read_sectors d' a 1 ≡ some bytes)
    (apart : (d d' : D) (a n : ℕ) (bytes : List ℕ)
      → 0 < a
      → a + n ≤ 2 ^ 32
      → driver.write_sectors d a n bytes ≡ some d'
      → driver.read_sectors d' 0 1 ≡ driver.read_sectors d 0 1) where
  abbrev data_from : ℕ → Area
  data_from start = record { start_address = start; sectors = 8 }

  -- A cluster that was discarded is written to the eight sectors before the data area.
  before_data :
      (start : ℕ) (d d' : D) (bytes : List ℕ)
      → 9 ≤ start
      → start < 2 ^ 32
      → write_without_cache driver (data_from start) d 0xffff_ffff bytes ≡ some d'
      → driver.read_sectors d' 0 1 ≡ driver.read_sectors d 0 1
  unfolding write_without_cache
  before_data start d d' bytes far small e =
      let a = (0xffff_ffff * 8 + start) % 2 ^ 32 in
      apart d d' a 8 bytes (omega arith) (omega arith) e

  -- The loop over the data area leaves the MBR alone.
  flush_data-mbr :
      (start : ℕ) (ys : List CacheBuffer) (d : D)
      → 9 ≤ start
      → start < 2 ^ 32
      → driver.read_sectors (flush_buffers driver (data_from start) (discard_buffers ys) d).2 0 1
        ≡ driver.read_sectors d 0 1
  unfolding discard_buffers
  flush_data-mbr start [] d far small = unfold flush_buffers in refl
  flush_data-mbr start (y ∷ ys) d far small =
      let x = record y { tag = 0xffff_ffff } in
      let rest = discard_buffers ys in
      let area = data_from start in
      let mbr = λ (r : Bool × List CacheBuffer × D). driver.read_sectors r.2 0 1 in
      elim (Bool-cases y.changed) [
        | inr same ↦
            ap mbr (flush-clean driver area x rest d same) ∙ flush_data-mbr start ys d far small
        | inl changed ↦
            elim (Option-cases (write_without_cache driver area d 0xffff_ffff y.buffer)) [
              | inl failed ↦ ap mbr (flush-failed driver area x rest d changed failed)
              | inr (d', e) ↦
                  ap mbr (flush-written driver area x rest d d' changed e)
                  ∙ flush_data-mbr start ys d' far small
                  ∙ before_data start d d' y.buffer far small e
            ]
      ]

  -- What a flush that succeeds does: both loops, one after the other.
  flush-both :
      (m : Manager (Disk D))
      → m.blocks.cache_enable ≡ true
      → (flush_file_system_cache driver m).0 ≡ true
      → let a = flush_area driver m.blocks link_table in
        (a.0 ≡ true)
        × ((flush_file_system_cache driver m).1.blocks.device
            ≡ (flush_area driver a.1 data_area).1.device)
  unfolding flush_file_system_cache
  flush-both m cached ok =
      let a = flush_area driver m.blocks link_table in
      let b = flush_area driver a.1 data_area in
      elim (Bool-cases a.0) [
        | inr e ↦
            let contra : false ≡ true = rw (e, cached) at ok in absurd (ground (arith, contra))
        | inl e ↦ elim (Bool-cases b.0) [
          | inr f ↦
              let contra : false ≡ true = rw (e, f, cached) at ok in absurd (ground (arith, contra))
          | inl f ↦ (e, rw (e, f, cached) refl)
        ]
      ]

  -- The disk with both tables discarded.
  abbrev emptied : Disk D → Disk D
  emptied s = record s {
    link_cache = discard_all_cache_buffer s.link_cache;
    data_cache = discard_all_cache_buffer s.data_cache;
  }

  flush-emptied :
      (m : Manager (Disk D)) (s : Disk D)
      → s.cache_enable ≡ true
      → s.cluster_link_area_start_address ≡ 1
      → 9 ≤ s.data_area_start_address
      → s.data_area_start_address < 2 ^ 32
      → let m1 = record m { blocks = emptied s } in
        (flush_file_system_cache driver m1).0 ≡ true
        → driver.read_sectors (flush_file_system_cache driver m1).1.blocks.device 0 1
          ≡ last_changed s.link_cache.buffers (driver.read_sectors s.device 0 1)
  unfolding flush_area discard_all_cache_buffer
  flush-emptied m s cached first far small ok =
      let m1 = record m { blocks = emptied s } in
      let both = flush-both m1 cached ok in
      let xs = s.link_cache.buffers in
      let link : Area = record { start_address = s.cluster_link_area_start_address; sectors = 1 } in
      let a = flush_buffers driver link (discard_buffers xs) s.device in
      let mbr : driver.read_sectors a.2 0 1 ≡ last_changed xs (driver.read_sectors s.device 0 1) =
        rw first (flush-discarded driver written xs s.device (rw first at both.0)) in
      ap (λ d. driver.read_sectors d 0 1) both.1
      ∙ flush_data-mbr s.data_area_start_address s.data_cache.buffers a.2 far small
      ∙ mbr

  -- The state that kFormat leaves of the caches.
  abbrev discarded : Manager (Disk D) → Manager (Disk D)
  discarded m = record m { blocks = discard_caches driver m.blocks }

  -- On a volume with the cache, the link table from sector 1 on and the data area from sector 9 or
  -- behind, a kFlushFileSystemCache right after both tables were discarded, if it succeeds, leaves in
  -- sector 0, the MBR, the bytes of the last entry of the link table's cache that was changed before
  -- it was discarded, and what was there if none was. The disk reads back a sector that was written,
  -- and a write of sectors behind sector 0 does not change that.
  pub flush_file_system_cache-mbr :
      (m : Manager (Disk D))
      → m.blocks.cache_enable ≡ true
      → m.blocks.cluster_link_area_start_address ≡ 1
      → 9 ≤ m.blocks.data_area_start_address
      → m.blocks.data_area_start_address < 2 ^ 32
      → (flush_file_system_cache driver (discarded m)).0 ≡ true
      → driver.read_sectors (flush_file_system_cache driver (discarded m)).1.blocks.device 0 1
        ≡ last_changed m.blocks.link_cache.buffers (driver.read_sectors m.blocks.device 0 1)
  flush_file_system_cache-mbr m cached first far small ok =
      let same : emptied m.blocks ≡ discard_caches driver m.blocks = rw cached refl in
      let claim = λ (s : Disk D).
        (flush_file_system_cache driver (record m { blocks = s })).0 ≡ true
        → driver.read_sectors
            (flush_file_system_cache driver (record m { blocks = s })).1.blocks.device 0 1
          ≡ last_changed m.blocks.link_cache.buffers (driver.read_sectors m.blocks.device 0 1) in
      subst claim same (flush-emptied m m.blocks cached first far small) ok
