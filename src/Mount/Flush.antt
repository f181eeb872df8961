-- ===== src/Mount/Flush.antt =====
-- kFlushFileSystemCache brings a cache table to the disk.
use mintos.Base.{
  ℕ, ◌≡◌, inl, inr, refl, ap, sym, ◌∙◌, subst, Bool, true, false, if◌then◌else◌, Option, none, some,
  List, [], ◌∷◌, arith, ◌==◌, Bool-cases, Option-cases, ==_iff,
}
use mintos.Cache.{CacheBuffer, discard_buffers}
use mintos.Cache.Lookup.{lookup, IsBlock, DistinctTags}
use mintos.FileSystem.{Driver, Area, Store, read_without_cache, write_without_cache}
use mintos.FileSystem.Coherence.{IsInside, IsDisk, IsCoherent, shown, shown_by}
use mintos.Volume.{AreaKind}
use mintos.Mount.{Disk, area_of, store_of, flush_buffers, flush_area}

-- The bytes of the last changed entry, or else the given ones.
abbrev pub last_changed : List CacheBuffer → Option (List ℕ) → Option (List ℕ)
last_changed [] r = r
last_changed (x ∷ xs) r = last_changed xs (if x.changed then some x.buffer else r)

-- The link table as kFormat lays it out.
abbrev pub formatted_link_area : Area
formatted_link_area = record { start_address = 1; sectors = 1 }

module _ {D : Type 0} (driver : Driver D) where
  -- The disk after a block was written, if the table has changed it.
  abbrev flushed : Option (Bool × List ℕ) → Option (List ℕ) → Option (List ℕ)
  flushed (some (true, bytes)) r = some bytes
  flushed (some (false, bytes)) r = r
  flushed none r = r

  -- Each changed entry is of a block of the area.
  abbrev pub AllInside : Area → List CacheBuffer → Type 0
  AllInside area [] = Unit
  AllInside area (x ∷ xs) = (x.changed ≡ true → IsInside driver area x.tag) × AllInside area xs

  module _ (area : Area) (x : CacheBuffer) (xs : List CacheBuffer) (d : D) where
    abbrev after : D → Bool × List CacheBuffer × D
    after = flush_buffers driver area xs

    pub flush-clean :
        x.changed ≡ false
        → flush_buffers driver area (x ∷ xs) d ≡ ((after d).0, x ∷ (after d).1, (after d).2)
    unfolding flush_buffers
    flush-clean e = rw (e, flush_buffers) refl

    pub flush-failed :
        x.changed ≡ true
        → write_without_cache driver area d x.tag x.buffer ≡ none
        → flush_buffers driver area (x ∷ xs) d ≡ (false, x ∷ xs, d)
    unfolding flush_buffers
    flush-failed c e = ground (arith, c, e)

    pub flush-written :
        (d' : D)
        → x.changed ≡ true
        → write_without_cache driver area d x.tag x.buffer ≡ some d'
        → flush_buffers driver area (x ∷ xs) d
          ≡ ((after d').0, record x { changed = false } ∷ (after d').1, (after d').2)
    unfolding flush_buffers
    flush-written d' c e = ground (arith, c, e)

  module _ (area : Area) (disk : IsDisk driver area) where
    -- What the disk has of a block after the entry `x` was written.
    written_block :
        (x : CacheBuffer) (xs : List CacheBuffer) (d d' : D) (b : ℕ)
        → IsInside driver area b
        → IsInside driver area x.tag
        → DistinctTags (x ∷ xs)
        → x.changed ≡ true
        → write_without_cache driver area d x.tag x.buffer ≡ some d'
        → flushed (lookup b xs) (read_without_cache driver area d' b)
          ≡ flushed (lookup b (x ∷ xs)) (read_without_cache driver area d b)
    written_block x xs d d' b h i n c e = elim (Bool-cases (x.tag == b)) [
      | inl at ↦
          let same : x.tag ≡ b = (==_iff x.tag b).0 at in
          let gone : lookup b xs ≡ none = subst (λ z. lookup z xs ≡ none) same (n.0 i.0) in
          let now : read_without_cache driver area d' b ≡ some x.buffer =
            subst (λ z. read_without_cache driver area d' z ≡ some x.buffer) same
              (disk.written d d' x.tag x.buffer i e) in
          rw (at, gone, c) now
      | inr other ↦
          let stays : read_without_cache driver area d' b ≡ read_without_cache driver area d b =
            disk.others d d' x.tag b x.buffer i h (λ z. absurd (ground (arith, z, other))) e in
          rw (other, stays) refl
    ]

    clean_head :
        (x : CacheBuffer) (xs : List CacheBuffer) (d : D) (b : ℕ)
        → IsInside driver area b
        → DistinctTags (x ∷ xs)
        → x.changed ≡ false
        → flushed (lookup b xs) (read_without_cache driver area d b)
          ≡ flushed (lookup b (x ∷ xs)) (read_without_cache driver area d b)
    clean_head x xs d b h n e = elim (Bool-cases (x.tag == b)) [
      | inr other ↦ rw other refl
      | inl at ↦
          let same : x.tag ≡ b = (==_iff x.tag b).0 at in
          let gone : lookup b xs ≡ none =
            subst (λ z. lookup z xs ≡ none) same (n.0 (subst IsBlock (sym same) h.0)) in
          rw (at, gone, e) refl
    ]

    flush_buffers-reads :
        (xs : List CacheBuffer) (d : D) (b : ℕ)
        → IsInside driver area b
        → DistinctTags xs
        → AllInside area xs
        → (flush_buffers driver area xs d).0 ≡ true
        → read_without_cache driver area (flush_buffers driver area xs d).2 b
          ≡ flushed (lookup b xs) (read_without_cache driver area d b)
    flush_buffers-reads [] d b h n i ok = unfold flush_buffers in refl
    flush_buffers-reads (x ∷ xs) d b h n i ok = elim (Bool-cases x.changed) [
      | inr same ↦
          let step = flush-clean area x xs d same in
          let ih =
            flush_buffers-reads xs d b h n.1 i.1
              (sym (ap (λ (r : Bool × List CacheBuffer × D). r.0) step) ∙ ok) in
          ap (λ (r : Bool × List CacheBuffer × D). read_without_cache driver area r.2 b) step
          ∙ ih
          ∙ clean_head x xs d b h n same
      | inl changed ↦ elim (Option-cases (write_without_cache driver area d x.tag x.buffer)) [
        | inl failed ↦
            let step = flush-failed area x xs d changed failed in
            let contra : false ≡ true =
              sym (ap (λ (r : Bool × List CacheBuffer × D). r.0) step) ∙ ok in
            absurd (ground (arith, contra))
        | inr (d', e) ↦
            let step = flush-written area x xs d d' changed e in
            let ih =
              flush_buffers-reads xs d' b h n.1 i.1
                (sym (ap (λ (r : Bool × List CacheBuffer × D). r.0) step) ∙ ok) in
            ap (λ (r : Bool × List CacheBuffer × D). read_without_cache driver area r.2 b) step
            ∙ ih
            ∙ written_block x xs d d' b h (i.0 changed) n changed e
      ]
    ]

    -- What a block shows is on the disk, if it was flushed.
    flushed-shown :
        (s : Store D) (b : ℕ) (o : Option (Bool × List ℕ))
        → ((bytes : List ℕ)
            → o ≡ some (false, bytes)
            → read_without_cache driver area s.disk b ≡ some bytes)
        → flushed o (read_without_cache driver area s.disk b) ≡ shown_by driver area o s.disk b
    flushed-shown s b none clean = refl
    flushed-shown s b (some (true, bytes)) clean = refl
    flushed-shown s b (some (false, bytes)) clean = clean bytes refl

  -- After a flush of the table of an area that succeeded, a disk that keeps what is written has of
  -- each block of the area what the block showed, where the table was coherent and its changed
  -- entries were blocks of the area: all that was changed in the cache is written, each change to
  -- its own block.
  pub flush_area-saves :
      (s : Disk D) (k : AreaKind) (b : ℕ)
      → IsDisk driver (area_of driver s k)
      → IsCoherent driver (area_of driver s k) (store_of driver s k)
      → AllInside (area_of driver s k) (store_of driver s k).table.buffers
      → IsInside driver (area_of driver s k) b
      → (flush_area driver s k).0 ≡ true
      → read_without_cache driver (area_of driver s k) (flush_area driver s k).1.device b
        ≡ shown driver (area_of driver s k) (store_of driver s k) b
  unfolding flush_area
  flush_area-saves s AreaKind.link_table b disk c i h ok =
      let area = area_of driver s AreaKind.link_table in
      let t = store_of driver s AreaKind.link_table in
      flush_buffers-reads area disk t.table.buffers t.disk b h c.distinct i ok
      ∙ flushed-shown area disk t b (lookup b t.table.buffers) (λ bytes e. c.clean b bytes h.0 e)
  flush_area-saves s AreaKind.data_area b disk c i h ok =
      let area = area_of driver s AreaKind.data_area in
      let t = store_of driver s AreaKind.data_area in
      flush_buffers-reads area disk t.table.buffers t.disk b h c.distinct i ok
      ∙ flushed-shown area disk t b (lookup b t.table.buffers) (λ bytes e. c.clean b bytes h.0 e)

  module _
      (written : (d d' : D) (a : ℕ) (bytes : List ℕ)
        → driver.write_sectors d a 1 bytes ≡ some d'
        → driver.read_sectors d' a 1 ≡ some bytes) where
    -- The block of an entry that was discarded is the sector of the MBR.
    write_invalid :
        (d : D) (bytes : List ℕ)
        → write_without_cache driver formatted_link_area d 0xffff_ffff bytes
          ≡ driver.write_sectors d 0 1 bytes
    unfolding write_without_cache
    write_invalid d bytes = refl

    -- The loop over the link table of a volume that kFormat laid out, after its cache was discarded,
    -- writes each changed entry over sector 0: if it succeeds, the MBR has the bytes of the last
    -- changed entry of that table, where there is one.
    pub flush-discarded :
        (xs : List CacheBuffer) (d : D)
        → (flush_buffers driver formatted_link_area (discard_buffers xs) d).0 ≡ true
        → driver.read_sectors
            (flush_buffers driver formatted_link_area (discard_buffers xs) d).2
            0
            1
          ≡ last_changed xs (driver.read_sectors d 0 1)
    unfolding discard_buffers
    flush-discarded [] d ok = unfold flush_buffers in refl
    flush-discarded (x ∷ xs) d ok =
        let y = record x { tag = 0xffff_ffff } in
        let ys = discard_buffers xs in
        let area = formatted_link_area in
        elim (Bool-cases x.changed) [
          | inr same ↦
              let step = flush-clean area y ys d same in
              ap (λ (r : Bool × List CacheBuffer × D). driver.read_sectors r.2 0 1) step
              ∙ flush-discarded xs d (sym (ap (λ (r : Bool × List CacheBuffer × D). r.0) step) ∙ ok)
              ∙ ap (λ r. last_changed xs r) (rw same refl)
          | inl changed ↦
              elim (Option-cases (write_without_cache driver area d 0xffff_ffff x.buffer)) [
                | inl failed ↦
                    let step = flush-failed area y ys d changed failed in
                    let contra : false ≡ true =
                      sym (ap (λ (r : Bool × List CacheBuffer × D). r.0) step) ∙ ok in
                    absurd (ground (arith, contra))
                | inr (d', e) ↦
                    let step = flush-written area y ys d d' changed e in
                    let mbr : driver.read_sectors d' 0 1 ≡ some x.buffer =
                      written d d' 0 x.buffer (sym (write_invalid d x.buffer) ∙ e) in
                    ap (λ (r : Bool × List CacheBuffer × D). driver.read_sectors r.2 0 1) step
                    ∙ flush-discarded xs d'
                        (sym (ap (λ (r : Bool × List CacheBuffer × D). r.0) step) ∙ ok)
                    ∙ ap (λ r. last_changed xs r) (mbr ∙ rw changed refl)
              ]
        ]
