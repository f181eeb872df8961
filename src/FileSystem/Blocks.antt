-- ===== src/FileSystem/Blocks.antt =====
-- A block read through the cache is what was written last, whatever the cache holds.
use mintos.Base.{
  ℕ, ◌≡◌, ◌≢◌, ◌⊎◌, inl, inr, refl, Bool, true, false, Option, none, some, List, arith, ◌==◌,
  Bool-cases, Option-cases, ap, ◌∙◌, ==_iff, sym,
}
use mintos.Cache.{CacheBuffer, find_tag, stamp, cut_down_access_time}
use mintos.FileSystem.{
  Driver, Area, Store, read_without_cache, allocate_cache_buffer_with_flush, fill_entry,
  read_with_cache, write_with_cache,
}
use mintos.FileSystem.Entries.{find_tag-Found, find_tag-none}
use mintos.FileSystem.Coherence.{IsInside, IsDisk, shown, shown_by, Alike-shown}
use mintos.FileSystem.Slot.{Allocated, room, no_room, allocate_cache_buffer_with_flush-Allocated}
use mintos.FileSystem.Branches.{
  find_cache_buffer-miss, find_cache_buffer-hit, read-hit, read-failed, read-full, read-filled,
  write-hit, write-full, write-filled,
}
use mintos.FileSystem.Outcome.{
  IsStore, cut-AllKnown, missed-IsUnchanged, filled-IsStore, filled-shown, filled_others, hit-Alike,
  hit_at, hit-IsStore, hit-shown, over_new, over_other, over-IsStore,
}

module _ {D : Type 0} (driver : Driver D) (area : Area) where
  -- What a read of block `b` comes to.
  pub record IsRead (s : Store D) (b : ℕ) (r : Option (List ℕ) × Store D) : Type 0 where
    pub store : IsStore driver area r.1
    pub result : (r.0 ≡ none) ⊎ (r.0 ≡ shown driver area s b)
    pub same : (a : ℕ) → IsInside driver area a → shown driver area r.1 a ≡ shown driver area s a

  -- What a write of block `b` comes to.
  pub record IsWritten (s : Store D) (b : ℕ) (bytes : List ℕ) (r : Bool × Store D) : Type 0 where
    pub store : IsStore driver area r.1
    pub result :
        ((r.0 ≡ true) × (shown driver area r.1 b ≡ some bytes))
        ⊎ ((r.0 ≡ false) × (shown driver area r.1 b ≡ shown driver area s b))
    pub same :
        (a : ℕ) → IsInside driver area a → a ≢ b → shown driver area r.1 a ≡ shown driver area s a

  module _ (disk : IsDisk driver area) (s : Store D) (b : ℕ) (v : IsStore driver area s)
      (block : IsInside driver area b) where
    abbrev after_cut : Store D
    after_cut = record s { table = cut_down_access_time s.table }

    missed-IsStore : IsStore driver area after_cut
    missed-IsStore = record {
      coherent = (missed-IsUnchanged driver area disk s b v block).coherent;
      known = cut-AllKnown driver area disk s b v block;
    }

    allocated :
        find_tag b (cut_down_access_time s.table).buffers ≡ none
        → Allocated driver area after_cut b (allocate_cache_buffer_with_flush driver area after_cut)
    allocated miss =
        allocate_cache_buffer_with_flush-Allocated driver area disk after_cut b block.0
          missed-IsStore.coherent missed-IsStore.known
          (find_tag-none b (cut_down_access_time s.table).buffers miss)

    -- After a miss the block is shown as the disk has it.
    shown_by_disk :
        find_tag b (cut_down_access_time s.table).buffers ≡ none
        → shown driver area s b ≡ read_without_cache driver area s.disk b
    shown_by_disk miss =
        sym ((missed-IsUnchanged driver area disk s b v block).same_shown b block)
        ∙ ap (λ o. shown_by driver area o s.disk b)
            (find_tag-none b (cut_down_access_time s.table).buffers miss)

    miss-IsRead :
        (bytes : List ℕ)
        → find_tag b (cut_down_access_time s.table).buffers ≡ none
        → read_without_cache driver area s.disk b ≡ some bytes
        → Allocated driver area after_cut b (allocate_cache_buffer_with_flush driver area after_cut)
        → IsRead s b (read_with_cache driver area s b)
    miss-IsRead bytes miss d (no_room s' a u k) =
        rw
          (read-full driver area s b (cut_down_access_time s.table) bytes s'
            (find_cache_buffer-miss s.table b miss) d a)
          (record {
            store = record { coherent = u.coherent; known = k };
            result = inl refl;
            same = λ c h.
                u.same_shown c h ∙ (missed-IsUnchanged driver area disk s b v block).same_shown c h;
          })
    miss-IsRead bytes miss d (room i s' a r) =
        let on_disk : read_without_cache driver area s'.disk b ≡ some bytes =
          sym (ap (λ o. shown_by driver area o s'.disk b) r.absent)
          ∙ r.unchanged.same_shown b block
          ∙ (missed-IsUnchanged driver area disk s b v block).same_shown b block
          ∙ shown_by_disk miss
          ∙ d in
        let new = filled-shown driver area disk s b v block i s' bytes false r (λ e. on_disk) in
        rw
          (read-filled driver area s b (cut_down_access_time s.table) bytes i s'
            (find_cache_buffer-miss s.table b miss) d a)
          (record {
            store = filled-IsStore driver area disk s b v block i s' bytes false r (λ e. on_disk);
            result = inr (sym d ∙ sym (shown_by_disk miss));
            same = λ c h. elim (Bool-cases (c == b)) [
              | inl at ↦ rw ((==_iff c b).0 at) (new ∙ sym d ∙ sym (shown_by_disk miss))
              | inr other ↦
                  filled_others driver area disk s b v block i s' bytes false r (λ e. on_disk) c h
                    (ground arith)
            ];
          })

    -- On a disk that keeps its promise, a read through the cache of a block of the area returns
    -- what the block shows or fails. Either way the store stays coherent, and every block of the
    -- area shows what it did: neither the caching of the block nor the entry given up for it, which
    -- is written back if it has changed, can be seen.
    pub read_with_cache-IsRead : IsRead s b (read_with_cache driver area s b)
    read_with_cache-IsRead =
        elim (Option-cases (find_tag b (cut_down_access_time s.table).buffers)) [
          | inr (i, e) ↦
              let f = find_tag-Found b (cut_down_access_time s.table).buffers i e in
              let t2 = stamp (cut_down_access_time s.table) i in
              rw (read-hit driver area s b t2 i (find_cache_buffer-hit s.table b i e)) (record {
                store = hit-IsStore driver area disk s b v block i f;
                result = inr (
                    ap (λ (x : CacheBuffer). some x.buffer)
                      (hit_at driver area disk s b v block i f)
                    ∙ sym (hit-shown driver area disk s b v block i f));
                same = λ c h.
                    Alike-shown driver area s t2 c h.0 (hit-Alike driver area disk s b v block i f);
              })
          | inl miss ↦ elim (Option-cases (read_without_cache driver area s.disk b)) [
            | inl failed ↦
                rw
                  (read-failed driver area s b (cut_down_access_time s.table)
                    (find_cache_buffer-miss s.table b miss) failed)
                  (record {
                    store = missed-IsStore;
                    result = inl refl;
                    same = (missed-IsUnchanged driver area disk s b v block).same_shown;
                  })
            | inr (bytes, d) ↦ miss-IsRead bytes miss d (allocated miss)
          ]
        ]

    miss-IsWritten :
        (bytes : List ℕ)
        → find_tag b (cut_down_access_time s.table).buffers ≡ none
        → Allocated driver area after_cut b (allocate_cache_buffer_with_flush driver area after_cut)
        → IsWritten s b bytes (write_with_cache driver area s b bytes)
    miss-IsWritten bytes miss (no_room s' a u k) =
        rw
          (write-full driver area s b (cut_down_access_time s.table) bytes s'
            (find_cache_buffer-miss s.table b miss) a)
          (record {
            store = record { coherent = u.coherent; known = k };
            result = inr (
              refl,
              u.same_shown b block
                  ∙ (missed-IsUnchanged driver area disk s b v block).same_shown b block,
            );
            same = λ c h ne.
                u.same_shown c h ∙ (missed-IsUnchanged driver area disk s b v block).same_shown c h;
          })
    miss-IsWritten bytes miss (room i s' a r) =
        let dirty : true ≡ false → read_without_cache driver area s'.disk b ≡ some bytes =
          λ e. absurd (ground (arith, e)) in
        rw
          (write-filled driver area s b (cut_down_access_time s.table) bytes i s'
            (find_cache_buffer-miss s.table b miss) a)
          (record {
            store = filled-IsStore driver area disk s b v block i s' bytes true r dirty;
            result = inl (refl, filled-shown driver area disk s b v block i s' bytes true r dirty);
            same = filled_others driver area disk s b v block i s' bytes true r dirty;
          })

    -- On a disk that keeps its promise, a write through the cache of a block of the area either
    -- succeeds, and the block shows the new bytes, or returns FALSE, and the block shows what it
    -- did. Either way the store stays coherent, and every other block of the area shows what it
    -- did.
    pub write_with_cache-IsWritten :
        (bytes : List ℕ) → IsWritten s b bytes (write_with_cache driver area s b bytes)
    write_with_cache-IsWritten bytes =
        elim (Option-cases (find_tag b (cut_down_access_time s.table).buffers)) [
          | inl miss ↦ miss-IsWritten bytes miss (allocated miss)
          | inr (i, e) ↦
              let f = find_tag-Found b (cut_down_access_time s.table).buffers i e in
              let t2 = stamp (cut_down_access_time s.table) i in
              rw (write-hit driver area s b t2 i bytes (find_cache_buffer-hit s.table b i e)) (
                unfold fill_entry in
                record {
                  store = over-IsStore driver area disk s b v block i f bytes;
                  result = inl (
                    refl,
                    ap (λ o. shown_by driver area o s.disk b)
                        (over_new driver area disk s b v block i f bytes),
                  );
                  same = λ c h ne.
                      ap (λ o. shown_by driver area o s.disk c)
                        (over_other driver area disk s b v block i f bytes c h.0 ne)
                      ∙ Alike-shown driver area s t2 c h.0
                          (hit-Alike driver area disk s b v block i f);
                })
        ]
