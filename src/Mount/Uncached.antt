-- ===== src/Mount/Uncached.antt =====
-- 02.Kernel64/FileSystem.c without the cache: the blocks of a mounted disk have the laws that the
-- theorems on the link table, the directory and files ask for.
use mintos.Base.{
  ℕ, ◌+◌, ◌*◌, ◌^◌, ◌≤◌, ◌<◌, ◌≡◌, ◌≢◌, ◌⊎◌, inl, inr, refl, sym, ap, true, false, none, some, List,
  arith, subst, Option-cases,
}
use mintos.FileSystem.{
  Driver, Area, read_without_cache, write_without_cache, read_block, write_block,
}
use mintos.Volume.{AreaKind, link_table, data_area}
use mintos.Volume.View.{BlockView, BlockLaws, IsReadOf, IsWriteOf}
use mintos.Mount.{Disk, block_ops}

module _ {D : Type 0} (driver : Driver D) where
  -- What the driver promises of runs of sectors: one that was written is read back, and one that has
  -- no sector in common with it does not change.
  pub record KeepsRuns : Type 0 where
    pub written :
        (d d' : D) (a n : ℕ) (bytes : List ℕ)
        → driver.write_sectors d a n bytes ≡ some d'
        → driver.read_sectors d' a n ≡ some bytes
    pub others :
        (d d' : D) (a n b k : ℕ) (bytes : List ℕ)
        → (a + n ≤ b) ⊎ (b + k ≤ a)
        → driver.write_sectors d a n bytes ≡ some d'
        → driver.read_sectors d' b k ≡ driver.read_sectors d b k

  module _ (link_start data_start : ℕ) where
    abbrev place : AreaKind → Area
    place link_table = record { start_address = link_start; sectors = 1 }
    place data_area = record { start_address = data_start; sectors = 8 }

    -- Sectors of links lie before the data area, clusters have addresses.
    abbrev Inside : AreaKind → ℕ → Type 0
    Inside link_table b = link_start + b < data_start
    Inside data_area b = b * 8 + data_start + 8 ≤ 2 ^ 32

    -- The areas of a mounted disk, with the cache off.
    pub record IsUncached (s : Disk D) : Type 0 where
      pub off : s.cache_enable ≡ false
      pub link_at : s.cluster_link_area_start_address ≡ link_start
      pub data_at : s.data_area_start_address ≡ data_start

    abbrev pub disk_view : BlockView (Disk D)
    disk_view = record {
      IsGood = IsUncached;
      IsInside = Inside;
      shown = λ s k b. read_without_cache driver (place k) s.device b;
    }

    module _ (keeps : KeepsRuns) (small : data_start < 2 ^ 32) where
      -- A read and a write go to the disk.
      reads-device :
          (s : Disk D) (k : AreaKind) (b : ℕ)
          → IsUncached s
          → ((block_ops driver).read s k b).0 ≡ read_without_cache driver (place k) s.device b
      unfolding read_block
      reads-device s link_table b g = rw (g.off, g.link_at) refl
      reads-device s data_area b g = rw (g.off, g.data_at) refl

      reads-state :
          (s : Disk D) (k : AreaKind) (b : ℕ) → IsUncached s → ((block_ops driver).read s k b).1 ≡ s
      unfolding read_block
      reads-state s link_table b g = rw g.off refl
      reads-state s data_area b g = rw g.off refl

      writes-failed :
          (s : Disk D) (k : AreaKind) (b : ℕ) (bytes : List ℕ)
          → IsUncached s
          → write_without_cache driver (place k) s.device b bytes ≡ none
          → (block_ops driver).write s k b bytes ≡ (false, s)
      unfolding write_block
      writes-failed s link_table b bytes g e = rw (g.off, g.link_at, e) refl
      writes-failed s data_area b bytes g e = rw (g.off, g.data_at, e) refl

      writes-done :
          (s : Disk D) (k : AreaKind) (b : ℕ) (bytes : List ℕ) (d : D)
          → IsUncached s
          → write_without_cache driver (place k) s.device b bytes ≡ some d
          → (block_ops driver).write s k b bytes ≡ (true, record s { device = d })
      unfolding write_block
      writes-done s link_table b bytes d g e = rw (g.off, g.link_at, e) refl
      writes-done s data_area b bytes d g e = rw (g.off, g.data_at, e) refl

      -- The block that is written, the other blocks of its area, and those of the other area.
      written_here :
          (k : AreaKind) (b : ℕ) (bytes : List ℕ) (d d' : D)
          → write_without_cache driver (place k) d b bytes ≡ some d'
          → read_without_cache driver (place k) d' b ≡ some bytes
      unfolding write_without_cache read_without_cache
      written_here k b bytes d d' e = keeps.written d d' _ _ bytes e

      kept_there :
          (k l : AreaKind) (b c : ℕ) (bytes : List ℕ) (d d' : D)
          → (l ≢ k) ⊎ (c ≢ b)
          → Inside k b
          → Inside l c
          → write_without_cache driver (place k) d b bytes ≡ some d'
          → read_without_cache driver (place l) d' c ≡ read_without_cache driver (place l) d c
      unfolding write_without_cache read_without_cache
      kept_there link_table link_table b c bytes d d' (inl ne) h i e = absurd (ne refl)
      kept_there link_table link_table b c bytes d d' (inr ne) h i e =
          keeps.others d d' _ 1 _ 1 bytes (ground (arith, ne)) e
      kept_there link_table data_area b c bytes d d' ne h i e =
          keeps.others d d' _ 1 _ 8 bytes (inl (omega arith)) e
      kept_there data_area link_table b c bytes d d' ne h i e =
          keeps.others d d' _ 8 _ 1 bytes (inr (omega arith)) e
      kept_there data_area data_area b c bytes d d' (inl ne) h i e = absurd (ne refl)
      kept_there data_area data_area b c bytes d d' (inr ne) h i e =
          keeps.others d d' _ 8 _ 8 bytes (ground (arith, ne)) e

      block_ops-IsReadOf :
          (s : Disk D) (k : AreaKind) (b : ℕ)
          → IsUncached s
          → IsReadOf disk_view s k b ((block_ops driver).read s k b)
      block_ops-IsReadOf s k b g =
          let state : s ≡ ((block_ops driver).read s k b).1 = sym (reads-state s k b g) in
          record {
            good = subst IsUncached state g;
            result = inr (reads-device s k b g);
            same = λ l c i.
                ap (λ (z : Disk D). read_without_cache driver (place l) z.device c) (sym state);
          }

      block_ops-IsWriteOf :
          (s : Disk D) (k : AreaKind) (b : ℕ) (bytes : List ℕ)
          → IsUncached s
          → Inside k b
          → IsWriteOf disk_view s k b bytes ((block_ops driver).write s k b bytes)
      block_ops-IsWriteOf s k b bytes g h =
          elim (Option-cases (write_without_cache driver (place k) s.device b bytes)) [
            | inl e ↦
                subst (IsWriteOf disk_view s k b bytes) (sym (writes-failed s k b bytes g e))
                  (record {
                    good = g;
                    result = inr (refl, refl);
                    same_others = λ c i ne. refl;
                    same_area = λ l c ne i. refl;
                  })
            | inr (d, e) ↦
                subst (IsWriteOf disk_view s k b bytes) (sym (writes-done s k b bytes d g e))
                  (record {
                    good = record { off = g.off; link_at = g.link_at; data_at = g.data_at };
                    result = inl (refl, written_here k b bytes s.device d e);
                    same_others = λ c i ne. kept_there k k b c bytes s.device d (inr ne) h i e;
                    same_area = λ l c ne i. kept_there k l b c bytes s.device d (inl ne) h i e;
                  })
          ]

      -- On a driver that keeps runs of sectors, with the data area behind the link table, the blocks
      -- that kReadClusterLinkTable, kReadCluster and their writes work with have the laws of blocks,
      -- as long as the cache is off.
      pub block_ops-BlockLaws : BlockLaws disk_view (block_ops driver)
      block_ops-BlockLaws = record {
        reads = λ s k b g h. block_ops-IsReadOf s k b g;
        writes = block_ops-IsWriteOf;
      }
