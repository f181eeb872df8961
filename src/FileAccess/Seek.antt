-- ===== src/FileAccess/Seek.antt =====
-- A seek behind the end of a file that stays in its last cluster.
use mintos.Base.{
  sub32, ℕ, ◌+◌, ◌*◌, ◌/◌, ◌%◌, ◌^◌, ◌<◌, ◌≤◌, ◌≡◌, ◌≢◌, refl, ap, sym, ◌∙◌, some, List, [], ◌∷◌,
  append-nil, arith, ◌==◌, if◌then◌else◌, length, take, drop, get_or, get_or-set_self, length-set,
}
use mintos.Volume.{
  BlockOps, FileHandle, File, Manager, Run, returns, last_cluster, cluster_size, min_of, lock,
  unlock,
}
use mintos.Volume.View.{BlockView, BlockLaws}
use mintos.Handle.{put_file}
use mintos.ClusterLink.Links.{IsMounted}
use mintos.FileAccess.{read_file}
use mintos.FileAccess.Position.{
  real_offset, move_plan, follow_links, place, seek_along, seek_at, seek_file,
}
use mintos.FileAccess.Extent.{Extent, NeverFails}
use mintos.FileAccess.Read.{HasRead, read_file-HasRead_from}

-- A read of single bytes that has moved on by `n` of them.
HasRead-all :
    {S : Type 0} {ops : BlockOps S} (view : BlockView S) (m : Manager S) (h : FileHandle)
    (content bytes : List ℕ) (total n : ℕ) {i : ℕ} (r : ℕ × List ℕ × Manager S)
    (q : HasRead ops view m i h content total 1 r) (run : Run (ℕ × List ℕ × Manager S))
    → run ≡ returns r
    → q.moved ≡ n
    → content ≡ bytes
    → run ≡ returns (n, take n bytes, r.2)
HasRead-all view m h content bytes total n r q run e all same =
    e
    ∙ ap (λ z. returns (z, r.1, r.2)) (q.returned ∙ omega (arith, all))
    ∙ ap (λ z. returns (n, z, r.2)) (q.bytes ∙ rw (all, same) refl)

module _ {S : Type 0} (ops : BlockOps S) (m : Manager S) (i : ℕ) (h : FileHandle)
    (here : get_or m.handle_pool i File.free ≡ File.file h) (r : ℕ) (positive : 0 < r)
    (int : r < 2 ^ 31) (behind : h.file_size < r)
    (at_end : h.current_offset / cluster_size ≡ h.file_size / cluster_size)
    (same_cluster : r / cluster_size ≡ h.file_size / cluster_size) where
  -- The handle after the seek.
  abbrev pub moved : FileHandle
  moved =
      if h.current_cluster_index == h.start_cluster_index
      then record h {
        previous_cluster_index = h.start_cluster_index;
        current_cluster_index = h.start_cluster_index;
        current_offset = r;
      }
      else record h { current_offset = r }

  real : real_offset h r 0 ≡ r
  unfolding real_offset
  real = ground arith

  -- No link is followed.
  plan :
      move_plan h (h.file_size / cluster_size) (r / cluster_size) (h.current_offset / cluster_size)
      ≡ (0, h.current_cluster_index)
  unfolding move_plan
  plan = rw (same_cluster, at_end) (ground arith)

  seek_along-moves :
      (fuel : ℕ)
      → seek_along ops fuel m i h r (0, h.current_cluster_index)
        ≡ returns (0, unlock (put_file (lock m) i (File.file moved)))
  unfolding seek_along follow_links place
  seek_along-moves fuel = ground (arith, same_cluster)

  seek_at-moves :
      (fuel : ℕ)
      → seek_at ops fuel m i h r 0 ≡ returns (0, unlock (put_file (lock m) i (File.file moved)))
  unfolding seek_at
  seek_at-moves fuel = rw real (rw plan (seek_along-moves fuel))

  seek_file-moves :
      (fuel : ℕ)
      → seek_file ops fuel m (some i) r 0
        ≡ returns (0, unlock (put_file (lock m) i (File.file moved)))
  unfolding seek_file
  seek_file-moves fuel = rw here (seek_at-moves fuel)

  module _ (view : BlockView S) (laws : BlockLaws view ops) (v : IsMounted ops view m)
      (there : i < length m.handle_pool) (bytes : List ℕ) (n : ℕ) where
    abbrev sought : Manager S
    sought = unlock (put_file (lock m) i (File.file moved))

    -- Where the bytes of the last cluster are read.
    moved-cluster : moved.current_cluster_index ≡ h.current_cluster_index
    moved-cluster = ground arith

    moved-offset : moved.current_offset ≡ r
    moved-offset = ground arith

    moved-size : moved.file_size ≡ h.file_size
    moved-size = ground arith

    -- kSeekFile to an offset behind the end of the file, but in the cluster of the end where the
    -- file stands, returns 0 and writes no zeros; a kReadFile after it reads on in the cluster, and
    -- where no device read fails it returns as many bytes from behind the end as it is asked for.
    pub seek_file-reads_behind_end :
        (fuel : ℕ)
        → n < fuel
        → h.current_cluster_index ≢ last_cluster
        → Extent ops view m.blocks m.cluster_link_area_size h.current_cluster_index (bytes ∷ [])
        → r % cluster_size + n ≤ cluster_size
        → NeverFails ops view
        → m.locks + 1 < 2 ^ 32
        → (m1 m2 : Manager S) × (seek_file ops fuel m (some i) r 0 ≡ returns (0, m1))
          × (read_file ops fuel m1 (some i) 1 n
              ≡ returns (n, take n (drop (r % cluster_size) bytes), m2))
    seek_file-reads_behind_end fuel f nl x fits never few =
        let asked : min_of (1 * n % 2 ^ 32) (sub32 moved.file_size moved.current_offset) ≡ n =
          rw (moved-size, moved-offset) (ground arith) in
        let q =
          read_file-HasRead_from ops view laws sought
            (record { mounted = v.mounted; good = v.good; whole = v.whole }) i moved
            (get_or-set_self m.handle_pool i (File.file moved) File.free there)
            (omega (arith, length-set m.handle_pool i (File.file moved), there)) 1 n (bytes ∷ [])
            fuel (omega arith) (λ e. omega (arith, moved-offset, moved-size, e, behind))
            (omega (arith, moved-offset, asked, fits, int)) (λ e. nl (sym moved-cluster ∙ e))
            (omega (arith, asked, f)) (rw moved-cluster x)
            (omega (arith, moved-offset, asked, fits, x.4, ap length (append-nil bytes)))
            (omega (arith, few)) in
        (
          sought,
          q.0.2,
          seek_file-moves fuel,
          HasRead-all view sought moved _ (drop (r % cluster_size) bytes) _ n q.0 q.2 _ q.1
              (q.2.all never ∙ asked) (rw (moved-offset, append-nil bytes) refl),
        )
