-- ===== src/FileAccess/Position.antt =====
-- 02.Kernel64/FileSystem.c: kSeekFile and kWriteZero.
use mintos.Base.{
  sub32, ℕ, zero, suc, ◌+◌, ◌-◌, ◌/◌, ◌%◌, ◌^◌, Bool, true, false, ◌&&◌, Option, none, some, ◌==◌,
  ltb, leb, slt32, if◌then◌else◌, get_or,
}
use mintos.DynamicMemory.{allocate_memory, free_memory}
use mintos.Volume.{
  BlockOps, FileHandle, File, Manager, Run, returns, divide_error, out_of_fuel, cluster_size,
  minus_one, min_of, lock, unlock,
}
use mintos.ClusterLink.{get_cluster_link_data}
use mintos.Handle.{put_file}
use mintos.FileAccess.{zero_cluster, write_file}

-- FILESYSTEM_SEEK_CUR and FILESYSTEM_SEEK_END
abbrev pub seek_cur : ℕ
seek_cur = 1

abbrev pub seek_end : ℕ
seek_end = 2

-- dwRealOffset of SEEK_CUR and SEEK_END, from the base that the origin names. The offset is an
-- `int`.
abbrev pub moved_from : (base offset : ℕ) → ℕ
moved_from base offset =
    if slt32 offset 0 && leb base ((2 ^ 32 - offset) % 2 ^ 32) then 0 else (base + offset) % 2 ^ 32

-- dwRealOffset
unfoldable pub real_offset : FileHandle → (offset origin : ℕ) → ℕ
real_offset h offset origin =
    if origin == 0
    then (if slt32 0 offset then offset else 0)
    else if origin == seek_cur
    then moved_from h.current_offset offset
    else if origin == seek_end
    then moved_from h.file_size offset
    else 0

-- dwMoveCount and dwStartClusterIndex, for the clusters of the end, of the target and of the offset.
unfoldable pub move_plan : FileHandle → (last target current : ℕ) → ℕ × ℕ
move_plan h last target current =
    if ltb last target
    then (sub32 last current, h.current_cluster_index)
    else if leb current target
    then (sub32 target current, h.current_cluster_index)
    else (target, h.start_cluster_index)

module _ {S : Type 0} (ops : BlockOps S) where
  -- The loop of kSeekFile: dwPreviousClusterIndex and dwCurrentClusterIndex after the moves.
  unfoldable pub follow_links :
      (moves : ℕ) → Manager S → (previous current : ℕ) → Option (ℕ × ℕ) × Manager S
  follow_links zero m previous current = (some (previous, current), m)
  follow_links (suc moves) m previous current =
      let g = get_cluster_link_data ops m current in
      let rest = λ (next : ℕ). follow_links moves g.1 current next in
      elim g.0 [ none ↦ (none, g.1) | some next ↦ rest next ]

  -- The loop of kWriteZero: TRUE when all is written.
  unfoldable pub write_zero_loop :
      (rounds fuel : ℕ) → Manager S → ℕ → (remain : ℕ) → Run (Bool × Manager S)
  write_zero_loop zero fuel m i remain = out_of_fuel
  write_zero_loop (suc rounds) fuel m i remain =
      let n = min_of remain cluster_size in
      let w = write_file ops fuel m (some i) zero_cluster 1 n in
      let rest = λ (m' : Manager S). write_zero_loop rounds fuel m' i (remain - n) in
      if remain == 0 then returns (true, m) else elim w [
        | out_of_fuel ↦ out_of_fuel
        | divide_error ↦ divide_error
        | returns (written, m') ↦
            let on = rest m' in if written == n then on else returns (false, m')
      ]

  -- kWriteZero, which writes from a buffer of its own.
  unfoldable pub write_zero : (fuel : ℕ) → Manager S → ℕ → (count : ℕ) → Run (Bool × Manager S)
  write_zero fuel m i count =
      let a = allocate_memory m.memory cluster_size in
      let loop = write_zero_loop fuel fuel (record m { memory = a.1 }) i count in
      elim a.0 [
        | none ↦ returns (false, m)
        | some address ↦ elim loop [
          | out_of_fuel ↦ out_of_fuel
          | divide_error ↦ divide_error
          | returns (done, m') ↦
              returns (done, record m' { memory = (free_memory m'.memory address).1 })
        ]
      ]

  -- The clusters of the handle after `moves` moves from the cluster `start`.
  unfoldable pub place : FileHandle → (moves start : ℕ) → ℕ × ℕ → FileHandle
  place h moves start (previous, current) =
      if ltb 0 moves
      then record h { previous_cluster_index = previous; current_cluster_index = current }
      else if start == h.start_cluster_index
      then record h {
        previous_cluster_index = h.start_cluster_index;
        current_cluster_index = h.start_cluster_index;
      }
      else h

  -- `dwCurrentOffset = dwRealOffset` at the handle `i`.
  abbrev set_offset : Manager S → ℕ → File → ℕ → Manager S
  set_offset m i (File.file h) real = put_file m i (File.file (record h { current_offset = real }))
  set_offset m i f real = m

  -- A seek behind the cluster of the end: the gap is written with zeros, without the mutex. The last
  -- kUnlock finds the mutex given back already.
  unfoldable pub seek_behind_end :
      (fuel : ℕ) → Manager S → ℕ → FileHandle → (real : ℕ) → Run (ℕ × Manager S)
  seek_behind_end fuel m i h real =
      let at_end = unlock (put_file m i (File.file (record h { current_offset = h.file_size }))) in
      elim (write_zero fuel at_end i (sub32 real h.file_size)) [
        | out_of_fuel ↦ out_of_fuel
        | divide_error ↦ divide_error
        | returns (done, m') ↦
            if done
            then returns (0, unlock (set_offset m' i (get_or m'.handle_pool i File.free) real))
            else returns (0, m')
      ]

  -- kSeekFile at the handle `i`, to the offset `real` by `moves` links from the cluster `start`.
  unfoldable pub seek_along :
      (fuel : ℕ) → Manager S → ℕ → FileHandle → (real : ℕ) → (plan : ℕ × ℕ) → Run (ℕ × Manager S)
  seek_along fuel m i h real (moves, start) =
      let f = follow_links moves (lock m) start start in
      elim f.0 [
        | none ↦ returns (minus_one, unlock f.1)
        | some place_of ↦
            let h' = place h moves start place_of in
            let behind = seek_behind_end fuel f.1 i h' real in
            if ltb (h.file_size / cluster_size) (real / cluster_size)
            then behind
            else returns
                (0, unlock (put_file f.1 i (File.file (record h' { current_offset = real }))))
      ]

  -- kSeekFile at the handle `i`.
  unfoldable pub seek_at :
      (fuel : ℕ) → Manager S → ℕ → FileHandle → (offset origin : ℕ) → Run (ℕ × Manager S)
  seek_at fuel m i h offset origin =
      let real = real_offset h offset origin in
      seek_along fuel m i h real (
        move_plan h (h.file_size / cluster_size) (real / cluster_size)
          (h.current_offset / cluster_size))

  seek_file_of : (fuel : ℕ) → Manager S → ℕ → File → (offset origin : ℕ) → Run (ℕ × Manager S)
  seek_file_of fuel m i (File.file h) offset origin = seek_at fuel m i h offset origin
  seek_file_of fuel m i f offset origin = returns (0, m)

  -- kSeekFile
  unfoldable pub seek_file :
      (fuel : ℕ) → Manager S → Option ℕ → (offset origin : ℕ) → Run (ℕ × Manager S)
  unfolding seek_file_of
  seek_file fuel m none offset origin = returns (0, m)
  seek_file fuel m (some i) offset origin =
      seek_file_of fuel m i (get_or m.handle_pool i File.free) offset origin
