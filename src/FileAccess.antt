-- ===== src/FileAccess.antt =====
-- 02.Kernel64/FileSystem.c: reading and writing files; Position is kSeekFile, Names has kOpenFile
-- and kRemoveFile. A function that has a FILE works on a copy of its handle, which is put back into
-- the pool when it is done. gs_vbTempBuffer is a local: each use of it is behind a read that fills
-- it, or a copy that covers it.
mod Tests
pub mod Position
pub mod Names
pub mod Frame
pub mod Extent
pub mod Round
pub mod Read
pub mod WriteSteps
pub mod WriteLoop
pub mod Write
pub mod Seek
pub mod Remove
use mintos.Base.{
  sub32, ℕ, zero, suc, ◌+◌, ◌-◌, ◌*◌, ◌/◌, ◌%◌, ◌^◌, Bool, true, false, not, ◌&&◌, ◌||◌, Option,
  none, some, List, [], ◌∷◌, ◌++◌, ◌==◌, ltb, leb, slt32, if◌then◌else◌, length, get_or, set, take,
  drop, replicate, copy_at,
}
use mintos.DynamicMemory.{allocate_memory, free_memory}
use mintos.Volume.{
  data_area, BlockOps, DirectoryEntry, FileHandle, File, Manager, Run, returns, divide_error,
  out_of_fuel, last_cluster, free_cluster, cluster_size, minus_one, min_of, lock, unlock,
}
use mintos.ClusterLink.{
  find_free_cluster, set_cluster_link_data, get_cluster_link_data, free_cluster_until_end,
}
use mintos.Directory.{
  set_directory_entry_data, get_directory_entry_data, find_directory_entry, create_file,
}
use mintos.Handle.{file_of, put_file, allocate_file_directory_handle, is_file_opened}

-- The variables of the loops of kReadFile and kWriteFile: the count of bytes so far, and of a read
-- the bytes that stand in the caller's buffer.
pub record Transfer (S : Type 0) : Type 0 where
  pub manager : Manager S
  pub handle : FileHandle
  pub count : ℕ
  pub bytes : List ℕ

-- dwCopySize
abbrev pub copy_size : (offset left : ℕ) → ℕ
copy_size offset left = min_of (cluster_size - offset % cluster_size) left

-- A buffer of zeros, by kMemSet.
abbrev pub zero_cluster : List ℕ
zero_cluster = replicate cluster_size 0

module _ {S : Type 0} (ops : BlockOps S) where
  -- `count` and the offset move on by `n`.
  abbrev pub moved_on : Transfer S → ℕ → Transfer S
  moved_on t n = record t {
    count = (t.count + n) % 2 ^ 32;
    handle = record t.handle { current_offset = (t.handle.current_offset + n) % 2 ^ 32 };
  }

  -- The end of a round of either loop: at the end of a cluster the next one becomes current. FALSE
  -- is the `break`.
  unfoldable pub advance : Transfer S → Bool × Transfer S
  advance t =
      let h = t.handle in
      let g = get_cluster_link_data ops t.manager h.current_cluster_index in
      if h.current_offset % cluster_size == 0
      then elim g.0 [
        | none ↦ (false, record t { manager = g.1 })
        | some next ↦ (
          true,
          record t {
            manager = g.1;
            handle = record h {
              previous_cluster_index = h.current_cluster_index;
              current_cluster_index = next;
            };
          },
        )
      ]
      else (true, t)

  -- A round of the loop of kReadFile.
  unfoldable pub read_round : (total : ℕ) → Transfer S → Bool × Transfer S
  read_round total t =
      let r = ops.read t.manager.blocks data_area t.handle.current_cluster_index in
      let t1 = record t { manager = record t.manager { blocks = r.1 } } in
      let offset = t.handle.current_offset in
      let n = copy_size offset (sub32 total t.count) in
      elim r.0 [
        | none ↦ (false, t1)
        | some bytes ↦
            let out = t.bytes ++ take n (drop (offset % cluster_size) bytes) in
            advance (moved_on (record t1 { bytes = out }) n)
      ]

  -- The loop of kReadFile.
  unfoldable pub read_loop : (fuel total : ℕ) → Transfer S → Option (Transfer S)
  read_loop zero total t = none
  read_loop (suc fuel) total t =
      let r = read_round total t in
      let rest = read_loop fuel total r.1 in
      if t.count == total then some t else if r.0 then rest else some r.1

  -- The handle goes back into the pool, and the mutex is given back.
  abbrev pub finish : Manager S → ℕ → FileHandle → Manager S
  finish m i h = unlock (put_file m i (File.file h))

  -- kReadFile at the handle `i`: what it returns, and the bytes at the start of the caller's buffer.
  unfoldable pub read_at :
      (fuel : ℕ) → Manager S → ℕ → FileHandle → (size count : ℕ) → Run (ℕ × List ℕ × Manager S)
  read_at fuel m i h size count =
      let total = min_of (size * count % 2 ^ 32) (sub32 h.file_size h.current_offset) in
      let start : Transfer S = record { manager = lock m; handle = h; count = 0; bytes = [] } in
      if (h.current_offset == h.file_size) || (h.current_cluster_index == last_cluster)
      then returns (0, [], m)
      else elim (read_loop fuel total start) [
        | none ↦ out_of_fuel
        | some t ↦
            if size == 0
            then divide_error
            else returns (t.count / size, t.bytes, finish t.manager i t.handle)
      ]

  read_file_of : (fuel : ℕ) → Manager S → ℕ → File → (size count : ℕ) → Run (ℕ × List ℕ × Manager S)
  read_file_of fuel m i (File.file h) size count = read_at fuel m i h size count
  read_file_of fuel m i f size count = returns (0, [], m)

  -- kReadFile
  unfoldable pub read_file :
      (fuel : ℕ) → Manager S → Option ℕ → (size count : ℕ) → Run (ℕ × List ℕ × Manager S)
  unfolding read_file_of
  read_file fuel m none size count = returns (0, [], m)
  read_file fuel m (some i) size count =
      read_file_of fuel m i (get_or m.handle_pool i File.free) size count

  -- kUpdateDirectoryEntry
  unfoldable pub update_directory_entry : Manager S → FileHandle → Bool × Manager S
  update_directory_entry m h =
      let g = get_directory_entry_data ops m h.directory_entry_offset in
      elim g.0 [
        | none ↦ (false, g.1)
        | some e ↦
            set_directory_entry_data ops g.1 h.directory_entry_offset
              (record e { file_size = h.file_size; start_cluster_index = h.start_cluster_index })
      ]

  -- The part of the loop of kWriteFile that appends a cluster to the chain.
  unfoldable pub append_cluster : Transfer S → Bool × Transfer S
  append_cluster t =
      let f = find_free_cluster ops t.manager in
      let a = set_cluster_link_data ops f.1 f.0 last_cluster in
      let b = set_cluster_link_data ops a.1 t.handle.previous_cluster_index f.0 in
      let undo = set_cluster_link_data ops b.1 f.0 free_cluster in
      if f.0 == last_cluster
      then (false, record t { manager = f.1 })
      else if not a.0
      then (false, record t { manager = a.1 })
      else if not b.0
      then (false, record t { manager = undo.1 })
      else (
        true,
        record t { manager = b.1; handle = record t.handle { current_cluster_index = f.0 } },
      )

  -- What a round of kWriteFile copies into: a new cluster, the cluster as it is, or, where the copy
  -- covers all of it, whatever stands in the buffer.
  unfoldable pub target_block : (total : ℕ) → Transfer S → Option (List ℕ) × Transfer S
  target_block total t =
      let h = t.handle in
      let e = append_cluster t in
      let r = ops.read t.manager.blocks data_area h.current_cluster_index in
      if h.current_cluster_index == last_cluster
      then (if e.0 then some zero_cluster else none, e.1)
      else if not (h.current_offset % cluster_size == 0) || ltb (sub32 total t.count) cluster_size
      then (r.0, record t { manager = record t.manager { blocks = r.1 } })
      else (some zero_cluster, t)

  -- A round of the loop of kWriteFile.
  unfoldable pub write_round : (total : ℕ) → (source : List ℕ) → Transfer S → Bool × Transfer S
  write_round total source t =
      let b = target_block total t in
      let offset = b.1.handle.current_offset in
      let n = copy_size offset (sub32 total b.1.count) in
      elim b.0 [
        | none ↦ (false, b.1)
        | some bytes ↦
            let new = copy_at bytes (offset % cluster_size) (take n (drop b.1.count source)) in
            let w = ops.write b.1.manager.blocks data_area b.1.handle.current_cluster_index new in
            let t1 = record b.1 { manager = record b.1.manager { blocks = w.1 } } in
            let next = advance (moved_on t1 n) in if w.0 then next else (false, t1)
      ]

  -- The loop of kWriteFile.
  unfoldable pub write_loop :
      (fuel total : ℕ) → (source : List ℕ) → Transfer S → Option (Transfer S)
  write_loop zero total source t = none
  write_loop (suc fuel) total source t =
      let r = write_round total source t in
      let rest = write_loop fuel total source r.1 in
      if t.count == total then some t else if r.0 then rest else some r.1

  -- The end of kWriteFile: a file that has grown has its entry updated.
  unfoldable pub update_size : Transfer S → Manager S × FileHandle
  update_size t =
      let h = record t.handle { file_size = t.handle.current_offset } in
      if ltb t.handle.file_size t.handle.current_offset
      then ((update_directory_entry t.manager h).1, h)
      else (t.manager, t.handle)

  -- kWriteFile at the handle `i`.
  unfoldable pub write_at :
      (fuel : ℕ)
      → Manager S
      → ℕ
      → FileHandle
      → (source : List ℕ) → (size count : ℕ) → Run (ℕ × Manager S)
  write_at fuel m i h source size count =
      let start : Transfer S = record { manager = lock m; handle = h; count = 0; bytes = [] } in
      elim (write_loop fuel (size * count % 2 ^ 32) source start) [
        | none ↦ out_of_fuel
        | some t ↦
            let u = update_size t in
            if size == 0 then divide_error else returns (t.count / size, finish u.0 i u.1)
      ]

  write_file_of :
      (fuel : ℕ) → Manager S → ℕ → File → (source : List ℕ) → (size count : ℕ) → Run (ℕ × Manager S)
  write_file_of fuel m i (File.file h) source size count = write_at fuel m i h source size count
  write_file_of fuel m i f source size count = returns (0, m)

  -- kWriteFile
  unfoldable pub write_file :
      (fuel : ℕ) → Manager S → Option ℕ → (source : List ℕ) → (size count : ℕ) → Run (ℕ × Manager S)
  unfolding write_file_of
  write_file fuel m none source size count = returns (0, m)
  write_file fuel m (some i) source size count =
      write_file_of fuel m i (get_or m.handle_pool i File.free) source size count
