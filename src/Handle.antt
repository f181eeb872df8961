-- ===== src/Handle.antt =====
-- 02.Kernel64/FileSystem.c: the pool of handles, and directories. A FILE pointer is the index of the
-- handle in the pool; NULL is `none`.
mod Tests
pub mod Pool
pub mod Listing
use mintos.Base.{
  ℕ, zero, suc, ◌+◌, ◌-◌, Bool, true, false, ◌||◌, ◌&&◌, Option, none, some, List, [], ◌∷◌, ◌==◌,
  leb, slt32, if◌then◌else◌, get_or, set,
}
use mintos.DynamicMemory.{allocate_memory, free_memory}
use mintos.Volume.{
  data_area, BlockOps, DirectoryEntry, DirectoryHandle, zero_handle, File, Manager, cluster_size,
  max_directory_entry_count, minus_one, lock, unlock,
}
use mintos.Directory.{entry_at}

-- The loop of kAllocateFileDirectoryHandle: the first FILE of type FREE.
unfoldable pub first_free : List File → Option ℕ
first_free [] = none
first_free (File.free ∷ fs) = some 0
first_free (f ∷ fs) = elim (first_free fs) [ none ↦ none | some i ↦ some (i + 1) ]

-- The loop of kIsFileOpened: some FILE is an open file with the start cluster.
unfoldable pub any_opened : List File → (start_cluster : ℕ) → Bool
any_opened [] c = false
any_opened (File.file h ∷ fs) c = (h.start_cluster_index == c) || any_opened fs c
any_opened (f ∷ fs) c = any_opened fs c

-- `*pstFile`; NULL has none.
abbrev pub file_of : List File → Option ℕ → File
file_of pool none = File.free
file_of pool (some i) = get_or pool i File.free

-- The loop of kReadDirectory: the first entry from `i` on that is in use, with `left` to go.
unfoldable pub next_entry : (left i : ℕ) → List ℕ → Option ℕ
next_entry zero i bytes = none
next_entry (suc left) i bytes =
    let rest = next_entry left (i + 1) bytes in
    if (entry_at bytes i).start_cluster_index == 0 then rest else some i

module _ {S : Type 0} where
  abbrev pub put_file : Manager S → ℕ → File → Manager S
  put_file m i f = record m { handle_pool = set m.handle_pool i f }

  -- kAllocateFileDirectoryHandle: a FREE handle is all zero, and becomes a file.
  unfoldable pub allocate_file_directory_handle : Manager S → Option ℕ × Manager S
  allocate_file_directory_handle m = elim (first_free m.handle_pool) [
    | none ↦ (none, m)
    | some i ↦ (some i, put_file m i (File.file zero_handle))
  ]

  -- kFreeFileDirectoryHandle
  unfoldable pub free_file_directory_handle : Manager S → ℕ → Manager S
  free_file_directory_handle m i = put_file m i File.free

  -- kIsFileOpened
  unfoldable pub is_file_opened : Manager S → DirectoryEntry → Bool
  is_file_opened m e = any_opened m.handle_pool e.start_cluster_index

  -- kCloseFile at the handle `i`
  close_at : File → Manager S → ℕ → ℕ × Manager S
  close_at (File.file h) m i = (0, free_file_directory_handle m i)
  close_at f m i = (minus_one, m)

  -- kCloseFile
  unfoldable pub close_file : Manager S → Option ℕ → ℕ × Manager S
  unfolding close_at
  close_file m none = (minus_one, m)
  close_file m (some i) = close_at (get_or m.handle_pool i File.free) m i

  -- kReadDirectory at a directory: the entry, and the offset behind it.
  unfoldable pub read_directory_at :
      Manager S → ℕ → DirectoryHandle → Option DirectoryEntry × Manager S
  read_directory_at m i d =
      let left = max_directory_entry_count - d.current_offset in
      let e = next_entry left d.current_offset d.directory_buffer in
      let at = λ (n : ℕ).
        unlock (put_file (lock m) i (File.directory (record d { current_offset = n }))) in
      if slt32 d.current_offset 0 || leb max_directory_entry_count d.current_offset
      then (none, m)
      else elim e [
        | none ↦ (none, at max_directory_entry_count)
        | some n ↦ (some (entry_at d.directory_buffer n), at (n + 1))
      ]

  read_directory_of : File → Manager S → ℕ → Option DirectoryEntry × Manager S
  read_directory_of (File.directory d) m i = read_directory_at m i d
  read_directory_of f m i = (none, m)

  -- kReadDirectory
  unfoldable pub read_directory : Manager S → Option ℕ → Option DirectoryEntry × Manager S
  unfolding read_directory_of
  read_directory m none = (none, m)
  read_directory m (some i) = read_directory_of (get_or m.handle_pool i File.free) m i

  rewind_at : File → Manager S → ℕ → Manager S
  rewind_at (File.directory d) m i =
      unlock (put_file (lock m) i (File.directory (record d { current_offset = 0 })))
  rewind_at f m i = m

  -- kRewindDirectory
  unfoldable pub rewind_directory : Manager S → Option ℕ → Manager S
  unfolding rewind_at
  rewind_directory m none = m
  rewind_directory m (some i) = rewind_at (get_or m.handle_pool i File.free) m i

  close_directory_at : File → Manager S → ℕ → ℕ × Manager S
  close_directory_at (File.directory d) m i =
      let l = lock m in
      let freed = record l { memory = (free_memory l.memory d.address).1 } in
      (0, unlock (free_file_directory_handle freed i))
  close_directory_at f m i = (minus_one, m)

  -- kCloseDirectory
  unfoldable pub close_directory : Manager S → Option ℕ → ℕ × Manager S
  unfolding close_directory_at
  close_directory m none = (minus_one, m)
  close_directory m (some i) = close_directory_at (get_or m.handle_pool i File.free) m i

  module _ (ops : BlockOps S) where
    -- kOpenDirectory with the handle `i` and the buffer at `address`.
    unfoldable pub open_directory_at : Manager S → ℕ → (address : ℕ) → Option ℕ × Manager S
    open_directory_at m i address =
        let r = ops.read m.blocks data_area 0 in
        let read = record m { blocks = r.1 } in
        let freed = free_file_directory_handle read i in
        elim r.0 [
          | none ↦ (none, unlock (record freed { memory = (free_memory freed.memory address).1 }))
          | some bytes ↦ (
            some i,
            unlock (
                put_file read i (
                  File.directory
                    (record { address = address; directory_buffer = bytes; current_offset = 0 }))),
          )
        ]

    -- kOpenDirectory, which does not look at the name.
    unfoldable pub open_directory : Manager S → Option ℕ × Manager S
    open_directory m =
        let a = allocate_file_directory_handle (lock m) in
        let b = allocate_memory a.1.memory cluster_size in
        let m2 = record a.1 { memory = b.1 } in
        elim a.0 [
          | none ↦ (none, unlock a.1)
          | some i ↦ elim b.0 [
            | none ↦ (none, unlock (free_file_directory_handle m2 i))
            | some address ↦ open_directory_at m2 i address
          ]
        ]
