-- ===== src/FileAccess/Names.antt =====
-- 02.Kernel64/FileSystem.c: kOpenFile and kRemoveFile, which take the name of a file.
use mintos.Base.{
  ℕ, Bool, false, not, ◌||◌, Option, none, some, List, ◌==◌, ltb, if◌then◌else◌, length, get_or,
  replicate,
}
use mintos.Volume.{
  BlockOps, DirectoryEntry, FileHandle, File, Manager, Run, returns, divide_error, out_of_fuel,
  last_cluster, minus_one, lock, unlock,
}
use mintos.ClusterLink.{set_cluster_link_data, get_cluster_link_data, free_cluster_until_end}
use mintos.Directory.{set_directory_entry_data, find_directory_entry, create_file}
use mintos.Handle.{put_file, allocate_file_directory_handle, is_file_opened}
use mintos.FileAccess.Position.{seek_end, seek_file}

-- `iFileNameLength == 0 || iFileNameLength > sizeof(stEntry.vcFileName) - 1`
abbrev pub is_bad_name : List ℕ → Bool
is_bad_name name = (length name == 0) || ltb 23 (length name)

-- The handle of a file that has just been opened.
abbrev pub opened_handle : ℕ → DirectoryEntry → FileHandle
opened_handle index e = record {
  directory_entry_offset = index;
  file_size = e.file_size;
  start_cluster_index = e.start_cluster_index;
  current_cluster_index = e.start_cluster_index;
  previous_cluster_index = e.start_cluster_index;
  current_offset = 0;
}

abbrev pub zero_entry : DirectoryEntry
zero_entry = record { file_name = replicate 24 0; file_size = 0; start_cluster_index = 0 }

module _ {S : Type 0} (ops : BlockOps S) where
  -- kOpenFile with "w" at a file that is there: its chain is cut behind the first cluster, and its
  -- entry has the size 0. FALSE is the return of NULL.
  unfoldable pub truncate_file :
      (fuel : ℕ) → Manager S → (index : ℕ) → DirectoryEntry → Run (Bool × Manager S)
  truncate_file fuel m index e =
      let g = get_cluster_link_data ops m e.start_cluster_index in
      let s = set_cluster_link_data ops g.1 e.start_cluster_index last_cluster in
      let f = λ (second : ℕ). free_cluster_until_end ops fuel s.1 second in
      elim g.0 [
        | none ↦ returns (false, g.1)
        | some second ↦ if not s.0 then returns (false, s.1) else elim (f second) [
          | none ↦ out_of_fuel
          | some (freed, m') ↦
              if freed
              then returns (set_directory_entry_data ops m' index (record e { file_size = 0 }))
              else returns (false, m')
        ]
      ]

  -- The end of kOpenFile: the handle, and the seek of "a".
  unfoldable pub open_handle :
      (fuel : ℕ)
      → Manager S
      → (mode : List ℕ) → (index : ℕ) → DirectoryEntry
      → Run (Option ℕ × Manager S)
  open_handle fuel m mode index e =
      let a = allocate_file_directory_handle m in
      elim a.0 [
        | none ↦ returns (none, unlock a.1)
        | some i ↦
            let m1 = put_file a.1 i (File.file (opened_handle index e)) in
            let s = seek_file ops fuel m1 (some i) 0 seek_end in
            if get_or mode 0 0 == b'a'
            then elim s [
              | out_of_fuel ↦ out_of_fuel
              | divide_error ↦ divide_error
              | returns (r, m') ↦ returns (some i, unlock m')
            ]
            else returns (some i, unlock m1)
      ]

  -- kOpenFile where the file was found, at its entry.
  unfoldable pub open_found :
      (fuel : ℕ)
      → Manager S
      → (mode : List ℕ) → (index : ℕ) → DirectoryEntry
      → Run (Option ℕ × Manager S)
  open_found fuel m mode index e =
      let t = truncate_file fuel m index e in
      if get_or mode 0 0 == b'w'
      then elim t [
        | out_of_fuel ↦ out_of_fuel
        | divide_error ↦ divide_error
        | returns (done, m') ↦
            let opened = open_handle fuel m' mode index (record e { file_size = 0 }) in
            if done then opened else returns (none, unlock m')
      ]
      else open_handle fuel m mode index e

  -- kOpenFile where there is no such file.
  unfoldable pub open_new :
      (fuel : ℕ)
      → Manager S
      → (name mode : List ℕ) → (stale : DirectoryEntry) → Run (Option ℕ × Manager S)
  open_new fuel m name mode stale =
      let c = create_file ops m name stale in
      if get_or mode 0 0 == b'r' then returns (none, unlock m) else elim c.0 [
        | none ↦ returns (none, unlock c.1)
        | some (index, e) ↦ open_handle fuel c.1 mode index e
      ]

  -- kOpenFile. `stale` is what stands on the stack where its DIRECTORYENTRY is.
  unfoldable pub open_file :
      (fuel : ℕ)
      → Manager S
      → (name mode : List ℕ) → (stale : DirectoryEntry) → Run (Option ℕ × Manager S)
  open_file fuel m name mode stale =
      let f = find_directory_entry ops (lock m) name in
      if is_bad_name name then returns (none, m) else elim f.0 [
        | none ↦ open_new fuel f.1 name mode stale
        | some (index, e) ↦ open_found fuel f.1 mode index e
      ]

  -- kRemoveFile at the entry of the file.
  unfoldable pub remove_found :
      (fuel : ℕ) → Manager S → (index : ℕ) → DirectoryEntry → Run (ℕ × Manager S)
  remove_found fuel m index e =
      let f = free_cluster_until_end ops fuel m e.start_cluster_index in
      if is_file_opened m e then returns (minus_one, unlock m) else elim f [
        | none ↦ out_of_fuel
        | some (freed, m') ↦
            let s = set_directory_entry_data ops m' index zero_entry in
            if freed
            then returns (if s.0 then 0 else minus_one, unlock s.1)
            else returns (minus_one, unlock m')
      ]

  -- kRemoveFile
  unfoldable pub remove_file : (fuel : ℕ) → Manager S → (name : List ℕ) → Run (ℕ × Manager S)
  remove_file fuel m name =
      let f = find_directory_entry ops (lock m) name in
      if is_bad_name name then returns (minus_one, m) else elim f.0 [
        | none ↦ returns (minus_one, unlock f.1)
        | some (index, e) ↦ remove_found fuel f.1 index e
      ]
