-- ===== src/Directory.antt =====
-- 02.Kernel64/FileSystem.c: the root directory, 128 entries in cluster 0. A name is the bytes of a
-- string without its zero. Each function reads the cluster into gs_vbTempBuffer before it looks at
-- it, so the buffer is a local. An index of an entry is an `int`; -1 is `none`.
mod Tests
pub mod Find
use mintos.Base.{
  ℕ, zero, suc, ◌+◌, ◌*◌, ◌^◌, Bool, true, false, ◌||◌, Option, none, some, List, [], ◌∷◌, ◌++◌,
  ◌==◌, leb, slt32, if◌then◌else◌, length, get_or, take, drop, replicate, copy_at, dword_at,
  dword_bytes,
}
use mintos.Volume.{
  data_area, BlockOps, DirectoryEntry, Manager, last_cluster, free_cluster,
  max_directory_entry_count,
}
use mintos.Memory.{mem_cmp}
use mintos.ClusterLink.{find_free_cluster, set_cluster_link_data}

-- `((DIRECTORYENTRY *)buffer)[i]`
unfoldable pub entry_at : List ℕ → ℕ → DirectoryEntry
entry_at bytes i = record {
  file_name = take 24 (drop (32 * i) bytes);
  file_size = dword_at bytes (8 * i + 6);
  start_cluster_index = dword_at bytes (8 * i + 7);
}

-- The 32 bytes of an entry.
unfoldable pub entry_bytes : DirectoryEntry → List ℕ
entry_bytes e = e.file_name ++ dword_bytes e.file_size ++ dword_bytes e.start_cluster_index

-- The loop of kFindFreeDirectoryEntry from `i` on, with `left` entries to go.
unfoldable pub scan_free : (left i : ℕ) → List ℕ → Option ℕ
scan_free zero i bytes = none
scan_free (suc left) i bytes =
    let rest = scan_free left (i + 1) bytes in
    if (entry_at bytes i).start_cluster_index == free_cluster then some i else rest

-- The test of kFindDirectoryEntry, which compares as many bytes as the name has.
unfoldable pub name_matches : List ℕ → ℕ → List ℕ → Bool
name_matches bytes i name =
    mem_cmp (λ k. get_or bytes (32 * i + k) 0) (λ k. get_or name k 0) (length name) == 0

-- The loop of kFindDirectoryEntry.
unfoldable pub scan_names : (left i : ℕ) → List ℕ → (name : List ℕ) → Option (ℕ × DirectoryEntry)
scan_names zero i bytes name = none
scan_names (suc left) i bytes name =
    let rest = scan_names left (i + 1) bytes name in
    if name_matches bytes i name then some (i, entry_at bytes i) else rest

-- `pcFileName` over the name of an entry, with the zero behind it: kMemCpy of kStrLen + 1 bytes.
abbrev pub set_name : DirectoryEntry → List ℕ → DirectoryEntry
set_name e name = record e { file_name = copy_at e.file_name 0 (name ++ 0 ∷ []) }

module _ {S : Type 0} (ops : BlockOps S) where
  -- kFindFreeDirectoryEntry
  unfoldable pub find_free_directory_entry : Manager S → Option ℕ × Manager S
  find_free_directory_entry m =
      let r = ops.read m.blocks data_area 0 in
      if m.mounted
      then elim r.0 [
        | none ↦ (none, record m { blocks = r.1 })
        | some bytes ↦ (scan_free max_directory_entry_count 0 bytes, record m { blocks = r.1 })
      ]
      else (none, m)

  -- `iIndex < 0 || iIndex >= FILESYSTEM_MAXDIRECTORYENTRYCOUNT`
  abbrev pub out_of_directory : ℕ → Bool
  out_of_directory index = slt32 index 0 || leb max_directory_entry_count index

  -- kSetDirectoryEntryData
  unfoldable pub set_directory_entry_data : Manager S → ℕ → DirectoryEntry → Bool × Manager S
  set_directory_entry_data m index e =
      let r = ops.read m.blocks data_area 0 in
      if m.mounted
      then (if out_of_directory index then (false, m) else elim r.0 [
        | none ↦ (false, record m { blocks = r.1 })
        | some bytes ↦
            let w = ops.write r.1 data_area 0 (copy_at bytes (32 * index) (entry_bytes e)) in
            (w.0, record m { blocks = w.1 })
      ])
      else (false, m)

  -- kGetDirectoryEntryData
  unfoldable pub get_directory_entry_data : Manager S → ℕ → Option DirectoryEntry × Manager S
  get_directory_entry_data m index =
      let r = ops.read m.blocks data_area 0 in
      if m.mounted
      then (if out_of_directory index then (none, m) else elim r.0 [
        | none ↦ (none, record m { blocks = r.1 })
        | some bytes ↦ (some (entry_at bytes index), record m { blocks = r.1 })
      ])
      else (none, m)

  -- kFindDirectoryEntry
  unfoldable pub find_directory_entry :
      Manager S → (name : List ℕ) → Option (ℕ × DirectoryEntry) × Manager S
  find_directory_entry m name =
      let r = ops.read m.blocks data_area 0 in
      if m.mounted
      then elim r.0 [
        | none ↦ (none, record m { blocks = r.1 })
        | some bytes ↦
            (scan_names max_directory_entry_count 0 bytes name, record m { blocks = r.1 })
      ]
      else (none, m)

  -- The end of kCreateFile at the free cluster and the free entry.
  unfoldable pub fill_new_entry :
      Manager S
      → (cluster index : ℕ) → DirectoryEntry
      → (name : List ℕ) → Option (ℕ × DirectoryEntry) × Manager S
  fill_new_entry m cluster index stale name =
      let e = record (set_name stale name) { start_cluster_index = cluster; file_size = 0 } in
      let s = set_directory_entry_data m index e in
      let undo = set_cluster_link_data ops s.1 cluster free_cluster in
      if s.0 then (some (index, e), s.1) else (none, undo.1)

  -- kCreateFile. `stale` is what the caller's DIRECTORYENTRY holds before.
  unfoldable pub create_file :
      Manager S
      → (name : List ℕ) → (stale : DirectoryEntry) → Option (ℕ × DirectoryEntry) × Manager S
  create_file m name stale =
      let c = find_free_cluster ops m in
      let s = set_cluster_link_data ops c.1 c.0 last_cluster in
      let d = find_free_directory_entry s.1 in
      let undo = set_cluster_link_data ops d.1 c.0 free_cluster in
      if c.0 == last_cluster
      then (none, c.1)
      else if s.0
      then elim d.0 [ none ↦ (none, undo.1) | some index ↦ fill_new_entry d.1 c.0 index stale name ]
      else (none, s.1)
