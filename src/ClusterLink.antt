-- ===== src/ClusterLink.antt =====
-- 02.Kernel64/FileSystem.c: the cluster link table, a DWORD for each cluster, 128 to a sector.
-- Each function reads a sector into gs_vbTempBuffer before it looks at it, so the buffer is a local.
mod Tests
pub mod Links
pub mod Chain
pub mod Free
pub mod Complete
use mintos.Base.{
  ℕ, zero, suc, ◌+◌, ◌-◌, ◌*◌, ◌/◌, ◌%◌, ◌^◌, Bool, true, false, Option, none, some, List, [], ◌∷◌,
  ltb, ◌==◌, if◌then◌else◌, dword_at, set_dword,
}
use mintos.Volume.{link_table, BlockOps, Manager, last_cluster, free_cluster}

-- The inner loop of kFindFreeCluster: the first of the DWORDs from `j` on that is free, `left` to
-- go.
unfoldable pub scan_links : (left j : ℕ) → List ℕ → ℕ
scan_links zero j bytes = j
scan_links (suc left) j bytes =
    let rest = scan_links left (j + 1) bytes in if dword_at bytes j == free_cluster then j else rest

module _ {S : Type 0} (ops : BlockOps S) where
  -- dwLinkCountInSector in round `i`
  abbrev pub link_count_in_sector : Manager S → (last i : ℕ) → ℕ
  link_count_in_sector m last i =
      if (last + i) % 2 ^ 32 == (m.cluster_link_area_size + 2 ^ 32 - 1) % 2 ^ 32
      then m.total_cluster_count % 128
      else 128

  -- The outer loop of kFindFreeCluster, with `left` rounds to go.
  unfoldable pub find_free_loop : (left i last : ℕ) → Manager S → ℕ × Manager S
  find_free_loop zero i last m = (last_cluster, m)
  find_free_loop (suc left) i last m =
      let count = link_count_in_sector m last i in
      let sector = (last + i) % 2 ^ 32 % m.cluster_link_area_size in
      let r = ops.read m.blocks link_table sector in
      let m1 = record m { blocks = r.1 } in
      let rest = find_free_loop left (i + 1) last m1 in
      elim r.0 [
        | none ↦ (last_cluster, m1)
        | some bytes ↦
            let j = scan_links count 0 bytes in
            if j == count
            then rest
            else ((sector * 128 + j) % 2 ^ 32, record m1 { last_allocated = sector })
      ]

  -- kFindFreeCluster
  unfoldable pub find_free_cluster : Manager S → ℕ × Manager S
  find_free_cluster m =
      if m.mounted
      then find_free_loop m.cluster_link_area_size 0 m.last_allocated m
      else (last_cluster, m)

  -- kSetClusterLinkData
  unfoldable pub set_cluster_link_data : Manager S → (cluster value : ℕ) → Bool × Manager S
  set_cluster_link_data m cluster value =
      let r = ops.read m.blocks link_table (cluster / 128) in
      if m.mounted
      then elim r.0 [
        | none ↦ (false, record m { blocks = r.1 })
        | some bytes ↦
            let w =
              ops.write r.1 link_table (cluster / 128) (set_dword bytes (cluster % 128) value) in
            (w.0, record m { blocks = w.1 })
      ]
      else (false, m)

  -- kGetClusterLinkData
  unfoldable pub get_cluster_link_data : Manager S → ℕ → Option ℕ × Manager S
  get_cluster_link_data m cluster =
      let r = ops.read m.blocks link_table (cluster / 128) in
      if m.mounted
      then (if ltb m.cluster_link_area_size (cluster / 128) then (none, m) else elim r.0 [
        | none ↦ (none, record m { blocks = r.1 })
        | some bytes ↦ (some (dword_at bytes (cluster % 128)), record m { blocks = r.1 })
      ])
      else (none, m)

  -- kFreeClusterUntilEnd; `none` means that the fuel ran out.
  unfoldable pub free_cluster_until_end : (fuel : ℕ) → Manager S → ℕ → Option (Bool × Manager S)
  free_cluster_until_end zero m cluster = none
  free_cluster_until_end (suc fuel) m cluster =
      let g = get_cluster_link_data m cluster in
      let s = set_cluster_link_data g.1 cluster free_cluster in
      let rest = λ (next : ℕ). free_cluster_until_end fuel s.1 next in
      if cluster == last_cluster then some (true, m) else elim g.0 [
        | none ↦ some (false, g.1)
        | some next ↦ elim s.0 [ false ↦ some (false, s.1) | true ↦ rest next ]
      ]
