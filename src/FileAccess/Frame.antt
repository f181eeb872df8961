-- ===== src/FileAccess/Frame.antt =====
-- What the functions on links and entries leave alone, whatever the device does: all of the manager
-- but the store of blocks and the start of the next search for a free cluster.
use mintos.Base.{
  ℕ, zero, suc, ◌+◌, ◌%◌, ◌^◌, ◌≡◌, refl, ap, sym, ◌∙◌, inl, inr, true, arith, Bool-cases,
  Option-cases,
}
use mintos.Volume.{link_table, BlockOps, DirectoryEntry, FileHandle, Manager}
use mintos.ClusterLink.{
  find_free_loop, find_free_cluster, set_cluster_link_data, get_cluster_link_data,
}
use mintos.Directory.{set_directory_entry_data, get_directory_entry_data}
use mintos.FileAccess.{update_directory_entry}

module _ {S : Type 0} where
  abbrev pub IsFramed : Manager S → Manager S → Type 0
  IsFramed m m' = m' ≡ record m { blocks = m'.blocks; last_allocated = m'.last_allocated }

  pub IsFramed-trans : (m m' m'' : Manager S) → IsFramed m m' → IsFramed m' m'' → IsFramed m m''
  IsFramed-trans m m' m'' p q =
      q
      ∙ ap
          (λ (x : Manager S). record x { blocks = m''.blocks; last_allocated = m''.last_allocated })
          p

  module _ (ops : BlockOps S) where
    pub get_cluster_link_data-IsFramed :
        (m : Manager S) (c : ℕ) → IsFramed m (get_cluster_link_data ops m c).1
    unfolding get_cluster_link_data
    get_cluster_link_data-IsFramed m c = ground arith

    pub set_cluster_link_data-IsFramed :
        (m : Manager S) (c d : ℕ) → IsFramed m (set_cluster_link_data ops m c d).1
    unfolding set_cluster_link_data
    set_cluster_link_data-IsFramed m c d = ground arith

    pub get_directory_entry_data-IsFramed :
        (m : Manager S) (i : ℕ) → IsFramed m (get_directory_entry_data ops m i).1
    unfolding get_directory_entry_data
    get_directory_entry_data-IsFramed m i = ground arith

    pub set_directory_entry_data-IsFramed :
        (m : Manager S) (i : ℕ) (e : DirectoryEntry)
        → IsFramed m (set_directory_entry_data ops m i e).1
    unfolding set_directory_entry_data
    set_directory_entry_data-IsFramed m i e = ground arith

    find_free_loop-IsFramed :
        (left i last : ℕ) (m : Manager S) → IsFramed m (find_free_loop ops left i last m).1
    unfolding find_free_loop
    find_free_loop-IsFramed zero i last m = refl
    find_free_loop-IsFramed (suc left) i last m =
        let sector = (last + i) % 2 ^ 32 % m.cluster_link_area_size in
        let m1 = record m { blocks = (ops.read m.blocks link_table sector).1 } in
        let rest : IsFramed m (find_free_loop ops left (i + 1) last m1).1 =
          find_free_loop-IsFramed left (i + 1) last m1 in
        ground arith

    searches :
        (m : Manager S)
        → m.mounted ≡ true
        → find_free_cluster ops m ≡ find_free_loop ops m.cluster_link_area_size 0 m.last_allocated m
    unfolding find_free_cluster
    searches m e = ground (arith, e)

    pub find_free_cluster-IsFramed : (m : Manager S) → IsFramed m (find_free_cluster ops m).1
    unfolding find_free_cluster
    find_free_cluster-IsFramed m = elim (Bool-cases m.mounted) [
      | inl e ↦
          ap (λ (r : ℕ × Manager S). r.1) (searches m e)
          ∙ find_free_loop-IsFramed m.cluster_link_area_size 0 m.last_allocated m
          ∙ ap
              (λ (r : ℕ × Manager S). record m {
                blocks = r.1.blocks;
                last_allocated = r.1.last_allocated;
              })
              (sym (searches m e))
      | inr e ↦ ground (arith, e)
    ]

    pub update_directory_entry-IsFramed :
        (m : Manager S) (h : FileHandle) → IsFramed m (update_directory_entry ops m h).1
    unfolding update_directory_entry
    update_directory_entry-IsFramed m h =
        let g = get_directory_entry_data ops m h.directory_entry_offset in
        elim (Option-cases g.0) [
          | inl e ↦
              rw (e, update_directory_entry)
                (get_directory_entry_data-IsFramed m h.directory_entry_offset)
          | inr (d, e) ↦
              rw (e, update_directory_entry)
                (IsFramed-trans m g.1 _
                  (get_directory_entry_data-IsFramed m h.directory_entry_offset)
                  (set_directory_entry_data-IsFramed g.1 h.directory_entry_offset (record d {
                    file_size = h.file_size;
                    start_cluster_index = h.start_cluster_index;
                  })))
        ]
