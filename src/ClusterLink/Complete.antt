-- ===== src/ClusterLink/Complete.antt =====
-- That kFindFreeCluster finds a free cluster where there is one to be found.
use mintos.Base.{
  ℕ, zero, suc, ◌+◌, ◌-◌, ◌*◌, ◌/◌, ◌%◌, ◌<◌, ◌≤◌, ◌≡◌, ◌≢◌, inl, inr, refl, sym, ◌∙◌, subst, none,
  some, arith, ◌==◌, ltb, ltb→lt, dword_at, Bool-cases, Option-cases, ==_iff,
}
use mintos.Volume.{link_table, BlockOps, Manager, last_cluster, free_cluster}
use mintos.Volume.View.{BlockView, BlockLaws, SameBlocks}
use mintos.ClusterLink.{scan_links, find_free_loop, find_free_cluster}
use mintos.ClusterLink.Links.{link, IsMounted}
use mintos.ClusterLink.Free.{
  IsSized, searched_count, at_state, sector_of, sector_of-cases, sector_of-lt, count_of,
  scan_links-taken, scan_links-free, sector_read, read, read_same, link_in_sector, loop-full,
  loop-found, search, find_free_cluster-IsSearched,
}

module _ {S : Type 0} (ops : BlockOps S) (view : BlockView S) where
  open view use {IsGood, IsInside, shown}

  -- No read of a sector of the link table fails.
  abbrev pub IsReliable : Type 0
  IsReliable =
      (s : S) (b : ℕ) → IsGood s → IsInside link_table b → (ops.read s link_table b).0 ≢ none

  module _ (laws : BlockLaws view ops) (m : Manager S) (size : IsSized ops view m)
      (v : IsMounted ops view m) where
    -- On a mounted volume whose number of clusters is a multiple of 128, kFindFreeCluster returns
    -- FILESYSTEM_LASTCLUSTER as soon as all clusters but the last 128 are taken, even if all of
    -- those are free.
    pub find_free_cluster-misses :
        m.total_cluster_count % 128 ≡ 0
        → ((a : ℕ) → a + 128 < m.total_cluster_count → link ops view m.blocks a ≢ some free_cluster)
        → (find_free_cluster ops m).0 ≡ last_cluster
    find_free_cluster-misses whole taken =
        elim (find_free_cluster-IsSearched ops view laws m size v).result [
          | inl none_left ↦ none_left
          | inr r ↦
              absurd (taken _ (omega (arith, r.0, whole, size.enough, size.needed, size.start)) r.2)
        ]

    module _ (reliable : IsReliable) where
      -- A free DWORD in the sector of a round to come is found, or another before it.
      find_free_loop-finds :
          (left i k j : ℕ) (s : S)
          → i + left ≡ m.cluster_link_area_size
          → i ≤ k
          → k < m.cluster_link_area_size
          → j < count_of ops view laws m size k
          → link ops view m.blocks (sector_of ops view laws m size k * 128 + j) ≡ some free_cluster
          → IsGood s
          → SameBlocks view m.blocks s
          → (find_free_loop ops left i m.last_allocated (at_state ops view laws m size s)).0
            < m.cluster_link_area_size * 128
      find_free_loop-finds zero i k j s h le lt l f g same = absurd (omega (arith, h, le, lt))
      find_free_loop-finds (suc left) i k j s h le lt l f g same =
          let round : i < m.cluster_link_area_size = omega (arith, h) in
          let r = sector_read ops view laws m size v i s g same round in
          elim (Option-cases r.0) [
            | inl failed ↦ absurd (
                reliable s (sector_of ops view laws m size i) g
                  (size.inside _ (sector_of-lt ops view laws m size i round)) failed)
            | inr (bytes, e) ↦
                let count = count_of ops view laws m size i in
                let stop = scan_links count 0 bytes in
                let scan = scan_links-free count 0 bytes in
                let few : count ≤ 128 = ground arith in
                elim (Bool-cases (stop == count)) [
                  | inr room ↦
                      rw (loop-found ops view laws m size v i s g same round left bytes e room) (
                        let in_sector = sector_of-lt ops view laws m size i round in
                        let before : stop < 128 = ground (arith, scan.1, room, few) in
                        omega (arith, in_sector, before, size.small))
                  | inl full ↦
                      rw (loop-full ops view laws m size v i s g same round left bytes e full)
                        (elim (Bool-cases (k == i)) [
                          | inr other ↦
                              find_free_loop-finds left (i + 1) k j r.1 (omega (arith, h))
                                (ground arith) lt l f
                                (read ops view laws m size v i s g same round).good
                                (read_same ops view laws m size v i s g same round)
                          | inl now ↦
                              let at : k ≡ i = (==_iff k i).0 now in
                              let below : j < count =
                                subst (λ z. j < count_of ops view laws m size z) at l in
                              let free : link ops view m.blocks
                                    (sector_of ops view laws m size i * 128 + j)
                                  ≡ some free_cluster =
                                subst
                                  (λ z.
                                    link ops view m.blocks
                                      (sector_of ops view laws m size z * 128 + j)
                                    ≡ some free_cluster)
                                  at f in
                              let shows =
                                link_in_sector ops view laws m size v i s g same round bytes j e
                                  (omega (arith, below, few)) in
                              let zeroed : some (dword_at bytes j) ≡ some free_cluster =
                                sym shows ∙ free in
                              absurd (
                                scan_links-taken count 0 j bytes (omega arith)
                                  (ground (arith, full, below)) (cc))
                        ])
                ]
          ]

      -- A cluster that is looked at stands in the sector of some round.
      round_of :
          (a : ℕ)
          → a < searched_count ops view m
          → (k : ℕ) × (k < m.cluster_link_area_size)
            × (sector_of ops view laws m size k ≡ a / 128)
            × (a % 128 < count_of ops view laws m size k)
      round_of a h = elim (Bool-cases (ltb (a / 128) m.last_allocated)) [
        | inl before ↦
            let k = a / 128 + m.cluster_link_area_size - m.last_allocated in
            let lt : k < m.cluster_link_area_size = omega (arith, ltb→lt _ _ before, size.start) in
            elim (sector_of-cases ops view laws m size k lt) [
              | inl c ↦ absurd (omega (arith, c.1, ltb→lt _ _ before, size.start))
              | inr c ↦ (
                k,
                lt,
                omega (arith, c.2, ltb→lt _ _ before, size.start),
                ground (arith, c.0, c.1, ltb→lt _ _ before, size.start, size.small, h),
              )
            ]
        | inr from ↦
            let k = a / 128 - m.last_allocated in
            let low : a / 128 < m.cluster_link_area_size = omega (arith, h, size.start) in
            let ge : m.last_allocated ≤ a / 128 = ground (arith, from) in
            let lt : k < m.cluster_link_area_size = omega (arith, low) in
            elim (sector_of-cases ops view laws m size k lt) [
              | inr c ↦ absurd (omega (arith, c.1, low, ge))
              | inl c ↦
                  (k, lt, omega (arith, c.2, ge), ground (arith, c.0, c.1, ge, size.small, low, h))
            ]
      ]

      -- On a mounted volume with the sizes of one, where no read of the link table fails and some
      -- cluster that kFindFreeCluster looks at is free, it returns a free one. It looks at all
      -- clusters but those of the last sector if their number is a multiple of 128.
      pub find_free_cluster-finds :
          (a : ℕ)
          → a < searched_count ops view m
          → link ops view m.blocks a ≡ some free_cluster
          → ((find_free_cluster ops m).0 < searched_count ops view m)
            × (link ops view m.blocks (find_free_cluster ops m).0 ≡ some free_cluster)
      find_free_cluster-finds a low free =
          let k = round_of a low in
          let at : sector_of ops view laws m size k.0 * 128 + a % 128 ≡ a = omega (arith, k.2) in
          let found : (find_free_cluster ops m).0 < m.cluster_link_area_size * 128 =
            rw (search ops view laws m size v) (
              find_free_loop-finds m.cluster_link_area_size 0 k.0 (a % 128) m.blocks (omega arith)
                (omega arith) k.1 k.3
                (subst (λ z. link ops view m.blocks z ≡ some free_cluster) (sym at) free) v.good
                (λ l b h. refl)) in
          elim (find_free_cluster-IsSearched ops view laws m size v).result [
            | inl none_left ↦ absurd (omega (arith, found, none_left, size.small))
            | inr r ↦ (r.0, r.2)
          ]
