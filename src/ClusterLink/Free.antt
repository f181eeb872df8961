-- ===== src/ClusterLink/Free.antt =====
-- What kFindFreeCluster finds, and that it finds a free cluster where there is one.
use mintos.Base.{
  ℕ, zero, suc, ◌+◌, ◌-◌, ◌*◌, ◌/◌, ◌%◌, ◌^◌, ◌<◌, ◌≤◌, ◌≡◌, ◌≢◌, ◌⊎◌, inl, inr, refl, ap, sym, ◌∙◌,
  subst, true, false, Option, none, some, List, arith, ◌==◌, ltb, ltb→lt, dword_at, Bool-cases,
  Option-cases, ==_iff,
}
use native.Mathlib.Nat.{mod-eq_of_lt, mod-eq-sub-mod}
use mintos.Volume.{link_table, BlockOps, Manager, last_cluster, free_cluster}
use mintos.Volume.View.{BlockView, BlockLaws, SameBlocks, SameBlocks-trans, IsReadOf}
use mintos.ClusterLink.{scan_links, link_count_in_sector, find_free_loop, find_free_cluster}
use mintos.ClusterLink.Links.{link, dword_of, IsCluster, IsMounted, SameBlocks-IsMounted}

-- The DWORD where the scan stops is free, unless it is at the end.
pub scan_links-free :
    (left j : ℕ) (bytes : List ℕ)
    → (j ≤ scan_links left j bytes)
      × (scan_links left j bytes ≤ j + left)
      × ((scan_links left j bytes ≡ j + left)
          ⊎ (dword_at bytes (scan_links left j bytes) ≡ free_cluster))
unfolding scan_links
scan_links-free zero j bytes = (omega arith, omega arith, inl (omega arith))
scan_links-free (suc left) j bytes = elim (Bool-cases (dword_at bytes j == free_cluster)) [
  | inl here ↦ rw here (omega arith, omega arith, inr (ground arith))
  | inr more ↦
      let ih = scan_links-free left (j + 1) bytes in
      rw more (
        omega (arith, ih.0),
        omega (arith, ih.1),
        elim ih.2 [ inl e ↦ inl (omega (arith, e)) | inr e ↦ inr e ],
      )
]

-- No DWORD before it is free.
pub scan_links-taken :
    (left j k : ℕ) (bytes : List ℕ)
    → j ≤ k
    → k < scan_links left j bytes
    → dword_at bytes k ≢ free_cluster
unfolding scan_links
scan_links-taken zero j k bytes h l = absurd (omega arith)
scan_links-taken (suc left) j k bytes h l = elim (Bool-cases (dword_at bytes j == free_cluster)) [
  | inl here ↦ absurd (let contra : k < j = rw here at l in omega (arith, contra))
  | inr more ↦
      let after : k < scan_links left (j + 1) bytes = rw more at l in
      elim (Bool-cases (k == j)) [
        | inl at ↦ let same : k ≡ j = (==_iff k j).0 at in rw same (λ e. ground (arith, e))
        | inr other ↦ scan_links-taken left (j + 1) k bytes (ground arith) after
      ]
]

module _ {S : Type 0} (ops : BlockOps S) (view : BlockView S) where
  open view use {IsGood, IsInside, shown}

  -- The sizes of a volume: the link table has just the sectors that the clusters need, all of them
  -- in the area, and the scan starts at one of them.
  pub record IsSized (m : Manager S) : Type 0 where
    pub inside : (b : ℕ) → b < m.cluster_link_area_size → IsInside link_table b
    pub small : m.cluster_link_area_size * 128 < 2 ^ 32
    pub enough : m.total_cluster_count ≤ m.cluster_link_area_size * 128
    pub needed : m.cluster_link_area_size * 128 < m.total_cluster_count + 128
    pub start : m.last_allocated < m.cluster_link_area_size

  -- The clusters that a search looks at, which are the first ones: all of them, unless their number
  -- is a multiple of 128. Then the last sector is taken to have none.
  abbrev pub searched_count : Manager S → ℕ
  searched_count m = (m.cluster_link_area_size - 1) * 128 + m.total_cluster_count % 128

  -- What the search comes to: FILESYSTEM_LASTCLUSTER, or a free cluster that the search looks at.
  pub record IsSearched (m : Manager S) (r : ℕ × Manager S) : Type 0 where
    pub mounted : IsMounted ops view r.1
    pub sized : IsSized r.1
    pub same : SameBlocks view m.blocks r.1.blocks
    pub result :
        (r.0 ≡ last_cluster)
        ⊎ ((r.0 < searched_count m)
            × IsCluster ops view r.0
            × (link ops view m.blocks r.0 ≡ some free_cluster))
    pub frame : r.1 ≡ record m { blocks = r.1.blocks; last_allocated = r.1.last_allocated }

  module _ (laws : BlockLaws view ops) (m : Manager S) (size : IsSized m) where
    abbrev pub at_state : S → Manager S
    at_state s = record m { blocks = s }

    -- The sector of round `i`.
    abbrev pub sector_of : ℕ → ℕ
    sector_of i = (m.last_allocated + i) % 2 ^ 32 % m.cluster_link_area_size

    abbrev pub count_of : ℕ → ℕ
    count_of i = link_count_in_sector ops m m.last_allocated i

    pub sector_of-cases :
        (i : ℕ)
        → i < m.cluster_link_area_size
        → (((m.last_allocated + i) % 2 ^ 32 ≡ m.last_allocated + i)
            × (m.last_allocated + i < m.cluster_link_area_size)
            × (sector_of i ≡ m.last_allocated + i))
          ⊎ (((m.last_allocated + i) % 2 ^ 32 ≡ m.last_allocated + i)
              × (m.cluster_link_area_size ≤ m.last_allocated + i)
              × (sector_of i ≡ m.last_allocated + i - m.cluster_link_area_size))
    sector_of-cases i h =
        let z = m.last_allocated + i in
        let small : z % 2 ^ 32 ≡ z = omega (arith, size.start, size.small, h) in
        elim (Bool-cases (ltb z m.cluster_link_area_size)) [
          | inl l ↦ inl (small, ltb→lt _ _ l, rw small (mod-eq_of_lt (ltb→lt _ _ l)))
          | inr l ↦
              let ge : m.cluster_link_area_size ≤ z = ground arith in
              inr (
                small,
                ge,
                rw small (mod-eq-sub-mod ge ∙ mod-eq_of_lt (omega (arith, size.start, h))),
              )
        ]

    pub sector_of-lt :
        (i : ℕ) → i < m.cluster_link_area_size → sector_of i < m.cluster_link_area_size
    sector_of-lt i h = elim (sector_of-cases i h) [
      | inl a ↦ omega (arith, a.1, a.2)
      | inr a ↦ omega (arith, a.1, a.2, size.start, h)
    ]

    -- The scan of a sector stays within these clusters.
    count_of_bound :
        (i j : ℕ)
        → i < m.cluster_link_area_size
        → j < count_of i
        → sector_of i * 128 + j < searched_count m
    count_of_bound i j h l = elim (sector_of-cases i h) [
      | inl a ↦ ground (arith, a.0, a.1, a.2, size.enough, size.needed, size.small, l)
      | inr a ↦ ground (arith, a.0, a.1, a.2, size.enough, size.needed, size.start, size.small, l)
    ]

    module _ (v : IsMounted ops view m) where
      -- The state after a read that went well, with the blocks and the start of the next scan.
      abbrev found_at : S → ℕ → Manager S
      found_at s start = record m { blocks = s; last_allocated = start }

      at_state-IsSearched :
          (s : S) → IsGood s → SameBlocks view m.blocks s → IsSearched m (last_cluster, at_state s)
      at_state-IsSearched s g same = record {
        mounted = SameBlocks-IsMounted ops view m s v g same;
        sized = record {
          inside = size.inside;
          small = size.small;
          enough = size.enough;
          needed = size.needed;
          start = size.start;
        };
        same = same;
        result = inl refl;
        frame = refl;
      }

      module _ (i : ℕ) (s : S) (g : IsGood s) (same : SameBlocks view m.blocks s)
          (round : i < m.cluster_link_area_size) where
        abbrev pub sector_read : Option (List ℕ) × S
        sector_read = ops.read s link_table (sector_of i)

        inside : IsInside link_table (sector_of i)
        inside = size.inside (sector_of i) (sector_of-lt i round)

        pub read : IsReadOf view s link_table (sector_of i) sector_read
        read = laws.reads s link_table (sector_of i) g inside

        pub read_same : SameBlocks view m.blocks sector_read.1
        read_same = SameBlocks-trans view m.blocks s sector_read.1 same read.same

        read_shown :
            (bytes : List ℕ)
            → sector_read.0 ≡ some bytes
            → shown m.blocks link_table (sector_of i) ≡ some bytes
        read_shown bytes e = elim read.result [
          | inl failed ↦
              absurd (let contra : none ≡ some bytes = sym failed ∙ e in ground (arith, contra))
          | inr shows ↦ sym (same link_table (sector_of i) inside) ∙ sym shows ∙ e
        ]

        -- The link of the DWORD `j` of the sector.
        pub link_in_sector :
            (bytes : List ℕ) (j : ℕ)
            → sector_read.0 ≡ some bytes
            → j < 128
            → link ops view m.blocks (sector_of i * 128 + j) ≡ some (dword_at bytes j)
        link_in_sector bytes j e l =
            let at : (sector_of i * 128 + j) / 128 ≡ sector_of i = omega arith in
            let low : (sector_of i * 128 + j) % 128 ≡ j = omega arith in
            rw (at, low) (ap (λ o. dword_of o j) (read_shown bytes e))

        loop-failed :
            (left : ℕ)
            → sector_read.0 ≡ none
            → find_free_loop ops (suc left) i m.last_allocated (at_state s)
              ≡ (last_cluster, at_state sector_read.1)
        unfolding find_free_loop
        loop-failed left e = ground arith

        pub loop-full :
            (left : ℕ) (bytes : List ℕ)
            → sector_read.0 ≡ some bytes
            → (scan_links (count_of i) 0 bytes == count_of i) ≡ true
            → find_free_loop ops (suc left) i m.last_allocated (at_state s)
              ≡ find_free_loop ops left (i + 1) m.last_allocated (at_state sector_read.1)
        unfolding find_free_loop
        loop-full left bytes e full = ground arith

        pub loop-found :
            (left : ℕ) (bytes : List ℕ)
            → sector_read.0 ≡ some bytes
            → (scan_links (count_of i) 0 bytes == count_of i) ≡ false
            → find_free_loop ops (suc left) i m.last_allocated (at_state s) ≡ (
              (sector_of i * 128 + scan_links (count_of i) 0 bytes) % 2 ^ 32,
              found_at sector_read.1 (sector_of i),
            )
        unfolding find_free_loop
        loop-found left bytes e room = ground arith

        count_of-le : count_of i ≤ 128
        count_of-le = ground arith

        found-IsSearched :
            (bytes : List ℕ)
            → sector_read.0 ≡ some bytes
            → (scan_links (count_of i) 0 bytes == count_of i) ≡ false
            → IsSearched m (
              (sector_of i * 128 + scan_links (count_of i) 0 bytes) % 2 ^ 32,
              found_at sector_read.1 (sector_of i),
            )
        found-IsSearched bytes e room =
            let j = scan_links (count_of i) 0 bytes in
            let scan = scan_links-free (count_of i) 0 bytes in
            let before : j < count_of i = ground (arith, scan.1, room) in
            let low : sector_of i * 128 + j < searched_count m = count_of_bound i j round before in
            let small : (sector_of i * 128 + j) % 2 ^ 32 ≡ sector_of i * 128 + j =
              omega (arith, low, size.needed, size.start, size.small) in
            let at : (sector_of i * 128 + j) / 128 ≡ sector_of i =
              omega (arith, before, count_of-le) in
            rw small (record {
              mounted = record {
                mounted = v.mounted;
                good = read.good;
                whole = (SameBlocks-IsMounted ops view m sector_read.1 v read.good read_same).whole;
              };
              sized = record {
                inside = size.inside;
                small = size.small;
                enough = size.enough;
                needed = size.needed;
                start = sector_of-lt i round;
              };
              same = read_same;
              result = inr (
                low,
                subst (IsInside link_table) (sym at) inside,
                link_in_sector bytes j e (omega (arith, before, count_of-le))
                    ∙ ap some
                        (elim scan.2 [ inl z ↦ absurd (omega (arith, z, before)) | inr z ↦ z ]),
              );
              frame = refl;
            })

      find_free_loop-IsSearched :
          (left i : ℕ) (s : S)
          → i + left ≡ m.cluster_link_area_size
          → IsGood s
          → SameBlocks view m.blocks s
          → IsSearched m (find_free_loop ops left i m.last_allocated (at_state s))
      find_free_loop-IsSearched zero i s h g same =
          unfold find_free_loop in at_state-IsSearched s g same
      find_free_loop-IsSearched (suc left) i s h g same =
          let round : i < m.cluster_link_area_size = omega (arith, h) in
          let r = sector_read i s g same round in
          elim (Option-cases r.0) [
            | inl failed ↦
                rw (loop-failed i s g same round left failed) (
                  at_state-IsSearched r.1 (read i s g same round).good (read_same i s g same round))
            | inr (bytes, e) ↦ elim (Bool-cases (scan_links (count_of i) 0 bytes == count_of i)) [
              | inl full ↦ rw (loop-full i s g same round left bytes e full) (
                  find_free_loop-IsSearched left (i + 1) r.1 (omega (arith, h))
                    (read i s g same round).good (read_same i s g same round))
              | inr room ↦
                  rw (loop-found i s g same round left bytes e room)
                    (found-IsSearched i s g same round bytes e room)
            ]
          ]

      pub search :
          find_free_cluster ops m
          ≡ find_free_loop ops m.cluster_link_area_size 0 m.last_allocated (at_state m.blocks)
      unfolding find_free_cluster
      search = ground (arith, v.mounted)

      -- On a mounted volume whose link table has just the sectors that its clusters need,
      -- kFindFreeCluster returns FILESYSTEM_LASTCLUSTER or the index of a cluster whose link is
      -- free and which is one of the clusters that the search looks at. It changes no block, and
      -- the next scan starts within the link table.
      pub find_free_cluster-IsSearched : IsSearched m (find_free_cluster ops m)
      find_free_cluster-IsSearched = rw search (
          find_free_loop-IsSearched m.cluster_link_area_size 0 m.blocks (omega arith) v.good
            (λ k b h. refl))
