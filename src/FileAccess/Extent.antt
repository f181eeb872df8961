-- ===== src/FileAccess/Extent.antt =====
-- The clusters of a file one after the other, and what a read of them comes to.
use mintos.Base.{
  ℕ, suc, ◌+◌, ◌/◌, ◌≤◌, ◌≡◌, ◌≢◌, ap, ◌∙◌, true, false, none, some, List, [], ◌∷◌, ◌++◌, arith,
  length, take,
}
use mintos.Volume.{AreaKind, data_area, BlockOps, Manager, cluster_size}
use mintos.Volume.View.{BlockView, BlockLaws, SameBlocks, SameBlocks-trans}
use mintos.ClusterLink.{get_cluster_link_data}
use mintos.ClusterLink.Links.{
  link, IsCluster, IsMounted, SameBlocks-IsMounted, get_cluster_link_data-IsLinkRead,
}
use mintos.FileAccess.{Transfer, read_round, read_loop}

-- The bytes of the clusters one after the other.
abbrev pub concat : List (List ℕ) → List ℕ
concat [] = []
concat (b ∷ bs) = b ++ concat bs

module _ {S : Type 0} (ops : BlockOps S) (view : BlockView S) where
  open view use {IsGood, IsInside, shown}

  -- The links lead from `c` through clusters that show these bytes.
  abbrev pub Extent : S → (size : ℕ) → ℕ → List (List ℕ) → Type 0
  Extent s size c [] = Unit
  Extent s size c (bytes ∷ bs) =
      IsInside data_area c
      × IsCluster ops view c
      × (c / 128 ≤ size)
      × (shown s data_area c ≡ some bytes)
      × (length bytes ≡ cluster_size)
      × ((n : ℕ) × (link ops view s c ≡ some n) × Extent s size n bs)

  -- No read of a block of either area fails.
  abbrev pub NeverFails : Type 0
  NeverFails = (s : S) (k : AreaKind) (b : ℕ) → IsGood s → IsInside k b → (ops.read s k b).0 ≢ none

  module _ (laws : BlockLaws view ops) (m : Manager S) where
    -- A state on the way: the volume is in order, no block shows anything new, and nothing but the
    -- store of blocks has changed.
    pub record IsOn (m' : Manager S) : Type 0 where
      pub mounted : IsMounted ops view m'
      pub same : SameBlocks view m.blocks m'.blocks
      pub frame : m' ≡ record m { blocks = m'.blocks }

    -- What a read of up to `wanted` bytes of `content` comes to, from the state `t` on.
    pub record IsReadOn (content : List ℕ) (wanted : ℕ) (t r : Transfer S) : Type 0 where
      pub moved : ℕ
      pub le : moved ≤ wanted
      pub bytes : r.bytes ≡ t.bytes ++ take moved content
      pub count : r.count ≡ t.count + moved
      pub offset : r.handle.current_offset ≡ t.handle.current_offset + moved
      pub manager : IsOn r.manager
      pub all : NeverFails → moved ≡ wanted

    -- A state after a read of the cluster, and after a read of its link.
    pub read-IsOn :
        (m' : Manager S) (k : AreaKind) (b : ℕ)
        → IsOn m'
        → IsInside k b
        → IsOn (record m' { blocks = (ops.read m'.blocks k b).1 })
    read-IsOn m' k b o h =
        let r = laws.reads m'.blocks k b o.mounted.good h in
        record {
          mounted =
              SameBlocks-IsMounted ops view m' (ops.read m'.blocks k b).1 o.mounted r.good r.same;
          same = SameBlocks-trans view m.blocks m'.blocks (ops.read m'.blocks k b).1 o.same r.same;
          frame = ap (λ (x : Manager S). record x { blocks = (ops.read m'.blocks k b).1 }) o.frame;
        }

    pub link-IsOn :
        (m' : Manager S) (c : ℕ)
        → IsOn m'
        → IsCluster ops view c
        → IsOn (get_cluster_link_data ops m' c).1
    link-IsOn m' c o h =
        let r = get_cluster_link_data-IsLinkRead ops view laws m' c o.mounted h in
        record {
          mounted = r.mounted;
          same =
              SameBlocks-trans view m.blocks m'.blocks (get_cluster_link_data ops m' c).1.blocks
                o.same r.same;
          frame =
              r.frame
              ∙ ap
                  (λ (x : Manager S). record x {
                    blocks = (get_cluster_link_data ops m' c).1.blocks;
                  })
                  o.frame;
        }

    pub loop-done :
        (fuel total : ℕ) (t : Transfer S)
        → t.count ≡ total
        → read_loop ops (suc fuel) total t ≡ some t
    unfolding read_loop
    loop-done fuel total t e = ground (arith, e)

    pub loop-break :
        (fuel total : ℕ) (t t' : Transfer S)
        → t.count ≢ total
        → read_round ops total t ≡ (false, t')
        → read_loop ops (suc fuel) total t ≡ some t'
    unfolding read_loop
    loop-break fuel total t t' ne p = rw p (ground (arith, ne))

    pub loop-on :
        (fuel total : ℕ) (t t' : Transfer S)
        → t.count ≢ total
        → read_round ops total t ≡ (true, t')
        → read_loop ops (suc fuel) total t ≡ read_loop ops fuel total t'
    unfolding read_loop
    loop-on fuel total t t' ne p = rw p (ground (arith, ne))
