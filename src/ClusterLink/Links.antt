-- ===== src/ClusterLink/Links.antt =====
-- The link table as a function from clusters to links: what kGetClusterLinkData and
-- kSetClusterLinkData read and change of it.
use mintos.Base.{
  ℕ, ◌/◌, ◌%◌, ◌^◌, ◌<◌, ◌≤◌, ◌≡◌, ◌≢◌, ◌⊎◌, inl, inr, refl, ap, sym, ◌∙◌, Bool, true, false,
  Option, none, some, List, arith, ltb, ◌==◌, length, dword_at, set_dword, length-set_dword,
  dword_at-set_dword, dword_at-set_dword_other, Bool-cases, Option-cases, ==_iff,
}
use mintos.Volume.{link_table, data_area, BlockOps, Manager}
use mintos.Volume.View.{BlockView, BlockLaws, SameBlocks, IsReadOf, IsWriteOf}
use mintos.ClusterLink.{set_cluster_link_data, get_cluster_link_data}

abbrev pub dword_of : Option (List ℕ) → ℕ → Option ℕ
dword_of none j = none
dword_of (some bytes) j = some (dword_at bytes j)

data_area-ne-link_table : data_area ≢ link_table
data_area-ne-link_table e = cc

module _ {S : Type 0} (ops : BlockOps S) (view : BlockView S) where
  open view use {IsGood, IsInside, shown}

  -- The link of a cluster.
  abbrev pub link : S → ℕ → Option ℕ
  link s c = dword_of (shown s link_table (c / 128)) (c % 128)

  -- A cluster whose link stands in the link table.
  abbrev pub IsCluster : ℕ → Type 0
  IsCluster c = IsInside link_table (c / 128)

  -- A mounted volume in order: each sector of the link table has its 512 bytes.
  pub record IsMounted (m : Manager S) : Type 0 where
    pub mounted : m.mounted ≡ true
    pub good : IsGood m.blocks
    pub whole :
        (b : ℕ) (bytes : List ℕ)
        → IsInside link_table b
        → shown m.blocks link_table b ≡ some bytes
        → length bytes ≡ 512

  pub SameBlocks-IsMounted :
      (m : Manager S) (s : S)
      → IsMounted m
      → IsGood s
      → SameBlocks view m.blocks s
      → IsMounted (record m { blocks = s })
  SameBlocks-IsMounted m s v g same = record {
    mounted = v.mounted;
    good = g;
    whole = λ b bytes h e. v.whole b bytes h (sym (same link_table b h) ∙ e);
  }

  pub SameBlocks-link : (s t : S) (c : ℕ) → SameBlocks view s t → IsCluster c → link t c ≡ link s c
  SameBlocks-link s t c same h = ap (λ o. dword_of o (c % 128)) (same link_table (c / 128) h)

  -- What reading the link of `c` comes to.
  pub record IsLinkRead (m : Manager S) (c : ℕ) (r : Option ℕ × Manager S) : Type 0 where
    pub mounted : IsMounted r.1
    pub result : (r.0 ≡ none) ⊎ (r.0 ≡ link m.blocks c)
    pub same : SameBlocks view m.blocks r.1.blocks
    pub frame : r.1 ≡ record m { blocks = r.1.blocks }

  -- What writing the link of `c` comes to.
  pub record IsLinkWrite (m : Manager S) (c d : ℕ) (r : Bool × Manager S) : Type 0 where
    pub mounted : IsMounted r.1
    pub result :
        ((r.0 ≡ true) × (link r.1.blocks c ≡ some d))
        ⊎ ((r.0 ≡ false) × (link r.1.blocks c ≡ link m.blocks c))
    pub same_links : (a : ℕ) → IsCluster a → a ≢ c → link r.1.blocks a ≡ link m.blocks a
    pub same_clusters :
        (b : ℕ) → IsInside data_area b → shown r.1.blocks data_area b ≡ shown m.blocks data_area b
    pub frame : r.1 ≡ record m { blocks = r.1.blocks }

  module _ (laws : BlockLaws view ops) (m : Manager S) (c : ℕ) (v : IsMounted m)
      (inside : IsCluster c) where
    abbrev sector : Option (List ℕ) × S
    sector = ops.read m.blocks link_table (c / 128)

    read : IsReadOf view m.blocks link_table (c / 128) sector
    read = laws.reads m.blocks link_table (c / 128) v.good inside

    after_read : IsMounted (record m { blocks = sector.1 })
    after_read = SameBlocks-IsMounted m sector.1 v read.good read.same

    some_read :
        (bytes : List ℕ) → sector.0 ≡ some bytes → shown m.blocks link_table (c / 128) ≡ some bytes
    some_read bytes e = elim read.result [
      | inl failed ↦
          absurd (let contra : none ≡ some bytes = sym failed ∙ e in ground (arith, contra))
      | inr same ↦ sym same ∙ e
    ]

    get-outside :
        ltb m.cluster_link_area_size (c / 128) ≡ true → get_cluster_link_data ops m c ≡ (none, m)
    unfolding get_cluster_link_data
    get-outside o = ground (arith, v.mounted)

    get-failed :
        ltb m.cluster_link_area_size (c / 128) ≡ false
        → sector.0 ≡ none
        → get_cluster_link_data ops m c ≡ (none, record m { blocks = sector.1 })
    unfolding get_cluster_link_data
    get-failed o e = ground (arith, v.mounted)

    get-read :
        (bytes : List ℕ)
        → ltb m.cluster_link_area_size (c / 128) ≡ false
        → sector.0 ≡ some bytes
        → get_cluster_link_data ops m c
          ≡ (some (dword_at bytes (c % 128)), record m { blocks = sector.1 })
    unfolding get_cluster_link_data
    get-read bytes o e = ground (arith, v.mounted)

    -- kGetClusterLinkData returns the link of the cluster or fails, and changes no block.
    pub get_cluster_link_data-IsLinkRead : IsLinkRead m c (get_cluster_link_data ops m c)
    get_cluster_link_data-IsLinkRead = elim (Bool-cases (ltb m.cluster_link_area_size (c / 128))) [
      | inl outside ↦
          rw (get-outside outside)
            (record { mounted = v; result = inl refl; same = λ k b h. refl; frame = refl })
      | inr within ↦ elim (Option-cases sector.0) [
        | inl failed ↦
            rw (get-failed within failed)
              (record { mounted = after_read; result = inl refl; same = read.same; frame = refl })
        | inr (bytes, e) ↦ rw (get-read bytes within e) (record {
          mounted = after_read;
          result = inr (ap (λ o. dword_of o (c % 128)) (sym (some_read bytes e)));
          same = read.same;
          frame = refl;
        })
      ]
    ]

    -- Where the sector can be read, so can the link.
    pub get_cluster_link_data-ne-none :
        c / 128 ≤ m.cluster_link_area_size
        → sector.0 ≢ none
        → (get_cluster_link_data ops m c).0 ≢ none
    get_cluster_link_data-ne-none low readable failed = elim (Option-cases sector.0) [
      | inl e ↦ readable e
      | inr (bytes, e) ↦
          let within : ltb m.cluster_link_area_size (c / 128) ≡ false = ground arith in
          let contra : some (dword_at bytes (c % 128)) ≡ none =
            sym (ap (λ (r : Option ℕ × Manager S). r.0) (get-read bytes within e)) ∙ failed in
          absurd (ground (arith, contra))
    ]

    module _ (d : ℕ) (word : d < 2 ^ 32) where
      set-failed :
          sector.0 ≡ none
          → set_cluster_link_data ops m c d ≡ (false, record m { blocks = sector.1 })
      unfolding set_cluster_link_data
      set-failed e = ground (arith, v.mounted)

      module _ (bytes : List ℕ) (e : sector.0 ≡ some bytes) where
        abbrev changed : List ℕ
        changed = set_dword bytes (c % 128) d

        abbrev written : Bool × S
        written = ops.write sector.1 link_table (c / 128) changed

        set-written : set_cluster_link_data ops m c d ≡ (written.0, record m { blocks = written.1 })
        unfolding set_cluster_link_data
        set-written = ground (arith, v.mounted)

        write : IsWriteOf view sector.1 link_table (c / 128) changed written
        write = laws.writes sector.1 link_table (c / 128) changed read.good inside

        size : length bytes ≡ 512
        size = v.whole (c / 128) bytes inside (some_read bytes e)

        old_link : (a : ℕ) → a / 128 ≡ c / 128 → link m.blocks a ≡ some (dword_at bytes (a % 128))
        old_link a at = rw at (ap (λ o. dword_of o (a % 128)) (some_read bytes e))

        written_other : (a : ℕ) → IsCluster a → a ≢ c → link written.1 a ≡ link m.blocks a
        written_other a h ne = elim (Bool-cases (a / 128 == c / 128)) [
          | inr other ↦
              ap (λ o. dword_of o (a % 128))
                (write.same_others (a / 128) h (ground arith) ∙ read.same link_table (a / 128) h)
          | inl at ↦
              let same : a / 128 ≡ c / 128 = (==_iff (a / 128) (c / 128)).0 at in
              elim write.result [
                | inr failed ↦ rw same (
                    ap (λ o. dword_of o (a % 128))
                      (failed.1 ∙ read.same link_table (c / 128) inside))
                | inl ok ↦
                    let ne' : a % 128 ≢ c % 128 = λ q. ne (omega arith) in
                    rw same (
                      ap (λ o. dword_of o (a % 128)) ok.1
                      ∙ ap some (dword_at-set_dword_other bytes (c % 128) (a % 128) d ne')
                      ∙ ap (λ o. dword_of o (a % 128)) (sym (some_read bytes e)))
              ]
        ]

        written-IsMounted : IsMounted (record m { blocks = written.1 })
        written-IsMounted = record {
          mounted = v.mounted;
          good = write.good;
          whole = λ b new h f. elim (Bool-cases (b == c / 128)) [
            | inr other ↦
                v.whole b new h
                  (sym (read.same link_table b h) ∙ sym (write.same_others b h (ground arith)) ∙ f)
            | inl at ↦
                let same : b ≡ c / 128 = (==_iff b (c / 128)).0 at in
                elim write.result [
                  | inr failed ↦ v.whole b new h (
                      rw same (
                        sym (read.same link_table (c / 128) inside)
                        ∙ sym failed.1
                        ∙ (rw same at f)))
                  | inl ok ↦
                      let now : some changed ≡ some new = sym ok.1 ∙ (rw same at f) in
                      let now' : changed ≡ new = cc in
                      rw (← now') (length-set_dword bytes (c % 128) d ∙ size)
                ]
          ];
        }

        written-IsLinkWrite : IsLinkWrite m c d (written.0, record m { blocks = written.1 })
        written-IsLinkWrite = record {
          mounted = written-IsMounted;
          result = elim write.result [
            | inl ok ↦ inl (
              ok.0,
              ap (λ o. dword_of o (c % 128)) ok.1
                  ∙ ap some (dword_at-set_dword bytes (c % 128) d (omega (arith, size)) word),
            )
            | inr failed ↦ inr (
              failed.0,
              ap (λ o. dword_of o (c % 128)) (failed.1 ∙ read.same link_table (c / 128) inside),
            )
          ];
          same_links = written_other;
          same_clusters = λ b h.
              write.same_area data_area b data_area-ne-link_table h ∙ read.same data_area b h;
          frame = refl;
        }

      -- On a mounted volume whose blocks have the laws, at a cluster with a place in the link
      -- table, kSetClusterLinkData either stores the DWORD as the link of the cluster, or fails and
      -- leaves that link. Either way every other link and every cluster of data stays.
      pub set_cluster_link_data-IsLinkWrite : IsLinkWrite m c d (set_cluster_link_data ops m c d)
      set_cluster_link_data-IsLinkWrite = elim (Option-cases sector.0) [
        | inl failed ↦ rw (set-failed failed) (record {
          mounted = after_read;
          result = inr (refl, SameBlocks-link m.blocks sector.1 c read.same inside);
          same_links = λ a h ne. SameBlocks-link m.blocks sector.1 a read.same h;
          same_clusters = read.same data_area;
          frame = refl;
        })
        | inr (bytes, e) ↦ rw (set-written bytes e) (written-IsLinkWrite bytes e)
      ]
