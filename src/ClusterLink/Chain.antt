-- ===== src/ClusterLink/Chain.antt =====
-- kFreeClusterUntilEnd on the chain of a file.
use mintos.Base.{
  ℕ, zero, suc, ◌<◌, ◌≡◌, ◌≢◌, ◌⊎◌, inl, inr, refl, ap, sym, ◌∙◌, subst, Bool, true, false, Option,
  none, some, List, [], ◌∷◌, arith, ◌==◌, length, has, Distinct, Bool-cases, Option-cases, ==_iff,
  ==_self,
}
use mintos.Volume.{data_area, BlockOps, Manager, last_cluster, free_cluster}
use mintos.Volume.View.{BlockView, BlockLaws}
use mintos.ClusterLink.{set_cluster_link_data, get_cluster_link_data, free_cluster_until_end}
use mintos.ClusterLink.Links.{
  link, IsCluster, IsMounted, IsLinkRead, IsLinkWrite, SameBlocks-link,
  get_cluster_link_data-IsLinkRead, set_cluster_link_data-IsLinkWrite,
}

module _ {S : Type 0} (ops : BlockOps S) (view : BlockView S) where
  open view use {IsGood, IsInside, shown}

  -- The links lead from `c` through the clusters of the list to the end mark.
  abbrev pub Chain : S → ℕ → List ℕ → Type 0
  Chain s c [] = c ≡ last_cluster
  Chain s c (x ∷ xs) =
      (c ≡ x)
      × (x ≢ last_cluster)
      × IsCluster ops view x
      × ((n : ℕ) × (link ops view s x ≡ some n) × Chain s n xs)

  pub Chain-same :
      (s t : S) (c : ℕ) (xs : List ℕ)
      → ((a : ℕ) → IsCluster ops view a → has a xs ≡ true → link ops view t a ≡ link ops view s a)
      → Chain s c xs
      → Chain t c xs
  Chain-same s t c [] same h = h
  Chain-same s t c (x ∷ xs) same h = (
    h.0,
    h.1,
    h.2,
    (
      h.3.0,
      same x h.2 (rw (==_self x) refl) ∙ h.3.1,
      Chain-same s t h.3.0 xs (λ a i m. same a i (ground (arith, m))) h.3.2,
    ),
  )

  -- What freeing the chain `cs` comes to. A failure stops it on the way, with only links of the
  -- chain freed.
  pub record IsFreed (m : Manager S) (cs : List ℕ) (r : Bool × Manager S) : Type 0 where
    pub mounted : IsMounted ops view r.1
    pub freed :
        r.0 ≡ true → (a : ℕ) → has a cs ≡ true → link ops view r.1.blocks a ≡ some free_cluster
    pub links :
        (a : ℕ)
        → IsCluster ops view a
        → (link ops view r.1.blocks a ≡ link ops view m.blocks a)
          ⊎ ((has a cs ≡ true) × (link ops view r.1.blocks a ≡ some free_cluster))
    pub same_clusters :
        (b : ℕ) → IsInside data_area b → shown r.1.blocks data_area b ≡ shown m.blocks data_area b

  module _ (laws : BlockLaws view ops) where
    module _ (m : Manager S) (c n : ℕ) (xs : List ℕ) (v : IsMounted ops view m)
        (inside : IsCluster ops view c) (no_last : c ≢ last_cluster) (fresh : has c xs ≡ false)
        (next : link ops view m.blocks c ≡ some n) (chain : Chain m.blocks n xs) where
      abbrev got : Option ℕ × Manager S
      got = get_cluster_link_data ops m c

      g : IsLinkRead ops view m c got
      g = get_cluster_link_data-IsLinkRead ops view laws m c v inside

      abbrev cleared : Bool × Manager S
      cleared = set_cluster_link_data ops got.1 c free_cluster

      w : IsLinkWrite ops view got.1 c free_cluster cleared
      w =
          set_cluster_link_data-IsLinkWrite ops view laws got.1 c g.mounted inside free_cluster
            (omega arith)

      cleared_other :
          (a : ℕ)
          → IsCluster ops view a
          → a ≢ c
          → link ops view cleared.1.blocks a ≡ link ops view m.blocks a
      cleared_other a h ne =
          w.same_links a h ne ∙ SameBlocks-link ops view m.blocks got.1.blocks a g.same h

      cleared_clusters :
          (b : ℕ)
          → IsInside data_area b
          → shown cleared.1.blocks data_area b ≡ shown m.blocks data_area b
      cleared_clusters b h = w.same_clusters b h ∙ g.same data_area b h

      cleared-Chain : Chain cleared.1.blocks n xs
      cleared-Chain =
          Chain-same m.blocks cleared.1.blocks n xs
            (λ a i h. cleared_other a i (λ e.
              absurd (let contra : true ≡ false = sym h ∙ (rw e fresh) in ground (arith, contra))))
            chain

      unread : IsFreed m (c ∷ xs) (false, got.1)
      unread = record {
        mounted = g.mounted;
        freed = λ e. absurd (ground (arith, e));
        links = λ a h. inl (SameBlocks-link ops view m.blocks got.1.blocks a g.same h);
        same_clusters = g.same data_area;
      }

      unwritten : cleared.0 ≡ false → IsFreed m (c ∷ xs) (false, cleared.1)
      unwritten failed = record {
        mounted = w.mounted;
        freed = λ e. absurd (ground (arith, e));
        links = λ a h. elim (Bool-cases (a == c)) [
          | inr other ↦ inl (cleared_other a h (ground arith))
          | inl at ↦
              let same : a ≡ c = (==_iff a c).0 at in
              elim w.result [
                | inl ok ↦
                    absurd (let contra : true ≡ false = sym ok.0 ∙ failed in ground (arith, contra))
                | inr kept ↦
                    rw same (
                      inl (kept.1 ∙ SameBlocks-link ops view m.blocks got.1.blocks c g.same inside))
              ]
        ];
        same_clusters = cleared_clusters;
      }

      went_on :
          cleared.0 ≡ true → (r : Bool × Manager S) → IsFreed cleared.1 xs r → IsFreed m (c ∷ xs) r
      went_on ok r f = record {
        mounted = f.mounted;
        freed = λ e a h. elim (Bool-cases (a == c)) [
          | inr other ↦ f.freed e a (ground (arith, h, other))
          | inl at ↦
              let same : a ≡ c = (==_iff a c).0 at in
              rw same (elim (f.links c inside) [ inl l ↦ l ∙ c_cleared ok | inr l ↦ l.1 ])
        ];
        links = λ a h. elim (f.links a h) [
          | inr l ↦ inr (ground (arith, l.0), l.1)
          | inl l ↦ elim (Bool-cases (a == c)) [
            | inr other ↦ inl (l ∙ cleared_other a h (ground arith))
            | inl at ↦
                let same : a ≡ c = (==_iff a c).0 at in inr (rw at refl, l ∙ rw same (c_cleared ok))
          ]
        ];
        same_clusters = λ b h. f.same_clusters b h ∙ cleared_clusters b h;
      }
        where
          c_cleared : cleared.0 ≡ true → link ops view cleared.1.blocks c ≡ some free_cluster
          c_cleared t = elim w.result [
            | inl l ↦ l.1
            | inr l ↦ absurd (let contra : true ≡ false = sym t ∙ l.0 in ground (arith, contra))
          ]

      got_next : (k : ℕ) → got.0 ≡ some k → k ≡ n
      got_next k e = elim g.result [
        | inl failed ↦
            absurd (let contra : none ≡ some k = sym failed ∙ e in ground (arith, contra))
        | inr same ↦ let now : some k ≡ some n = sym e ∙ same ∙ next in cc
      ]

      step-failed :
          (fuel : ℕ)
          → got.0 ≡ none
          → free_cluster_until_end ops (suc fuel) m c ≡ some (false, got.1)
      unfolding free_cluster_until_end
      step-failed fuel e = ground (arith, no_last)

      step-unwritten :
          (fuel k : ℕ)
          → got.0 ≡ some k
          → cleared.0 ≡ false
          → free_cluster_until_end ops (suc fuel) m c ≡ some (false, cleared.1)
      unfolding free_cluster_until_end
      step-unwritten fuel k e f = ground (arith, no_last)

      step-on :
          (fuel k : ℕ)
          → got.0 ≡ some k
          → cleared.0 ≡ true
          → free_cluster_until_end ops (suc fuel) m c ≡ free_cluster_until_end ops fuel cleared.1 k
      unfolding free_cluster_until_end
      step-on fuel k e f = ground (arith, no_last)

    at_end :
        (fuel : ℕ) (m : Manager S) (c : ℕ)
        → c ≡ last_cluster
        → free_cluster_until_end ops (suc fuel) m c ≡ some (true, m)
    unfolding free_cluster_until_end
    at_end fuel m c e = ground arith

    -- On the chain of distinct clusters from `c`, with fuel for its length, kFreeClusterUntilEnd
    -- returns. If it returns TRUE, every cluster of the chain is free. In any case a link that is
    -- not of the chain stays, a link of the chain stays or is free, and every cluster of data
    -- stays.
    pub free_cluster_until_end-IsFreed :
        (cs : List ℕ) (fuel : ℕ) (m : Manager S) (c : ℕ)
        → length cs < fuel
        → IsMounted ops view m
        → Distinct cs
        → Chain m.blocks c cs
        → (r : Bool × Manager S) × (free_cluster_until_end ops fuel m c ≡ some r) × IsFreed m cs r
    free_cluster_until_end-IsFreed cs zero m c f v d h = absurd (omega arith)
    free_cluster_until_end-IsFreed [] (suc fuel) m c f v d h = (
      (true, m),
      at_end fuel m c h,
      record {
        mounted = v;
        freed = λ e a i. absurd (ground (arith, i));
        links = λ a i. inl refl;
        same_clusters = λ b i. refl;
      },
    )
    free_cluster_until_end-IsFreed (x ∷ xs) (suc fuel) m c f v d h =
        let n = h.3.0 in
        let next = h.3.1 in
        let chain = h.3.2 in
        let s = cleared m x n xs v h.2 h.1 d.0 next chain in
        subst
          (λ z.
            (r : Bool × Manager S) × (free_cluster_until_end ops (suc fuel) m z ≡ some r)
            × IsFreed m (x ∷ xs) r)
          (sym h.0)
          (elim (Option-cases (got m x n xs v h.2 h.1 d.0 next chain).0) [
            | inl e ↦ (
              _,
              step-failed m x n xs v h.2 h.1 d.0 next chain fuel e,
              unread m x n xs v h.2 h.1 d.0 next chain,
            )
            | inr (k, e) ↦ elim (Bool-cases s.0) [
              | inr e' ↦ (
                _,
                step-unwritten m x n xs v h.2 h.1 d.0 next chain fuel k e e',
                unwritten m x n xs v h.2 h.1 d.0 next chain e',
              )
              | inl e' ↦
                  let at : k ≡ n = got_next m x n xs v h.2 h.1 d.0 next chain k e in
                  let rest =
                    free_cluster_until_end-IsFreed xs fuel s.1 n (omega arith)
                      (w m x n xs v h.2 h.1 d.0 next chain).mounted d.1
                      (cleared-Chain m x n xs v h.2 h.1 d.0 next chain) in
                  (
                    rest.0,
                    step-on m x n xs v h.2 h.1 d.0 next chain fuel k e e'
                        ∙ ap (λ z. free_cluster_until_end ops fuel s.1 z) at
                        ∙ rest.1,
                    went_on m x n xs v h.2 h.1 d.0 next chain e' rest.0 rest.2,
                  )
            ]
          ])
