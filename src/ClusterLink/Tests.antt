-- ===== src/ClusterLink/Tests.antt =====
-- The theorems on the link table at a volume of 200 clusters, in which a file has clusters 3, 5 and
-- 7.
use mintos.Base.{
  ℕ, ◌+◌, ◌*◌, ◌/◌, ◌%◌, ◌<◌, ◌≡◌, ◌≢◌, refl, sym, ap, ◌∙◌, inl, inr, Bool, true, Option, some,
  List, [], ◌∷◌, arith, ◌==◌, if◌then◌else◌, length, replicate, copy_at, dword_at, dword_bytes,
  set_dword, length-set_dword, Bool-cases, get_or, get_or-replicate,
}
use mintos.Volume.{link_table, Manager, last_cluster, free_cluster}
use mintos.Volume.Sample.{Contents, no_memory, sample_ops, sample_view, sample_laws}
use mintos.ClusterLink.{set_cluster_link_data, free_cluster_until_end, find_free_cluster}
use mintos.ClusterLink.Links.{link, IsMounted, IsLinkWrite, set_cluster_link_data-IsLinkWrite}
use mintos.ClusterLink.Chain.{Chain, IsFreed, free_cluster_until_end-IsFreed}
use mintos.ClusterLink.Free.{IsSized, IsSearched, searched_count, find_free_cluster-IsSearched}
use mintos.ClusterLink.Complete.{find_free_cluster-finds, find_free_cluster-misses}

abbrev blank : List ℕ
blank = replicate 512 0

abbrev sector : List ℕ
sector = set_dword (set_dword (set_dword blank 3 5) 5 7) 7 last_cluster

abbrev contents : Contents
contents k b = if b == 0 then sector else blank

abbrev volume : Manager Contents
volume = record {
  blocks = contents;
  mounted = true;
  cluster_link_area_size = 2;
  total_cluster_count = 200;
  last_allocated = 1;
  locks = 0;
  handle_pool = [];
  memory = no_memory;
}

sector_size : length sector ≡ 512
sector_size =
    length-set_dword (set_dword (set_dword blank 3 5) 5 7) 7 last_cluster
    ∙ length-set_dword (set_dword blank 3 5) 5 7
    ∙ length-set_dword blank 3 5

abbrev or_blank : Option (List ℕ) → List ℕ
or_blank (some bytes) = bytes
or_blank _ = blank

block_size : (b : ℕ) → length (contents link_table b) ≡ 512
block_size b = elim (Bool-cases (b == 0)) [ inl e ↦ rw e sector_size | inr e ↦ rw e refl ]

volume-IsMounted : IsMounted sample_ops sample_view volume
volume-IsMounted = record {
  mounted = refl;
  good = tt;
  whole = λ b bytes h e. ap (λ o. length (or_blank o)) (sym e) ∙ block_size b;
}

set_cluster_link_data-IsLinkWrite_example :
    IsLinkWrite sample_ops sample_view volume 9 11 (set_cluster_link_data sample_ops volume 9 11)
set_cluster_link_data-IsLinkWrite_example =
    set_cluster_link_data-IsLinkWrite sample_ops sample_view sample_laws volume 9 volume-IsMounted
      (omega arith) 11 (omega arith)

chain : Chain sample_ops sample_view contents 3 (3 ∷ 5 ∷ 7 ∷ [])
unfolding dword_at dword_bytes set_dword copy_at
chain = (
  refl,
  ground arith,
  omega arith,
  (
    5,
    refl,
    (
      refl,
      ground arith,
      omega arith,
      (7, refl, (refl, ground arith, omega arith, (last_cluster, refl, refl))),
    ),
  ),
)

free_cluster_until_end-IsFreed_example :
    (r : Bool × Manager Contents) × (free_cluster_until_end sample_ops 4 volume 3 ≡ some r)
    × IsFreed sample_ops sample_view volume (3 ∷ 5 ∷ 7 ∷ []) r
free_cluster_until_end-IsFreed_example =
    free_cluster_until_end-IsFreed sample_ops sample_view sample_laws (3 ∷ 5 ∷ 7 ∷ []) 4 volume 3
      (omega arith) volume-IsMounted (refl, (refl, (refl, tt))) chain

volume-IsSized : IsSized sample_ops sample_view volume
volume-IsSized = record {
  inside = λ b h. omega arith;
  small = omega arith;
  enough = omega arith;
  needed = omega arith;
  start = omega arith;
}

find_free_cluster-IsSearched_example :
    IsSearched sample_ops sample_view volume (find_free_cluster sample_ops volume)
find_free_cluster-IsSearched_example =
    find_free_cluster-IsSearched sample_ops sample_view sample_laws volume volume-IsSized
      volume-IsMounted

free_link : link sample_ops sample_view contents 4 ≡ some free_cluster
unfolding dword_at dword_bytes set_dword copy_at
free_link = refl

find_free_cluster-finds_example :
    ((find_free_cluster sample_ops volume).0 < searched_count sample_ops sample_view volume)
    × (link sample_ops sample_view contents (find_free_cluster sample_ops volume).0
        ≡ some free_cluster)
find_free_cluster-finds_example =
    find_free_cluster-finds sample_ops sample_view sample_laws volume volume-IsSized
      volume-IsMounted (λ s b g h e. absurd (ground (arith, e))) 4 (omega arith) free_link

-- A volume of 256 clusters whose first 128 are taken.
abbrev taken_sector : List ℕ
taken_sector = replicate 512 255

abbrev half_full : Manager Contents
half_full = record volume {
  blocks = λ k b. if b == 0 then taken_sector else blank;
  total_cluster_count = 256;
}

taken : (a : ℕ) → a + 128 < 256 → link sample_ops sample_view half_full.blocks a ≢ some free_cluster
unfolding dword_at
taken a h e =
    let low : a / 128 ≡ 0 = omega (arith, h) in
    let here : link sample_ops sample_view half_full.blocks a
        ≡ some (dword_at taken_sector (a % 128)) =
      rw low refl in
    let zeroed : some (dword_at taken_sector (a % 128)) ≡ some free_cluster = sym here ∙ e in
    let none_left : dword_at taken_sector (a % 128) ≡ free_cluster = cc in
    let byte : get_or taken_sector (4 * (a % 128) + 0) 0 ≡ 255 =
      get_or-replicate 512 (4 * (a % 128) + 0) 255 0 (omega arith) in
    omega (arith, none_left, byte)

half_full-IsMounted : IsMounted sample_ops sample_view half_full
half_full-IsMounted = record {
  mounted = refl;
  good = tt;
  whole = λ b bytes h e.
      ap (λ o. length (or_blank o)) (sym e)
      ∙ elim (Bool-cases (b == 0)) [ inl z ↦ rw z refl | inr z ↦ rw z refl ];
}

half_full-IsSized : IsSized sample_ops sample_view half_full
half_full-IsSized = record {
  inside = λ b h. omega arith;
  small = omega arith;
  enough = omega arith;
  needed = omega arith;
  start = omega arith;
}

find_free_cluster-misses_example : (find_free_cluster sample_ops half_full).0 ≡ last_cluster
find_free_cluster-misses_example =
    find_free_cluster-misses sample_ops sample_view sample_laws half_full half_full-IsSized
      half_full-IsMounted refl taken
