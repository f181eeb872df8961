-- ===== src/FileAccess/Read.antt =====
-- What kReadFile reads: the bytes of the clusters that the chain leads through.
use mintos.Base.{
  sub32, ℕ, zero, suc, ◌+◌, ◌-◌, ◌*◌, ◌/◌, ◌%◌, ◌^◌, ◌<◌, ◌≤◌, ◌≡◌, ◌≢◌, inl, inr, refl, ap, sym,
  subst, ◌∙◌, some, List, [], ◌∷◌, append-nil, arith, length, length-append, take, drop,
  Option-cases, get_or, get_or-set_self,
}
use mintos.Volume.{
  BlockOps, FileHandle, File, Manager, returns, last_cluster, cluster_size, min_of, lock,
}
use mintos.Volume.View.{BlockView, BlockLaws, SameBlocks}
use mintos.ClusterLink.Links.{IsMounted}
use mintos.FileAccess.{Transfer, read_loop, read_at, read_file, finish}
use mintos.FileAccess.Extent.{
  concat, Extent, NeverFails, IsOn, IsReadOn, link-IsOn, loop-done, loop-break, loop-on,
}
use mintos.FileAccess.Round.{
  n, block, with_blocks, with_blocks-IsOn, copied, next_link, moved_to, n-cases, n_pos,
  round-failed, round-copied, block-some, count_lem, offset_lem, advance-inside, advance-unlinked,
  advance-linked, link-some, moved_to-offset, unlinked-IsReadOn, linked-IsReadOn, failed-IsReadOn,
  inside-IsReadOn,
}

module _ {S : Type 0} (ops : BlockOps S) (view : BlockView S) where
  open view use {IsGood, IsInside, shown}

  module _ (laws : BlockLaws view ops) (m : Manager S) where
    -- The loop returns with fuel above the bytes to read.
    pub read_loop-IsReadOn :
        (fuel total wanted : ℕ) (t : Transfer S) (bss : List (List ℕ))
        → wanted < fuel
        → IsOn ops view laws m t.manager
        → Extent ops view m.blocks m.cluster_link_area_size t.handle.current_cluster_index bss
        → t.count + wanted ≡ total
        → total < 2 ^ 32
        → t.handle.current_offset + wanted < 2 ^ 32
        → t.handle.current_offset % cluster_size + wanted ≤ length (concat bss)
        → (r : Transfer S) × (read_loop ops fuel total t ≡ some r)
          × IsReadOn ops view laws m
              (drop (t.handle.current_offset % cluster_size) (concat bss))
              wanted
              t
              r
    read_loop-IsReadOn zero total wanted t bss f o x l s w c = absurd (omega arith)
    read_loop-IsReadOn (suc fuel) total zero t bss f o x l s w c = (
      t,
      loop-done ops view laws m fuel total t (omega (arith, l)),
      record {
        moved = 0;
        le = omega arith;
        bytes = sym (append-nil t.bytes);
        count = omega arith;
        offset = omega arith;
        manager = o;
        all = λ never. refl;
      },
    )
    read_loop-IsReadOn (suc fuel) total (suc wanted) t [] f o x l s w c = absurd (omega (arith, c))
    read_loop-IsReadOn (suc zero) total (suc wanted) t (bytes ∷ bs) f o x l s w c =
        absurd (omega (arith, f))
    read_loop-IsReadOn (suc (suc fuel)) total (suc wanted) t (bytes ∷ bs) f o x l s w c =
        let ne : t.count ≢ total = λ e. omega (arith, e, l) in
        let g = copied ops view laws m total wanted t bytes bs o x l s w in
        elim (Option-cases (block ops view laws m total wanted t bytes bs o x l s w).0) [
          | inl e ↦ (
            _,
            loop-break ops view laws m (suc fuel) total t _ ne
                (round-failed ops view laws m total wanted t bytes bs o x l s w e),
            failed-IsReadOn ops view laws m total wanted t bytes bs o x l s w e,
          )
          | inr (b, e) ↦
              let round =
                round-copied ops view laws m total wanted t bytes bs o x l s w b e
                  (block-some ops view laws m total wanted t bytes bs o x l s w b e) in
              elim (n-cases ops view laws m total wanted t bytes bs o x l s w) [
                | inl p ↦ (
                  g,
                  loop-on ops view laws m (suc fuel) total t g ne (
                        round
                        ∙ advance-inside ops view laws m total wanted t bytes bs o x l s w
                            (omega (arith, p.0, p.1)))
                      ∙ loop-done ops view laws m fuel total g (
                          omega (
                            arith,
                            count_lem ops view laws m total wanted t bytes bs o x l s w,
                            p.0,
                            l,
                          )),
                  inside-IsReadOn ops view laws m total wanted t bytes bs o x l s w p.0 p.1,
                )
                | inr p ↦
                    elim (Option-cases
                      (next_link ops view laws m total wanted t bytes bs o x l s w).0) [
                        | inl u ↦ (
                          _,
                          loop-break ops view laws m (suc fuel) total t _ ne (
                              round
                              ∙ advance-unlinked ops view laws m total wanted t bytes bs o x l s w
                                  p.0 u),
                          unlinked-IsReadOn ops view laws m total wanted t bytes bs o x l s w p.0 u,
                        )
                        | inr (next, u) ↦
                            let k = n ops view laws m total wanted t bytes bs o x l s w in
                            let t' =
                              moved_to ops view laws m total wanted t bytes bs o x l s w next in
                            let zeroed =
                              moved_to-offset ops view laws m total wanted t bytes bs o x l s w p.0
                                next in
                            let at =
                              link-some ops view laws m total wanted t bytes bs o x l s w p.0 next
                                u in
                            let offset' =
                              offset_lem ops view laws m total wanted t bytes bs o x l s w in
                            let rest =
                              read_loop-IsReadOn (suc fuel) total (suc wanted - k) t' bs
                                (omega (
                                  arith,
                                  n_pos ops view laws m total wanted t bytes bs o x l s w,
                                  f,
                                ))
                                (link-IsOn ops view laws m
                                  (with_blocks ops view laws m total wanted t bytes bs o x l s w)
                                  t.handle.current_cluster_index
                                  (with_blocks-IsOn ops view laws m total wanted t bytes bs o x l s
                                    w)
                                  x.1)
                                (subst (λ z. Extent ops view m.blocks m.cluster_link_area_size z bs)
                                  (sym at) x.5.2)
                                (omega (
                                  arith,
                                  count_lem ops view laws m total wanted t bytes bs o x l s w,
                                  p.1,
                                  l,
                                ))
                                s (omega (arith, offset', p.1, w))
                                (omega (
                                  arith,
                                  zeroed,
                                  c,
                                  length-append bytes (concat bs),
                                  x.4,
                                  p.0,
                                  p.1,
                                )) in
                            (
                              rest.0,
                              loop-on ops view laws m (suc fuel) total t t' ne (
                                    round
                                    ∙ advance-linked ops view laws m total wanted t bytes bs o x l s
                                        w p.0 next u)
                                  ∙ rest.1,
                              linked-IsReadOn ops view laws m total wanted t bytes bs o x l s w p.0
                                  next rest.0
                                  (subst
                                    (λ z.
                                      IsReadOn ops view laws m (drop z (concat bs)) (suc wanted - k)
                                        t' rest.0)
                                    zeroed rest.2),
                            )
                      ]
              ]
        ]

  -- What kReadFile comes to at the handle `i`, where `content` is what its chain shows from its
  -- offset on, and `total` the bytes that are asked for and there.
  pub record HasRead (m : Manager S) (i : ℕ) (h : FileHandle) (content : List ℕ) (total size : ℕ)
      (r : ℕ × List ℕ × Manager S) : Type 0 where
    pub moved : ℕ
    pub le : moved ≤ total
    pub all : NeverFails ops view → moved ≡ total
    pub returned : r.0 ≡ moved / size
    pub bytes : r.1 ≡ take moved content
    pub handle : FileHandle
    pub put_back : get_or r.2.handle_pool i File.free ≡ File.file handle
    pub offset : handle.current_offset ≡ h.current_offset + moved
    pub mounted : IsMounted ops view r.2
    pub same : SameBlocks view m.blocks r.2.blocks
    pub locks : r.2.locks ≡ m.locks

  module _ (laws : BlockLaws view ops) (m : Manager S) (v : IsMounted ops view m) (i : ℕ)
      (h : FileHandle) (here : get_or m.handle_pool i File.free ≡ File.file h)
      (there : i < length m.handle_pool) (size count : ℕ) (bss : List (List ℕ)) where
    abbrev asked : ℕ
    asked = min_of (size * count % 2 ^ 32) (sub32 h.file_size h.current_offset)

    abbrev from : Transfer S
    from = record { manager = lock m; handle = h; count = 0; bytes = [] }

    lock-IsOn : IsOn ops view laws (lock m) (lock m)
    lock-IsOn = record {
      mounted = record { mounted = v.mounted; good = v.good; whole = v.whole };
      same = λ k b inside. refl;
      frame = refl;
    }

    read_file-runs :
        (fuel : ℕ) (t : Transfer S)
        → size ≢ 0
        → h.current_offset ≢ h.file_size
        → h.current_cluster_index ≢ last_cluster
        → read_loop ops fuel asked from ≡ some t
        → read_file ops fuel m (some i) size count
          ≡ returns (t.count / size, t.bytes, finish ops t.manager i t.handle)
    unfolding read_file read_at
    read_file-runs fuel t nz ne nl e = rw here (ground (arith, nz, ne, nl))

    module _ (t : Transfer S)
        (q : IsReadOn ops view laws
          (lock m)
          (drop (h.current_offset % cluster_size) (concat bss))
          asked
          from
          t)
        (few : m.locks + 1 < 2 ^ 32) where
      pool : t.manager.handle_pool ≡ m.handle_pool
      pool = ap (λ (x : Manager S). x.handle_pool) q.manager.frame

      read_file-HasRead_at :
          HasRead m i h
            (drop (h.current_offset % cluster_size) (concat bss))
            asked
            size
            (t.count / size, t.bytes, finish ops t.manager i t.handle)
      read_file-HasRead_at = record {
        moved = q.moved;
        le = q.le;
        all = q.all;
        returned = ap (λ z. z / size) (q.count ∙ omega arith);
        bytes = q.bytes;
        handle = t.handle;
        put_back =
            get_or-set_self t.manager.handle_pool i (File.file t.handle) File.free
              (omega (arith, there, ap length pool));
        offset = q.offset;
        mounted = record {
          mounted = q.manager.mounted.mounted;
          good = q.manager.mounted.good;
          whole = q.manager.mounted.whole;
        };
        same = q.manager.same;
        locks = ap (λ (x : Manager S). x.locks - 1) q.manager.frame ∙ omega (arith, few);
      }

    -- The same wherever the offset is, if the bytes asked for do not pass 2 ^ 32.
    pub read_file-HasRead_from :
        (fuel : ℕ)
        → size ≢ 0
        → h.current_offset ≢ h.file_size
        → h.current_offset + asked < 2 ^ 32
        → h.current_cluster_index ≢ last_cluster
        → asked < fuel
        → Extent ops view m.blocks m.cluster_link_area_size h.current_cluster_index bss
        → h.current_offset % cluster_size + asked ≤ length (concat bss)
        → m.locks + 1 < 2 ^ 32
        → (r : ℕ × List ℕ × Manager S) × (read_file ops fuel m (some i) size count ≡ returns r)
          × HasRead m i h (drop (h.current_offset % cluster_size) (concat bss)) asked size r
    read_file-HasRead_from fuel nz ne rest nl f x c few =
        let l =
          read_loop-IsReadOn laws (lock m) fuel asked asked from bss f lock-IsOn x (omega arith)
            (ground arith) rest c in
        (_, read_file-runs fuel l.0 nz ne nl l.1, read_file-HasRead_at l.0 l.2 few)

    -- kReadFile on a mounted volume whose blocks have the laws, at an open file whose chain shows
    -- the clusters `bss` from its current cluster on, enough for the bytes that are asked for and
    -- there, with its offset before its end and its size below 2 ^ 32: if an item has a size and
    -- the mutex is locked fewer than 2 ^ 32 - 1 times, it returns with fuel above these bytes. It
    -- reads the bytes that the chain shows from the offset on, all of them if no device read fails
    -- and else the first ones; it returns their number divided by the size of an item. The handle
    -- moves on by that number, no block changes, and the mutex is given back.
    pub read_file-HasRead :
        (fuel : ℕ)
        → size ≢ 0
        → h.current_offset < h.file_size
        → h.file_size < 2 ^ 32
        → h.current_cluster_index ≢ last_cluster
        → asked < fuel
        → Extent ops view m.blocks m.cluster_link_area_size h.current_cluster_index bss
        → h.current_offset % cluster_size + asked ≤ length (concat bss)
        → m.locks + 1 < 2 ^ 32
        → (r : ℕ × List ℕ × Manager S) × (read_file ops fuel m (some i) size count ≡ returns r)
          × HasRead m i h (drop (h.current_offset % cluster_size) (concat bss)) asked size r
    read_file-HasRead fuel nz lt small nl f x c few =
        read_file-HasRead_from fuel nz (λ e. omega (arith, e, lt)) (ground arith) nl f x c few
