-- ===== src/FileAccess/Round.antt =====
-- A round of the loop of kReadFile, along the clusters that the chain leads through.
use mintos.Base.{
  sub32, ℕ, suc, ◌+◌, ◌-◌, ◌/◌, ◌%◌, ◌^◌, ◌<◌, ◌≤◌, ◌≡◌, ◌≢◌, ◌⊎◌, inl, inr, refl, ap, sym, ◌∙◌,
  true, false, Option, none, some, List, ◌∷◌, ◌++◌, append-nil, append_assoc, arith, ◌==◌, take,
  drop, take-drop-append_within, take-drop-append_across,
}
use mintos.Volume.{link_table, data_area, BlockOps, FileHandle, Manager, cluster_size}
use mintos.Volume.View.{BlockView, BlockLaws}
use mintos.ClusterLink.{get_cluster_link_data}
use mintos.ClusterLink.Links.{
  SameBlocks-link, get_cluster_link_data-IsLinkRead, get_cluster_link_data-ne-none,
}
use mintos.FileAccess.{Transfer, copy_size, moved_on, advance, read_round}
use mintos.FileAccess.Extent.{concat, Extent, IsOn, IsReadOn, read-IsOn, link-IsOn}

module _ {S : Type 0} (ops : BlockOps S) (view : BlockView S) where
  open view use {IsGood, IsInside, shown}

  module _ (laws : BlockLaws view ops) (m : Manager S) where
    module _ (total wanted : ℕ) (t : Transfer S) (bytes : List ℕ) (bs : List (List ℕ))
        (o : IsOn ops view laws m t.manager)
        (extent : Extent ops view m.blocks m.cluster_link_area_size t.handle.current_cluster_index
          (bytes ∷ bs))
        (left : t.count + suc wanted ≡ total) (small : total < 2 ^ 32)
        (no_wrap : t.handle.current_offset + suc wanted < 2 ^ 32) where
      abbrev pub h : FileHandle
      h = t.handle

      abbrev pub in_cluster : ℕ
      in_cluster = h.current_offset % cluster_size

      abbrev pub n : ℕ
      n = copy_size h.current_offset (sub32 total t.count)

      abbrev pub block : Option (List ℕ) × S
      block = ops.read t.manager.blocks data_area h.current_cluster_index

      abbrev pub with_blocks : Manager S
      with_blocks = record t.manager { blocks = block.1 }

      pub with_blocks-IsOn : IsOn ops view laws m with_blocks
      with_blocks-IsOn =
          read-IsOn ops view laws m t.manager data_area h.current_cluster_index o extent.0

      -- The state after the copy.
      abbrev pub copied : Transfer S
      copied =
          moved_on ops
            (record t { manager = with_blocks; bytes = t.bytes ++ take n (drop in_cluster bytes) })
            n

      abbrev pub next_link : Option ℕ × Manager S
      next_link = get_cluster_link_data ops with_blocks h.current_cluster_index

      abbrev pub moved_to : ℕ → Transfer S
      moved_to next = record copied {
        manager = next_link.1;
        handle = record copied.handle {
          previous_cluster_index = h.current_cluster_index;
          current_cluster_index = next;
        };
      }

      left_lem : sub32 total t.count ≡ suc wanted
      left_lem = omega (arith, left, small)

      pub n-cases :
          ((n ≡ suc wanted) × (in_cluster + suc wanted < cluster_size))
          ⊎ ((in_cluster + n ≡ cluster_size) × (n ≤ suc wanted))
      n-cases = ground (arith, left_lem)

      pub n_pos : 0 < n
      n_pos = ground (arith, left_lem)

      n-le : n ≤ suc wanted
      n-le = ground (arith, left_lem)

      pub round-failed :
          block.0 ≡ none → read_round ops total t ≡ (false, record t { manager = with_blocks })
      unfolding read_round
      round-failed e = rw (e, read_round) refl

      pub round-copied :
          (b : List ℕ) → block.0 ≡ some b → b ≡ bytes → read_round ops total t ≡ advance ops copied
      unfolding read_round
      round-copied b e same = rw (← same) (rw (e, read_round) refl)

      pub block-some : (b : List ℕ) → block.0 ≡ some b → b ≡ bytes
      block-some b e =
          let r =
            laws.reads t.manager.blocks data_area h.current_cluster_index o.mounted.good extent.0 in
          elim r.result [
            | inl failed ↦
                absurd (let contra : none ≡ some b = sym failed ∙ e in ground (arith, contra))
            | inr shows ↦
                let now : some b ≡ some bytes =
                  sym e ∙ shows ∙ o.same data_area h.current_cluster_index extent.0 ∙ extent.3 in
                cc
          ]

      pub count_lem : copied.count ≡ t.count + n
      count_lem = omega (arith, left, small, n-le)

      pub offset_lem : copied.handle.current_offset ≡ h.current_offset + n
      offset_lem = omega (arith, no_wrap, n-le)

      pub advance-inside : in_cluster + n < cluster_size → advance ops copied ≡ (true, copied)
      unfolding advance
      advance-inside l =
          let out : (h.current_offset + n) % cluster_size ≢ 0 = λ z. omega (arith, l, z, n_pos) in
          rw offset_lem (ground (arith, out))

      module _ (whole : in_cluster + n ≡ cluster_size) where
        at_boundary : (copied.handle.current_offset % cluster_size == 0) ≡ true
        at_boundary =
            let e : (h.current_offset + n) % cluster_size ≡ 0 = omega (arith, whole) in
            rw offset_lem (ground (arith, e))

        pub advance-unlinked :
            next_link.0 ≡ none
            → advance ops copied ≡ (false, record copied { manager = next_link.1 })
        unfolding advance
        advance-unlinked e = ground (arith, at_boundary)

        pub advance-linked :
            (next : ℕ) → next_link.0 ≡ some next → advance ops copied ≡ (true, moved_to next)
        unfolding advance
        advance-linked next e = ground (arith, at_boundary)

        pub link-some : (next : ℕ) → next_link.0 ≡ some next → next ≡ extent.5.0
        link-some next e =
            let r =
              get_cluster_link_data-IsLinkRead ops view laws with_blocks h.current_cluster_index
                with_blocks-IsOn.mounted extent.1 in
            elim r.result [
              | inl failed ↦
                  absurd (let contra : none ≡ some next = sym failed ∙ e in ground (arith, contra))
              | inr shows ↦
                  let now : some next ≡ some extent.5.0 =
                    sym e
                    ∙ shows
                    ∙ SameBlocks-link ops view m.blocks block.1 h.current_cluster_index
                        with_blocks-IsOn.same extent.1
                    ∙ extent.5.1 in
                  cc
            ]

        pub moved_to-offset : (next : ℕ) → (moved_to next).handle.current_offset % cluster_size ≡ 0
        moved_to-offset next = omega (arith, offset_lem, whole)

        pub unlinked-IsReadOn :
            next_link.0 ≡ none
            → IsReadOn ops view laws m
                (drop in_cluster (bytes ++ concat bs))
                (suc wanted)
                t
                (record copied { manager = next_link.1 })
        unlinked-IsReadOn e = record {
          moved = n;
          le = n-le;
          bytes =
              ap (λ l. t.bytes ++ l)
                (sym (
                  take-drop-append_within bytes (concat bs) n in_cluster
                    (omega (arith, whole, extent.4))));
          count = count_lem;
          offset = offset_lem;
          manager =
              link-IsOn ops view laws m with_blocks h.current_cluster_index with_blocks-IsOn
                extent.1;
          all = λ never. absurd (
              get_cluster_link_data-ne-none ops view laws with_blocks h.current_cluster_index
                with_blocks-IsOn.mounted extent.1
                (omega (arith, extent.2, ap (λ (x : Manager S). x.cluster_link_area_size) o.frame))
                (never block.1 link_table (h.current_cluster_index / 128)
                  with_blocks-IsOn.mounted.good extent.1)
                e);
        }

        pub linked-IsReadOn :
            (next : ℕ) (r : Transfer S)
            → IsReadOn ops view laws m (concat bs) (suc wanted - n) (moved_to next) r
            → IsReadOn ops view laws m (drop in_cluster (bytes ++ concat bs)) (suc wanted) t r
        linked-IsReadOn next r q = record {
          moved = n + q.moved;
          le = omega (arith, q.le, n-le);
          bytes =
              q.bytes
              ∙ append_assoc t.bytes (take n (drop in_cluster bytes)) (take q.moved (concat bs))
              ∙ ap (λ l. t.bytes ++ l)
                  (sym (
                    take-drop-append_across bytes (concat bs) n in_cluster q.moved
                      (omega (arith, whole, extent.4))));
          count = omega (arith, q.count, count_lem);
          offset = omega (arith, q.offset, offset_lem);
          manager = q.manager;
          all = λ never. omega (arith, q.all never, n-le);
        }

      pub failed-IsReadOn :
          block.0 ≡ none
          → IsReadOn ops view laws m
              (drop in_cluster (bytes ++ concat bs))
              (suc wanted)
              t
              (record t { manager = with_blocks })
      failed-IsReadOn e = record {
        moved = 0;
        le = omega arith;
        bytes = sym (append-nil t.bytes);
        count = omega arith;
        offset = omega arith;
        manager = with_blocks-IsOn;
        all = λ never.
            absurd
              (never t.manager.blocks data_area h.current_cluster_index o.mounted.good extent.0 e);
      }

      pub inside-IsReadOn :
          n ≡ suc wanted
          → in_cluster + suc wanted < cluster_size
          → IsReadOn ops view laws m (drop in_cluster (bytes ++ concat bs)) (suc wanted) t copied
      inside-IsReadOn all l = record {
        moved = n;
        le = n-le;
        bytes =
            ap (λ z. t.bytes ++ z)
              (sym (
                take-drop-append_within bytes (concat bs) n in_cluster
                  (omega (arith, all, l, extent.4))));
        count = count_lem;
        offset = offset_lem;
        manager = with_blocks-IsOn;
        all = λ never. all;
      }
