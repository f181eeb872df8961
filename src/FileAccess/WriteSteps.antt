-- ===== src/FileAccess/WriteSteps.antt =====
-- kWriteFile: what the parts of a round keep of the handle and of the managers.
use mintos.Base.{
  sub32, ℕ, ◌+◌, ◌%◌, ◌≡◌, inl, inr, refl, ◌∙◌, not, ◌||◌, arith, ◌==◌, ltb, Bool-cases,
  Option-cases,
}
use mintos.Volume.{data_area, BlockOps, Manager, last_cluster, free_cluster, cluster_size}
use mintos.ClusterLink.{find_free_cluster, set_cluster_link_data, get_cluster_link_data}
use mintos.FileAccess.{Transfer, advance, append_cluster, target_block}
use mintos.FileAccess.Frame.{
  IsFramed, IsFramed-trans, get_cluster_link_data-IsFramed, set_cluster_link_data-IsFramed,
  find_free_cluster-IsFramed,
}

module _ {S : Type 0} (ops : BlockOps S) where
  -- The transfer has moved on by `n` bytes.
  pub record IsMoved (t : Transfer S) (n : ℕ) (r : Transfer S) : Type 0 where
    pub count : r.count ≡ t.count + n
    pub offset : r.handle.current_offset ≡ t.handle.current_offset + n
    pub file_size : r.handle.file_size ≡ t.handle.file_size
    pub entry : r.handle.directory_entry_offset ≡ t.handle.directory_entry_offset
    pub start : r.handle.start_cluster_index ≡ t.handle.start_cluster_index
    pub frame : IsFramed t.manager r.manager

  pub IsMoved-trans :
      (t u r : Transfer S) (a b c : ℕ) → a + b ≡ c → IsMoved t a u → IsMoved u b r → IsMoved t c r
  IsMoved-trans t u r a b c e p q = record {
    count = omega (arith, q.count, p.count, e);
    offset = omega (arith, q.offset, p.offset, e);
    file_size = q.file_size ∙ p.file_size;
    entry = q.entry ∙ p.entry;
    start = q.start ∙ p.start;
    frame = IsFramed-trans t.manager u.manager r.manager p.frame q.frame;
  }

  -- A manager in its frame, with other clusters in the handle.
  pub kept :
      (t : Transfer S) (m : Manager S) (previous current : ℕ)
      → IsFramed t.manager m
      → IsMoved t 0 (record t {
        manager = m;
        handle = record t.handle {
          previous_cluster_index = previous;
          current_cluster_index = current;
        };
      })
  kept t m previous current f = record {
    count = omega arith;
    offset = omega arith;
    file_size = refl;
    entry = refl;
    start = refl;
    frame = f;
  }

  pub advance-IsMoved : (t : Transfer S) → IsMoved t 0 (advance ops t).1
  unfolding advance
  advance-IsMoved t =
      let h = t.handle in
      let g = get_cluster_link_data ops t.manager h.current_cluster_index in
      let f = get_cluster_link_data-IsFramed ops t.manager h.current_cluster_index in
      elim (Bool-cases (h.current_offset % cluster_size == 0)) [
        | inr other ↦
            rw (other, advance)
              (kept t t.manager h.previous_cluster_index h.current_cluster_index refl)
        | inl at ↦ elim (Option-cases g.0) [
          | inl e ↦
              rw (at, e, advance) (kept t g.1 h.previous_cluster_index h.current_cluster_index f)
          | inr (next, e) ↦ rw (at, e, advance) (kept t g.1 h.current_cluster_index next f)
        ]
      ]

  append_cluster-IsMoved : (t : Transfer S) → IsMoved t 0 (append_cluster ops t).1
  unfolding append_cluster
  append_cluster-IsMoved t =
      let h = t.handle in
      let f = find_free_cluster ops t.manager in
      let f' = find_free_cluster-IsFramed ops t.manager in
      let a = set_cluster_link_data ops f.1 f.0 last_cluster in
      let a' =
        IsFramed-trans t.manager f.1 a.1 f'
          (set_cluster_link_data-IsFramed ops f.1 f.0 last_cluster) in
      let b = set_cluster_link_data ops a.1 h.previous_cluster_index f.0 in
      let b' =
        IsFramed-trans t.manager a.1 b.1 a'
          (set_cluster_link_data-IsFramed ops a.1 h.previous_cluster_index f.0) in
      let u = set_cluster_link_data ops b.1 f.0 free_cluster in
      let u' =
        IsFramed-trans t.manager b.1 u.1 b'
          (set_cluster_link_data-IsFramed ops b.1 f.0 free_cluster) in
      elim (Bool-cases (f.0 == last_cluster)) [
        | inl e ↦
            rw (e, append_cluster) (kept t f.1 h.previous_cluster_index h.current_cluster_index f')
        | inr e ↦ elim (Bool-cases a.0) [
          | inr ea ↦
              rw (e, ea, append_cluster)
                (kept t a.1 h.previous_cluster_index h.current_cluster_index a')
          | inl ea ↦ elim (Bool-cases b.0) [
            | inr eb ↦
                rw (e, ea, eb, append_cluster)
                  (kept t u.1 h.previous_cluster_index h.current_cluster_index u')
            | inl eb ↦ rw (e, ea, eb, append_cluster) (kept t b.1 h.previous_cluster_index f.0 b')
          ]
        ]
      ]

  pub target_block-IsMoved : (total : ℕ) (t : Transfer S) → IsMoved t 0 (target_block ops total t).1
  unfolding target_block
  target_block-IsMoved total t =
      let h = t.handle in
      let partial =
        not (h.current_offset % cluster_size == 0) || ltb (sub32 total t.count) cluster_size in
      let r = ops.read t.manager.blocks data_area h.current_cluster_index in
      elim (Bool-cases (h.current_cluster_index == last_cluster)) [
        | inl e ↦ rw (e, target_block) (append_cluster-IsMoved t)
        | inr e ↦ elim (Bool-cases partial) [
          | inl p ↦
              rw (e, p, target_block)
                (kept t (record t.manager { blocks = r.1 }) h.previous_cluster_index
                  h.current_cluster_index refl)
          | inr p ↦
              rw (e, p, target_block)
                (kept t t.manager h.previous_cluster_index h.current_cluster_index refl)
        ]
      ]
