-- ===== src/FileAccess/WriteLoop.antt =====
-- kWriteFile: what its loop keeps of the handle and of the managers, whatever the device does.
use mintos.Base.{
  sub32, ℕ, zero, suc, ◌+◌, ◌-◌, ◌%◌, ◌^◌, ◌<◌, ◌≤◌, ◌≡◌, ◌≢◌, inl, inr, refl, ◌∙◌, Bool, true,
  false, Option, some, List, arith, Bool-cases, Option-cases, if◌then◌else◌, take, drop, copy_at,
}
use mintos.Volume.{data_area, BlockOps, cluster_size}
use mintos.FileAccess.{Transfer, copy_size, moved_on, target_block, write_round, write_loop}
use mintos.FileAccess.Frame.{IsFramed-trans}
use mintos.FileAccess.WriteSteps.{
  IsMoved-trans, kept, advance-IsMoved, target_block-IsMoved, IsMoved,
}

module _ {S : Type 0} (ops : BlockOps S) where
  -- What a round does: it moves on by at most the bytes that are left, and if it goes on by one byte
  -- at least.
  record IsRound (t : Transfer S) (left : ℕ) (r : Bool × Transfer S) : Type 0 where
    moved : ℕ
    le : moved ≤ left
    goes_on : r.0 ≡ true → 0 < moved
    is_moved : IsMoved ops t moved r.1

  module _ (total left : ℕ) (source : List ℕ) (t : Transfer S) (some_left : 0 < left)
      (count : t.count + left ≡ total) (small : total < 2 ^ 32)
      (no_wrap : t.handle.current_offset + left < 2 ^ 32) where
    abbrev b : Option (List ℕ) × Transfer S
    b = target_block ops total t

    b' : IsMoved ops t 0 b.1
    b' = target_block-IsMoved ops total t

    abbrev n : ℕ
    n = copy_size b.1.handle.current_offset (sub32 total b.1.count)

    n_bounds : (0 < n) × (n ≤ left)
    n_bounds = ground (arith, b'.count, count, small, some_left)

    abbrev filled : List ℕ → List ℕ
    filled bytes =
        copy_at bytes (b.1.handle.current_offset % cluster_size) (take n (drop b.1.count source))

    abbrev written : List ℕ → Bool × S
    written bytes =
        ops.write b.1.manager.blocks data_area b.1.handle.current_cluster_index (filled bytes)

    abbrev stored : List ℕ → Transfer S
    stored bytes = record b.1 { manager = record b.1.manager { blocks = (written bytes).1 } }

    stored-IsMoved : (bytes : List ℕ) → IsMoved ops b.1 0 (stored bytes)
    stored-IsMoved bytes =
        kept ops b.1 (record b.1.manager { blocks = (written bytes).1 })
          b.1.handle.previous_cluster_index b.1.handle.current_cluster_index refl

    moved_on-IsMoved : (bytes : List ℕ) → IsMoved ops t n (moved_on ops (stored bytes) n)
    moved_on-IsMoved bytes = record {
      count = omega (arith, b'.count, count, small, n_bounds);
      offset = omega (arith, b'.offset, no_wrap, n_bounds);
      file_size = b'.file_size;
      entry = b'.entry;
      start = b'.start;
      frame = IsFramed-trans t.manager b.1.manager _ b'.frame refl;
    }

    write_round-IsRound : IsRound t left (write_round ops total source t)
    unfolding write_round
    write_round-IsRound = elim (Option-cases b.0) [
      | inl e ↦
          rw (e, write_round)
            (record {
              moved = 0;
              le = omega arith;
              goes_on = λ f. absurd (ground (arith, f));
              is_moved = b';
            })
      | inr (bytes, e) ↦ elim (Bool-cases (written bytes).0) [
        | inr f ↦
            rw (e, f, write_round)
              (record {
                moved = 0;
                le = omega arith;
                goes_on = λ g. absurd (ground (arith, g));
                is_moved =
                    IsMoved-trans ops t b.1 (stored bytes) 0 0 0 refl b' (stored-IsMoved bytes);
              })
        | inl f ↦
            rw (e, f, write_round)
              (record {
                moved = n;
                le = n_bounds.1;
                goes_on = λ g. n_bounds.0;
                is_moved =
                    IsMoved-trans ops t (moved_on ops (stored bytes) n) _ n 0 n (omega arith)
                      (moved_on-IsMoved bytes)
                      (advance-IsMoved ops (moved_on ops (stored bytes) n));
              })
      ]
    ]

  loop-done :
      (fuel total : ℕ) (source : List ℕ) (t : Transfer S)
      → t.count ≡ total
      → write_loop ops (suc fuel) total source t ≡ some t
  unfolding write_loop
  loop-done fuel total source t e = ground (arith, e)

  loop-on :
      (fuel total : ℕ) (source : List ℕ) (t : Transfer S) (go : Bool)
      → t.count ≢ total
      → (write_round ops total source t).0 ≡ go
      → write_loop ops (suc fuel) total source t ≡ (
          if go
          then write_loop ops fuel total source (write_round ops total source t).1
          else some (write_round ops total source t).1)
  unfolding write_loop
  loop-on fuel total source t go ne e = ground (arith, ne, e)

  -- The loop returns with fuel above the bytes to write.
  pub write_loop-IsMoved :
      (fuel total left : ℕ) (source : List ℕ) (t : Transfer S)
      → left < fuel
      → t.count + left ≡ total
      → total < 2 ^ 32
      → t.handle.current_offset + left < 2 ^ 32
      → (r : Transfer S) × (write_loop ops fuel total source t ≡ some r)
        × ((n : ℕ) × (n ≤ left) × IsMoved ops t n r)
  write_loop-IsMoved zero total left source t f c s w = absurd (omega arith)
  write_loop-IsMoved (suc fuel) total zero source t f c s w = (
    t,
    loop-done fuel total source t (omega (arith, c)),
    (
      0,
      omega arith,
      kept ops t t.manager t.handle.previous_cluster_index t.handle.current_cluster_index refl,
    ),
  )
  write_loop-IsMoved (suc fuel) total (suc left) source t f c s w =
      let ne : t.count ≢ total = λ e. omega (arith, e, c) in
      let q = write_round-IsRound total (suc left) source t (omega arith) c s w in
      let r = write_round ops total source t in
      elim (Bool-cases r.0) [
        | inr stop ↦ (r.1, loop-on fuel total source t false ne stop, (q.moved, q.le, q.is_moved))
        | inl go ↦
            let rest =
              write_loop-IsMoved fuel total (suc left - q.moved) source r.1
                (omega (arith, f, q.goes_on go)) (omega (arith, q.is_moved.count, c, q.le)) s
                (omega (arith, q.is_moved.offset, w, q.le)) in
            (
              rest.0,
              loop-on fuel total source t true ne go ∙ rest.1,
              (
                q.moved + rest.2.0,
                omega (arith, rest.2.1, q.le),
                IsMoved-trans ops t r.1 rest.0 q.moved rest.2.0 (q.moved + rest.2.0) refl q.is_moved
                    rest.2.2,
              ),
            )
      ]
