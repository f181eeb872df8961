-- ===== src/FileAccess/Write.antt =====
-- kWriteFile returns whatever the device does, and its counts are right.
use mintos.Base.{
  ℕ, ◌+◌, ◌-◌, ◌*◌, ◌/◌, ◌%◌, ◌^◌, ◌<◌, ◌≤◌, ◌≡◌, ◌≢◌, inl, inr, refl, ap, ◌∙◌, some, List, arith,
  ltb, Bool-cases, if◌then◌else◌, get_or, set,
}
use mintos.Volume.{BlockOps, FileHandle, File, Manager, returns, divide_error, lock}
use mintos.FileAccess.{Transfer, write_loop, update_size, write_at, write_file, finish}
use mintos.FileAccess.Frame.{IsFramed, IsFramed-trans, update_directory_entry-IsFramed}
use mintos.FileAccess.WriteSteps.{IsMoved}
use mintos.FileAccess.WriteLoop.{write_loop-IsMoved}

module _ {S : Type 0} (ops : BlockOps S) where
  -- What kWriteFile comes to at the handle `i`.
  pub record HasWritten (m : Manager S) (i : ℕ) (h : FileHandle) (total size : ℕ)
      (r : ℕ × Manager S) : Type 0 where
    pub moved : ℕ
    pub le : moved ≤ total
    pub returned : r.0 ≡ moved / size
    pub handle : FileHandle
    pub pool : r.1.handle_pool ≡ set m.handle_pool i (File.file handle)
    pub offset : handle.current_offset ≡ h.current_offset + moved
    pub file_size : handle.file_size ≡ (
        if ltb h.file_size (h.current_offset + moved)
        then h.current_offset + moved
        else h.file_size)
    pub entry : handle.directory_entry_offset ≡ h.directory_entry_offset
    pub start : handle.start_cluster_index ≡ h.start_cluster_index
    pub locks : r.1.locks ≡ m.locks

  module _ (m : Manager S) (i : ℕ) (h : FileHandle)
      (here : get_or m.handle_pool i File.free ≡ File.file h) (size count : ℕ) (source : List ℕ)
      (fuel : ℕ) (enough : size * count % 2 ^ 32 < fuel)
      (no_wrap : h.current_offset + size * count % 2 ^ 32 < 2 ^ 32) where
    abbrev total : ℕ
    total = size * count % 2 ^ 32

    abbrev from : Transfer S
    from = record { manager = lock m; handle = h; count = 0; bytes = List.[] }

    looped :
        (r : Transfer S) × (write_loop ops fuel total source from ≡ some r)
        × ((n : ℕ) × (n ≤ total) × IsMoved ops from n r)
    looped =
        write_loop-IsMoved ops fuel total total source from enough (omega arith) (omega arith)
          no_wrap

    abbrev ended : Manager S × FileHandle
    ended = update_size ops looped.0

    write_file-runs :
        size ≢ 0
        → write_file ops fuel m (some i) source size count
          ≡ returns (looped.0.count / size, finish ops ended.0 i ended.1)
    unfolding write_file write_at
    write_file-runs nz = rw here (rw (looped.1, write_at) (ground (arith, nz)))

    loop_moved : IsMoved ops from looped.2.0 looped.0
    loop_moved = looped.2.2

    -- The size of the file is its old one, or the offset if that is behind it.
    ended-IsFramed : IsFramed (lock m) ended.0
    unfolding update_size
    ended-IsFramed =
        elim (Bool-cases (ltb looped.0.handle.file_size looped.0.handle.current_offset)) [
          | inl e ↦
              rw (e, update_size)
                (IsFramed-trans (lock m) looped.0.manager _ loop_moved.frame (
                  update_directory_entry-IsFramed ops looped.0.manager
                    (record looped.0.handle { file_size = looped.0.handle.current_offset })))
          | inr e ↦ rw (e, update_size) loop_moved.frame
        ]

    ended-handle : ended.1 ≡ record looped.0.handle {
      file_size =
          if ltb looped.0.handle.file_size looped.0.handle.current_offset
          then looped.0.handle.current_offset
          else looped.0.handle.file_size;
    }
    unfolding update_size
    ended-handle = ground arith

    -- kWriteFile at an open file returns, whatever the device does: fuel above the bytes that are
    -- asked for is enough, where an item has a size and the offset stays below 2 ^ 32. It returns
    -- the number of bytes that it has moved on by, divided by the size of an item; the handle is in
    -- its place with its offset moved on by that number, and with the size of the file raised to
    -- the offset if that is behind it. No other handle changes, and the mutex is given back.
    pub write_file-HasWritten :
        size ≢ 0
        → m.locks + 1 < 2 ^ 32
        → (r : ℕ × Manager S) × (write_file ops fuel m (some i) source size count ≡ returns r)
          × HasWritten m i h total size r
    write_file-HasWritten nz few = (
      (looped.0.count / size, finish ops ended.0 i ended.1),
      write_file-runs nz,
      record {
        moved = looped.2.0;
        le = looped.2.1;
        returned = ap (λ z. z / size) (loop_moved.count ∙ omega arith);
        handle = ended.1;
        pool = ap (λ (x : Manager S). set x.handle_pool i (File.file ended.1)) ended-IsFramed;
        offset = ap (λ (x : FileHandle). x.current_offset) ended-handle ∙ loop_moved.offset;
        file_size =
            ap (λ (x : FileHandle). x.file_size) ended-handle
            ∙ rw (loop_moved.offset, loop_moved.file_size) refl;
        entry = ap (λ (x : FileHandle). x.directory_entry_offset) ended-handle ∙ loop_moved.entry;
        start = ap (λ (x : FileHandle). x.start_cluster_index) ended-handle ∙ loop_moved.start;
        locks = ap (λ (x : Manager S). x.locks - 1) ended-IsFramed ∙ omega (arith, few);
      },
    )

    -- With a size of 0, kWriteFile at an open file writes nothing and then divides by zero.
    pub write_file-divides :
        size ≡ 0 → write_file ops fuel m (some i) source size count ≡ divide_error
    unfolding write_file write_at
    write_file-divides z = rw here (rw (looped.1, write_at) (ground (arith, z)))
