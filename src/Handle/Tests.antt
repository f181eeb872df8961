-- ===== src/Handle/Tests.antt =====
-- The pool of handles and a directory, with one open file and one open directory.
use mintos.Base.{ℕ, ◌≡◌, refl, true, Option, some, [], ◌∷◌, ◌++◌, arith, replicate}
use mintos.Volume.{
  DirectoryHandle, zero_handle, File, Manager, max_directory_entry_count, lock, unlock,
}
use mintos.Volume.Sample.{Contents, no_memory}
use mintos.Handle.{put_file, allocate_file_directory_handle, read_directory}
use mintos.Handle.Pool.{IsAllocated, allocate_file_directory_handle-IsAllocated}
use mintos.Handle.Listing.{IsNext, offset_after, entry_of, read_directory-IsNext}

abbrev listing : DirectoryHandle
listing = record {
  address = 0x1000;
  directory_buffer = replicate 60 0 ++ 9 ∷ [];
  current_offset = 0;
}

abbrev volume : Manager Contents
volume = record {
  blocks = λ k b. [];
  mounted = true;
  cluster_link_area_size = 1;
  total_cluster_count = 100;
  last_allocated = 0;
  locks = 0;
  handle_pool = File.file zero_handle ∷ File.directory listing ∷ File.free ∷ [];
  memory = no_memory;
}

allocate_file_directory_handle-IsAllocated_example :
    IsAllocated volume (allocate_file_directory_handle volume)
allocate_file_directory_handle-IsAllocated_example =
    allocate_file_directory_handle-IsAllocated volume

read_directory-IsNext_example :
    (o : Option ℕ) × IsNext listing.directory_buffer 0 max_directory_entry_count o
    × (read_directory volume (some 1) ≡ (
      entry_of listing.directory_buffer o,
      unlock (
          put_file
            (lock volume)
            1
            (File.directory (record listing { current_offset = offset_after o }))),
    ))
read_directory-IsNext_example = read_directory-IsNext volume 1 listing refl (omega arith)
