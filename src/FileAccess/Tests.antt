-- ===== src/FileAccess/Tests.antt =====
-- The theorems on files at a file of 5000 bytes in the clusters 3 and 5, open at the handle 0.
use mintos.Base.{
  ℕ, zero, suc, ◌≡◌, refl, sym, ap, ◌∙◌, true, Option, some, List, [], ◌∷◌, ◌++◌, arith, ◌==◌,
  if◌then◌else◌, length, length-append, length-replicate, replicate, take, drop, copy_at, dword_at,
  dword_bytes, set_dword, length-set_dword,
}
use mintos.Volume.{
  link_table, data_area, FileHandle, File, Manager, returns, divide_error, last_cluster,
}
use mintos.Volume.Sample.{
  Contents, sample_ops, sample_view, sample_laws, no_memory, all_bytes-get_or,
}
use mintos.ClusterLink.Links.{IsMounted}
use mintos.Directory.{entry_at}
use mintos.Directory.Find.{BeginsWith}
use mintos.FileAccess.{read_file, write_file}
use mintos.FileAccess.Position.{seek_file}
use mintos.FileAccess.Names.{remove_file}
use mintos.FileAccess.Extent.{Extent, NeverFails, concat}
use mintos.FileAccess.Read.{HasRead, read_file-HasRead}
use mintos.FileAccess.Write.{HasWritten, write_file-HasWritten, write_file-divides}
use mintos.FileAccess.Seek.{seek_file-reads_behind_end}
use mintos.FileAccess.Remove.{IsRefused, remove_file-IsRefused}

abbrev sector : List ℕ
sector = set_dword (set_dword (replicate 512 0) 3 5) 5 last_cluster

abbrev first_cluster : List ℕ
first_cluster = replicate 4096 1

abbrev second_cluster : List ℕ
second_cluster = replicate 4096 2

-- The directory has the file under the name "a".
abbrev directory_bytes : List ℕ
directory_bytes = b'a' ∷ replicate 27 0 ++ 3 ∷ []

abbrev contents : Contents
contents link_table b = sector
contents data_area b =
    if b == 0 then directory_bytes else if b == 3 then first_cluster else second_cluster

abbrev handle : FileHandle
handle = record {
  directory_entry_offset = 0;
  file_size = 5000;
  start_cluster_index = 3;
  current_cluster_index = 3;
  previous_cluster_index = 3;
  current_offset = 4000;
}

abbrev volume : Manager Contents
volume = record {
  blocks = contents;
  mounted = true;
  cluster_link_area_size = 1;
  total_cluster_count = 100;
  last_allocated = 0;
  locks = 0;
  handle_pool = File.file handle ∷ File.free ∷ [];
  memory = no_memory;
}

abbrev or_none : Option (List ℕ) → List ℕ
or_none (some bytes) = bytes
or_none _ = []

volume-IsMounted : IsMounted sample_ops sample_view volume
volume-IsMounted = record {
  mounted = refl;
  good = tt;
  whole = λ b bytes h e.
      ap (λ o. length (or_none o)) (sym e)
      ∙ length-set_dword (set_dword (replicate 512 0) 3 5) 5 last_cluster
      ∙ length-set_dword (replicate 512 0) 3 5;
}

never_fails : NeverFails sample_ops sample_view
never_fails s k b g h e = absurd (ground (arith, e))

extent : Extent sample_ops sample_view contents 1 3 (first_cluster ∷ second_cluster ∷ [])
unfolding dword_at dword_bytes set_dword copy_at
extent = (
  omega arith,
  omega arith,
  omega arith,
  refl,
  length-replicate {A = ℕ} 4096 1,
  (
    5,
    refl,
    (
      omega arith,
      omega arith,
      omega arith,
      refl,
      length-replicate {A = ℕ} 4096 2,
      (last_cluster, refl, tt),
    ),
  ),
)

-- 500 bytes over the end of the first cluster.
read_file-HasRead_example :
    (r : ℕ × List ℕ × Manager Contents) × (read_file sample_ops 501 volume (some 0) 1 500
      ≡ returns r)
    × HasRead sample_ops sample_view volume 0 handle
        (drop 4000 (concat (first_cluster ∷ second_cluster ∷ [])))
        500
        1
        r
read_file-HasRead_example =
    read_file-HasRead sample_ops sample_view sample_laws volume volume-IsMounted 0 handle refl
      (omega arith) 1 500 (first_cluster ∷ second_cluster ∷ []) 501 (λ e. absurd (omega (arith, e)))
      (omega arith) (omega arith) (λ e. absurd (omega (arith, e))) (omega arith) extent
      (omega (
        arith,
        length-append first_cluster (second_cluster ++ []),
        length-append second_cluster [],
        length-replicate {A = ℕ} 4096 1,
        length-replicate {A = ℕ} 4096 2,
      ))
      (omega arith)

-- 3000 bytes from the offset on.
write_file-HasWritten_example :
    (r : ℕ × Manager Contents) × (write_file sample_ops 3001 volume
        (some 0)
        (replicate 3000 7)
        10
        300
      ≡ returns r)
    × HasWritten sample_ops volume 0 handle 3000 10 r
write_file-HasWritten_example =
    write_file-HasWritten sample_ops volume 0 handle refl 10 300 (replicate 3000 7) 3001
      (omega arith) (omega arith) (λ e. absurd (omega (arith, e))) (omega arith)

write_file-divides_example : write_file sample_ops 1 volume (some 0) (1 ∷ []) 0 5 ≡ divide_error
write_file-divides_example =
    write_file-divides sample_ops volume 0 handle refl 0 5 (1 ∷ []) 1 (omega arith) (omega arith)
      refl

-- The file is at its last cluster, and the seek goes to 6000.
abbrev at_end : FileHandle
at_end = record handle {
  current_cluster_index = 5;
  previous_cluster_index = 3;
  current_offset = 5000;
}

abbrev ended : Manager Contents
ended = record volume { handle_pool = File.file at_end ∷ File.free ∷ [] }

last_extent : Extent sample_ops sample_view contents 1 5 (second_cluster ∷ [])
unfolding extent
last_extent = extent.5.2

seek_file-reads_behind_end_example :
    (m1 m2 : Manager Contents) × (seek_file sample_ops 101 ended (some 0) 6000 0 ≡ returns (0, m1))
    × (read_file sample_ops 101 m1 (some 0) 1 100
        ≡ returns (100, take 100 (drop 1904 second_cluster), m2))
seek_file-reads_behind_end_example =
    seek_file-reads_behind_end sample_ops ended 0 at_end refl 6000 (omega arith) (omega arith)
      (omega arith) refl refl sample_view sample_laws
      (record { mounted = refl; good = tt; whole = volume-IsMounted.whole }) (omega arith)
      second_cluster 100 101 (omega arith) (λ e. absurd (omega (arith, e))) last_extent
      (omega arith) never_fails (omega arith)

named : BeginsWith directory_bytes 0 (b'a' ∷ [])
named zero lt = refl
named (suc k) lt = absurd (omega (arith, lt))

its : (entry_at directory_bytes 0).start_cluster_index ≡ 3
unfolding entry_at dword_at
its = refl

remove_file-IsRefused_example :
    (r : ℕ × Manager Contents) × (remove_file sample_ops 5 volume (b'a' ∷ []) ≡ returns r)
    × IsRefused sample_ops sample_view sample_laws volume (b'a' ∷ []) directory_bytes r
remove_file-IsRefused_example =
    remove_file-IsRefused sample_ops sample_view sample_laws volume (b'a' ∷ []) directory_bytes
      (all_bytes-get_or directory_bytes refl) (all_bytes-get_or (b'a' ∷ []) refl) refl tt
      (omega arith) refl 0 handle refl 0 (omega arith) named (λ j lt. absurd (omega (arith, lt)))
      its 5
