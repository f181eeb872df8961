-- ===== src/Directory/Tests.antt =====
-- The lookup of a name at a directory whose first entry is "ab", with start cluster 3.
use mintos.Base.{ℕ, refl, true, List, [], ◌∷◌, ◌++◌, arith, replicate}
use mintos.Volume.{Manager}
use mintos.Volume.Sample.{
  Contents, sample_ops, sample_view, sample_laws, no_memory, all_bytes-get_or,
}
use mintos.Directory.{find_directory_entry}
use mintos.Directory.Find.{AreBytes, IsLookup, find_directory_entry-IsLookup}

abbrev directory_bytes : List ℕ
directory_bytes = b'a' ∷ b'b' ∷ replicate 26 0 ++ 3 ∷ []

abbrev volume : Manager Contents
volume = record {
  blocks = λ k b. directory_bytes;
  mounted = true;
  cluster_link_area_size = 1;
  total_cluster_count = 100;
  last_allocated = 0;
  locks = 0;
  handle_pool = [];
  memory = no_memory;
}

directory-AreBytes : AreBytes directory_bytes
directory-AreBytes = all_bytes-get_or directory_bytes refl

name-AreBytes : AreBytes (b'a' ∷ [])
name-AreBytes = all_bytes-get_or (b'a' ∷ []) refl

-- A lookup of "a".
find_directory_entry-IsLookup_example :
    IsLookup directory_bytes
      (b'a' ∷ [])
      directory-AreBytes
      name-AreBytes
      sample_ops
      sample_view
      sample_laws
      volume
      (find_directory_entry sample_ops volume (b'a' ∷ []))
find_directory_entry-IsLookup_example =
    find_directory_entry-IsLookup directory_bytes (b'a' ∷ []) directory-AreBytes name-AreBytes
      sample_ops sample_view sample_laws volume refl tt (omega arith) refl
