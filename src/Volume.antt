-- ===== src/Volume.antt =====
-- 02.Kernel64/FileSystem.h: what the upper functions of the file system work with. The blocks of the
-- two areas are behind an interface, which 02.Kernel64/FileSystem.c's kReadClusterLinkTable,
-- kWriteClusterLinkTable, kReadCluster and kWriteCluster fill: operations here, laws in View.
pub mod View
pub mod Sample
use mintos.Base.{ℕ, ◌-◌, ◌+◌, ◌^◌, ◌%◌, Bool, Option, List, ltb, if◌then◌else◌}
use mintos.DynamicMemory.{DynamicMemory}

-- CACHE_CLUSTERLINKTABLEAREA and CACHE_DATAAREA.
pub data AreaKind : Type 0 where
  link_table data_area : AreaKind

-- Reads and writes of a block of an area; FALSE is `none`, or the Boolean.
pub record BlockOps (S : Type 0) : Type 0 where
  pub read : S → AreaKind → ℕ → Option (List ℕ) × S
  pub write : S → AreaKind → ℕ → List ℕ → Bool × S

-- FILESYSTEM_LASTCLUSTER
abbrev pub last_cluster : ℕ
last_cluster = 0xffff_ffff

-- FILESYSTEM_FREECLUSTER
abbrev pub free_cluster : ℕ
free_cluster = 0

-- FILESYSTEM_CLUSTERSIZE
abbrev pub cluster_size : ℕ
cluster_size = 4096

-- FILESYSTEM_MAXDIRECTORYENTRYCOUNT
abbrev pub max_directory_entry_count : ℕ
max_directory_entry_count = 128

-- The `int` -1.
abbrev pub minus_one : ℕ
minus_one = 0xffff_ffff

-- DIRECTORYENTRY: 24 bytes of name, and two DWORDs.
pub record DirectoryEntry : Type 0 where
  pub file_name : List ℕ
  pub file_size : ℕ
  pub start_cluster_index : ℕ

-- FILEHANDLE
pub record FileHandle : Type 0 where
  pub directory_entry_offset : ℕ
  pub file_size : ℕ
  pub start_cluster_index : ℕ
  pub current_cluster_index : ℕ
  pub previous_cluster_index : ℕ
  pub current_offset : ℕ

abbrev pub zero_handle : FileHandle
zero_handle = record {
  directory_entry_offset = 0;
  file_size = 0;
  start_cluster_index = 0;
  current_cluster_index = 0;
  previous_cluster_index = 0;
  current_offset = 0;
}

-- DIRECTORYHANDLE: the buffer's address, which is given back in the end, and its bytes.
pub record DirectoryHandle : Type 0 where
  pub address : ℕ
  pub directory_buffer : List ℕ
  pub current_offset : ℕ

-- FILE: the type with the member of the union that goes with it. A FILE of type FREE is all zero.
pub data File : Type 0 where
  free : File
  file : FileHandle → File
  directory : DirectoryHandle → File

-- FILESYSTEMMANAGER. `locks` is the lock count of `stMutex` for the task that runs, which waits in
-- kLock until it has the mutex; `blocks` is the disk with the cache. With it goes the dynamic
-- memory, from which the file system takes its buffers.
pub record Manager (S : Type 0) : Type 0 where
  pub blocks : S
  pub mounted : Bool
  pub cluster_link_area_size : ℕ
  pub total_cluster_count : ℕ
  pub last_allocated : ℕ
  pub locks : ℕ
  pub handle_pool : List File
  pub memory : DynamicMemory

-- What a call comes to: it returns, it divides by zero, or the fuel of the model ran out.
pub data Run (A : Type 0) : Type 0 where
  returns : A → Run A
  divide_error : Run A
  out_of_fuel : Run A

-- MIN
abbrev pub min_of : ℕ → ℕ → ℕ
min_of a b = if ltb a b then a else b

module _ {S : Type 0} where
  -- kLock by the task that runs: it takes the mutex, or counts one lock more.
  abbrev pub lock : Manager S → Manager S
  lock m = record m { locks = (m.locks + 1) % 2 ^ 32 }

  -- kUnlock, which returns at once if the task does not hold the mutex.
  abbrev pub unlock : Manager S → Manager S
  unlock m = record m { locks = m.locks - 1 }
