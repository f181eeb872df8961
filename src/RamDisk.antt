-- ===== src/RamDisk.antt =====
-- 02.Kernel64/RAMDisk.c: a disk in memory that kAllocateMemory gives. A pointer is an address; the
-- caller's buffer and the disk are in the same memory. The number of sectors of a request is an
-- `int` that is not negative. The constants bPrimary and bMaster are not looked at.
mod Tests
pub mod Sectors
use mintos.Base.{ℕ, ◌+◌, ◌*◌, ◌%◌, ◌^◌, Bool, true, false, none, some, sub32}
use mintos.Mutex.{Mutex, initialize_mutex}
use mintos.DynamicMemory.{DynamicMemory, allocate_memory}
use mintos.Memory.{Bytes, mem_cpy}
use mintos.Volume.{min_of}

-- RDDMANAGER
pub record RddManager : Type 0 where
  pub buffer : ℕ
  pub total_sector_count : ℕ
  pub mutex : Mutex

-- kInitializeRDD
unfoldable pub initialize_rdd : DynamicMemory → ℕ → Bool × RddManager × DynamicMemory
initialize_rdd memory total =
    let a = allocate_memory memory (total * 512 % 2 ^ 32) in
    elim a.0 [
      | none ↦ (
        false,
        record {
          buffer = 0;
          total_sector_count = 0;
          mutex = record { task_id = 0; lock_count = 0; lock_flag = false };
        },
        a.1,
      )
      | some address ↦ (
        true,
        record { buffer = address; total_sector_count = total; mutex = initialize_mutex },
        a.1,
      )
    ]

-- iRealReadCount and iRealWriteCount
unfoldable pub real_count : RddManager → (address count : ℕ) → ℕ
real_count r address count = min_of (sub32 r.total_sector_count ((address + count) % 2 ^ 32)) count

-- kReadRDDSector
unfoldable pub read_rdd_sector : Bytes → RddManager → (address count destination : ℕ) → ℕ × Bytes
read_rdd_sector m r address count destination =
    let n = real_count r address count in
    (n, mem_cpy m destination (r.buffer + address * 512 % 2 ^ 32) (n * 512))

-- kWriteRDDSector
unfoldable pub write_rdd_sector : Bytes → RddManager → (address count source : ℕ) → ℕ × Bytes
write_rdd_sector m r address count source =
    let n = real_count r address count in
    (n, mem_cpy m (r.buffer + address * 512 % 2 ^ 32) source (n * 512))
