-- ===== src/RamDisk/Tests.antt =====
-- The theorems on sectors at a disk of 16 sectors at address 1,000.
use mintos.Base.{ℕ, ◌+◌, ◌*◌, ◌%◌, ◌<◌, ◌≡◌, refl, inr, false, arith}
use mintos.Memory.{Bytes}
use mintos.Memory.Words.{IsBytes, within}
use mintos.RamDisk.{RddManager, read_rdd_sector, write_rdd_sector, real_count}
use mintos.RamDisk.Sectors.{read_rdd_sector-write_rdd_sector}

abbrev counting : Bytes
counting x = x % 256

counting-IsBytes : IsBytes counting
counting-IsBytes a = omega arith

abbrev small_disk : RddManager
small_disk = record {
  buffer = 1000;
  total_sector_count = 16;
  mutex = record { task_id = 0; lock_count = 0; lock_flag = false };
}

-- The last sector is never read, and a request that passes the end is read as a whole.
last_sector : real_count small_disk 15 1 ≡ 0
unfolding real_count
last_sector = refl

behind_the_end : real_count small_disk 15 2 ≡ 2
unfolding real_count
behind_the_end = refl

read_rdd_sector-write_rdd_sector_example :
    ((write_rdd_sector counting small_disk 2 2 100_000).0 ≡ 2)
    × ((read_rdd_sector
          (write_rdd_sector counting small_disk 2 2 100_000).1
          small_disk
          2
          2
          200_000).0
        ≡ 2)
    × ((x : ℕ)
        → x < 2 * 512
        → (read_rdd_sector
              (write_rdd_sector counting small_disk 2 2 100_000).1
              small_disk
              2
              2
              200_000).1
            (200_000 + x)
          ≡ counting (100_000 + x))
    × ((y : ℕ)
        → within (1000 + 2 * 512) (2 * 512) y ≡ false
        → within 200_000 (2 * 512) y ≡ false
        → (read_rdd_sector
              (write_rdd_sector counting small_disk 2 2 100_000).1
              small_disk
              2
              2
              200_000).1
            y
          ≡ counting y)
read_rdd_sector-write_rdd_sector_example =
    read_rdd_sector-write_rdd_sector counting counting-IsBytes small_disk 2 2 100_000 (omega arith)
      (omega arith) (inr (omega arith)) 200_000 (inr (omega arith))
