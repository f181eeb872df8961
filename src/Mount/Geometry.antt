-- ===== src/Mount/Geometry.antt =====
-- The sizes that kFormat chooses for a disk.
use mintos.Base.{ℕ, ◌+◌, ◌*◌, ◌/◌, ◌^◌, ◌<◌, ◌≤◌, arith}
use mintos.Mount.{format_sizes}

-- What fits: the MBR, the link table and the clusters stand on the disk one behind the other, the
-- link table has just the sectors that hold a link for each cluster, and another cluster with the
-- first estimate of the link table would not fit.
pub record Fits (total link_sectors clusters : ℕ) : Type 0 where
  pub on_disk : 1 + link_sectors + 8 * clusters ≤ total
  pub enough : clusters ≤ 128 * link_sectors
  pub needed : 128 * link_sectors < clusters + 128
  pub most : total < 1 + (total / 8 + 127) / 128 + 8 * (clusters + 1)

-- For a disk of at least one sector and less than 2 ^ 32 - 1024, kFormat chooses sizes that fit.
pub format_sizes-Fits :
    (total : ℕ)
    → 0 < total
    → total + 1024 < 2 ^ 32
    → Fits total (format_sizes total).0 (format_sizes total).1
unfolding format_sizes
format_sizes-Fits total some_sector small = record {
  on_disk = omega arith;
  enough = omega arith;
  needed = omega arith;
  most = omega arith;
}
