-- ===== src/Mount/Format.antt =====
-- kMount reads back the sizes that kFormat wrote.
use mintos.Base.{
  ℕ, zero, suc, ◌+◌, ◌^◌, ◌<◌, ◌≡◌, ◌≢◌, inl, inr, refl, ap, sym, ◌∙◌, true, false, some, List,
  arith, Option-cases, length, replicate, copy_at, length-copy_at, dword_from, set_dword_from,
  length-set_dword_from, dword_from-set_dword_from, dword_from-set_dword_from_other,
}
use mintos.FileSystem.{Driver}
use mintos.Volume.{Manager, lock}
use mintos.Mount.{
  file_system_signature, signature_offset, reserved_offset, link_sectors_offset, clusters_offset,
  partition_offset, Disk, format_sizes, format_mbr, mount_at, mount, format_sector, format_loop,
  format_disk, format,
}

-- The DWORDs of the MBR that kFormat writes.
module _ (bytes : List ℕ) (size : length bytes ≡ 512) (link_sectors clusters : ℕ)
    (word_l : link_sectors < 2 ^ 32) (word_c : clusters < 2 ^ 32) where
  abbrev b1 : List ℕ
  b1 = copy_at bytes partition_offset (replicate 64 0)

  abbrev b2 : List ℕ
  b2 = set_dword_from b1 signature_offset file_system_signature

  abbrev b3 : List ℕ
  b3 = set_dword_from b2 reserved_offset 0

  abbrev b4 : List ℕ
  b4 = set_dword_from b3 link_sectors_offset link_sectors

  size1 : length b1 ≡ 512
  size1 = length-copy_at bytes partition_offset (replicate 64 0) ∙ size

  size2 : length b2 ≡ 512
  size2 = length-set_dword_from b1 signature_offset file_system_signature ∙ size1

  size3 : length b3 ≡ 512
  size3 = length-set_dword_from b2 reserved_offset 0 ∙ size2

  size4 : length b4 ≡ 512
  size4 = length-set_dword_from b3 link_sectors_offset link_sectors ∙ size3

  abbrev mbr : List ℕ
  mbr = format_mbr bytes link_sectors clusters

  mbr-signature : dword_from mbr signature_offset ≡ file_system_signature
  unfolding format_mbr
  mbr-signature =
      dword_from-set_dword_from_other b4 clusters_offset signature_offset clusters
        (inl (omega arith))
      ∙ dword_from-set_dword_from_other b3 link_sectors_offset signature_offset link_sectors
          (inl (omega arith))
      ∙ dword_from-set_dword_from_other b2 reserved_offset signature_offset 0 (inl (omega arith))
      ∙ dword_from-set_dword_from b1 signature_offset file_system_signature (omega (arith, size1))
          (omega arith)

  mbr-reserved : dword_from mbr reserved_offset ≡ 0
  unfolding format_mbr
  mbr-reserved =
      dword_from-set_dword_from_other b4 clusters_offset reserved_offset clusters
        (inl (omega arith))
      ∙ dword_from-set_dword_from_other b3 link_sectors_offset reserved_offset link_sectors
          (inl (omega arith))
      ∙ dword_from-set_dword_from b2 reserved_offset 0 (omega (arith, size2)) (omega arith)

  mbr-link_sectors : dword_from mbr link_sectors_offset ≡ link_sectors
  unfolding format_mbr
  mbr-link_sectors =
      dword_from-set_dword_from_other b4 clusters_offset link_sectors_offset clusters
        (inl (omega arith))
      ∙ dword_from-set_dword_from b3 link_sectors_offset link_sectors (omega (arith, size3)) word_l

  mbr-clusters : dword_from mbr clusters_offset ≡ clusters
  unfolding format_mbr
  mbr-clusters = dword_from-set_dword_from b4 clusters_offset clusters (omega (arith, size4)) word_c

module _ {D : Type 0} (driver : Driver D) where
  -- What the driver promises of single sectors: a sector has 512 bytes, one that was written is read
  -- back, and no other sector changes.
  pub record IsSectorDisk : Type 0 where
    pub sector_size :
        (d : D) (a : ℕ) (bytes : List ℕ)
        → driver.read_sectors d a 1 ≡ some bytes
        → length bytes ≡ 512
    pub written :
        (d d' : D) (a : ℕ) (bytes : List ℕ)
        → driver.write_sectors d a 1 bytes ≡ some d'
        → driver.read_sectors d' a 1 ≡ some bytes
    pub others :
        (d d' : D) (a b : ℕ) (bytes : List ℕ)
        → b ≢ a
        → driver.write_sectors d a 1 bytes ≡ some d'
        → driver.read_sectors d' b 1 ≡ driver.read_sectors d b 1

  -- A volume as kFormat laid it out for these sizes.
  pub record IsLaidOut (link_sectors clusters : ℕ) (m : Manager (Disk D)) : Type 0 where
    pub mounted : m.mounted ≡ true
    pub link_size : m.cluster_link_area_size ≡ link_sectors
    pub total : m.total_cluster_count ≡ clusters
    pub link_start : m.blocks.cluster_link_area_start_address ≡ 1
    pub data_start : m.blocks.data_area_start_address ≡ 1 + link_sectors

  module _ (disk : IsSectorDisk) where
    format_loop-mbr :
        (left i : ℕ) (d : D)
        → driver.read_sectors (format_loop driver left i d).1 0 1 ≡ driver.read_sectors d 0 1
    unfolding format_loop
    format_loop-mbr zero i d = refl
    format_loop-mbr (suc left) i d =
        elim (Option-cases (driver.write_sectors d (i + 1) 1 (format_sector driver i))) [
          | inl e ↦ rw (e, format_loop) refl
          | inr (d', e) ↦
              rw (e, format_loop)
                (format_loop-mbr left (i + 1) d'
                  ∙ disk.others d d' (i + 1) 0 (format_sector driver i)
                      (λ z. absurd (omega (arith, z))) e)
        ]

    -- The MBR after a format that succeeded.
    format_disk-mbr :
        (d : D) (total : ℕ)
        → (format_disk driver d total).0 ≡ true
        → (bytes : List ℕ) × (length bytes ≡ 512)
          × (driver.read_sectors (format_disk driver d total).1 0 1
              ≡ some (format_mbr bytes (format_sizes total).0 (format_sizes total).1))
    unfolding format_disk
    format_disk-mbr d total h =
        let sizes = format_sizes total in
        elim (Option-cases (driver.read_sectors d 0 1)) [
          | inl e ↦
              absurd
                (let contra : false ≡ true = rw (e, format_disk) at h in ground (arith, contra))
          | inr (bytes, e) ↦
              let new = format_mbr bytes sizes.0 sizes.1 in
              elim (Option-cases (driver.write_sectors d 0 1 new)) [
                | inl f ↦ absurd (
                    let contra : false ≡ true = rw (e, f, format_disk) at h in
                    ground (arith, contra))
                | inr (d', f) ↦ (
                  bytes,
                  disk.sector_size d 0 bytes e,
                  rw (e, f, format_disk)
                      (format_loop-mbr (sizes.0 + 8) 0 d' ∙ disk.written d d' 0 new f),
                )
              ]
        ]

    sizes_bounds :
        (total : ℕ) → ((format_sizes total).0 < 2 ^ 26) × ((format_sizes total).1 < 2 ^ 32)
    unfolding format_sizes
    sizes_bounds total = omega arith

    device-format :
        (total : ℕ) (m : Manager (Disk D))
        → (format driver (some total) m).1.blocks.device
          ≡ (format_disk driver m.blocks.device total).1
    unfolding format
    device-format total m = ground arith

    done-format :
        (total : ℕ) (m : Manager (Disk D))
        → (format driver (some total) m).0 ≡ (format_disk driver m.blocks.device total).0
    unfolding format
    done-format total m = refl

    mount_at-IsLaidOut :
        (m : Manager (Disk D)) (bytes : List ℕ) (link_sectors clusters : ℕ)
        → dword_from bytes signature_offset ≡ file_system_signature
        → dword_from bytes reserved_offset ≡ 0
        → dword_from bytes link_sectors_offset ≡ link_sectors
        → dword_from bytes clusters_offset ≡ clusters
        → link_sectors < 2 ^ 26
        → ((mount_at driver m bytes).0 ≡ true)
          × IsLaidOut link_sectors clusters (mount_at driver m bytes).1
    unfolding mount_at
    mount_at-IsLaidOut m bytes link_sectors clusters s r l c small =
        rw (s, r, l, c)
          (
            refl,
            record {
              mounted = refl;
              link_size = refl;
              total = refl;
              link_start = omega arith;
              data_start = omega (arith, small);
            },
          )

    mount-reads :
        (m : Manager (Disk D)) (bytes : List ℕ)
        → driver.read_sectors m.blocks.device 0 1 ≡ some bytes
        → mount driver m ≡ mount_at driver (lock m) bytes
    unfolding mount
    mount-reads m bytes e = rw (e, mount) refl

    -- On a disk that keeps its sectors, kMount after a kFormat that succeeded returns TRUE and
    -- finds the volume laid out with the sizes that kFormat chose: the link table from sector 1 on,
    -- and the clusters behind it.
    pub format-mount :
        (total : ℕ) (m : Manager (Disk D))
        → (format driver (some total) m).0 ≡ true
        → let after = mount driver (format driver (some total) m).1 in
          (after.0 ≡ true) × IsLaidOut (format_sizes total).0 (format_sizes total).1 after.1
    format-mount total m h =
        let f = (format driver (some total) m).1 in
        let q = format_disk-mbr m.blocks.device total (sym (done-format total m) ∙ h) in
        let w = sizes_bounds total in
        let l = (format_sizes total).0 in
        let c = (format_sizes total).1 in
        let read : driver.read_sectors f.blocks.device 0 1 ≡ some (format_mbr q.0 l c) =
          ap (λ d. driver.read_sectors d 0 1) (device-format total m) ∙ q.2 in
        rw (mount-reads f (format_mbr q.0 l c) read) (
          mount_at-IsLaidOut (lock f) (format_mbr q.0 l c) l c
            (mbr-signature q.0 q.1 l c (omega (arith, w.0)) w.1)
            (mbr-reserved q.0 q.1 l c (omega (arith, w.0)) w.1)
            (mbr-link_sectors q.0 q.1 l c (omega (arith, w.0)) w.1)
            (mbr-clusters q.0 q.1 l c (omega (arith, w.0)) w.1) w.0)
