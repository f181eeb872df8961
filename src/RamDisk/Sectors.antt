-- ===== src/RamDisk/Sectors.antt =====
-- Sectors of the RAM disk: what is written is read back, and requests at the end of the disk.
use mintos.Base.{
  ℕ, ◌+◌, ◌-◌, ◌*◌, ◌%◌, ◌^◌, ◌<◌, ◌≤◌, ◌≡◌, ◌⊎◌, ◌∙◌, inl, inr, arith, if◌then◌else◌, false, refl,
}
use mintos.Memory.{Bytes}
use mintos.Memory.Words.{IsBytes, within}
use mintos.Memory.Copy.{mem_cpy_lem, mem_cpy-IsBytes}
use mintos.RamDisk.{RddManager, real_count, read_rdd_sector, write_rdd_sector}

-- Two areas of one size have no byte in common.
abbrev pub AreApart : (a b size : ℕ) → Type 0
AreApart a b size = (a + size ≤ b) ⊎ (b + size ≤ a)

real_count-full :
    (r : RddManager) (address count : ℕ)
    → r.total_sector_count < 2 ^ 32
    → address + 2 * count ≤ r.total_sector_count
    → real_count r address count ≡ count
unfolding real_count
real_count-full r address count word room = ground (arith, word, room)

module _ (m : Bytes) (bytes : IsBytes m) (r : RddManager) (address count source : ℕ)
    (word : r.total_sector_count * 512 < 2 ^ 32) (room : address + 2 * count ≤ r.total_sector_count)
    (apart : AreApart source (r.buffer + address * 512) (count * 512)) where
  abbrev place : ℕ
  place = r.buffer + address * 512

  abbrev written : Bytes
  written = (write_rdd_sector m r address count source).1

  apart_back : (place ≤ source) ⊎ (source + count * 512 ≤ place)
  apart_back = elim apart [ inl h ↦ inr h | inr h ↦ inl (omega arith) ]

  full : real_count r address count ≡ count
  full = real_count-full r address count (omega arith) room

  start : address * 512 % 2 ^ 32 ≡ address * 512
  start = ground arith

  -- kWriteRDDSector changes the bytes of its sectors to those of the caller's buffer, and no others.
  written_at :
      (y : ℕ) → written y ≡ (if within place (count * 512) y then m (source + (y - place)) else m y)
  unfolding write_rdd_sector
  written_at y = rw (full, start) (mem_cpy_lem m bytes place source (count * 512) apart_back y)

  written-IsBytes : IsBytes written
  unfolding write_rdd_sector
  written-IsBytes = rw (full, start) (mem_cpy-IsBytes m bytes place source (count * 512) apart_back)

  module _ (destination : ℕ) (clear : AreApart destination place (count * 512)) where
    forward : (destination ≤ place) ⊎ (place + count * 512 ≤ destination)
    forward = elim clear [ inl h ↦ inl (omega arith) | inr h ↦ inr h ]

    write_count : (write_rdd_sector m r address count source).0 ≡ count
    unfolding write_rdd_sector
    write_count = full

    read_count : (read_rdd_sector written r address count destination).0 ≡ count
    unfolding read_rdd_sector
    read_count = full

    untouched :
        (y : ℕ)
        → within destination (count * 512) y ≡ false
        → (read_rdd_sector written r address count destination).1 y ≡ written y
    unfolding read_rdd_sector
    untouched y q =
        rw (full, start)
          (mem_cpy_lem written written-IsBytes destination place (count * 512) forward y
            ∙ rw q refl)

    read_at :
        (x : ℕ)
        → x < count * 512
        → (read_rdd_sector written r address count destination).1 (destination + x)
          ≡ written (place + x)
    unfolding read_rdd_sector
    read_at x l =
        rw (full, start)
          (mem_cpy_lem written written-IsBytes destination place (count * 512) forward
              (destination + x)
            ∙ ground arith)

    -- After kWriteRDDSector has written `count` sectors and kReadRDDSector has read them into
    -- another buffer, both have moved all `count` sectors, the buffer has the bytes that were
    -- written, and no byte outside of the sectors and the buffer has changed, if `count` more
    -- sectors are left behind the request, neither buffer overlaps the sectors and the disk has
    -- fewer than 2 ^ 32 bytes.
    pub read_rdd_sector-write_rdd_sector :
        ((write_rdd_sector m r address count source).0 ≡ count)
        × ((read_rdd_sector written r address count destination).0 ≡ count)
        × ((x : ℕ)
            → x < count * 512
            → (read_rdd_sector written r address count destination).1 (destination + x)
              ≡ m (source + x))
        × ((y : ℕ)
            → within place (count * 512) y ≡ false
            → within destination (count * 512) y ≡ false
            → (read_rdd_sector written r address count destination).1 y ≡ m y)
    read_rdd_sector-write_rdd_sector = (
      write_count,
      read_count,
      λ x l. read_at x l ∙ written_at (place + x) ∙ ground (arith, l),
      λ y p q. untouched y q ∙ written_at y ∙ rw p refl,
    )
