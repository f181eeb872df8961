-- ===== src/FileSystem/Tests.antt =====
-- The theorems on blocks at a data area with clusters of 8 sectors and a cache of two entries.
use mintos.Base.{
  ℕ, ◌≡◌, refl, Bool, true, false, Option, none, some, List, [], ◌∷◌, arith, ◌==◌, if◌then◌else◌,
  ap, subst, ==_self, ne→==_false, sym, ◌∙◌, Bool-cases, inl, inr, ==_iff,
}
use mintos.Cache.Lookup.{lookup}
use mintos.FileSystem.{
  Driver, Area, Store, block_address, read_without_cache, write_without_cache, read_with_cache,
  write_with_cache,
}
use mintos.FileSystem.Coherence.{IsInside, IsDisk}
use mintos.FileSystem.Outcome.{IsStore}
use mintos.FileSystem.Blocks.{IsRead, IsWritten, read_with_cache-IsRead, write_with_cache-IsWritten}

-- A disk that keeps the bytes of each address.
abbrev Disk : Type 0
Disk = ℕ → List ℕ

abbrev driver : Driver Disk
driver = record {
  read_sectors = λ d a n. some (d a);
  write_sectors = λ d a n bytes. some (λ x. if x == a then bytes else d x);
}

abbrev data_area : Area
data_area = record { start_address = 100; sectors = 8 }

abbrev or_disk : Disk → Option Disk → Disk
or_disk d none = d
or_disk d (some e) = e

driver-IsDisk : IsDisk driver data_area
unfolding read_without_cache write_without_cache
driver-IsDisk = record {
  written = λ d d' b bytes h w.
      let a = block_address driver data_area b in
      let now : (λ x. if x == a then bytes else d x) ≡ d' = ap (or_disk d) w in
      ap (λ (e : Disk). some (e a)) (sym now) ∙ rw (==_self a) refl;
  others = λ d d' b c bytes h i ne w.
      let a = block_address driver data_area b in
      let a' = block_address driver data_area c in
      let now : (λ x. if x == a then bytes else d x) ≡ d' = ap (or_disk d) w in
      let apart : (a' == a) ≡ false = ne→==_false a' a (omega (arith, h.1, i.1, ne)) in
      ap (λ (e : Disk). some (e a')) (sym now) ∙ rw apart refl;
}

-- Block 5 is changed in the cache, block 6 is not.
abbrev two_blocks : Store Disk
two_blocks = record {
  disk = λ a. if a == 148 then 6 ∷ [] else 0 ∷ [];
  table = record {
    access_time = 2;
    buffers =
        record { tag = 5; access_time = 0; changed = true; buffer = 5 ∷ [] }
        ∷ record { tag = 6; access_time = 1; changed = false; buffer = 6 ∷ [] }
        ∷ [];
  };
  cache_enable = true;
}

two_blocks-IsInside :
    (b : ℕ) (e : Bool × List ℕ)
    → lookup b two_blocks.table.buffers ≡ some e
    → IsInside driver data_area b
two_blocks-IsInside b e h = elim (Bool-cases (5 == b)) [
  | inl five ↦ let at : 5 ≡ b = (==_iff 5 b).0 five in (omega (arith, at), omega (arith, at))
  | inr not_five ↦ elim (Bool-cases (6 == b)) [
    | inl six ↦ let at : 6 ≡ b = (==_iff 6 b).0 six in (omega (arith, at), omega (arith, at))
    | inr not_six ↦
        let contra : none ≡ some e = rw (not_five, not_six) at h in absurd (ground (arith, contra))
  ]
]

abbrev bytes_of : Option (Bool × List ℕ) → Option (List ℕ)
bytes_of none = none
bytes_of (some e) = some e.1

two_blocks-clean :
    (b : ℕ) (bytes : List ℕ)
    → lookup b two_blocks.table.buffers ≡ some (false, bytes)
    → read_without_cache driver data_area two_blocks.disk b ≡ some bytes
unfolding read_without_cache
two_blocks-clean b bytes h = elim (Bool-cases (5 == b)) [
  | inl five ↦
      let contra : some (true, 5 ∷ []) ≡ some (false, bytes) = rw five at h in
      absurd (ground (arith, contra))
  | inr not_five ↦ elim (Bool-cases (6 == b)) [
    | inl six ↦
        let found : some (false, 6 ∷ []) ≡ some (false, bytes) = rw (not_five, six) at h in
        subst (λ x. read_without_cache driver data_area two_blocks.disk x ≡ some bytes)
          ((==_iff 6 b).0 six) (ap bytes_of found)
    | inr not_six ↦
        let contra : none ≡ some (false, bytes) = rw (not_five, not_six) at h in
        absurd (ground (arith, contra))
  ]
]

two_blocks-IsStore : IsStore driver data_area two_blocks
two_blocks-IsStore = record {
  coherent = record {
    distinct = (λ h. refl, (λ h. refl, tt));
    inside = λ b e h held. two_blocks-IsInside b e held;
    clean = λ b bytes h held. two_blocks-clean b bytes held;
  };
  known = (inl (ground arith), (inl (ground arith), tt));
}

-- Block 9 is read in place of block 5.
read_with_cache-IsRead_example :
    IsRead driver data_area two_blocks 9 (read_with_cache driver data_area two_blocks 9)
read_with_cache-IsRead_example =
    read_with_cache-IsRead driver data_area driver-IsDisk two_blocks 9 two_blocks-IsStore
      (ground arith, ground arith)

write_with_cache-IsWritten_example :
    IsWritten driver data_area two_blocks 6
      (7 ∷ [])
      (write_with_cache driver data_area two_blocks 6 (7 ∷ []))
write_with_cache-IsWritten_example =
    write_with_cache-IsWritten driver data_area driver-IsDisk two_blocks 6 two_blocks-IsStore
      (ground arith, ground arith) (7 ∷ [])
