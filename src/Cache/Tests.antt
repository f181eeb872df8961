-- ===== src/Cache/Tests.antt =====
-- The theorems on cache tables at a table of three entries whose clock is about to wrap.
use mintos.Base.{ℕ, zero, suc, ◌≡◌, refl, true, false, [], ◌∷◌, arith, length, some}
use mintos.Cache.{get_victim_in_cache_buffer, CacheTable, cut_down_access_time}
use mintos.Cache.Victim.{AllYoung, IsVictim, get_victim_in_cache_buffer-IsVictim}
use mintos.Cache.Lookup.{DistinctTags, lookup, cut_down_access_time-lookup}

abbrev old_table : CacheTable
old_table = record {
  access_time = 0xffff_fffe;
  buffers =
      record { tag = 7; access_time = 30; changed = true; buffer = 1 ∷ [] }
      ∷ record { tag = 9; access_time = 10; changed = false; buffer = 2 ∷ [] }
      ∷ record { tag = 8; access_time = 20; changed = true; buffer = 3 ∷ [] }
      ∷ [];
}

cut_down : (cut_down_access_time old_table).access_time ≡ 3
unfolding cut_down_access_time
cut_down = refl

cut_down_access_time-lookup_example :
    (lookup 8 (cut_down_access_time old_table).buffers ≡ some (true, 3 ∷ []))
    × DistinctTags (cut_down_access_time old_table).buffers
    × (length (cut_down_access_time old_table).buffers ≡ 3)
cut_down_access_time-lookup_example =
    cut_down_access_time-lookup old_table 8 (λ h. refl, (λ h. refl, (λ h. refl, tt))) (ground arith)

old_table-AllYoung : AllYoung old_table.buffers
old_table-AllYoung zero h = ground arith
old_table-AllYoung (suc zero) h = ground arith
old_table-AllYoung (suc (suc zero)) h = ground arith
old_table-AllYoung (suc (suc (suc j))) h = absurd (omega arith)

get_victim_in_cache_buffer-IsVictim_example :
    (k : ℕ) × ((get_victim_in_cache_buffer old_table).0 ≡ some k) × IsVictim old_table.buffers k
get_victim_in_cache_buffer-IsVictim_example =
    get_victim_in_cache_buffer-IsVictim old_table old_table-AllYoung (ground arith)
