-- ===== src/Volume/Sample.antt =====
-- A small volume in memory for the tests of the upper functions: it keeps the bytes of each block,
-- and no read or write fails. The link table has two sectors.
use mintos.Base.{
  ℕ, ◌<◌, ◌≡◌, ◌≢◌, refl, inl, inr, Bool, true, false, ◌&&◌, some, List, [], ◌∷◌, arith, ltb,
  get_or, zero, suc, ◌==◌, if◌then◌else◌, ==_self, ne→==_false,
}
use mintos.DynamicMemory.{DynamicMemory}
use mintos.Volume.{AreaKind, link_table, data_area, BlockOps}
use mintos.Volume.View.{BlockView, BlockLaws}

abbrev pub Contents : Type 0
Contents = AreaKind → ℕ → List ℕ

abbrev same_area : AreaKind → AreaKind → Bool
same_area link_table link_table = true
same_area data_area data_area = true
same_area link_table data_area = false
same_area data_area link_table = false

abbrev pub sample_ops : BlockOps Contents
sample_ops = record {
  read = λ s k b. (some (s k b), s);
  write = λ s k b bytes. (true, λ l c. if same_area l k && c == b then bytes else s l c);
}

abbrev pub sample_view : BlockView Contents
sample_view = record { IsGood = λ s. Unit; IsInside = λ k b. b < 16; shown = λ s k b. some (s k b) }

same_area_refl : (k : AreaKind) → same_area k k ≡ true
same_area_refl link_table = refl
same_area_refl data_area = refl

same_area-ne : (l k : AreaKind) → l ≢ k → same_area l k ≡ false
same_area-ne link_table link_table h = absurd (h refl)
same_area-ne data_area data_area h = absurd (h refl)
same_area-ne link_table data_area h = refl
same_area-ne data_area link_table h = refl

pub sample_laws : BlockLaws sample_view sample_ops
sample_laws = record {
  reads = λ s k b g h. record { good = tt; result = inr refl; same = λ l c i. refl };
  writes = λ s k b bytes g h. record {
    good = tt;
    result = inl (refl, rw (same_area_refl k, ==_self b) refl);
    same_others = λ c i ne. rw (same_area_refl k, ne→==_false c b ne) refl;
    same_area = λ l c ne i. rw (same_area-ne l k ne) refl;
  };
}

-- A memory that has nothing to give.
abbrev pub no_memory : DynamicMemory
no_memory = record {
  max_level_count = 0;
  block_count_of_smallest_block = 0;
  used_size = 0;
  start_address = 0;
  end_address = 0;
  allocated_block_list_index = λ i. 0xff;
  bitmap_of_level = λ level. record { bits = λ o. false; exist_bit_count = 0 };
}

abbrev pub all_bytes : List ℕ → Bool
all_bytes [] = true
all_bytes (x ∷ xs) = ltb x 256 && all_bytes xs

pub all_bytes-get_or : (xs : List ℕ) → all_bytes xs ≡ true → (k : ℕ) → get_or xs k 0 < 256
all_bytes-get_or [] h k = omega arith
all_bytes-get_or (x ∷ xs) h zero = ground (arith, h)
all_bytes-get_or (x ∷ xs) h (suc k) = all_bytes-get_or xs (ground (arith, h)) k
