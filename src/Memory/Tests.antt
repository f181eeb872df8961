-- ===== src/Memory/Tests.antt =====
-- The theorems on memory at areas of a few words and bytes.
use mintos.Base.{ℕ, ◌%◌, ◌<◌, ◌≤◌, ◌≡◌, ◌↔◌, refl, inl, arith}
use mintos.Memory.{
  Bytes, mem_set, mem_cpy, mem_cmp, set_qwords, set_bytes, store_qword, store_bytes, qword_bytes,
  repeat_byte,
}
use mintos.Memory.Words.{IsBytes}
use mintos.Memory.Copy.{mem_set_lem, mem_cpy_lem}
use mintos.Memory.Compare.{mem_cmp-zero}

abbrev counting : Bytes
counting x = x % 256

counting-IsBytes : IsBytes counting
counting-IsBytes a = omega arith

mem_set_lem_example : mem_set counting 100 0x20 19 118 ≡ 0x20
mem_set_lem_example = mem_set_lem counting 100 0x20 (omega arith) 19 118

-- Lines are moved up by 160 bytes.
mem_cpy_lem_example : mem_cpy counting 0 160 37 36 ≡ 196
mem_cpy_lem_example = mem_cpy_lem counting counting-IsBytes 0 160 37 (inl (omega arith)) 36

mem_cmp-zero_example :
    (mem_cmp counting counting 11 ≡ 0) ↔ ((x : ℕ) → 0 ≤ x → x < 11 → counting x ≡ counting x)
mem_cmp-zero_example = mem_cmp-zero counting counting counting-IsBytes counting-IsBytes 11

-- Nine bytes from 3 on end with the one at 11.
mem_set_run : mem_set counting 3 9 9 11 ≡ 9
unfolding mem_set set_qwords set_bytes store_qword store_bytes qword_bytes repeat_byte
mem_set_run = refl
