-- ===== src/Memory.antt =====
-- 02.Kernel64/Utility.c: kMemSet, kMemCpy and kMemCmp, which go by QWORDs and end with single bytes.
-- Memory is a function from addresses to bytes. Sizes are not negative and no area passes the end of
-- the address space.
mod Tests
pub mod Words
pub mod Copy
pub mod Compare
use mintos.Base.{
  ℕ, zero, suc, ◌+◌, ◌-◌, ◌*◌, ◌/◌, ◌%◌, ◌^◌, Bool, true, false, Option, none, some, List, [], ◌∷◌,
  ◌==◌, if◌then◌else◌,
}

abbrev pub Bytes : Type 0
Bytes = ℕ → ℕ

-- `((QWORD *)pointer)[i]` at address `a`, in little-endian order.
unfoldable pub load_qword : Bytes → ℕ → ℕ
load_qword m a =
    m a
    + 0x100 * m (a + 1)
    + 0x1_0000 * m (a + 2)
    + 0x100_0000 * m (a + 3)
    + 0x1_0000_0000 * m (a + 4)
    + 0x100_0000_0000 * m (a + 5)
    + 0x1_0000_0000_0000 * m (a + 6)
    + 0x100_0000_0000_0000 * m (a + 7)

unfoldable pub qword_bytes : ℕ → List ℕ
qword_bytes q =
    q % 256
    ∷ q / 0x100 % 256
    ∷ q / 0x1_0000 % 256
    ∷ q / 0x100_0000 % 256
    ∷ q / 0x1_0000_0000 % 256
    ∷ q / 0x100_0000_0000 % 256
    ∷ q / 0x1_0000_0000_0000 % 256
    ∷ q / 0x100_0000_0000_0000 % 256
    ∷ []

abbrev pub store_byte : Bytes → ℕ → ℕ → Bytes
store_byte m a v x = if x == a then v else m x

unfoldable pub store_bytes : Bytes → ℕ → List ℕ → Bytes
store_bytes m a [] = m
store_bytes m a (v ∷ vs) = store_bytes (store_byte m a v) (a + 1) vs

unfoldable pub store_qword : Bytes → ℕ → ℕ → Bytes
store_qword m a q = store_bytes m a (qword_bytes q)

-- `qwData = (qwData << 8) | bData`, `n` times
unfoldable pub repeat_byte : (n : ℕ) → (byte word : ℕ) → ℕ
repeat_byte zero byte word = word
repeat_byte (suc n) byte word = repeat_byte n byte (word * 256 % 2 ^ 64 + byte)

-- The loops of kMemSet from index `i` on, with `left` rounds to go.
unfoldable pub set_qwords : (left i : ℕ) → Bytes → (destination word : ℕ) → Bytes
set_qwords zero i m d word = m
set_qwords (suc left) i m d word = set_qwords left (i + 1) (store_qword m (d + i * 8) word) d word

unfoldable pub set_bytes : (left i : ℕ) → Bytes → (destination byte : ℕ) → Bytes
set_bytes zero i m d byte = m
set_bytes (suc left) i m d byte = set_bytes left (i + 1) (store_byte m (d + i) byte) d byte

-- kMemSet
unfoldable pub mem_set : Bytes → (destination byte size : ℕ) → Bytes
mem_set m d byte size =
    set_bytes (size % 8) (size / 8 * 8) (set_qwords (size / 8) 0 m d (repeat_byte 8 byte 0)) d byte

-- The loops of kMemCpy.
unfoldable pub copy_qwords : (left i : ℕ) → Bytes → (destination source : ℕ) → Bytes
copy_qwords zero i m d s = m
copy_qwords (suc left) i m d s =
    copy_qwords left (i + 1) (store_qword m (d + i * 8) (load_qword m (s + i * 8))) d s

unfoldable pub copy_bytes : (left i : ℕ) → Bytes → (destination source : ℕ) → Bytes
copy_bytes zero i m d s = m
copy_bytes (suc left) i m d s = copy_bytes left (i + 1) (store_byte m (d + i) (m (s + i))) d s

-- kMemCpy
unfoldable pub mem_cpy : Bytes → (destination source size : ℕ) → Bytes
mem_cpy m d s size = copy_bytes (size % 8) (size / 8 * 8) (copy_qwords (size / 8) 0 m d s) d s

-- The lowest byte of a QWORD that is not zero, as the inner loop of kMemCmp returns it.
unfoldable pub low_byte : List ℕ → Option ℕ
low_byte [] = none
low_byte (v ∷ vs) = if v == 0 then low_byte vs else some v

-- The loops of kMemCmp; `none` means that no difference was found. The two areas are only read, so a
-- pointer is the bytes from it on.
unfoldable pub compare_qwords : (left i : ℕ) → (a b : Bytes) → Option ℕ
compare_qwords zero i a b = none
compare_qwords (suc left) i a b =
    let value = (load_qword a (i * 8) + 2 ^ 64 - load_qword b (i * 8)) % 2 ^ 64 in
    let rest = compare_qwords left (i + 1) a b in
    if value == 0
    then rest
    else elim (low_byte (qword_bytes value)) [ none ↦ rest | some v ↦ some v ]

-- A `char` is signed: the difference goes to an `int` with its sign.
abbrev pub sign_extend : ℕ → ℕ
sign_extend v = if v / 128 == 0 then v else v + 2 ^ 32 - 256

unfoldable pub compare_bytes : (left i : ℕ) → (a b : Bytes) → Option ℕ
compare_bytes zero i a b = none
compare_bytes (suc left) i a b =
    let value = (a i + 256 - b i) % 256 in
    let rest = compare_bytes left (i + 1) a b in
    if value == 0 then rest else some (sign_extend value)

-- kMemCmp
unfoldable pub mem_cmp : (a b : Bytes) → ℕ → ℕ
mem_cmp a b size = elim (compare_qwords (size / 8) 0 a b) [
  | some v ↦ v
  | none ↦ elim (compare_bytes (size % 8) (size / 8 * 8) a b) [ some v ↦ v | none ↦ 0 ]
]
