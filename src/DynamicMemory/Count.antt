-- ===== src/DynamicMemory/Count.antt =====
-- The number of exist bits below a bound, and how one write changes it.
use mintos.Base.{
  ℕ, zero, suc, ◌+◌, ◌≤◌, ◌<◌, ◌≡◌, refl, Bool, true, false, none, arith, ◌==◌, if◌then◌else◌,
  Bool-cases, inl, inr, ==_iff, ne→==_false, ap,
}
use mintos.Mutex.{update}
use mintos.DynamicMemory.Find.{first_set}

-- How many of the `n` bits from offset `o` on are set.
abbrev pub count_set : (n o : ℕ) → (ℕ → Bool) → ℕ
count_set zero o bits = 0
count_set (suc n) o bits =
    if bits o then suc (count_set n (o + 1) bits) else count_set n (o + 1) bits

-- A write below the range does not count.
count_set-before :
    (n o i : ℕ) (bits : ℕ → Bool) (v : Bool)
    → i < o
    → count_set n o (update bits i v) ≡ count_set n o bits
count_set-before zero o i bits v h = refl
count_set-before (suc n) o i bits v h =
    rw (ne→==_false o i (omega arith), count_set-before n (o + 1) i bits v (omega arith)) refl

-- Setting a bit adds what was missing; clearing one takes what was there.
pub count_set-add :
    (n o i : ℕ) (bits : ℕ → Bool)
    → o ≤ i
    → i < o + n
    → bits i ≡ false
    → count_set n o (update bits i true) ≡ suc (count_set n o bits)
count_set-add zero o i bits lo hi h = absurd (omega arith)
count_set-add (suc n) o i bits lo hi h = elim (Bool-cases (o == i)) [
  | inl at ↦
      let same : o ≡ i = (==_iff o i).0 at in
      rw (at, same, h, count_set-before n (i + 1) i bits true (omega arith)) refl
  | inr ne ↦
      rw (ne, count_set-add n (o + 1) i bits (ground arith) (omega arith) h)
        (elim (Bool-cases (bits o)) [ inl b ↦ rw b refl | inr b ↦ rw b refl ])
]

pub count_set-drop :
    (n o i : ℕ) (bits : ℕ → Bool)
    → o ≤ i
    → i < o + n
    → bits i ≡ true
    → suc (count_set n o (update bits i false)) ≡ count_set n o bits
count_set-drop zero o i bits lo hi h = absurd (omega arith)
count_set-drop (suc n) o i bits lo hi h = elim (Bool-cases (o == i)) [
  | inl at ↦
      let same : o ≡ i = (==_iff o i).0 at in
      rw (at, same, h, count_set-before n (i + 1) i bits false (omega arith)) refl
  | inr ne ↦
      let rest = count_set-drop n (o + 1) i bits (ground arith) (omega arith) h in
      elim (Bool-cases (bits o)) [ inl b ↦ rw (ne, b) (ap suc rest) | inr b ↦ rw (ne, b) rest ]
]

-- A write of what is there changes nothing.
pub count_set-same :
    (n o i : ℕ) (bits : ℕ → Bool) (v : Bool)
    → bits i ≡ v
    → count_set n o (update bits i v) ≡ count_set n o bits
count_set-same zero o i bits v h = refl
count_set-same (suc n) o i bits v h = elim (Bool-cases (o == i)) [
  | inl at ↦
      let there : bits o ≡ v = rw ((==_iff o i).0 at) h in
      rw (at, there, count_set-same n (o + 1) i bits v h) refl
  | inr ne ↦ rw (ne, count_set-same n (o + 1) i bits v h) refl
]

-- No bit is counted exactly where the search finds none.
pub count_set-none :
    (n o : ℕ) (bits : ℕ → Bool) → count_set n o bits ≡ 0 → first_set n o bits ≡ none
count_set-none zero o bits h = refl
count_set-none (suc n) o bits h = elim (Bool-cases (bits o)) [
  | inl b ↦ ground arith
  | inr b ↦ rw b (count_set-none n (o + 1) bits (rw b at h))
]
