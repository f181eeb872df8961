-- ===== src/Memory/Words.antt =====
-- QWORDs as their bytes.
use mintos.Base.{
  ℕ, zero, suc, ◌+◌, ◌-◌, ◌^◌, ◌<◌, ◌≡◌, ◌≢◌, refl, ◌∙◌, inl, inr, Bool, ◌&&◌, none, some, List, [],
  ◌∷◌, arith, ◌==◌, ltb, leb, if◌then◌else◌, length, get_or, replicate, Bool-cases, ==_iff,
  get_or-replicate,
}
use mintos.Memory.{
  Bytes, load_qword, qword_bytes, store_bytes, store_byte, store_qword, repeat_byte, low_byte,
}

-- Each address holds a byte.
abbrev pub IsBytes : Bytes → Type 0
IsBytes m = (a : ℕ) → m a < 256

-- The address lies in the area of `n` bytes at `a`.
abbrev pub within : (a n x : ℕ) → Bool
within a n x = leb a x && ltb x (a + n)

abbrev pub bytes_from : Bytes → ℕ → List ℕ
bytes_from m a =
    m a ∷ m (a + 1) ∷ m (a + 2) ∷ m (a + 3) ∷ m (a + 4) ∷ m (a + 5) ∷ m (a + 6) ∷ m (a + 7) ∷ []

module _ (m : Bytes) (bytes : IsBytes m) (a : ℕ) where
  pub load_qword-lt : load_qword m a < 2 ^ 64
  unfolding load_qword
  load_qword-lt = omega (
    arith,
    bytes a,
    bytes (a + 1),
    bytes (a + 2),
    bytes (a + 3),
    bytes (a + 4),
    bytes (a + 5),
    bytes (a + 6),
    bytes (a + 7),
  )

  pub qword_bytes-load_qword : qword_bytes (load_qword m a) ≡ bytes_from m a
  unfolding load_qword qword_bytes
  qword_bytes-load_qword =
      let b0 = bytes a in
      let b1 = bytes (a + 1) in
      let b2 = bytes (a + 2) in
      let b3 = bytes (a + 3) in
      let b4 = bytes (a + 4) in
      let b5 = bytes (a + 5) in let b6 = bytes (a + 6) in let b7 = bytes (a + 7) in ground arith

-- A QWORD is given by its bytes.
pub qword_bytes-injective :
    (p q : ℕ) → p < 2 ^ 64 → q < 2 ^ 64 → qword_bytes p ≡ qword_bytes q → p ≡ q
unfolding qword_bytes
qword_bytes-injective p q h l e = ground (arith, e)

pub low_byte-none : (q : ℕ) → q < 2 ^ 64 → low_byte (qword_bytes q) ≡ none → q ≡ 0
unfolding low_byte qword_bytes
low_byte-none q h e = ground (arith, e)

pub low_byte-some : (vs : List ℕ) (v : ℕ) → low_byte vs ≡ some v → v ≢ 0
unfolding low_byte
low_byte-some [] v e z = absurd (ground (arith, e))
low_byte-some (x ∷ xs) v e z = elim (Bool-cases (x == 0)) [
  | inl at ↦ low_byte-some xs v (ground (arith, e, at)) z
  | inr other ↦ absurd (ground (arith, e, other, z))
]

pub qword_bytes-repeat_byte :
    (byte : ℕ) → byte < 256 → qword_bytes (repeat_byte 8 byte 0) ≡ replicate 8 byte
unfolding qword_bytes repeat_byte
qword_bytes-repeat_byte byte h = ground arith

-- What is stored is read back, and no other byte changes.
pub store_bytes_lem :
    (m : Bytes) (a : ℕ) (vs : List ℕ) (x : ℕ)
    → store_bytes m a vs x ≡ (if within a (length vs) x then get_or vs (x - a) 0 else m x)
unfolding store_bytes
store_bytes_lem m a [] x = ground arith
store_bytes_lem m a (v ∷ vs) x = elim (Bool-cases (x == a)) [
  | inl at ↦
      let same : x ≡ a = (==_iff x a).0 at in
      let zeroed : x - a ≡ 0 = omega (arith, same) in
      store_bytes_lem (store_byte m a v) (a + 1) vs x ∙ rw zeroed (ground (arith, same))
  | inr other ↦ elim (Bool-cases (leb a x)) [
    | inr below ↦ store_bytes_lem (store_byte m a v) (a + 1) vs x ∙ ground (arith, other, below)
    | inl above ↦
        let next : x - a ≡ suc (x - (a + 1)) = ground (arith, other, above) in
        store_bytes_lem (store_byte m a v) (a + 1) vs x ∙ rw next (ground (arith, other, above))
  ]
]

pub bytes_from_lem : (m : Bytes) (b k : ℕ) → k < 8 → get_or (bytes_from m b) k 0 ≡ m (b + k)
bytes_from_lem m b zero h = let e : b + 0 ≡ b = omega arith in rw e refl
bytes_from_lem m b (suc zero) h = refl
bytes_from_lem m b (suc (suc zero)) h = refl
bytes_from_lem m b (suc (suc (suc zero))) h = refl
bytes_from_lem m b (suc (suc (suc (suc zero)))) h = refl
bytes_from_lem m b (suc (suc (suc (suc (suc zero))))) h = refl
bytes_from_lem m b (suc (suc (suc (suc (suc (suc zero)))))) h = refl
bytes_from_lem m b (suc (suc (suc (suc (suc (suc (suc zero))))))) h = refl
bytes_from_lem m b (suc (suc (suc (suc (suc (suc (suc (suc k)))))))) h = absurd (omega arith)

-- `load_qword` of one place stored at another.
pub store_qword-load_qword :
    (m n : Bytes) (a b x : ℕ)
    → IsBytes n
    → store_qword m a (load_qword n b) x ≡ (if within a 8 x then n (b + (x - a)) else m x)
unfolding store_qword
store_qword-load_qword m n a b x bytes =
    store_bytes_lem m a (qword_bytes (load_qword n b)) x
    ∙ rw (qword_bytes-load_qword n bytes b) (elim (Bool-cases (within a 8 x)) [
      | inr out ↦ rw out refl
      | inl here ↦ rw here (bytes_from_lem n b (x - a) (ground (arith, here)))
    ])

pub store_qword-repeat_byte :
    (m : Bytes) (a byte x : ℕ)
    → byte < 256
    → store_qword m a (repeat_byte 8 byte 0) x ≡ (if within a 8 x then byte else m x)
unfolding store_qword
store_qword-repeat_byte m a byte x h =
    store_bytes_lem m a (qword_bytes (repeat_byte 8 byte 0)) x
    ∙ rw (qword_bytes-repeat_byte byte h) (elim (Bool-cases (within a 8 x)) [
      | inr out ↦ rw out refl
      | inl here ↦ rw here (get_or-replicate 8 (x - a) byte 0 (ground (arith, here)))
    ])
