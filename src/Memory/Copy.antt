-- ===== src/Memory/Copy.antt =====
-- kMemSet and kMemCpy do what their loops over bytes would.
use mintos.Base.{
  ℕ, zero, suc, ◌+◌, ◌-◌, ◌*◌, ◌/◌, ◌%◌, ◌<◌, ◌≤◌, ◌≡◌, ap, subst, ◌∙◌, ◌⊎◌, inl, inr, true, arith,
  ◌==◌, if◌then◌else◌, Bool-cases,
}
use native.Mathlib.Nat.{zero-add}
use mintos.Memory.{
  Bytes, load_qword, store_byte, store_qword, repeat_byte, set_qwords, set_bytes, mem_set,
  copy_qwords, copy_bytes, mem_cpy,
}
use mintos.Memory.Words.{IsBytes, within, store_qword-load_qword, store_qword-repeat_byte}

module _ (m : Bytes) (d byte : ℕ) (word : byte < 256) where
  -- The first `n` bytes are set, and no other.
  abbrev IsFilled : ℕ → Bytes → Type 0
  IsFilled n m' = (x : ℕ) → m' x ≡ (if within d n x then byte else m x)

  set_qwords-IsFilled :
      (left i : ℕ) (m' : Bytes)
      → IsFilled (i * 8) m'
      → IsFilled ((i + left) * 8) (set_qwords left i m' d (repeat_byte 8 byte 0))
  unfolding set_qwords
  set_qwords-IsFilled zero i m' h x = let e : i + 0 ≡ i = omega arith in rw e (h x)
  set_qwords-IsFilled (suc left) i m' h x =
      let e : i + suc left ≡ (i + 1) + left = omega arith in
      rw e (
        set_qwords-IsFilled left (i + 1) (store_qword m' (d + i * 8) (repeat_byte 8 byte 0))
          (λ y. store_qword-repeat_byte m' (d + i * 8) byte y word ∙ ground (arith, h y)) x)

  set_bytes-IsFilled :
      (left i : ℕ) (m' : Bytes) → IsFilled i m' → IsFilled (i + left) (set_bytes left i m' d byte)
  unfolding set_bytes
  set_bytes-IsFilled zero i m' h x = let e : i + 0 ≡ i = omega arith in rw e (h x)
  set_bytes-IsFilled (suc left) i m' h x =
      let e : i + suc left ≡ (i + 1) + left = omega arith in
      rw e
        (set_bytes-IsFilled left (i + 1) (store_byte m' (d + i) byte) (λ y. ground (arith, h y)) x)

  -- kMemSet sets the bytes of the area to the byte and no others.
  pub mem_set_lem : (size x : ℕ) → mem_set m d byte size x ≡ (if within d size x then byte else m x)
  unfolding mem_set
  mem_set_lem size x =
      let whole : size / 8 * 8 + size % 8 ≡ size = omega arith in
      let words : IsFilled (size / 8 * 8) (set_qwords (size / 8) 0 m d (repeat_byte 8 byte 0)) =
        subst (λ z. IsFilled (z * 8) (set_qwords (size / 8) 0 m d (repeat_byte 8 byte 0)))
          (zero-add (size / 8)) (set_qwords-IsFilled (size / 8) 0 m (λ z. ground arith)) in
      subst (λ z. mem_set m d byte size x ≡ (if within d z x then byte else m x)) whole
        (set_bytes-IsFilled (size % 8) (size / 8 * 8) _ words x)

module _ (m : Bytes) (bytes : IsBytes m) (d s size : ℕ) (forward : (d ≤ s) ⊎ (s + size ≤ d)) where
  -- The first `n` bytes are copied, and no other byte has changed.
  abbrev IsCopied : ℕ → Bytes → Type 0
  IsCopied n m' = (x : ℕ) → m' x ≡ (if within d n x then m (s + (x - d)) else m x)

  IsCopied-IsBytes : (n : ℕ) (m' : Bytes) → IsCopied n m' → IsBytes m'
  IsCopied-IsBytes n m' h x = ground (arith, h x, bytes x, bytes (s + (x - d)))

  -- What is read next has not been written over.
  unread : (n k : ℕ) (m' : Bytes) → IsCopied n m' → n + k < size → m' (s + n + k) ≡ m (s + n + k)
  unread n k m' h l = elim forward [
    | inl le ↦ ground (arith, h (s + n + k))
    | inr le ↦ ground (arith, h (s + n + k))
  ]

  store_qword-IsCopied :
      (i : ℕ) (m' : Bytes)
      → IsCopied (i * 8) m'
      → (i + 1) * 8 ≤ size
      → IsCopied ((i + 1) * 8) (store_qword m' (d + i * 8) (load_qword m' (s + i * 8)))
  store_qword-IsCopied i m' h l y =
      store_qword-load_qword m' m' (d + i * 8) (s + i * 8) y (IsCopied-IsBytes (i * 8) m' h)
      ∙ elim (Bool-cases (within (d + i * 8) 8 y)) [
        | inr out ↦ rw out (h y ∙ ground (arith, out))
        | inl here ↦
            let k = y - (d + i * 8) in
            let at : s + i * 8 + k ≡ s + (y - d) = ground (arith, here) in
            let covered : within d ((i + 1) * 8) y ≡ true = ground (arith, here) in
            rw (here, covered) (unread (i * 8) k m' h (ground (arith, here)) ∙ ap m at)
      ]

  copy_qwords-IsCopied :
      (left i : ℕ) (m' : Bytes)
      → (i + left) * 8 ≤ size
      → IsCopied (i * 8) m'
      → IsCopied ((i + left) * 8) (copy_qwords left i m' d s)
  unfolding copy_qwords
  copy_qwords-IsCopied zero i m' l h x = let e : i + 0 ≡ i = omega arith in rw e (h x)
  copy_qwords-IsCopied (suc left) i m' l h x =
      let e : i + suc left ≡ (i + 1) + left = omega arith in
      rw e (
        copy_qwords-IsCopied left (i + 1) (store_qword m' (d + i * 8) (load_qword m' (s + i * 8)))
          (omega arith) (store_qword-IsCopied i m' h (omega arith)) x)

  store_byte-IsCopied :
      (i : ℕ) (m' : Bytes)
      → IsCopied i m'
      → i + 1 ≤ size
      → IsCopied (i + 1) (store_byte m' (d + i) (m' (s + i)))
  store_byte-IsCopied i m' h l y = elim (Bool-cases (y == d + i)) [
    | inl here ↦
        let at : s + i ≡ s + (y - d) = ground (arith, here) in
        let covered : within d (i + 1) y ≡ true = ground (arith, here) in
        let e : s + i + 0 ≡ s + i = omega arith in
        let read : m' (s + i) ≡ m (s + i) =
          subst (λ z. m' z ≡ m z) e (unread i 0 m' h (omega arith)) in
        rw (here, covered) (read ∙ ap m at)
    | inr other ↦ rw other (h y ∙ ground (arith, other))
  ]

  copy_bytes-IsCopied :
      (left i : ℕ) (m' : Bytes)
      → i + left ≤ size
      → IsCopied i m'
      → IsCopied (i + left) (copy_bytes left i m' d s)
  unfolding copy_bytes
  copy_bytes-IsCopied zero i m' l h x = let e : i + 0 ≡ i = omega arith in rw e (h x)
  copy_bytes-IsCopied (suc left) i m' l h x =
      let e : i + suc left ≡ (i + 1) + left = omega arith in
      rw e (
        copy_bytes-IsCopied left (i + 1) (store_byte m' (d + i) (m' (s + i))) (omega arith)
          (store_byte-IsCopied i m' h (omega arith)) x)

  -- Where the areas do not overlap, or the destination is not above the source, kMemCpy leaves in
  -- the destination the bytes that the source had, and changes no other byte.
  pub mem_cpy_lem :
      (x : ℕ) → mem_cpy m d s size x ≡ (if within d size x then m (s + (x - d)) else m x)
  unfolding mem_cpy
  mem_cpy_lem x =
      let whole : size / 8 * 8 + size % 8 ≡ size = omega arith in
      let words : IsCopied (size / 8 * 8) (copy_qwords (size / 8) 0 m d s) =
        subst (λ z. IsCopied (z * 8) (copy_qwords (size / 8) 0 m d s)) (zero-add (size / 8))
          (copy_qwords-IsCopied (size / 8) 0 m (omega arith) (λ z. ground arith)) in
      subst (λ z. mem_cpy m d s size x ≡ (if within d z x then m (s + (x - d)) else m x)) whole
        (copy_bytes-IsCopied (size % 8) (size / 8 * 8) _ (omega arith) words x)

  pub mem_cpy-IsBytes : IsBytes (mem_cpy m d s size)
  mem_cpy-IsBytes = IsCopied-IsBytes size (mem_cpy m d s size) mem_cpy_lem
