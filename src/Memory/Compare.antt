-- ===== src/Memory/Compare.antt =====
-- kMemCmp returns 0 exactly for areas with the same bytes.
use mintos.Base.{
  ℕ, zero, suc, ◌+◌, ◌-◌, ◌*◌, ◌/◌, ◌%◌, ◌^◌, ◌<◌, ◌≤◌, ◌≡◌, ◌≢◌, ◌↔◌, refl, sym, ap, ◌∙◌, subst,
  inl, inr, Option, none, some, get_or, arith, ◌==◌, ltb, ltb→lt, Bool-cases, Option-cases, ==_iff,
}
use native.Mathlib.Nat.{zero-add}
use mintos.Memory.{Bytes, load_qword, qword_bytes, low_byte, compare_qwords, compare_bytes, mem_cmp}
use mintos.Memory.Words.{
  IsBytes, bytes_from, bytes_from_lem, load_qword-lt, qword_bytes-load_qword, low_byte-none,
  low_byte-some,
}

module _ (a b : Bytes) (bytes_a : IsBytes a) (bytes_b : IsBytes b) where
  -- The bytes from `i` to `n` are the same.
  abbrev Agree : ℕ → ℕ → Type 0
  Agree i n = (x : ℕ) → i ≤ x → x < n → a x ≡ b x

  abbrev difference : ℕ → ℕ
  difference i = (load_qword a (i * 8) + 2 ^ 64 - load_qword b (i * 8)) % 2 ^ 64

  qword-Agree : (i : ℕ) → difference i ≡ 0 → Agree (i * 8) ((i + 1) * 8)
  qword-Agree i h x le lt =
      let same : load_qword a (i * 8) ≡ load_qword b (i * 8) =
        omega (arith, h, load_qword-lt a bytes_a (i * 8), load_qword-lt b bytes_b (i * 8)) in
      let all : bytes_from a (i * 8) ≡ bytes_from b (i * 8) =
        sym (qword_bytes-load_qword a bytes_a (i * 8))
        ∙ ap qword_bytes same
        ∙ qword_bytes-load_qword b bytes_b (i * 8) in
      let k = x - i * 8 in
      let at : i * 8 + k ≡ x = omega (arith, le) in
      let short : k < 8 = omega (arith, le, lt) in
      subst (λ z. a z ≡ b z) at
        (sym (bytes_from_lem a (i * 8) k short)
          ∙ ap (λ l. get_or l k 0) all
          ∙ bytes_from_lem b (i * 8) k short)

  Agree-qword : (i : ℕ) → Agree (i * 8) ((i + 1) * 8) → difference i ≡ 0
  unfolding load_qword
  Agree-qword i h =
      let e0 = h (i * 8) (omega arith) (omega arith) in
      let e1 = h (i * 8 + 1) (omega arith) (omega arith) in
      let e2 = h (i * 8 + 2) (omega arith) (omega arith) in
      let e3 = h (i * 8 + 3) (omega arith) (omega arith) in
      let e4 = h (i * 8 + 4) (omega arith) (omega arith) in
      let e5 = h (i * 8 + 5) (omega arith) (omega arith) in
      let e6 = h (i * 8 + 6) (omega arith) (omega arith) in
      let e7 = h (i * 8 + 7) (omega arith) (omega arith) in omega arith

  -- A QWORD that differs gives a byte that is not zero.
  low_byte_of :
      (i : ℕ) → difference i ≢ 0 → (v : ℕ) × (low_byte (qword_bytes (difference i)) ≡ some v)
  low_byte_of i h = elim (Option-cases (low_byte (qword_bytes (difference i)))) [
    | inl e ↦ absurd (h (low_byte-none (difference i) (omega arith) e))
    | inr (v, e) ↦ (v, e)
  ]

  -- The loop over QWORDs agrees with the bytes.
  abbrev Decides : Option ℕ → (i n : ℕ) → Type 0
  Decides none i n = Agree i n
  Decides (some v) i n = (v ≢ 0) × ¬ (Agree i n)

  extend : (o : Option ℕ) (i j n : ℕ) → i ≤ j → Agree i j → Decides o j n → Decides o i n
  extend none i j n le h d = λ x ge lt. elim (Bool-cases (ltb x j)) [
    | inl below ↦ h x ge (ltb→lt x j below)
    | inr above ↦ d x (ground arith) lt
  ]
  extend (some v) i j n le h d = (d.0, λ agree. d.1 (λ x ge lt. agree x (omega arith) lt))

  compare_qwords-Decides :
      (left i : ℕ) → Decides (compare_qwords left i a b) (i * 8) ((i + left) * 8)
  unfolding compare_qwords
  compare_qwords-Decides zero i = λ x le lt. absurd (omega (arith, le, lt))
  compare_qwords-Decides (suc left) i =
      let rest = compare_qwords-Decides left (i + 1) in
      let e : (i + 1) + left ≡ i + suc left = omega arith in
      let rest' : Decides (compare_qwords left (i + 1) a b) ((i + 1) * 8) ((i + suc left) * 8) =
        subst (λ z. Decides (compare_qwords left (i + 1) a b) ((i + 1) * 8) (z * 8)) e rest in
      elim (Bool-cases (difference i == 0)) [
        | inl same ↦ rw same (
            extend (compare_qwords left (i + 1) a b) (i * 8) ((i + 1) * 8) ((i + suc left) * 8)
              (omega arith) (qword-Agree i ((==_iff _ _).0 same)) rest')
        | inr other ↦
            let ne : difference i ≢ 0 = λ z. absurd (ground (arith, other, z)) in
            let v = low_byte_of i ne in
            rw (other, v.1)
              (
                low_byte-some (qword_bytes (difference i)) v.0 v.1,
                λ agree. ne (Agree-qword i (λ x le lt. agree x le (omega arith))),
              )
      ]

  compare_bytes-Decides : (left i : ℕ) → Decides (compare_bytes left i a b) i (i + left)
  unfolding compare_bytes
  compare_bytes-Decides zero i = λ x le lt. absurd (omega (arith, le, lt))
  compare_bytes-Decides (suc left) i =
      let e : (i + 1) + left ≡ i + suc left = omega arith in
      let rest : Decides (compare_bytes left (i + 1) a b) (i + 1) (i + suc left) =
        subst (λ z. Decides (compare_bytes left (i + 1) a b) (i + 1) z) e
          (compare_bytes-Decides left (i + 1)) in
      let value = (a i + 256 - b i) % 256 in
      elim (Bool-cases (value == 0)) [
        | inl same ↦
            let at : a i ≡ b i = ground (arith, same, bytes_a i, bytes_b i) in
            let one : Agree i (i + 1) =
              λ x le lt. let e : x ≡ i = omega (arith, le, lt) in rw e at in
            rw same (
              extend (compare_bytes left (i + 1) a b) i (i + 1) (i + suc left) (omega arith) one
                rest)
        | inr other ↦ rw other (
          λ z. absurd (ground (arith, z, other)),
          λ agree. absurd (ground (arith, agree i (omega arith) (omega arith), other, bytes_a i)),
        )
      ]

  abbrev result_of : Option ℕ → Option ℕ → ℕ
  result_of q r = elim q [ some v ↦ v | none ↦ elim r [ some v ↦ v | none ↦ 0 ] ]

  result_of-zero :
      (q r : Option ℕ) (j n : ℕ)
      → j ≤ n
      → Decides q 0 j
      → Decides r j n
      → (result_of q r ≡ 0) ↔ Agree 0 n
  result_of-zero none none j n le h d = (λ z. extend none 0 j n (omega arith) h d, λ agree. refl)
  result_of-zero none (some v) j n le h d =
      (λ z. absurd (d.0 z), λ agree. absurd (d.1 (λ x ge lt. agree x (omega arith) lt)))
  result_of-zero (some v) r j n le h d =
      (λ z. absurd (h.0 z), λ agree. absurd (h.1 (λ x ge lt. agree x ge (omega (arith, lt, le)))))

  -- At areas of bytes, kMemCmp returns 0 for areas with the same bytes and for no others.
  pub mem_cmp-zero : (size : ℕ) → (mem_cmp a b size ≡ 0) ↔ Agree 0 size
  unfolding mem_cmp
  mem_cmp-zero size =
      let words : Decides (compare_qwords (size / 8) 0 a b) 0 (size / 8 * 8) =
        subst (λ z. Decides (compare_qwords (size / 8) 0 a b) 0 (z * 8)) (zero-add (size / 8))
          (compare_qwords-Decides (size / 8) 0) in
      let whole : size / 8 * 8 + size % 8 ≡ size = omega arith in
      let bytes : Decides (compare_bytes (size % 8) (size / 8 * 8) a b) (size / 8 * 8) size =
        subst (λ z. Decides (compare_bytes (size % 8) (size / 8 * 8) a b) (size / 8 * 8) z) whole
          (compare_bytes-Decides (size % 8) (size / 8 * 8)) in
      result_of-zero (compare_qwords (size / 8) 0 a b) (compare_bytes (size % 8) (size / 8 * 8) a b)
        (size / 8 * 8) size (omega arith) words bytes
