-- ===== src/Shell/Words.antt =====
-- kGetNextParameter takes the words of a string one after the other.
use mintos.Base.{
  ℕ, zero, suc, ◌+◌, ◌-◌, ◌*◌, ◌<◌, ◌≤◌, ◌≡◌, ◌≢◌, ◌⊎◌, inl, inr, false, arith, ◌==◌, leb,
  if◌then◌else◌, Bool-cases, subst, ap,
}
use mintos.Memory.{Bytes, mem_cpy}
use mintos.Memory.Words.{IsBytes, within}
use mintos.Memory.Copy.{mem_cpy_lem}
use mintos.Shell.{ParameterList, find_space, get_next_parameter}

-- The word from `i` on ends at `j`: there is no space before, and one there or the end of the string.
pub record IsWordEnd (m : Bytes) (pointer i end j : ℕ) : Type 0 where
  pub ge : i ≤ j
  pub le : j ≤ end
  pub inside : (k : ℕ) → i ≤ k → k < j → m (pointer + k) ≢ b' '
  pub ended : (j ≡ end) ⊎ (m (pointer + j) ≡ b' ')

find_space-IsWordEnd :
    (left i : ℕ) (m : Bytes) (pointer : ℕ)
    → IsWordEnd m pointer i (i + left) (find_space left i m pointer)
unfolding find_space
find_space-IsWordEnd zero i m p = record {
  ge = omega arith;
  le = omega arith;
  inside = λ k a b. absurd (omega arith);
  ended = inl (omega arith);
}
find_space-IsWordEnd (suc left) i m p =
    let ih = find_space-IsWordEnd left (i + 1) m p in
    elim (Bool-cases (m (p + i) == b' ')) [
      | inl space ↦ rw space (record {
        ge = omega arith;
        le = omega arith;
        inside = λ k a b. absurd (omega arith);
        ended = inr (ground arith);
      })
      | inr other ↦ rw other (record {
        ge = omega (arith, ih.ge);
        le = omega (arith, ih.le);
        inside = λ k a b. elim (Bool-cases (k == i)) [
          | inl at ↦ ground (arith, at, other)
          | inr past ↦ ih.inside k (ground arith) b
        ];
        ended = elim ih.ended [ inl e ↦ inl (omega (arith, e)) | inr e ↦ inr e ];
      })
    ]

-- What kGetNextParameter comes to before the end of the string: the word up to `j` is in the buffer
-- with a zero behind it, and the rest of the buffer as the code leaves it.
pub record IsNextWord (m : Bytes) (l : ParameterList) (parameter : ℕ)
    (r : ℕ × Bytes × ParameterList) : Type 0 where
  pub j : ℕ
  pub word : IsWordEnd m l.buffer l.current_position l.length j
  pub size : r.0 + l.current_position ≡ j
  pub list : r.2 ≡ record l { current_position = j + 1 }
  pub copied : (k : ℕ) → k < r.0 → r.1 (parameter + k) ≡ m (l.buffer + l.current_position + k)
  pub terminated : r.1 (parameter + r.0) ≡ 0
  pub overrun :
      (k : ℕ) → r.0 < k → k < j → r.1 (parameter + k) ≡ m (l.buffer + l.current_position + k)
  pub outside : (x : ℕ) → within parameter (j + 1) x ≡ false → r.1 x ≡ m x

module _ (m : Bytes) (bytes : IsBytes m) (l : ParameterList) (parameter : ℕ)
    (more : l.current_position < l.length)
    (apart : (parameter + l.length < l.buffer) ⊎ (l.buffer + 2 * l.length < parameter)) where
  abbrev end : ℕ
  end = find_space (l.length - l.current_position) l.current_position m l.buffer

  found : IsWordEnd m l.buffer l.current_position l.length end
  found =
      let whole : l.current_position + (l.length - l.current_position) ≡ l.length = omega arith in
      subst (λ z. IsWordEnd m l.buffer l.current_position z end) whole
        (find_space-IsWordEnd (l.length - l.current_position) l.current_position m l.buffer)

  forward :
      (parameter ≤ l.buffer + l.current_position)
      ⊎ (l.buffer + l.current_position + end ≤ parameter)
  forward = elim apart [ inl a ↦ inl (omega arith) | inr a ↦ inr (omega (arith, found.le)) ]

  copy_at :
      (x : ℕ)
      → mem_cpy m parameter (l.buffer + l.current_position) end x ≡ (
          if within parameter end x
          then m (l.buffer + l.current_position + (x - parameter))
          else m x)
  copy_at x = mem_cpy_lem m bytes parameter (l.buffer + l.current_position) end forward x

  -- Where words are left, kGetNextParameter puts the next word of the string into the buffer with a
  -- zero behind it, returns its length and moves on behind the space. The buffer does not overlap the
  -- string or as many bytes behind it. Of a later word the code copies as many bytes more as stand
  -- before the word in the string, so the buffer is written behind the zero, and nothing else changes.
  pub get_next_parameter-IsNextWord : IsNextWord m l parameter (get_next_parameter m l parameter)
  unfolding get_next_parameter
  get_next_parameter-IsNextWord =
      let on : leb l.length l.current_position ≡ false = ground arith in
      rw on (record {
        j = end;
        word = found;
        size = omega (arith, found.ge);
        list = ap (λ z. record l { current_position = z }) (omega (arith, found.ge));
        copied = λ k a. ground (arith, copy_at (parameter + k), found.ge);
        terminated = ground arith;
        overrun = λ k a b. ground (arith, copy_at (parameter + k), found.ge);
        outside = λ x o. ground (arith, copy_at x, o, found.ge);
      })
