-- ===== src/Cache/Victim.antt =====
-- kGetVictimInCacheBuffer takes a free entry or the one that was used least recently.
use mintos.Base.{
  ℕ, suc, ◌+◌, ◌≤◌, ◌<◌, ◌≡◌, ◌⊎◌, inl, inr, refl, Option, none, some, List, [], ◌∷◌, arith, ◌==◌,
  ltb, length, get_or, Bool-cases, ==_iff, ltb→lt, ap, ◌∙◌, sym,
}
use mintos.Cache.{
  CacheBuffer, CacheTable, zero_buffer, invalid_tag, oldest, get_victim_in_cache_buffer,
}

abbrev pub entry_in : List CacheBuffer → ℕ → CacheBuffer
entry_in xs i = get_or xs i zero_buffer

-- No entry has the access time from which the search starts.
abbrev pub AllYoung : List CacheBuffer → Type 0
AllYoung xs = (j : ℕ) → j < length xs → (entry_in xs j).access_time < 0xffff_ffff

-- An entry that is free, or whose access time is the least.
pub record IsVictim (xs : List CacheBuffer) (k : ℕ) : Type 0 where
  pub inside : k < length xs
  pub least :
      ((entry_in xs k).tag ≡ invalid_tag)
      ⊎ ((j : ℕ) → j < length xs → (entry_in xs k).access_time ≤ (entry_in xs j).access_time)

-- What the search has found among the first `i` entries.
abbrev Best : List CacheBuffer → ℕ → ℕ → Option ℕ → Type 0
Best xs i time none = (i ≡ 0) × (time ≡ 0xffff_ffff)
Best xs i time (some k) =
    (k < i)
    × ((entry_in xs k).access_time ≡ time)
    × ((j : ℕ) → j < i → time ≤ (entry_in xs j).access_time)

module _ (xs : List CacheBuffer) (young : AllYoung xs) (some_entry : 0 < length xs) where
  Best-end :
      (i time : ℕ) (found : Option ℕ)
      → Best xs i time found
      → i ≡ length xs
      → (k : ℕ) × (found ≡ some k) × IsVictim xs k
  Best-end i time none b e = absurd (omega (arith, b.0, e, some_entry))
  Best-end i time (some k) b e = (
    k,
    refl,
    record {
      inside = omega (arith, b.0, e);
      least = inr (λ j lt. rw b.1 (b.2 j (omega (arith, lt, e))));
    },
  )

  -- An entry that is older than all before it.
  Best-older :
      (i time : ℕ) (found : Option ℕ)
      → Best xs i time found
      → (entry_in xs i).access_time < time
      → Best xs (i + 1) (entry_in xs i).access_time (some i)
  Best-older i time none b h =
      (omega arith, refl, λ j lt. let at : j ≡ i = omega (arith, b.0, lt) in rw at (omega arith))
  Best-older i time (some k) b h = (
    omega arith,
    refl,
    λ j lt. elim (Bool-cases (j == i)) [
      | inl same ↦ rw ((==_iff j i).0 same) (omega arith)
      | inr before ↦ omega (arith, b.2 j (ground arith), h)
    ],
  )

  Best-kept :
      (i time : ℕ) (found : Option ℕ)
      → Best xs i time found
      → i < length xs
      → time ≤ (entry_in xs i).access_time
      → Best xs (i + 1) time found
  Best-kept i time none b lt h = absurd (omega (arith, b.1, young i lt, h))
  Best-kept i time (some k) b lt h = (
    omega (arith, b.0),
    b.1,
    λ j less. elim (Bool-cases (j == i)) [
      | inl same ↦ rw ((==_iff j i).0 same) h
      | inr before ↦ b.2 j (ground arith)
    ],
  )

  oldest-IsVictim :
      (ys : List CacheBuffer) (i time : ℕ) (found : Option ℕ)
      → i + length ys ≡ length xs
      → ((j : ℕ) → entry_in ys j ≡ entry_in xs (i + j))
      → Best xs i time found
      → (k : ℕ) × (oldest i time found ys ≡ some k) × IsVictim xs k
  unfolding oldest
  oldest-IsVictim [] i time found e same b = Best-end i time found b (omega (arith, e))
  oldest-IsVictim (y ∷ ys) i time found e same b =
      let zero_off : i + 0 ≡ i = omega arith in
      let here : y ≡ entry_in xs i = same 0 ∙ ap (entry_in xs) zero_off in
      let inside : i < length xs = omega (arith, e) in
      let next : (j : ℕ) → entry_in ys j ≡ entry_in xs (i + 1 + j) = λ j.
        let step : i + suc j ≡ i + 1 + j = omega arith in same (suc j) ∙ ap (entry_in xs) step in
      let left : i + 1 + length ys ≡ length xs = omega (arith, e) in
      elim (Bool-cases (y.tag == invalid_tag)) [
        | inl free ↦ (
          i,
          rw free refl,
          record {
            inside = inside;
            least = inl (rw (sym here) ((==_iff y.tag invalid_tag).0 free));
          },
        )
        | inr used ↦ elim (Bool-cases (ltb y.access_time time)) [
          | inl older ↦
              rw (used, older)
                (oldest-IsVictim ys (i + 1) y.access_time (some i) left next (
                  rw here
                    (Best-older i time found b (rw here at (ltb→lt y.access_time time older)))))
          | inr younger ↦
              let no_older : time ≤ y.access_time = ground arith in
              rw (used, younger)
                (oldest-IsVictim ys (i + 1) time found left next
                  (Best-kept i time found b inside (rw here at no_older)))
        ]
      ]

found_by :
    (t : CacheTable)
    → ((k : ℕ) × (oldest 0 0xffff_ffff none t.buffers ≡ some k) × IsVictim t.buffers k)
    → (k : ℕ) × ((get_victim_in_cache_buffer t).0 ≡ some k) × IsVictim t.buffers k
unfolding get_victim_in_cache_buffer
found_by t (k, e, v) = (k, rw (get_victim_in_cache_buffer, e) refl, v)

-- In a table with entries, all of them used before the clock reaches 2 ^ 32 - 1,
-- kGetVictimInCacheBuffer returns an entry: one that is free, or one that no other was used before.
pub get_victim_in_cache_buffer-IsVictim :
    (t : CacheTable)
    → AllYoung t.buffers
    → 0 < length t.buffers
    → (k : ℕ) × ((get_victim_in_cache_buffer t).0 ≡ some k) × IsVictim t.buffers k
unfolding get_victim_in_cache_buffer
get_victim_in_cache_buffer-IsVictim t young some_entry = found_by t (
    oldest-IsVictim t.buffers young some_entry t.buffers 0 0xffff_ffff none (omega arith)
      (λ j. let same : j ≡ 0 + j = omega arith in ap (entry_in t.buffers) same) (refl, refl))
