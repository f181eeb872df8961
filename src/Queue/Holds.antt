-- ===== src/Queue/Holds.antt =====
-- The list that a ring queue holds, and what one call does to it.
use mintos.Base.{
  lengths, ℕ, zero, suc, ◌+◌, ◌-◌, ◌^◌, ◌≤◌, ◌<◌, ◌≡◌, refl, true, false, none, some, List, [], ◌∷◌,
  ◌++◌, arith, ◌==◌, leb, if◌then◌else◌, length, get_or, set, get_or-set_self, get_or-set_ne,
  Bool-cases, inl, inr, ap, ◌∙◌, ==_iff, sym,
}
use mintos.Queue.{
  Queue, initialize_queue, is_queue_full, is_queue_empty, next_index, put_queue, get_queue,
}

-- The slot `k` steps behind index `g`, with one round at most.
abbrev pub wrap : ℕ → ℕ → ℕ
wrap cap k = if leb cap k then k - cap else k

module _ {ℓ} {A : Type ℓ} (d : A) where
  -- The queue holds the items `xs`, oldest first.
  pub record Holds (q : Queue A) (xs : List A) : Type ℓ where
    pub storage : length q.queue_array ≡ q.max_data_count
    pub word : q.max_data_count < 2 ^ 32
    pub get_in : q.get_index < q.max_data_count
    pub fits : length xs ≤ q.max_data_count
    pub put_at : q.put_index ≡ wrap q.max_data_count (q.get_index + length xs)
    pub flag_full : length xs ≡ q.max_data_count → q.last_operation_put ≡ true
    pub flag_empty : length xs ≡ 0 → q.last_operation_put ≡ false
    pub items :
        (i : ℕ)
        → i < length xs
        → get_or q.queue_array (wrap q.max_data_count (q.get_index + i)) d ≡ get_or xs i d

  get_or-append_left :
      (xs : List A) (x : A) (i : ℕ) → i < length xs → get_or (xs ++ x ∷ []) i d ≡ get_or xs i d
  get_or-append_left [] x i h = absurd (omega arith)
  get_or-append_left (y ∷ xs) x zero h = refl
  get_or-append_left (y ∷ xs) x (suc i) h = get_or-append_left xs x i (omega arith)

  get_or-append_last : (xs : List A) (x : A) → get_or (xs ++ x ∷ []) (length xs) d ≡ x
  get_or-append_last [] x = refl
  get_or-append_last (y ∷ xs) x = get_or-append_last xs x

  -- The two tests of the queue say whether the list is full or empty.
  full_iff :
      (q : Queue A) (xs : List A) → Holds q xs → is_queue_full q ≡ (length xs == q.max_data_count)
  unfolding is_queue_full
  full_iff q xs v = ground arith

  empty_iff : (q : Queue A) (xs : List A) → Holds q xs → is_queue_empty q ≡ (length xs == 0)
  unfolding is_queue_empty
  empty_iff q xs v = ground arith

  put_items :
      (q : Queue A) (xs : List A) (x : A)
      → Holds q xs
      → length xs < q.max_data_count
      → (i : ℕ) → i < length (xs ++ x ∷ [])
      → get_or (set q.queue_array q.put_index x) (wrap q.max_data_count (q.get_index + i)) d
        ≡ get_or (xs ++ x ∷ []) i d
  put_items q xs x v room i h =
      let put_in : q.put_index < length q.queue_array = ground arith in
      elim (Bool-cases (i == length xs)) [
        | inl e ↦
            let at : i ≡ length xs = (==_iff i (length xs)).0 e in
            rw (at, ← v.put_at)
              (get_or-set_self q.queue_array q.put_index x d put_in ∙ sym (get_or-append_last xs x))
        | inr ne ↦
            let before : i < length xs = grind lengths in
            get_or-set_ne q.queue_array q.put_index (wrap q.max_data_count (q.get_index + i)) x d
              (ground arith)
            ∙ v.items i before
            ∙ sym (get_or-append_left xs x i before)
      ]

  pub put-Holds :
      (q : Queue A) (xs : List A) (x : A)
      → Holds q xs
      → length xs < q.max_data_count
      → Holds (put_queue q x).1 (xs ++ x ∷ [])
  unfolding put_queue
  put-Holds q xs x v room =
      let not_full : (length xs == q.max_data_count) ≡ false = ground arith in
      rw (full_iff q xs v, not_full)
        (record {
          storage = grind lengths;
          word = v.word;
          get_in = v.get_in;
          fits = grind lengths;
          put_at = grind lengths;
          flag_full = λ e. refl;
          flag_empty = λ e. absurd (grind lengths);
          items = put_items q xs x v room;
        })

  pub get-Holds :
      (q : Queue A) (x : A) (xs : List A)
      → Holds q (x ∷ xs)
      → ((get_queue d q).0 ≡ some x) × Holds (get_queue d q).1 xs
  unfolding get_queue
  get-Holds q x xs v =
      let cap = q.max_data_count in
      let first : q.get_index ≡ wrap cap (q.get_index + 0) = ground arith in
      let later : (i : ℕ)
          → i < length xs
          → wrap cap (next_index q q.get_index + i) ≡ wrap cap (q.get_index + suc i) =
        λ i h. ground arith in
      let not_empty : (length (x ∷ xs) == 0) ≡ false = ground arith in
      rw (empty_iff q (x ∷ xs) v, not_empty)
        (
          ap some (ap (λ k. get_or q.queue_array k d) first ∙ v.items 0 (omega arith)),
          record {
            storage = v.storage;
            word = v.word;
            get_in = ground arith;
            fits = omega (arith, v.fits);
            put_at = ground arith;
            flag_full = λ e. absurd (omega (arith, v.fits));
            flag_empty = λ e. refl;
            items = λ i h.
                ap (λ k. get_or q.queue_array k d) (later i h) ∙ v.items (suc i) (omega arith);
          },
        )

  pub put-full :
      (q : Queue A) (xs : List A) (x : A)
      → Holds q xs
      → (length xs == q.max_data_count) ≡ true
      → put_queue q x ≡ (false, q)
  unfolding put_queue
  put-full q xs x v e = rw (full_iff q xs v, e)

  pub put-room :
      (q : Queue A) (xs : List A) (x : A)
      → Holds q xs
      → (length xs == q.max_data_count) ≡ false
      → ((put_queue q x).0 ≡ true) × ((put_queue q x).1.max_data_count ≡ q.max_data_count)
  unfolding put_queue
  put-room q xs x v e = rw (full_iff q xs v, e) (refl, refl)

  pub get-empty : (q : Queue A) → Holds q [] → get_queue d q ≡ (none, q)
  unfolding get_queue
  get-empty q v = rw (empty_iff q [] v)

  pub max_data_count-get : (q : Queue A) → (get_queue d q).1.max_data_count ≡ q.max_data_count
  unfolding get_queue
  max_data_count-get q = elim (Bool-cases (is_queue_empty q)) [ inl e ↦ rw e | inr e ↦ rw e ]

  -- kInitializeQueue makes an empty queue of a buffer with `count` slots.
  pub initialize_queue-Holds :
      (buffer : List A) (count : ℕ)
      → length buffer ≡ count
      → 0 < count
      → count < 2 ^ 32
      → Holds (initialize_queue buffer count) []
  unfolding initialize_queue
  initialize_queue-Holds buffer count e pos word = record {
    storage = e;
    word = word;
    get_in = pos;
    fits = omega arith;
    put_at = ground arith;
    flag_full = λ h. absurd (omega arith);
    flag_empty = λ h. refl;
    items = λ i h. absurd (omega arith);
  }
