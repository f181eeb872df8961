-- ===== src/Queue/Refine.antt =====
-- The ring queue against a first-in first-out list that is never longer than the capacity.
use mintos.Base.{
  ℕ, ◌≡◌, refl, Bool, true, false, Option, none, some, List, [], ◌∷◌, ◌++◌, arith, ◌==◌,
  if◌then◌else◌, length, Bool-cases, inl, inr,
}
use mintos.Queue.{Queue, put_queue, get_queue}
use mintos.Queue.Holds.{
  Holds, put-Holds, get-Holds, put-full, put-room, get-empty, max_data_count-get,
}

module _ {ℓ} {A : Type ℓ} (d : A) where
  -- What a client asks of a queue, and the reply: whether the item was put, or what was got.
  pub data Op : Type ℓ where
    put_item : A → Op
    get_item : Op

  pub data Reply : Type ℓ where
    done : Bool → Reply
    got : Option A → Reply

  -- The calls of the code in order.
  unfoldable pub run_queue : List Op → Queue A → List Reply
  run_queue [] q = []
  run_queue (put_item x ∷ ops) q = done (put_queue q x).0 ∷ run_queue ops (put_queue q x).1
  run_queue (get_item ∷ ops) q = got (get_queue d q).0 ∷ run_queue ops (get_queue d q).1

  -- A first-in first-out list of at most `cap` items.
  unfoldable pub run_fifo : ℕ → List Op → List A → List Reply
  run_fifo cap [] xs = []
  run_fifo cap (put_item x ∷ ops) xs =
      let wide = run_fifo cap ops (xs ++ x ∷ []) in
      let same = run_fifo cap ops xs in
      if length xs == cap then done false ∷ same else done true ∷ wide
  run_fifo cap (get_item ∷ ops) [] = got none ∷ run_fifo cap ops []
  run_fifo cap (get_item ∷ ops) (x ∷ xs) = got (some x) ∷ run_fifo cap ops xs

  -- No sequence of calls tells the ring queue from a first-in first-out list of the capacity: the
  -- replies of kPutQueue and kGetQueue are those of the list.
  pub run_queue-eq-run_fifo :
      (ops : List Op) (q : Queue A) (xs : List A)
      → Holds d q xs
      → run_queue ops q ≡ run_fifo q.max_data_count ops xs
  unfolding run_queue run_fifo
  run_queue-eq-run_fifo [] q xs v = refl
  run_queue-eq-run_fifo (put_item x ∷ ops) q xs v =
      elim (Bool-cases (length xs == q.max_data_count)) [
        | inl e ↦ rw (e, put-full d q xs x v e, run_queue-eq-run_fifo ops q xs v)
        | inr e ↦
            let r = put-room d q xs x v e in
            let later =
              run_queue-eq-run_fifo ops (put_queue q x).1 (xs ++ x ∷ [])
                (put-Holds d q xs x v (ground (arith, v.fits))) in
            rw (e, r.0, later, r.1)
      ]
  run_queue-eq-run_fifo (get_item ∷ ops) q [] v =
      rw (get-empty d q v, run_queue-eq-run_fifo ops q [] v)
  run_queue-eq-run_fifo (get_item ∷ ops) q (x ∷ xs) v =
      let r = get-Holds d q x xs v in
      rw (r.0, run_queue-eq-run_fifo ops (get_queue d q).1 xs r.1, max_data_count-get d q)
