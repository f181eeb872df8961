-- ===== src/Task/Choice.antt =====
-- kGetNextTaskToRun chooses the first task of a ready list whenever there is one.
use mintos.Base.{
  ℕ, zero, suc, ◌+◌, ◌^◌, ◌≤◌, ◌<◌, ◌≡◌, inl, inr, refl, true, false, Option, none, some, List, [],
  ◌∷◌, arith, has, length, ◌==◌, Bool-cases, slt32, inc32, ==_iff,
}
use mathlib.Core.Path.{subst}
use mintos.LinkList.{LinkList, Memory, null}
use mintos.LinkList.Invariant.{IsList, IsList-frame, Linked-ne_null}
use mintos.LinkList.Unlink.{Removed}
use mintos.LinkList.Remove.{remove_list_from_header-Removed}
use mintos.Mutex.{update}
use mintos.Task.{Kernel, task_max_ready_list_count}
use mintos.Task.Scheduler.{scan_ready_lists, scan_rounds, get_next_task_to_run}
use mintos.Task.Lists.{
  IsReady, Untouched, Untouched-refl, Untouched-trans, OnlyCounted, OnlyCounted-trans,
}

-- The links of the first item taken out, nothing else of the memory has changed.
same_memory :
    (m m' : Memory) (l : LinkList) (xs ys : List ℕ) (l' : LinkList)
    → Removed m [] xs m' l'
    → IsList m l ys
    → (a : ℕ) → has a ys ≡ true
    → m' a ≡ m a
same_memory m m' l xs ys l' r v a h = r.same_link a (Linked-ne_null m a ys v.linked h)

module _ (xs : ℕ → List ℕ) (i x : ℕ) (rest : List ℕ) (e : xs i ≡ x ∷ rest) where
  pub rest_within : (j a : ℕ) → has a (update xs i rest j) ≡ true → has a (xs j) ≡ true
  rest_within j a h = elim (Bool-cases (j == i)) [
    | inl at ↦
        let same : j ≡ i = (==_iff j i).0 at in
        rw (same, e) (let h' : has a rest ≡ true = rw at at h in ground arith)
    | inr ne ↦ rw ne at h
  ]

  pub rest_without : (j a : ℕ) → has a (xs j) ≡ false → has a (update xs i rest j) ≡ false
  rest_without j a h = elim (Bool-cases (j == i)) [
    | inl at ↦
        let same : j ≡ i = (==_iff j i).0 at in
        let h' : has a (x ∷ rest) ≡ false = rw (same, e) at h in rw at (ground arith)
    | inr ne ↦ rw ne h
  ]

-- List `i` gives its first task away.
take-IsReady :
    (k : Kernel) (xs : ℕ → List ℕ) (i x : ℕ) (rest : List ℕ) (m : Memory) (l : LinkList) (n : ℕ)
    → IsReady k xs
    → i < task_max_ready_list_count
    → xs i ≡ x ∷ rest
    → Removed k.links [] rest m l
    → n < 2 ^ 31
    → IsReady
        (record k {
          links = m;
          ready_lists = update k.ready_lists i l;
          execute_count = update k.execute_count i n;
        })
        (update xs i rest)
take-IsReady k xs i x rest m l n v small e r b = record {
  list = λ j hj. elim (Bool-cases (j == i)) [
    | inl at ↦ rw at r.list
    | inr ne ↦ rw ne (
        IsList-frame k.links m (k.ready_lists j) (xs j)
          (same_memory k.links m (k.ready_lists j) rest (xs j) l r (v.list j hj)) (v.list j hj))
  ];
  apart = λ p q a hp hq ne h.
      rest_without xs i x rest e q a (v.apart p q a hp hq ne (rest_within xs i x rest e p a h));
  counts = λ j hj. elim (Bool-cases (j == i)) [ inl at ↦ rw at b | inr ne ↦ rw ne (v.counts j hj) ];
}

-- What the inner loop comes to when it starts at list `i`: it takes the first task of a list, or it
-- goes past lists whose counters are used up, and clears those.
data Scan (k : Kernel) (xs : ℕ → List ℕ) (i : ℕ) (r : Option (Option ℕ × Kernel)) : Type 0 where
  chose :
      (j x : ℕ) (rest : List ℕ) (k' : Kernel)
      → j < task_max_ready_list_count
      → xs j ≡ x ∷ rest
      → r ≡ some (some x, k')
      → IsReady k' (update xs j rest)
      → Untouched k k'
      → Scan k xs i r
  passed :
      (k' : Kernel)
      → r ≡ some (none, k')
      → IsReady k' xs
      → Untouched k k'
      → OnlyCounted k k'
      → ((j : ℕ)
          → i ≤ j
          → j < task_max_ready_list_count
          → (k'.execute_count j ≡ 0) × (length (xs j) ≤ k.execute_count j))
      → ((j : ℕ) → j < i → k'.execute_count j ≡ k.execute_count j)
      → Scan k xs i r

cleared : Kernel → ℕ → Kernel
cleared k i = record k { execute_count = update k.execute_count i 0 }

cleared-IsReady : (k : Kernel) (xs : ℕ → List ℕ) (i : ℕ) → IsReady k xs → IsReady (cleared k i) xs
unfolding cleared
cleared-IsReady k xs i v = record {
  list = v.list;
  apart = v.apart;
  counts = λ j hj. ground (arith, v.counts j hj);
}

cleared-Untouched : (k : Kernel) (i : ℕ) → Untouched k (cleared k i)
unfolding cleared
cleared-Untouched k i = record {
  tcbs = refl;
  running_task = refl;
  wait_list = refl;
  processor_time = refl;
  registers = refl;
  last_fpu = refl;
  idle_time = refl;
  links = λ a h. refl;
}

module _ (fuel : ℕ) where
  take_here :
      (n i : ℕ) (k : Kernel) (xs : ℕ → List ℕ) (ys : List ℕ)
      → IsReady k xs
      → i < task_max_ready_list_count
      → xs i ≡ ys
      → slt32 (k.execute_count i) (k.ready_lists i).count ≡ true
      → Scan k xs i (scan_ready_lists (suc fuel) (suc n) i k)
  unfolding scan_ready_lists
  take_here n i k xs [] v small e t =
      absurd (ground (arith, (v.list i small).count, e, v.counts i small))
  take_here n i k xs (x ∷ rest) v small e t =
      let r =
        remove_list_from_header-Removed fuel k.links (k.ready_lists i) x rest
          (subst (IsList k.links (k.ready_lists i)) e (v.list i small)) in
      let k' : Kernel = record k {
        links = r.0;
        ready_lists = update k.ready_lists i r.1;
        execute_count = update k.execute_count i (inc32 (k.execute_count i));
      } in
      chose i x rest k' small e (rw (t, r.2))
        (take-IsReady k xs i x rest r.0 r.1 (inc32 (k.execute_count i)) v small e r.3
          (ground (arith, (v.list i small).count, (v.list i small).fits, v.counts i small, t)))
        (record {
          tcbs = refl;
          running_task = refl;
          wait_list = refl;
          processor_time = refl;
          registers = refl;
          last_fpu = refl;
          idle_time = refl;
          links = λ a h. r.3.same_link a h;
        })

  pass_here :
      (n i : ℕ) (k : Kernel) (xs : ℕ → List ℕ)
      → IsReady k xs
      → i < task_max_ready_list_count
      → slt32 (k.execute_count i) (k.ready_lists i).count ≡ false
      → Scan (cleared k i) xs (i + 1) (scan_ready_lists (suc fuel) n (i + 1) (cleared k i))
      → Scan k xs i (scan_ready_lists (suc fuel) (suc n) i k)
  unfolding scan_ready_lists cleared
  pass_here n i k xs v small t (chose j x rest k' hj e r w u) =
      chose j x rest k' hj e (rw (t, r)) w
        (Untouched-trans k (cleared k i) k' (cleared-Untouched k i) u)
  pass_here n i k xs v small t (passed k' r w u only used before) =
      passed k' (rw (t, r)) w (Untouched-trans k (cleared k i) k' (cleared-Untouched k i) u) only
        (λ j lo hi. elim (Bool-cases (j == i)) [
          | inl at ↦
              let same : j ≡ i = (==_iff j i).0 at in
              rw same (
                ground (arith, before i),
                ground (arith, (v.list i small).count, (v.list i small).fits, v.counts i small),
              )
          | inr ne ↦ ground (arith, used j)
        ])
        (λ j lo. ground (arith, before j))

  scan_ready_lists-Scan :
      (n i : ℕ) (k : Kernel) (xs : ℕ → List ℕ)
      → IsReady k xs
      → i + n ≡ task_max_ready_list_count
      → Scan k xs i (scan_ready_lists (suc fuel) n i k)
  scan_ready_lists-Scan zero i k xs v e =
      passed k (unfold scan_ready_lists in refl) v (Untouched-refl k) refl
        (λ j lo hi. absurd (omega arith)) (λ j lo. refl)
  scan_ready_lists-Scan (suc n) i k xs v e =
      elim (Bool-cases (slt32 (k.execute_count i) (k.ready_lists i).count)) [
        | inl t ↦ take_here n i k xs (xs i) v (omega arith) refl t
        | inr t ↦ pass_here n i k xs v (omega arith) t (
            scan_ready_lists-Scan n (i + 1) (cleared k i) xs (cleared-IsReady k xs i v)
              (omega arith))
      ]

-- The two outcomes of kGetNextTaskToRun: the first task of a ready list leaves that list, or there
-- was no ready task.
pub data Chosen (k : Kernel) (xs : ℕ → List ℕ) (r : Option (ℕ × Kernel)) : Type 0 where
  first_of :
      (j x : ℕ) (rest : List ℕ) (k' : Kernel)
      → j < task_max_ready_list_count
      → xs j ≡ x ∷ rest
      → r ≡ some (x, k')
      → IsReady k' (update xs j rest)
      → Untouched k k'
      → Chosen k xs r
  nothing_ready :
      (k' : Kernel)
      → r ≡ some (null, k')
      → ((j : ℕ) → j < task_max_ready_list_count → xs j ≡ [])
      → IsReady k' xs
      → Untouched k k'
      → OnlyCounted k k'
      → Chosen k xs r

eq_nil_of_length : (xs : List ℕ) → length xs ≤ 0 → xs ≡ []
eq_nil_of_length [] h = refl
eq_nil_of_length (x ∷ xs) h = absurd (omega arith)

module _ (fuel : ℕ) (k : Kernel) (xs : ℕ → List ℕ) where
  second_round :
      (k₁ : Kernel)
      → Untouched k k₁
      → OnlyCounted k k₁
      → ((j : ℕ) → j < task_max_ready_list_count → k₁.execute_count j ≡ 0)
      → Scan k₁ xs 0 (scan_ready_lists (suc fuel) 5 0 k₁)
      → Chosen k xs (scan_rounds (suc fuel) 1 k₁)
  unfolding scan_rounds
  second_round k₁ u counted clear (chose j x rest k' hj e r w u') =
      first_of j x rest k' hj e (rw r) w (Untouched-trans k k₁ k' u u')
  second_round k₁ u counted clear (passed k' r w u' only used before) =
      nothing_ready k' (rw r)
        (λ j hj. eq_nil_of_length (xs j) (omega (arith, used j (omega arith) hj, clear j hj))) w
        (Untouched-trans k k₁ k' u u') (OnlyCounted-trans k k₁ k' counted only)

  first_round :
      Scan k xs 0 (scan_ready_lists (suc fuel) 5 0 k) → Chosen k xs (scan_rounds (suc fuel) 2 k)
  unfolding scan_rounds
  first_round (chose j x rest k' hj e r w u) = first_of j x rest k' hj e (rw r) w u
  first_round (passed k' r w u only used before) = rw r (
      second_round k' u only (λ j hj. (used j (omega arith) hj).0)
        (scan_ready_lists-Scan fuel 5 0 k' xs w (omega arith)))

  -- With the five ready lists in order, sharing no task, and every counter of theirs from 0 to
  -- 2 ^ 31 - 1, kGetNextTaskToRun takes the first task of some ready list if one is not empty, and
  -- NULL only if all are empty. The lists are then in order again, the other ones with the tasks that
  -- they had, the counters stay in their range, and the running task, the wait list and the TCBs
  -- stay; where it takes NULL, nothing but counters has changed.
  pub get_next_task_to_run-Chosen : IsReady k xs → Chosen k xs (get_next_task_to_run (suc fuel) k)
  unfolding get_next_task_to_run
  get_next_task_to_run-Chosen v = first_round (scan_ready_lists-Scan fuel 5 0 k xs v (omega arith))
