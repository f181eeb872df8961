-- ===== src/Task/Schedule.antt =====
-- kSchedule and kScheduleInInterrupt: no task is lost, and the first task of a ready list runs.
use mathlib.Core.Path.{subst}
use mintos.Base.{
  ◌⊎◌, ℕ, suc, ◌+◌, ◌-◌, ◌^◌, ◌<◌, ◌≡◌, ◌≢◌, true, false, some, List, [], ◌∷◌, ◌++◌, arith, has,
  length, ◌==◌, Bool-cases, inl, inr, if◌then◌else◌, slt32, ◌∙◌, sym, ap,
}
use mintos.LinkList.{null}
use mintos.LinkList.Invariant.{IsList, IsList-frame, Linked-ne_null}
use mintos.Mutex.{update}
use mintos.Task.{Kernel, Tcb, task_max_ready_list_count, task_processor_time}
use mintos.Task.Scheduler.{
  switch_task, schedule, schedule_in_interrupt, get_next_task_to_run, get_ready_task_count,
}
use mintos.Task.Lists.{IsReady, IsScheduler, HasRoom, Untouched, OnlyCounted}
use mintos.Task.Choice.{
  Chosen, first_of, nothing_ready, get_next_task_to_run-Chosen, rest_within, rest_without,
}
use mintos.Task.Switch.{Off, IsListed, Switched, switch_task-ready, switch_task-ended}

-- Between the choice and the switch: `x` has left list `j`, and the running task is in no list.
module _ (k : Kernel) (xs : ℕ → List ℕ) (ws : List ℕ) (j x : ℕ) (rest : List ℕ) (k₁ : Kernel)
    (v : IsScheduler k xs ws) (room : HasRoom xs ws) (small : j < task_max_ready_list_count)
    (e : xs j ≡ x ∷ rest) (w : IsReady k₁ (update xs j rest)) (u : Untouched k k₁) where
  abbrev left : ℕ → List ℕ
  left = update xs j rest

  has_first : has x (xs j) ≡ true
  has_first = rw e (ground arith)

  left-IsListed : IsListed k₁ left ws
  left-IsListed = record {
    ready = w;
    wait = rw u.wait_list (
        IsList-frame k.links k₁.links k.wait_list ws
          (λ a h. u.links a (Linked-ne_null k.links a ws v.wait.linked h)) v.wait);
    wait_apart = λ i a hi h. v.wait_apart i a hi (rest_within xs j x rest e i a h);
  }

  left-Off_running : Off left ws k₁.running_task
  left-Off_running = subst (Off left ws) (sym u.running_task) (record {
    real = v.running;
    ready = λ i hi. rest_without xs j x rest e i k.running_task (v.running_ready i hi);
    wait = v.running_wait;
  })

  left-Off_next : Off left ws x
  left-Off_next = record {
    real = Linked-ne_null k.links x (xs j) (v.ready.list j small).linked has_first;
    ready = λ i hi. elim (Bool-cases (i == j)) [
      | inl at ↦ rw at (first_apart (v.ready.list j small))
      | inr ne ↦ rw ne (v.ready.apart j i x small hi (ground arith) has_first)
    ];
    wait = v.wait_apart j x small has_first;
  }
    where
      first_apart : IsList k.links (k.ready_lists j) (xs j) → has x rest ≡ false
      first_apart l = (subst (IsList k.links (k.ready_lists j)) e l).distinct.0

  next-ne-running : x ≢ k₁.running_task
  next-ne-running h =
      let out = v.running_ready j small in
      let h' : x ≡ k.running_task = h ∙ u.running_task in
      let inside : has k.running_task (xs j) ≡ true = rw (← h') has_first in cc

  left-HasRoom : HasRoom left ws
  left-HasRoom = record {
    ready_room = λ i hi. elim (Bool-cases (i == j)) [
      | inl at ↦ rw at (omega (arith, ap length e, room.ready_room j small))
      | inr ne ↦ rw ne (room.ready_room i hi)
    ];
    wait_room = room.wait_room;
  }

  since-Switched : (k' : Kernel) → Switched k₁ k' x → Switched k k' x
  since-Switched k' s = record {
    runs = s.runs;
    loaded = s.loaded ∙ ap (λ (t : ℕ → Tcb). (t x).context) u.tcbs;
    fresh_time = s.fresh_time;
    others = λ a h. s.others a (λ q. h (q ∙ u.running_task)) ∙ ap (λ (t : ℕ → Tcb). t a) u.tcbs;
    same_flags =
        subst (λ a. (k'.tcbs a).flags ≡ (k.tcbs a).flags) u.running_task
          (s.same_flags ∙ ap (λ (t : ℕ → Tcb). (t k₁.running_task).flags) u.tcbs);
  }

-- Where the running task goes: behind its ready list, or behind the wait list if it has ended.
abbrev pub requeue : Kernel → (ℕ → List ℕ) → List ℕ → (ℕ → List ℕ) × List ℕ
requeue k ys ws =
    let p = k.running_task in
    let f = (k.tcbs p).flags in
    if f.end_task then (ys, ws ++ p ∷ []) else (update ys f.priority (ys f.priority ++ p ∷ []), ws)

-- A task that has not ended has the priority of a ready list.
abbrev pub IsRunnable : Kernel → Type 0
IsRunnable k =
    let f = (k.tcbs k.running_task).flags in
    f.end_task ≡ false → f.priority < task_max_ready_list_count

-- The first task `x` of ready list `j` runs in `k'`, and the task that ran in `k` is requeued.
pub record Turn (k : Kernel) (xs : ℕ → List ℕ) (ws : List ℕ) (k' : Kernel) : Type 0 where
  pub j : ℕ
  pub x : ℕ
  pub rest : List ℕ
  pub in_range : j < task_max_ready_list_count
  pub first : xs j ≡ x ∷ rest
  pub lists : let after = requeue k (update xs j rest) ws in IsScheduler k' after.0 after.1
  pub switched : Switched k k' x
  pub saved :
      (k.tcbs k.running_task).flags.end_task ≡ false
      → (k'.tcbs k.running_task).context ≡ k.registers

module _ (k : Kernel) (xs : ℕ → List ℕ) (ws : List ℕ) (v : IsScheduler k xs ws)
    (room : HasRoom xs ws) (runnable : IsRunnable k) where
  switch_task-Turn :
      (j x : ℕ) (rest : List ℕ) (k₁ : Kernel) (spent : ℕ)
      → j < task_max_ready_list_count
      → xs j ≡ x ∷ rest
      → IsReady k₁ (update xs j rest)
      → Untouched k k₁
      → Turn k xs ws (switch_task k₁ x spent)
  switch_task-Turn j x rest k₁ spent small e w u =
      let listed = left-IsListed k xs ws j x rest k₁ v room small e w u in
      let off = left-Off_running k xs ws j x rest k₁ v room small e w u in
      let off' = left-Off_next k xs ws j x rest k₁ v room small e w u in
      let ne = next-ne-running k xs ws j x rest k₁ v room small e w u in
      let room' = left-HasRoom k xs ws j x rest k₁ v room small e w u in
      let since = since-Switched k xs ws j x rest k₁ v room small e w u in
      let same : k₁.tcbs k₁.running_task ≡ k.tcbs k.running_task =
        ap (λ (t : ℕ → Tcb). t k₁.running_task) u.tcbs ∙ ap k.tcbs u.running_task in
      let c = (k.tcbs k.running_task).flags.priority in
      elim (Bool-cases (k.tcbs k.running_task).flags.end_task) [
        | inl ended ↦
            let r =
              switch_task-ended k₁ (update xs j rest) ws x spent listed off off' ne room'
                (ap (λ (t : Tcb). t.flags.end_task) same ∙ ended) in
            record {
              j = j;
              x = x;
              rest = rest;
              in_range = small;
              first = e;
              lists = rw ended (
                  subst
                    (λ a. IsScheduler (switch_task k₁ x spent) (update xs j rest) (ws ++ a ∷ []))
                    u.running_task r.0);
              switched = since (switch_task k₁ x spent) r.1;
              saved = λ h. cc;
            }
        | inr live ↦
            let r =
              switch_task-ready k₁ (update xs j rest) ws x spent listed off off' ne room'
                (ap (λ (t : Tcb). t.flags.end_task) same ∙ live)
                (k.tcbs k.running_task).flags.priority (ap (λ (t : Tcb). t.flags.priority) same)
                (runnable live) in
            record {
              j = j;
              x = x;
              rest = rest;
              in_range = small;
              first = e;
              lists = rw live (
                  subst
                    (λ a.
                      IsScheduler (switch_task k₁ x spent)
                        (update (update xs j rest) c (update xs j rest c ++ a ∷ [])) ws)
                    u.running_task r.0);
              switched = since (switch_task k₁ x spent) r.1;
              saved = λ h.
                  subst (λ a. ((switch_task k₁ x spent).tcbs a).context ≡ k₁.registers)
                    u.running_task r.2
                  ∙ u.registers;
            }
      ]

  -- The outcome of a call that may switch, told from its result: the number of items of the ready
  -- lists decides whether there is a turn.
  turn_of :
      (k₁ : Kernel) (j x : ℕ) (rest : List ℕ)
      → xs j ≡ x ∷ rest
      → j < task_max_ready_list_count
      → x ≢ null
  turn_of k₁ j x rest e small =
      Linked-ne_null k.links x (xs j) (v.ready.list j small).linked (rw e (ground arith))

  -- Counting keeps the lists in order.
  still-IsScheduler : (k' : Kernel) → IsReady k' xs → OnlyCounted k k' → IsScheduler k' xs ws
  still-IsScheduler k' w only = record {
    ready = w;
    wait = rw only v.wait;
    wait_apart = v.wait_apart;
    running = rw only v.running;
    running_ready = rw only v.running_ready;
    running_wait = rw only v.running_wait;
  }

  in_interrupt :
      (fuel : ℕ)
      → Chosen k xs (get_next_task_to_run (suc fuel) k)
      → ((k' : Kernel) × (schedule_in_interrupt (suc fuel) k ≡ some (true, k')) × Turn k xs ws k')
        ⊎ ((k' : Kernel) × (schedule_in_interrupt (suc fuel) k ≡ some (false, k'))
            × ((i : ℕ) → i < task_max_ready_list_count → xs i ≡ [])
            × OnlyCounted k k'
            × IsScheduler k' xs ws)
  unfolding schedule_in_interrupt
  in_interrupt fuel (first_of j x rest k₁ small e r w u) =
      let real : (x == null) ≡ false = ground (arith, turn_of k₁ j x rest e small) in
      inl (
        switch_task k₁ x task_processor_time,
        rw (r, real),
        switch_task-Turn j x rest k₁ task_processor_time small e w u,
      )
  in_interrupt fuel (nothing_ready k' r empty w u only) =
      inr (k', rw r, empty, only, still-IsScheduler k' w only)

  -- In a kernel whose lists are in order, kScheduleInInterrupt returns TRUE and makes a turn: the
  -- first task of a ready list runs with its own registers, the task that ran is put behind its
  -- ready list with its registers saved, or behind the wait list if it has ended, and the lists are
  -- in order again. It returns FALSE only if every ready list is empty; then nothing but the counters
  -- of the ready lists has changed, and the lists are in order with the tasks that they had. Every list has room for one more task, and the task that ran has ended or has the priority of a
  -- ready list.
  pub schedule_in_interrupt-Turn :
      (fuel : ℕ)
      → ((k' : Kernel) × (schedule_in_interrupt (suc fuel) k ≡ some (true, k')) × Turn k xs ws k')
        ⊎ ((k' : Kernel) × (schedule_in_interrupt (suc fuel) k ≡ some (false, k'))
            × ((i : ℕ) → i < task_max_ready_list_count → xs i ≡ [])
            × OnlyCounted k k'
            × IsScheduler k' xs ws)
  schedule_in_interrupt-Turn fuel =
      in_interrupt fuel (get_next_task_to_run-Chosen fuel k xs v.ready)

  total : ℕ
  total = length (xs 0) + length (xs 1) + length (xs 2) + length (xs 3) + length (xs 4)

  ready_count : total < 2 ^ 31 → get_ready_task_count k ≡ total
  unfolding get_ready_task_count total
  ready_count b = omega (
    arith,
    (v.ready.list 0 (omega arith)).count,
    (v.ready.list 1 (omega arith)).count,
    (v.ready.list 2 (omega arith)).count,
    (v.ready.list 3 (omega arith)).count,
    (v.ready.list 4 (omega arith)).count,
  )

  in_schedule :
      (fuel : ℕ)
      → 0 < total
      → slt32 (get_ready_task_count k) 1 ≡ false
      → Chosen k xs (get_next_task_to_run (suc fuel) k)
      → (k' : Kernel) × (schedule (suc fuel) k ≡ some k') × Turn k xs ws k'
  unfolding schedule total
  in_schedule fuel some_ready enough (first_of j x rest k₁ small e r w u) =
      let real : (x == null) ≡ false = ground (arith, turn_of k₁ j x rest e small) in
      let spent = 2 ^ 64 + task_processor_time - k₁.processor_time in
      (switch_task k₁ x spent, rw (enough, r, real), switch_task-Turn j x rest k₁ spent small e w u)
  in_schedule fuel some_ready enough (nothing_ready k' r empty w u only) = absurd (
      omega (
        arith,
        ap length (empty 0 (omega arith)),
        ap length (empty 1 (omega arith)),
        ap length (empty 2 (omega arith)),
        ap length (empty 3 (omega arith)),
        ap length (empty 4 (omega arith)),
      ))

  -- In a kernel whose lists are in order, kSchedule makes a turn whenever some ready list holds a
  -- task: the first task of a ready list runs with its own registers, the task that ran is put
  -- behind its ready list with its registers saved, or behind the wait list if it has ended, and
  -- the lists are in order again. It changes nothing if all ready lists are empty. The ready tasks
  -- are fewer than 2 ^ 31, every list has room for one more task, and the task that ran has ended
  -- or has the priority of a ready list.
  pub schedule-Turn :
      (fuel : ℕ)
      → length (xs 0) + length (xs 1) + length (xs 2) + length (xs 3) + length (xs 4) < 2 ^ 31
      → ((k' : Kernel) × (schedule (suc fuel) k ≡ some k') × Turn k xs ws k')
        ⊎ ((schedule (suc fuel) k ≡ some k)
            × (length (xs 0) + length (xs 1) + length (xs 2) + length (xs 3) + length (xs 4) ≡ 0))
  unfolding schedule total
  schedule-Turn fuel b =
      let count = ready_count b in
      elim (Bool-cases (slt32 (get_ready_task_count k) 1)) [
        | inl few ↦ inr (rw few, ground (arith, count))
        | inr enough ↦ inl (
            in_schedule fuel (ground (arith, count)) enough
              (get_next_task_to_run-Chosen fuel k xs v.ready))
      ]
