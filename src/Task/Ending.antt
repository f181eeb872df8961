-- ===== src/Task/Ending.antt =====
-- 02.Kernel64/Task.c: the end of tasks, and the idle task that frees them.
use mintos.Base.{
  ℕ, zero, suc, ◌+◌, ◌-◌, ◌*◌, ◌/◌, ◌%◌, ◌^◌, Bool, true, false, Option, some, ◌==◌, ltb,
  if◌then◌else◌, slt32, ◌>>=◌,
}
use mintos.LinkList.{null, add_list_to_tail, remove_list, remove_list_from_header}
use mintos.Mutex.{update}
use mintos.Task.{
  Kernel, priority_wait, tcb_offset, set_flags, get_tcb_in_tcb_pool, tcb_from_thread_link,
}
use mintos.Task.Pool.{free_tcb, get_process_by_thread}
use mintos.Task.Scheduler.{schedule, remove_task_from_ready_list}

-- What a call of kEndTask comes to: the end of the running task does not return.
pub data Ended : Type 0 where
  returned : Bool → Ended
  switched_away : Ended

-- `p->qwFlags |= TASK_FLAGS_ENDTASK; SETPRIORITY(p->qwFlags, TASK_FLAGS_WAIT)`
abbrev pub mark_ended : Kernel → ℕ → Kernel
mark_ended k p =
    set_flags k p (record (k.tcbs p).flags { end_task = true; priority = priority_wait })

-- The part of kEndTask behind the call of kRemoveTaskFromReadyList.
unfoldable pub end_removed : ℕ → (ℕ × Kernel) → Ended × Kernel
end_removed id (p, k) =
    let q = get_tcb_in_tcb_pool (tcb_offset id) in
    let k' = mark_ended k p in
    let r = add_list_to_tail k'.links k'.wait_list p in
    if p == null
    then (returned false, (if q == null then k else mark_ended k q))
    else (returned true, record k' { links = r.0; wait_list = r.1 })

-- kEndTask
unfoldable pub end_task : ℕ → Kernel → ℕ → Option (Ended × Kernel)
end_task fuel k id =
    let running : Option (Ended × Kernel) = do
      k' ← schedule fuel (mark_ended k k.running_task)
      some (switched_away, k')
    in let other : Option (Ended × Kernel) = do
      r ← remove_task_from_ready_list fuel k id
      some (end_removed id r)
      in if (k.links k.running_task).id == id then running else other

-- kExitTask
abbrev pub exit_task : ℕ → Kernel → Option (Ended × Kernel)
exit_task fuel k = end_task fuel k (k.links k.running_task).id

-- The `for` loop of kIdleTask over the child threads of an ended process: `n` turns are left.
unfoldable pub end_children : ℕ → ℕ → Kernel → ℕ → Option Kernel
end_children fuel zero k process = some k
end_children fuel (suc n) k process = do
  (m, l, link) ← remove_list_from_header fuel k.links (k.tcbs process).child_thread_list
  let r = add_list_to_tail m l link
  let none_left : Kernel = record k {
    links = m;
    tcbs = update k.tcbs process (record (k.tcbs process) { child_thread_list = l });
  }
  let k' : Kernel = record k {
    links = r.0;
    tcbs = update k.tcbs process (record (k.tcbs process) { child_thread_list = r.1 });
  }
  let rest : Option Kernel = do
    (e, k'') ← end_task fuel k' (k'.links (tcb_from_thread_link link)).id
    end_children fuel n k'' process
  if link == null then some none_left else rest

-- The end of a turn of kIdleTask: the TCB is freed.
abbrev pub free_task : Kernel → ℕ → Kernel
free_task k p = free_tcb k (k.links p).id

-- A thread leaves the list of its process.
unfoldable pub leave_process : ℕ → Kernel → ℕ → Option Kernel
leave_process fuel k thread =
    let process = get_process_by_thread k thread in
    let t = k.tcbs process in
    let left : Option Kernel = do
      (m, l, x) ← remove_list fuel k.links t.child_thread_list (k.links thread).id
      some (record k {
        links = m;
        tcbs = update k.tcbs process (record t { child_thread_list = l });
      })
    in if process == null then some k else left

-- The turns of `for (i = 0; i < n; i++)` on an `int`.
abbrev turns : ℕ → ℕ
turns n = if slt32 0 n then n else 0

-- The case of a process in a turn of kIdleTask.
unfoldable pub reap_process : ℕ → Kernel → ℕ → Option Kernel
reap_process fuel k p = do
  k' ← end_children fuel (turns (k.tcbs p).child_thread_list.count) k p
  let r = add_list_to_tail k'.links k'.wait_list p
  some (
      if slt32 0 (k'.tcbs p).child_thread_list.count
      then record k' { links = r.0; wait_list = r.1 }
      else free_task k' p)

-- One turn of the inner loop of kIdleTask, with whether the loop goes on.
unfoldable pub reap_one : ℕ → Kernel → Option (Bool × Kernel)
reap_one fuel k = do
  (m, l, p) ← remove_list_from_header fuel k.links k.wait_list
  let k₁ : Kernel = record k { links = m; wait_list = l }
  let flags = (k.tcbs p).flags
  let as_process : Option (Bool × Kernel) = do k₂ ← reap_process fuel k₁ p; some (true, k₂)
  let as_thread : Option (Bool × Kernel) = do
    k₂ ← leave_process fuel k₁ p
    some (true, free_task k₂ p)
  if p == null
      then some (false, k₁)
      else if flags.process
      then as_process
      else if flags.thread
      then as_thread
      else some (true, free_task k₁ p)

-- The measurement of kIdleTask: the load from the ticks and the idle ticks since the last turn.
unfoldable pub measure_load : (ticks last_ticks idle last_idle : ℕ) → ℕ
measure_load ticks last_ticks idle last_idle =
    let passed = (ticks + 2 ^ 64 - last_ticks) % 2 ^ 64 in
    let spent = (idle + 2 ^ 64 - last_idle) % 2 ^ 64 in
    if passed == 0 then 0 else (100 + 2 ^ 64 - spent * 100 % 2 ^ 64 / passed) % 2 ^ 64

-- kHaltProcessorByLoad: how often the processor is halted.
unfoldable pub halts_by_load : ℕ → ℕ
halts_by_load load =
    if ltb load 40 then 3 else if ltb load 80 then 2 else if ltb load 95 then 1 else 0
