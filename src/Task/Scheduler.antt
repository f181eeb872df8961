-- ===== src/Task/Scheduler.antt =====
-- 02.Kernel64/Task.c: the choice of the next task, task switches and priorities.
-- A walk over a list takes `fuel`; the result `none` means that it ran out. The registers of the
-- running task stand for the processor in kSchedule and for the interrupt frame in
-- kScheduleInInterrupt.
use mintos.Base.{
  ℕ, zero, suc, ◌+◌, ◌-◌, ◌%◌, ◌^◌, Bool, true, false, not, Option, none, some, ◌==◌, ltb, leb,
  if◌then◌else◌, inc32, dec32, slt32, ◌>>=◌,
}
use mintos.LinkList.{null, initialize_list, add_list_to_tail, remove_list, remove_list_from_header}
use mintos.Mutex.{update, invalid_id}
use mintos.Task.{
  Kernel, Tcb, task_max_count, task_max_ready_list_count, task_processor_time, tcb_at, tcb_offset,
  set_priority, get_tcb_in_tcb_pool,
}
use mintos.Task.Pool.{initialize_tcb_pool, allocate_tcb, add_task_to_ready_list}

-- The loop of kInitializeScheduler over the ready lists, in one step.
abbrev initialize_ready_lists : Kernel → Kernel
initialize_ready_lists k = record k {
  ready_lists = λ i. if ltb i task_max_ready_list_count then initialize_list else k.ready_lists i;
  execute_count = λ i. if ltb i task_max_ready_list_count then 0 else k.execute_count i;
  wait_list = initialize_list;
}

-- kInitializeScheduler
unfoldable pub initialize_scheduler : Tcb → Kernel → Option Kernel
unfolding initialize_tcb_pool allocate_tcb
initialize_scheduler zero_tcb k = do
  (p, k₁) ← allocate_tcb (initialize_ready_lists (initialize_tcb_pool zero_tcb k))
  let t : Tcb = record (k₁.tcbs p) {
    flags = record {
      end_task = false;
      system = true;
      process = true;
      thread = false;
      idle = false;
      priority = 0;
    };
    parent_process_id = (k₁.links p).id;
    memory_address = 0x100000;
    memory_size = 0x500000;
    stack_address = 0x600000;
    stack_size = 0x100000;
  }
  some (record k₁ {
    running_task = p;
    tcbs = update k₁.tcbs p t;
    spend_processor_time_in_idle_task = 0;
    processor_load = 0;
    last_fpu_used_task_id = invalid_id;
  })

module _ (fuel : ℕ) where
  -- The inner loop of kGetNextTaskToRun over the `n` ready lists from `i` on: `none` inside of the
  -- result means that no list was chosen, and the outer loop goes on.
  unfoldable pub scan_ready_lists : ℕ → ℕ → Kernel → Option (Option ℕ × Kernel)
  scan_ready_lists zero i k = some (none, k)
  scan_ready_lists (suc n) i k =
      let rest =
        scan_ready_lists n (i + 1) (record k { execute_count = update k.execute_count i 0 }) in
      let chosen : Option (Option ℕ × Kernel) = do
        (m, l, x) ← remove_list_from_header fuel k.links (k.ready_lists i)
        some (
          some x,
          record k {
            links = m;
            ready_lists = update k.ready_lists i l;
            execute_count = update k.execute_count i (inc32 (k.execute_count i));
          },
        )
      in if slt32 (k.execute_count i) (k.ready_lists i).count then chosen else rest

  -- The outer loop of kGetNextTaskToRun: `n` rounds.
  unfoldable pub scan_rounds : ℕ → Kernel → Option (ℕ × Kernel)
  scan_rounds zero k = some (null, k)
  scan_rounds (suc n) k = do
    (found, k') ← scan_ready_lists task_max_ready_list_count 0 k
    elim found [ none ↦ scan_rounds n k' | some x ↦ some (x, k') ]

  -- kGetNextTaskToRun
  unfoldable pub get_next_task_to_run : Kernel → Option (ℕ × Kernel)
  get_next_task_to_run k = scan_rounds 2 k

  -- kRemoveTaskFromReadyList
  unfoldable pub remove_task_from_ready_list : Kernel → ℕ → Option (ℕ × Kernel)
  remove_task_from_ready_list k id =
      let target = tcb_at (tcb_offset id) in
      let priority = (k.tcbs target).flags.priority in
      let removed : Option (ℕ × Kernel) = do
        (m, l, x) ← remove_list fuel k.links (k.ready_lists priority) id
        some (x, record k { links = m; ready_lists = update k.ready_lists priority l })
      in if leb task_max_count (tcb_offset id)
        then some (null, k)
        else if not ((k.links target).id == id)
        then some (null, k)
        else removed

  -- The part of kChangePriority behind the call of kRemoveTaskFromReadyList.
  unfoldable pub change_removed : ℕ → ℕ → (ℕ × Kernel) → Kernel
  change_removed id priority (p, k) =
      let q = get_tcb_in_tcb_pool (tcb_offset id) in
      if p == null
      then (if q == null then k else set_priority k q priority)
      else (add_task_to_ready_list (set_priority k p priority) p).1

  -- kChangePriority
  unfoldable pub change_priority : Kernel → ℕ → ℕ → Option (Bool × Kernel)
  change_priority k id priority =
      let others : Option (Bool × Kernel) = do
        r ← remove_task_from_ready_list k id
        some (true, change_removed id priority r)
      in if ltb task_max_ready_list_count priority
        then some (false, k)
        else if (k.links k.running_task).id == id
        then some (true, set_priority k k.running_task priority)
        else others

-- kGetReadyTaskCount
unfoldable pub get_ready_task_count : Kernel → ℕ
get_ready_task_count k =
    ((k.ready_lists 0).count
      + (k.ready_lists 1).count
      + (k.ready_lists 2).count
      + (k.ready_lists 3).count
      + (k.ready_lists 4).count)
    % 2 ^ 32

-- kGetTaskCount
unfoldable pub get_task_count : Kernel → ℕ
unfolding get_ready_task_count
get_task_count k = (get_ready_task_count k + k.wait_list.count + 1) % 2 ^ 32

-- What kSchedule and kScheduleInInterrupt do alike when `next` is to run, with `spent` the time that
-- counts for an idle task that is left. An ended task goes to the wait list, and its registers are
-- not saved.
unfoldable pub switch_task : Kernel → ℕ → ℕ → Kernel
switch_task k next spent =
    let running = k.running_task in
    let t = k.tcbs running in
    let k₁ : Kernel = record k {
      running_task = next;
      spend_processor_time_in_idle_task =
          (if t.flags.idle
            then (k.spend_processor_time_in_idle_task + spent) % 2 ^ 64
            else k.spend_processor_time_in_idle_task);
      task_switched = not (k.last_fpu_used_task_id == (k.links next).id);
      processor_time = task_processor_time;
      registers = (k.tcbs next).context;
    } in
    let waiting = add_list_to_tail k.links k.wait_list running in
    let saved : Kernel = record k₁ {
      tcbs = update k.tcbs running (record t { context = k.registers });
    } in
    if t.flags.end_task
    then record k₁ { links = waiting.0; wait_list = waiting.1 }
    else (add_task_to_ready_list saved running).1

-- kSchedule
unfoldable pub schedule : ℕ → Kernel → Option Kernel
schedule fuel k =
    let switched : Option Kernel = do
      (next, k') ← get_next_task_to_run fuel k
      some (
          if next == null
          then k'
          else switch_task k' next (2 ^ 64 + task_processor_time - k'.processor_time))
    in if slt32 (get_ready_task_count k) 1 then some k else switched

-- kScheduleInInterrupt
unfoldable pub schedule_in_interrupt : ℕ → Kernel → Option (Bool × Kernel)
schedule_in_interrupt fuel k = do
  (next, k') ← get_next_task_to_run fuel k
  some (if next == null then (false, k') else (true, switch_task k' next task_processor_time))

-- kDecreaseProcessorTime
unfoldable pub decrease_processor_time : Kernel → Kernel
decrease_processor_time k =
    if slt32 0 k.processor_time then record k { processor_time = dec32 k.processor_time } else k

-- kIsProcessorTimeExpired
unfoldable pub is_processor_time_expired : Kernel → Bool
is_processor_time_expired k = not (slt32 0 k.processor_time)

-- The part of kTimerHandler that drives the scheduler.
unfoldable pub timer_tick : ℕ → Kernel → Option Kernel
timer_tick fuel k =
    let k' = decrease_processor_time k in
    let switched : Option Kernel = do (done, k'') ← schedule_in_interrupt fuel k'; some k''
    in if is_processor_time_expired k' then switched else some k'

-- kSetRunningTask
abbrev pub set_running_task : Kernel → ℕ → Kernel
set_running_task k p = record k { running_task = p }

-- kGetRunningTask
abbrev pub get_running_task : Kernel → ℕ
get_running_task k = k.running_task

-- kGetProcessorLoad
abbrev pub get_processor_load : Kernel → ℕ
get_processor_load k = k.processor_load

-- kGetLastFPUUsedTaskID
abbrev pub get_last_fpu_used_task_id : Kernel → ℕ
get_last_fpu_used_task_id k = k.last_fpu_used_task_id

-- kSetLastFPUUsedTaskID
abbrev pub set_last_fpu_used_task_id : Kernel → ℕ → Kernel
set_last_fpu_used_task_id k id = record k { last_fpu_used_task_id = id }
