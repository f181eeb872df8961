-- ===== src/Task/Pool.antt =====
-- 02.Kernel64/Task.c: the pool of TCBs and the creation of tasks.
use mintos.Base.{
  ℕ, zero, suc, ◌+◌, ◌-◌, ◌*◌, ◌/◌, ◌%◌, ◌^◌, Bool, true, false, not, Option, none, some, ◌==◌, ltb,
  if◌then◌else◌, inc32, dec32, ◌>>=◌,
}
use mintos.LinkList.{Memory, null, initialize_list, add_list_to_tail}
use mintos.Mutex.{update}
use mintos.Task.{
  Kernel, Tcb, Flags, Context, task_max_count, task_stack_pool_address, task_stack_size, tcb_at,
  tcb_size, tcb_offset, thread_link_offset, get_tcb_in_tcb_pool, task_max_ready_list_count,
}

-- `p->qwID = id`
unfoldable pub write_id : Memory → ℕ → ℕ → Memory
write_id m p id a = if a == p then record (m a) { id = id } else m a

-- kInitializeTCBPool: the links of the pool are cleared and numbered. `zero_tcb` is a TCB of zeros.
unfoldable pub number_tcbs : ℕ → Memory → Memory
unfolding write_id
number_tcbs zero m = m
number_tcbs (suc i) m =
    let rest = number_tcbs i m in
    λ a. if a == tcb_at i then record { next = null; id = i } else rest a

unfoldable pub initialize_tcb_pool : Tcb → Kernel → Kernel
unfolding number_tcbs
initialize_tcb_pool zero_tcb k = record k {
  links = number_tcbs task_max_count k.links;
  tcbs = λ p. zero_tcb;
  use_count = 0;
  allocated_count = 1;
}

-- The `for` loop of kAllocateTCB over the `n` TCBs from index `i` on.
unfoldable pub find_free_tcb : Memory → ℕ → ℕ → Option ℕ
find_free_tcb m zero i = none
find_free_tcb m (suc n) i =
    let rest = find_free_tcb m n (i + 1) in if (m (tcb_at i)).id / 2 ^ 32 == 0 then some i else rest

-- The counter behind the upper half of the identifiers never becomes 0.
abbrev pub next_allocated_count : ℕ → ℕ
next_allocated_count n = if inc32 n == 0 then 1 else inc32 n

-- kAllocateTCB: the address, or NULL where the pool is full. `none` stands for the use of a pointer
-- that no turn of the loop has set.
unfoldable pub allocate_tcb : Kernel → Option (ℕ × Kernel)
unfolding find_free_tcb write_id
allocate_tcb k = if k.use_count == task_max_count then some (null, k) else do
  i ← find_free_tcb k.links task_max_count 0
  some (
    tcb_at i,
    record k {
      links = write_id k.links (tcb_at i) (k.allocated_count * 2 ^ 32 + i);
      use_count = inc32 k.use_count;
      allocated_count = next_allocated_count k.allocated_count;
    },
  )

-- kFreeTCB, whose index is an `int`: one of 2 ^ 31 or more is negative, stands for a TCB before the
-- pool, and has its sign extended where it is stored.
unfoldable pub free_tcb : Kernel → ℕ → Kernel
unfolding write_id
free_tcb k id =
    let i = tcb_offset id in
    let negative = not (ltb i (2 ^ 31)) in
    let p = if negative then (tcb_at i + 2 ^ 64 - tcb_size * 2 ^ 32) % 2 ^ 64 else tcb_at i in
    record k {
      links = write_id k.links p (if negative then i + 2 ^ 64 - 2 ^ 32 else i);
      tcbs = update k.tcbs p (record (k.tcbs p) { context = λ r. 0 });
      use_count = dec32 k.use_count;
    }

-- kGetProcessByThread
unfoldable pub get_process_by_thread : Kernel → ℕ → ℕ
unfolding get_tcb_in_tcb_pool
get_process_by_thread k thread =
    let parent = (k.tcbs thread).parent_process_id in
    let process = get_tcb_in_tcb_pool (tcb_offset parent) in
    if (k.tcbs thread).flags.process
    then thread
    else if process == null
    then null
    else if (k.links process).id == parent
    then process
    else null

-- kIsTaskExist
unfoldable pub is_task_exist : Kernel → ℕ → Bool
unfolding get_tcb_in_tcb_pool
is_task_exist k id =
    let p = get_tcb_in_tcb_pool (tcb_offset id) in if p == null then false else (k.links p).id == id

-- The registers that kSetUpTask writes: RSP and RBP, the segments, RIP and RFLAGS. The address of
-- kExitTask, which it stores at the top of the stack, lies in the memory of the stack.
unfoldable pub initial_context : ℕ → ℕ → Context
initial_context entry_point top r =
    if (r == 22)
    then top - 8
    else if r == 18
    then top - 8
    else if r == 20
    then 0x08
    else if r == 3
    then 0x10
    else if r == 2
    then 0x10
    else if r == 1
    then 0x10
    else if r == 0
    then 0x10
    else if r == 23
    then 0x10
    else if r == 19
    then entry_point
    else if r == 21
    then 0x0200
    else 0

-- kSetUpTask
unfoldable pub set_up_task : Tcb → Flags → ℕ → ℕ → ℕ → Tcb
unfolding initial_context
set_up_task t flags entry_point stack size = record t {
  context = initial_context entry_point (stack + size);
  stack_address = stack;
  stack_size = size;
  flags = flags;
}

-- kAddTaskToReadyList
unfoldable pub add_task_to_ready_list : Kernel → ℕ → Bool × Kernel
add_task_to_ready_list k p =
    let priority = (k.tcbs p).flags.priority in
    let r = add_list_to_tail k.links (k.ready_lists priority) p in
    if ltb priority task_max_ready_list_count
    then (true, record k { links = r.0; ready_lists = update k.ready_lists priority r.1 })
    else (false, k)

-- The first part of kCreateTask, under the lock: the links of the new task to its process.
unfoldable pub join_process : Kernel → (task process : ℕ) → Flags → ℕ → ℕ → Kernel
unfolding write_id
join_process k task process flags address size =
    let link = task + thread_link_offset in
    let t = k.tcbs task in
    let parent = k.tcbs process in
    let r = add_list_to_tail k.links parent.child_thread_list link in
    let id = (k.links task).id in
    let child : Tcb = record t {
      parent_process_id = (k.links process).id;
      memory_address = parent.memory_address;
      memory_size = parent.memory_size;
    } in
    let other : Tcb = record t {
      parent_process_id = (k.links process).id;
      memory_address = address;
      memory_size = size;
    } in
    let tcbs' = update k.tcbs task child in
    if flags.thread
    then record k {
      links = write_id r.0 link id;
      tcbs = update tcbs' process (record (tcbs' process) { child_thread_list = r.1 });
    }
    else record k { links = write_id k.links link id; tcbs = update k.tcbs task other }

-- kCreateTask: the address of the new TCB, or NULL.
unfoldable pub create_task : Kernel → Flags → ℕ → ℕ → ℕ → Option (ℕ × Kernel)
unfolding allocate_tcb get_process_by_thread free_tcb join_process set_up_task
    add_task_to_ready_list
create_task k flags address size entry_point = do
  (task, k₁) ← allocate_tcb k
  let process = get_process_by_thread k₁ k₁.running_task
  let k₂ = join_process k₁ task process flags address size
  let stack = task_stack_pool_address + task_stack_size * tcb_offset (k₂.links task).id
  let t = set_up_task (k₂.tcbs task) flags entry_point stack task_stack_size
  let t' : Tcb = record t { child_thread_list = initialize_list; fpu_used = false }
  let k₃ : Kernel = record k₂ { tcbs = update k₂.tcbs task t' }
  if task == null
      then some (null, k₁)
      else if process == null
      then some (null, free_tcb k₁ (k₁.links task).id)
      else some (task, (add_task_to_ready_list k₃ task).1)
