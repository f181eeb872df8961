-- ===== src/Task/Tests.antt =====
-- The theorems on the scheduler at a kernel with a running task and two ready ones.
use mintos.Base.{
  ℕ, ◌≡◌, ◌≢◌, ◌+◌, ◌^◌, ◌<◌, ◌⊎◌, refl, true, false, some, List, [], ◌∷◌, ◌++◌, arith, ◌==◌,
  if◌then◌else◌, length, Bool-cases, inl, inr,
}
use mintos.LinkList.{LinkList, Memory, null}
use mintos.LinkList.Invariant.{IsList}
use mintos.Mutex.{update, invalid_id}
use mintos.Task.{Kernel, Tcb, Flags, task_max_ready_list_count, tcb_at}
use mintos.Task.Scheduler.{get_next_task_to_run, schedule, schedule_in_interrupt, change_priority}
use mintos.Task.Lists.{IsReady, IsScheduler, HasRoom, OnlyCounted}
use mintos.Task.Choice.{Chosen, get_next_task_to_run-Chosen}
use mintos.Task.Schedule.{Turn, IsRunnable, schedule-Turn, schedule_in_interrupt-Turn}
use mintos.Task.Switch.{Off}
use mintos.Task.Priorities.{Waits, change_priority-moves, change_priority-loses}

-- The identifier of the task in TCB `i`.
abbrev id_of : ℕ → ℕ
id_of i = 2 ^ 32 + i

abbrev links : Memory
links a =
    if a == tcb_at 1
    then record { next = tcb_at 2; id = id_of 1 }
    else if a == tcb_at 2
    then record { next = null; id = id_of 2 }
    else record { next = null; id = id_of 0 }

abbrev none_in : LinkList
none_in = record { count = 0; header = null; tail = null }

abbrev flags : Flags
flags = record {
  end_task = false;
  system = false;
  process = true;
  thread = false;
  idle = false;
  priority = 1;
}

abbrev tcb : Tcb
tcb = record {
  flags = flags;
  memory_address = 0;
  memory_size = 0;
  parent_process_id = 0;
  child_thread_list = none_in;
  context = λ r. r;
  stack_address = 0;
  stack_size = 0;
  fpu_used = false;
}

abbrev two_ready : Kernel
two_ready = record {
  links = links;
  tcbs = λ a. tcb;
  use_count = 3;
  allocated_count = 1;
  running_task = tcb_at 0;
  processor_time = 5;
  ready_lists =
      λ i. if i == 1 then record { count = 2; header = tcb_at 1; tail = tcb_at 2 } else none_in;
  wait_list = none_in;
  execute_count = λ i. 2;
  processor_load = 0;
  spend_processor_time_in_idle_task = 0;
  last_fpu_used_task_id = invalid_id;
  registers = λ r. 7;
  task_switched = false;
}

abbrev waiting : ℕ → List ℕ
waiting i = if i == 1 then tcb_at 1 ∷ tcb_at 2 ∷ [] else []

one-IsList :
    IsList links
      (record { count = 2; header = tcb_at 1; tail = tcb_at 2 })
      (tcb_at 1 ∷ tcb_at 2 ∷ [])
one-IsList = record {
  header = refl;
  tail = refl;
  linked = (ground arith, (ground arith, refl, tt));
  count = refl;
  fits = ground arith;
  distinct = (refl, (refl, tt));
}

none_in-IsList : IsList links none_in []
none_in-IsList = record {
  header = refl;
  tail = refl;
  linked = tt;
  count = refl;
  fits = ground arith;
  distinct = tt;
}

two_ready-IsReady : IsReady two_ready waiting
two_ready-IsReady = record {
  list = λ i h. elim (Bool-cases (i == 1)) [
    | inl at ↦ rw at one-IsList
    | inr ne ↦ rw ne none_in-IsList
  ];
  apart = λ i j a hi hj ne h. elim (Bool-cases (j == 1)) [
    | inl at ↦
        let other : (i == 1) ≡ false = ground arith in
        let empty : false ≡ true = rw other at h in ground (arith, empty)
    | inr other ↦ rw other refl
  ];
  counts = λ i h. ground arith;
}

two_ready-IsScheduler : IsScheduler two_ready waiting []
two_ready-IsScheduler = record {
  ready = two_ready-IsReady;
  wait = none_in-IsList;
  wait_apart = λ i a h b. refl;
  running = ground arith;
  running_ready = λ i h. elim (Bool-cases (i == 1)) [ inl at ↦ rw at refl | inr ne ↦ rw ne refl ];
  running_wait = refl;
}

two_ready-HasRoom : HasRoom waiting []
two_ready-HasRoom = record {
  ready_room = λ i h. elim (Bool-cases (i == 1)) [
    | inl at ↦ rw at (ground arith)
    | inr ne ↦ rw ne (ground arith)
  ];
  wait_room = ground arith;
}

two_ready-IsRunnable : IsRunnable two_ready
two_ready-IsRunnable h = ground arith

get_next_task_to_run-Chosen_example : Chosen two_ready waiting (get_next_task_to_run 1 two_ready)
get_next_task_to_run-Chosen_example =
    get_next_task_to_run-Chosen 0 two_ready waiting two_ready-IsReady

schedule_in_interrupt-Turn_example :
    ((k' : Kernel) × (schedule_in_interrupt 1 two_ready ≡ some (true, k'))
      × Turn two_ready waiting [] k')
    ⊎ ((k' : Kernel) × (schedule_in_interrupt 1 two_ready ≡ some (false, k'))
        × ((i : ℕ) → i < task_max_ready_list_count → waiting i ≡ [])
        × OnlyCounted two_ready k'
        × IsScheduler k' waiting [])
schedule_in_interrupt-Turn_example =
    schedule_in_interrupt-Turn two_ready waiting [] two_ready-IsScheduler two_ready-HasRoom
      two_ready-IsRunnable 0

schedule-Turn_example :
    ((k' : Kernel) × (schedule 1 two_ready ≡ some k') × Turn two_ready waiting [] k')
    ⊎ ((schedule 1 two_ready ≡ some two_ready)
        × (length (waiting 0)
              + length (waiting 1)
              + length (waiting 2)
              + length (waiting 3)
              + length (waiting 4)
            ≡ 0))
schedule-Turn_example =
    schedule-Turn two_ready waiting [] two_ready-IsScheduler two_ready-HasRoom two_ready-IsRunnable
      0 (ground arith)

second-Waits : Waits two_ready waiting (id_of 2) 1 (tcb_at 1 ∷ []) []
second-Waits = record {
  in_pool = ground arith;
  in_range = ground arith;
  has_id = refl;
  has_priority = refl;
  place = refl;
  first = (ground arith, tt);
  not_running = ground arith;
}

abbrev first_only : ℕ → List ℕ
first_only = update waiting 1 (tcb_at 1 ∷ [])

change_priority-moves_example :
    (k' : Kernel) × (change_priority 2 two_ready (id_of 2) 3 ≡ some (true, k'))
    × IsScheduler k' (update first_only 3 (first_only 3 ++ tcb_at 2 ∷ [])) []
    × ((k'.tcbs (tcb_at 2)).flags.priority ≡ 3)
change_priority-moves_example =
    change_priority-moves two_ready waiting [] (id_of 2) 1 (tcb_at 1 ∷ []) [] two_ready-IsScheduler
      second-Waits 2 (ground arith) 3 (ground arith) two_ready-HasRoom

change_priority-loses_example :
    (k' : Kernel) × (change_priority 2 two_ready (id_of 2) 5 ≡ some (true, k'))
    × IsScheduler k' first_only []
    × Off first_only [] (tcb_at 2)
    × (k'.running_task ≢ tcb_at 2)
change_priority-loses_example =
    change_priority-loses two_ready waiting [] (id_of 2) 1 (tcb_at 1 ∷ []) [] two_ready-IsScheduler
      second-Waits 2 (ground arith)
