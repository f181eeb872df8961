-- ===== src/Task.antt =====
-- 02.Kernel64/Task.c and Task.h: the state of the task manager.
-- Memory is flat: a TCB is known by its address, the links that lie in TCBs are in `links`, and all
-- other fields of the TCB at address `p` are `tcbs p`. The task's identifier is `(links p).id`,
-- since `stLink` is the first field of a TCB. Counters of type `int` are 32-bit patterns.
-- Functions that run between kLockForSystemData and kUnlockForSystemData are one step.
pub mod Choice
pub mod Ending
pub mod Lists
pub mod Pool
pub mod Priorities
pub mod Schedule
pub mod Scheduler
pub mod Switch
mod Tests
use mintos.Base.{ℕ, ◌+◌, ◌-◌, ◌*◌, ◌/◌, ◌%◌, ◌^◌, Bool, ◌==◌, leb, if◌then◌else◌}
use mintos.LinkList.{Memory, LinkList, null}
use mintos.Mutex.{update}

abbrev pub task_max_count : ℕ
task_max_count = 1024

abbrev pub task_tcb_pool_address : ℕ
task_tcb_pool_address = 0x800000

-- sizeof(TCB) and the offset of `stThreadLink`, as the packed struct lays them out.
abbrev pub tcb_size : ℕ
tcb_size = 816

abbrev pub thread_link_offset : ℕ
thread_link_offset = 40

abbrev pub task_stack_pool_address : ℕ
task_stack_pool_address = task_tcb_pool_address + tcb_size * task_max_count

abbrev pub task_stack_size : ℕ
task_stack_size = 8192

abbrev pub task_max_ready_list_count : ℕ
task_max_ready_list_count = 5

abbrev pub task_processor_time : ℕ
task_processor_time = 5

-- Bits 63 to 59 of `qwFlags` are the flags ENDTASK, SYSTEM, PROCESS, THREAD and IDLE, and the lowest
-- byte is the priority. The bits between are never set by the program.
pub record Flags : Type 0 where
  pub end_task : Bool
  pub system : Bool
  pub process : Bool
  pub thread : Bool
  pub idle : Bool
  pub priority : ℕ

-- TASK_FLAGS_WAIT
abbrev pub priority_wait : ℕ
priority_wait = 0xff

-- CONTEXT: the saved registers by offset.
abbrev pub Context : Type 0
Context = ℕ → ℕ

-- TCB, less its two links and the memory of the FPU.
pub record Tcb : Type 0 where
  pub flags : Flags
  pub memory_address : ℕ
  pub memory_size : ℕ
  pub parent_process_id : ℕ
  pub child_thread_list : LinkList
  pub context : Context
  pub stack_address : ℕ
  pub stack_size : ℕ
  pub fpu_used : Bool

-- TCBPOOLMANAGER and SCHEDULER, with the memory of the TCBs, the registers of the processor and the
-- flag TS. `ready_lists i` for 5 ≤ i is what lies in memory behind `vstReadyList`.
pub record Kernel : Type 0 where
  pub links : Memory
  pub tcbs : ℕ → Tcb
  pub use_count : ℕ
  pub allocated_count : ℕ
  pub running_task : ℕ
  pub processor_time : ℕ
  pub ready_lists : ℕ → LinkList
  pub wait_list : LinkList
  pub execute_count : ℕ → ℕ
  pub processor_load : ℕ
  pub spend_processor_time_in_idle_task : ℕ
  pub last_fpu_used_task_id : ℕ
  pub registers : Context
  pub task_switched : Bool

-- &pstStartAddress[i]
abbrev pub tcb_at : ℕ → ℕ
tcb_at i = task_tcb_pool_address + tcb_size * i

-- GETTCBOFFSET
abbrev pub tcb_offset : ℕ → ℕ
tcb_offset id = id % 2 ^ 32

-- GETTCBFROMTHREADLINK
abbrev pub tcb_from_thread_link : ℕ → ℕ
tcb_from_thread_link p = p - thread_link_offset

-- `p->qwFlags = f`
abbrev pub set_flags : Kernel → ℕ → Flags → Kernel
set_flags k p f = record k { tcbs = update k.tcbs p (record (k.tcbs p) { flags = f }) }

-- SETPRIORITY
abbrev pub set_priority : Kernel → ℕ → ℕ → Kernel
set_priority k p priority = set_flags k p (record (k.tcbs p).flags { priority = priority })

-- kGetTCBInTCBPool: `i` is the pattern of an `int`, and -1 and 1024 pass the test.
unfoldable pub get_tcb_in_tcb_pool : ℕ → ℕ
get_tcb_in_tcb_pool i =
    if leb i task_max_count
    then tcb_at i
    else if i == 2 ^ 32 - 1
    then task_tcb_pool_address - tcb_size
    else null
