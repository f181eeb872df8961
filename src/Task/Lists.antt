-- ===== src/Task/Lists.antt =====
-- The invariant of the scheduler's lists: five ready lists and the wait list, which share no task
-- among themselves or with the running task.
use mintos.Base.{ℕ, ◌+◌, ◌^◌, ◌<◌, ◌≡◌, ◌≢◌, true, false, List, has, length, refl, ap, ◌∙◌}
use mintos.LinkList.{null}
use mintos.LinkList.Invariant.{IsList}
use mintos.Task.{Kernel, task_max_ready_list_count}

-- `xs i` are the tasks of ready list `i`, first to last.
pub record IsReady (k : Kernel) (xs : ℕ → List ℕ) : Type 0 where
  pub list : (i : ℕ) → i < task_max_ready_list_count → IsList k.links (k.ready_lists i) (xs i)
  pub apart :
      (i j a : ℕ)
      → i < task_max_ready_list_count
      → j < task_max_ready_list_count
      → i ≢ j
      → has a (xs i) ≡ true
      → has a (xs j) ≡ false
  pub counts : (i : ℕ) → i < task_max_ready_list_count → k.execute_count i < 2 ^ 31

-- With the wait list `ws` and the running task.
pub record IsScheduler (k : Kernel) (xs : ℕ → List ℕ) (ws : List ℕ) : Type 0 where
  pub ready : IsReady k xs
  pub wait : IsList k.links k.wait_list ws
  pub wait_apart :
      (i a : ℕ) → i < task_max_ready_list_count → has a (xs i) ≡ true → has a ws ≡ false
  pub running : k.running_task ≢ null
  pub running_ready : (i : ℕ) → i < task_max_ready_list_count → has k.running_task (xs i) ≡ false
  pub running_wait : has k.running_task ws ≡ false

-- Every list has room for one more task.
pub record HasRoom (xs : ℕ → List ℕ) (ws : List ℕ) : Type 0 where
  pub ready_room : (i : ℕ) → i < task_max_ready_list_count → length (xs i) + 1 < 2 ^ 31
  pub wait_room : length ws + 1 < 2 ^ 31

-- What the choice of a task leaves alone.
pub record Untouched (k k' : Kernel) : Type 0 where
  pub tcbs : k'.tcbs ≡ k.tcbs
  pub running_task : k'.running_task ≡ k.running_task
  pub wait_list : k'.wait_list ≡ k.wait_list
  pub processor_time : k'.processor_time ≡ k.processor_time
  pub registers : k'.registers ≡ k.registers
  pub last_fpu : k'.last_fpu_used_task_id ≡ k.last_fpu_used_task_id
  pub idle_time : k'.spend_processor_time_in_idle_task ≡ k.spend_processor_time_in_idle_task
  pub links : (a : ℕ) → a ≢ null → k'.links a ≡ k.links a

-- A kernel in which the choice has only counted: all lists, their items and all else are as before.
abbrev pub OnlyCounted : Kernel → Kernel → Type 0
OnlyCounted k k' = k' ≡ record k { execute_count = k'.execute_count }

pub OnlyCounted-trans :
    (k k' k'' : Kernel) → OnlyCounted k k' → OnlyCounted k' k'' → OnlyCounted k k''
OnlyCounted-trans k k' k'' u w =
    w ∙ ap (λ (z : Kernel). record z { execute_count = k''.execute_count }) u

pub Untouched-refl : (k : Kernel) → Untouched k k
Untouched-refl k = record {
  tcbs = refl;
  running_task = refl;
  wait_list = refl;
  processor_time = refl;
  registers = refl;
  last_fpu = refl;
  idle_time = refl;
  links = λ a h. refl;
}

pub Untouched-trans : (k k' k'' : Kernel) → Untouched k k' → Untouched k' k'' → Untouched k k''
Untouched-trans k k' k'' u w = record {
  tcbs = w.tcbs ∙ u.tcbs;
  running_task = w.running_task ∙ u.running_task;
  wait_list = w.wait_list ∙ u.wait_list;
  processor_time = w.processor_time ∙ u.processor_time;
  registers = w.registers ∙ u.registers;
  last_fpu = w.last_fpu ∙ u.last_fpu;
  idle_time = w.idle_time ∙ u.idle_time;
  links = λ a h. w.links a h ∙ u.links a h;
}
