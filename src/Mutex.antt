-- ===== src/Mutex.antt =====
-- 02.Kernel64/Syncronization.c: the recursive mutex, kLock and kUnlock, run by any number of tasks.
-- Each access of the MUTEX is one step, and between two steps any other task may run. The helper
-- kTestAndSet is one step (`lock cmpxchg` in 02.Kernel64/AssemblyUtility.asm).
pub mod Exclusion
pub mod Invariant
mod Tests
use mintos.Base.{
  ℕ, ◌+◌, ◌-◌, ◌^◌, Bool, true, false, List, [], ◌∷◌, ◌==◌, ltb, if◌then◌else◌, inc32, dec32,
}

-- TASK_INVALIDID
abbrev pub invalid_id : ℕ
invalid_id = 0xffff_ffff_ffff_ffff

-- MUTEX
pub record Mutex : Type 0 where
  pub task_id : ℕ
  pub lock_count : ℕ
  pub lock_flag : Bool

-- kInitializeMutex
abbrev pub initialize_mutex : Mutex
initialize_mutex = record { task_id = invalid_id; lock_count = 0; lock_flag = false }

-- Where a task stands: outside of both functions, or before an access of kLock or of kUnlock.
pub data Place : Type 0 where
  outside : Place
  first_try check_owner relock spin take start_count : Place
  check_flag check_release look_count decrease clear_id clear_count clear_flag : Place

pub data Call : Type 0 where
  lock unlock : Call

-- `place i` is where the task with identifier `i` stands, and `depth i` the number of its locks
-- that it has not undone (no field of the program: kLock adds one, kUnlock takes one).
pub record System : Type 0 where
  pub mutex : Mutex
  pub place : ℕ → Place
  pub depth : ℕ → ℕ

abbrev pub update {ℓ} : {A : Type ℓ} → (ℕ → A) → ℕ → A → ℕ → A
update f i v j = if j == i then v else f j

-- A step of task `i` to `p` that leaves the mutex.
abbrev pub go : System → ℕ → Place → System
go s i p = record s { place = update s.place i p }

-- A step of task `i` to `p` that writes the mutex.
abbrev pub put : System → ℕ → Mutex → Place → System
put s i m p = record { mutex = m; place = update s.place i p; depth = s.depth }

-- The same where `i` returns with another number of locks.
abbrev pub return : System → ℕ → Mutex → ℕ → System
return s i m d = record { mutex = m; place = update s.place i outside; depth = update s.depth i d }

-- kTestAndSet(&bLockFlag, 0, 1): if it fails the task goes to `p`.
abbrev pub test_and_set : System → ℕ → Place → System
test_and_set s i p =
    if s.mutex.lock_flag then go s i p else put s i (record s.mutex { lock_flag = true }) take

-- The access at `p` of task `i`; outside the task begins the call that it chooses.
unfoldable pub step_at : Place → ℕ → Call → System → System
step_at outside i lock s = go s i first_try
step_at outside i unlock s = go s i check_flag
step_at first_try i c s = test_and_set s i check_owner
step_at check_owner i c s = go s i (if s.mutex.task_id == i then relock else spin)
step_at relock i c s =
    return s i (record s.mutex { lock_count = inc32 s.mutex.lock_count }) (s.depth i + 1)
step_at spin i c s = test_and_set s i spin
step_at take i c s = put s i (record s.mutex { task_id = i }) start_count
step_at start_count i c s = return s i (record s.mutex { lock_count = 1 }) 1
step_at check_flag i c s = go s i (if s.mutex.lock_flag then check_release else outside)
step_at check_release i c s = go s i (if s.mutex.task_id == i then look_count else outside)
step_at look_count i c s = go s i (if ltb 1 s.mutex.lock_count then decrease else clear_id)
step_at decrease i c s =
    return s i (record s.mutex { lock_count = dec32 s.mutex.lock_count }) (s.depth i - 1)
step_at clear_id i c s = record {
  mutex = record s.mutex { task_id = invalid_id };
  place = update s.place i clear_count;
  depth = update s.depth i 0;
}
step_at clear_count i c s = put s i (record s.mutex { lock_count = 0 }) clear_flag
step_at clear_flag i c s = put s i (record s.mutex { lock_flag = false }) outside

unfoldable pub step : ℕ → Call → System → System
unfolding step_at
step i c s = step_at (s.place i) i c s

-- A schedule: which task makes the next step, and what it calls if it stands outside.
unfoldable pub run : List (ℕ × Call) → System → System
unfolding step
run [] s = s
run ((i, c) ∷ r) s = run r (step i c s)

abbrev pub start : System
start = record { mutex = initialize_mutex; place = λ i. outside; depth = λ i. 0 }
