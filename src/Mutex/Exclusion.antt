-- ===== src/Mutex/Exclusion.antt =====
-- Mutual exclusion of the mutex under every schedule, from the invariant of one step.
use mintos.Base.{
  ltb→lt, ltb, ℕ, ◌+◌, ◌^◌, ◌<◌, ◌≡◌, ◌≢◌, true, false, List, [], ◌∷◌, arith, ltb, Bool-cases, inl,
  inr, length,
}
use native.Mathlib.Nat.{add-zero}
use mintos.Mutex.{Mutex, Place, outside, spin, Call, System, invalid_id, step_at, run, start}
use mintos.Mutex.Invariant.{IsTask, IsSafe, owns, step_at-Effect, after-IsSafe}

start-IsSafe : IsSafe 0 start
start-IsSafe = record {
  task = λ i r. (ground arith, ground arith);
  single = λ i j ri rj own own'. cc;
  held = λ flag. cc;
  bound = λ i. omega arith;
}

-- Only real tasks run.
abbrev pub AllReal : List (ℕ × Call) → Type 0
AllReal [] = Unit
AllReal ((i, c) ∷ r) = (i ≢ invalid_id) × AllReal r

run-IsSafe :
    (n : ℕ) (r : List (ℕ × Call)) (s : System)
    → AllReal r
    → n + length r < 2 ^ 32
    → IsSafe n s
    → IsSafe (n + length r) (run r s)
unfolding run
run-IsSafe n [] s real b v = rw add-zero v
run-IsSafe n ((i, c) ∷ r) s real b v =
    let f = step_at-Effect n i c (s.place i) s real.0 (v.task i real.0) (v.bound i) (omega arith) in
    let e : n + length ((i, c) ∷ r) ≡ n + 1 + length r = omega arith in
    rw e (
      run-IsSafe (n + 1) r (step_at (s.place i) i c s) real.1 (omega arith)
        (after-IsSafe n i s (step_at (s.place i) i c s) v real.0 f))

pub run-start-IsSafe :
    (r : List (ℕ × Call)) → AllReal r → length r < 2 ^ 32 → IsSafe (length r) (run r start)
run-start-IsSafe r real b =
    let e : 0 + length r ≡ length r = omega arith in
    rw e at (run-IsSafe 0 r start real (omega arith) start-IsSafe)

-- A task with locks is an owner.
depth-owns : (p : Place) (m : Mutex) (i d : ℕ) → IsTask p m i d → 0 < d → owns p d ≡ true
depth-owns outside m i d t h = ground arith
depth-owns spin m i d t h = absurd (omega arith)
depth-owns _ m i d t h = ground arith

-- Under every schedule of fewer than 2 ^ 32 steps of real tasks at most one task holds the mutex:
-- if a task has locks that it has not undone, then every other real task has none.
pub mutual_exclusion :
    (r : List (ℕ × Call)) (i j : ℕ)
    → AllReal r
    → length r < 2 ^ 32
    → i ≢ invalid_id
    → j ≢ invalid_id
    → i ≢ j
    → 0 < (run r start).depth i
    → (run r start).depth j ≡ 0
mutual_exclusion r i j real b ri rj ne hi =
    let s = run r start in
    let v = run-start-IsSafe r real b in
    elim (Bool-cases (ltb 0 (s.depth j))) [
      | inr no_lock ↦ ground arith
      | inl locked ↦ absurd (
          ne (
            v.single i j ri rj (depth-owns (s.place i) s.mutex i (s.depth i) (v.task i ri) hi) (
              depth-owns (s.place j) s.mutex j (s.depth j) (v.task j rj)
                (ltb→lt 0 (s.depth j) locked))))
    ]

-- Under every schedule of fewer than 2 ^ 32 steps of real tasks, a task that stands outside of kLock
-- and kUnlock and holds the mutex has the flag set, its identifier stored, and `dwLockCount` equal
-- to the number of its locks.
pub mutex_accounts :
    (r : List (ℕ × Call)) (i : ℕ)
    → AllReal r
    → length r < 2 ^ 32
    → i ≢ invalid_id
    → (run r start).place i ≡ outside
    → 0 < (run r start).depth i
    → ((run r start).mutex.lock_flag ≡ true)
      × ((run r start).mutex.task_id ≡ i)
      × ((run r start).mutex.lock_count ≡ (run r start).depth i)
mutex_accounts r i real b ri out h =
    let s = run r start in
    let t : IsTask outside s.mutex i (s.depth i) =
      rw out at ((run-start-IsSafe r real b).task i ri) in
    t.0 h

-- Under every schedule of fewer than 2 ^ 32 steps of real tasks, after which every real task stands
-- outside of kLock and kUnlock without locks, the flag is clear: no lock is lost.
pub mutex_released :
    (r : List (ℕ × Call))
    → AllReal r
    → length r < 2 ^ 32
    → ((i : ℕ) → i ≢ invalid_id → ((run r start).place i ≡ outside) × ((run r start).depth i ≡ 0))
    → (run r start).mutex.lock_flag ≡ false
mutex_released r real b all =
    let s = run r start in
    elim (Bool-cases s.mutex.lock_flag) [
      | inr clear ↦ clear
      | inl flag ↦
          let h = (run-start-IsSafe r real b).held flag in
          let o = all h.0 h.1 in let own : owns outside 0 ≡ true = rw (o.0, o.1) at h.2 in cc
    ]
