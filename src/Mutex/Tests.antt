-- ===== src/Mutex/Tests.antt =====
-- The theorems on the mutex at a schedule of two tasks.
use mintos.Base.{
  ℕ, ◌≡◌, ◌≢◌, refl, true, Bool, ltb, ◌&&◌, ◌==◌, Bool-cases, inl, inr, false, List, [], ◌∷◌, arith,
}
use mintos.Mutex.{Call, lock, unlock, run, start, step, step_at, invalid_id, outside}
use mintos.Mutex.Exclusion.{AllReal, mutual_exclusion, mutex_accounts, mutex_released}

-- Task 1 locks twice, while task 2 tries and spins.
abbrev twice_locked : List (ℕ × Call)
twice_locked =
    (1, lock)
    ∷ (1, lock)
    ∷ (2, lock)
    ∷ (1, lock)
    ∷ (2, lock)
    ∷ (1, lock)
    ∷ (2, lock)
    ∷ (2, lock)
    ∷ (1, lock)
    ∷ (1, lock)
    ∷ (1, lock)
    ∷ (1, lock)
    ∷ []

-- Task 1 locks and unlocks.
abbrev all_released : List (ℕ × Call)
all_released =
    (1, lock)
    ∷ (1, lock)
    ∷ (1, lock)
    ∷ (1, lock)
    ∷ (1, unlock)
    ∷ (1, unlock)
    ∷ (1, unlock)
    ∷ (1, unlock)
    ∷ (1, unlock)
    ∷ (1, unlock)
    ∷ (1, unlock)
    ∷ []

abbrev all_small : List (ℕ × Call) → Bool
all_small [] = true
all_small ((i, c) ∷ r) = ltb i 0xffff && all_small r

all_small-AllReal : (r : List (ℕ × Call)) → all_small r ≡ true → AllReal r
all_small-AllReal [] h = tt
all_small-AllReal ((i, c) ∷ r) h = (ground arith, all_small-AllReal r (ground arith))

twice_locked-AllReal : AllReal twice_locked
twice_locked-AllReal = all_small-AllReal twice_locked refl

twice_locked_depth : (run twice_locked start).depth 1 ≡ 2
unfolding run step step_at
twice_locked_depth = ground arith

twice_locked_place : (run twice_locked start).place 1 ≡ outside
unfolding run step step_at
twice_locked_place = refl

mutual_exclusion_example : (run twice_locked start).depth 2 ≡ 0
mutual_exclusion_example =
    mutual_exclusion twice_locked 1 2 twice_locked-AllReal (ground arith) (ground arith)
      (ground arith) (ground arith) (omega (arith, twice_locked_depth))

mutex_accounts_example :
    ((run twice_locked start).mutex.lock_flag ≡ true)
    × ((run twice_locked start).mutex.task_id ≡ 1)
    × ((run twice_locked start).mutex.lock_count ≡ (run twice_locked start).depth 1)
mutex_accounts_example =
    mutex_accounts twice_locked 1 twice_locked-AllReal (ground arith) (ground arith)
      twice_locked_place (omega (arith, twice_locked_depth))

all_released_idle :
    (i : ℕ)
    → i ≢ invalid_id
    → ((run all_released start).place i ≡ outside) × ((run all_released start).depth i ≡ 0)
unfolding run step step_at
all_released_idle i h = elim (Bool-cases (i == 1)) [
  | inl one ↦ rw one (refl, refl)
  | inr other ↦ rw other (refl, refl)
]

mutex_released_example : (run all_released start).mutex.lock_flag ≡ false
mutex_released_example =
    mutex_released all_released (all_small-AllReal all_released refl) (ground arith)
      all_released_idle
