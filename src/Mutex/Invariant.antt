-- ===== src/Mutex/Invariant.antt =====
-- What one step of kLock or kUnlock keeps: the invariant of the mutex and of the tasks around it.
use mintos.Base.{
  ℕ, ◌+◌, ◌^◌, ◌≤◌, ◌<◌, ◌≡◌, ◌≢◌, ◌⊎◌, Bool, true, false, arith, ltb, ◌==◌, Bool-cases, inl, inr,
  refl, ==_iff, sym, ◌∙◌,
}
use mathlib.Core.Path.{subst}
use mintos.Mutex.{
  Mutex, Place, outside, relock, spin, take, start_count, look_count, decrease, clear_id,
  clear_count, clear_flag, Call, lock, unlock, System, invalid_id, step_at,
}

-- A task with locks has the flag, its name and its count in the mutex; and a task whose name stands
-- there has locks.
abbrev pub Steady : Mutex → ℕ → ℕ → Type 0
Steady m i d =
    (0 < d → (m.lock_flag ≡ true) × (m.task_id ≡ i) × (m.lock_count ≡ d)) × (m.task_id ≡ i → 0 < d)

abbrev pub Inside : Mutex → ℕ → ℕ → Type 0
Inside m i d = (m.lock_flag ≡ true) × (m.task_id ≡ i) × (m.lock_count ≡ d) × (0 < d)

-- What holds of a task at each place.
abbrev pub IsTask : Place → Mutex → ℕ → ℕ → Type 0
IsTask relock m i d = Inside m i d
IsTask spin m i d = (d ≡ 0) × (m.task_id ≢ i)
IsTask take m i d = (m.lock_flag ≡ true) × (m.task_id ≢ i) × (d ≡ 0)
IsTask start_count m i d = (m.lock_flag ≡ true) × (m.task_id ≡ i) × (d ≡ 0)
IsTask look_count m i d = Inside m i d
IsTask decrease m i d = Inside m i d × (1 < d)
IsTask clear_id m i d = Inside m i d × (d ≡ 1)
IsTask clear_count m i d = (m.lock_flag ≡ true) × (m.task_id ≢ i) × (d ≡ 0)
IsTask clear_flag m i d = (m.lock_flag ≡ true) × (m.task_id ≢ i) × (d ≡ 0)
IsTask _ m i d = Steady m i d

-- The task has won the flag and has not yet cleared it.
abbrev pub owns : Place → ℕ → Bool
owns relock d = true
owns take d = true
owns start_count d = true
owns look_count d = true
owns decrease d = true
owns clear_id d = true
owns clear_count d = true
owns clear_flag d = true
owns spin d = false
owns _ d = ltb 0 d

pub record IsSafe (n : ℕ) (s : System) : Type 0 where
  pub task : (i : ℕ) → i ≢ invalid_id → IsTask (s.place i) s.mutex i (s.depth i)
  pub single :
      (i j : ℕ)
      → i ≢ invalid_id
      → j ≢ invalid_id
      → owns (s.place i) (s.depth i) ≡ true
      → owns (s.place j) (s.depth j) ≡ true
      → i ≡ j
  pub held :
      s.mutex.lock_flag ≡ true → (i : ℕ) × (i ≢ invalid_id) × (owns (s.place i) (s.depth i) ≡ true)
  pub bound : (i : ℕ) → s.depth i ≤ n

-- An owner has the flag.
owns-flag :
    (p : Place) (m : Mutex) (i d : ℕ) → IsTask p m i d → owns p d ≡ true → m.lock_flag ≡ true
owns-flag outside m i d t o = ground arith
owns-flag spin m i d t o = cc
owns-flag _ m i d t o = ground arith

-- Where a task owns nothing its invariant asks only that its name is not in the mutex.
idle-IsTask :
    (p : Place) (m m' : Mutex) (i d : ℕ)
    → IsTask p m i d
    → owns p d ≡ false
    → (m'.task_id ≡ i → m.task_id ≡ i)
    → IsTask p m' i d
idle-IsTask outside m m' i d t o h = ground arith
idle-IsTask spin m m' i d t o h = ground arith
idle-IsTask _ m m' i d t o h = ground arith

-- What a step of task `i` at place `p` does to it and to the mutex.
pub record Effect (n i : ℕ) (p : Place) (s s' : System) : Type 0 where
  pub self : IsTask (s'.place i) s'.mutex i (s'.depth i)
  pub wrote :
      (s'.mutex ≡ s.mutex)
      ⊎ (((owns p (s.depth i) ≡ true) ⊎ (s.mutex.lock_flag ≡ false))
          × ((j : ℕ) → j ≢ i → j ≢ invalid_id → s'.mutex.task_id ≡ j → s.mutex.task_id ≡ j))
  pub gained :
      owns (s'.place i) (s'.depth i) ≡ true
      → (owns p (s.depth i) ≡ true) ⊎ (s.mutex.lock_flag ≡ false)
  pub kept :
      s'.mutex.lock_flag ≡ true
      → (owns (s'.place i) (s'.depth i) ≡ true)
        ⊎ ((s.mutex.lock_flag ≡ true) × (owns p (s.depth i) ≡ false))
  pub others : (j : ℕ) → j ≢ i → (s'.place j ≡ s.place j) × (s'.depth j ≡ s.depth j)
  pub bound : s'.depth i ≤ n + 1

pub step_at-Effect :
    (n i : ℕ) (c : Call) (p : Place) (s : System)
    → i ≢ invalid_id
    → IsTask p s.mutex i (s.depth i)
    → s.depth i ≤ n
    → n + 1 < 2 ^ 32
    → Effect n i p s (step_at p i c s)
unfolding step_at
step_at-Effect n i lock outside s r t b room = record {
  self = ground arith;
  wrote = inl refl;
  gained = ground arith;
  kept = ground arith;
  others = ground arith;
  bound = omega arith;
}
step_at-Effect n i unlock outside s r t b room = record {
  self = ground arith;
  wrote = inl refl;
  gained = ground arith;
  kept = ground arith;
  others = ground arith;
  bound = omega arith;
}
step_at-Effect n i c _ s r t b room = record {
  self = ground arith;
  wrote = ground arith;
  gained = ground arith;
  kept = ground arith;
  others = ground arith;
  bound = ground arith;
}

-- A task is no owner when another one owns, or when the flag is clear.
not_owner :
    (n i j : ℕ) (s : System)
    → IsSafe n s
    → i ≢ invalid_id
    → j ≢ invalid_id
    → j ≢ i
    → (owns (s.place i) (s.depth i) ≡ true) ⊎ (s.mutex.lock_flag ≡ false)
    → owns (s.place j) (s.depth j) ≡ false
not_owner n i j s v ri rj ne why = elim (Bool-cases (owns (s.place j) (s.depth j))) [
  | inr out ↦ out
  | inl own ↦
      let flag = owns-flag (s.place j) s.mutex j (s.depth j) (v.task j rj) own in
      elim why [ inl own_i ↦ absurd (ne (v.single j i rj ri own own_i)) | inr clear ↦ cc ]
]

module _ (n i : ℕ) (s s' : System) (v : IsSafe n s) (ri : i ≢ invalid_id)
    (f : Effect n i (s.place i) s s') where
  other-IsTask : (j : ℕ) → j ≢ invalid_id → j ≢ i → IsTask (s'.place j) s'.mutex j (s'.depth j)
  other-IsTask j rj ne =
      rw ((f.others j ne).0, (f.others j ne).1)
        (elim f.wrote [
          | inl same ↦ rw same (v.task j rj)
          | inr change ↦
              idle-IsTask (s.place j) s.mutex s'.mutex j (s.depth j) (v.task j rj)
                (not_owner n i j s v ri rj ne change.0) (change.1 j ne rj)
        ])

  after-IsTask : (j : ℕ) → j ≢ invalid_id → IsTask (s'.place j) s'.mutex j (s'.depth j)
  after-IsTask j rj = elim (Bool-cases (j == i)) [
    | inl e ↦ rw ((==_iff j i).0 e) f.self
    | inr ne ↦ other-IsTask j rj (ground arith)
  ]

  -- Where `i` owns after the step no other task does.
  alone :
      (j : ℕ)
      → j ≢ invalid_id
      → owns (s'.place i) (s'.depth i) ≡ true
      → owns (s'.place j) (s'.depth j) ≡ true
      → j ≡ i
  alone j rj own_i own_j = elim (Bool-cases (j == i)) [
    | inl e ↦ (==_iff j i).0 e
    | inr ne ↦
        let apart : j ≢ i = ground arith in
        let out = not_owner n i j s v ri rj apart (f.gained own_i) in
        let o = f.others j apart in absurd (ground (arith, out, o))
  ]

  single_after :
      (j k : ℕ)
      → j ≢ invalid_id
      → k ≢ invalid_id
      → owns (s'.place j) (s'.depth j) ≡ true
      → owns (s'.place k) (s'.depth k) ≡ true
      → j ≡ k
  single_after j k rj rk own_j own_k = elim (Bool-cases (j == i)) [
    | inl e ↦
        let at = (==_iff j i).0 e in
        at ∙ sym (alone k rk (subst (λ a. owns (s'.place a) (s'.depth a) ≡ true) at own_j) own_k)
    | inr ne ↦ elim (Bool-cases (k == i)) [
      | inl e ↦
          let at = (==_iff k i).0 e in
          alone j rj (subst (λ a. owns (s'.place a) (s'.depth a) ≡ true) at own_k) own_j ∙ sym at
      | inr ne' ↦
          let oj = f.others j (ground arith) in
          let ok = f.others k (ground arith) in
          v.single j k rj rk (rw (oj.0, oj.1) at own_j) (rw (ok.0, ok.1) at own_k)
    ]
  ]

  held_after :
      s'.mutex.lock_flag ≡ true
      → (k : ℕ) × (k ≢ invalid_id) × (owns (s'.place k) (s'.depth k) ≡ true)
  held_after flag = elim (f.kept flag) [
    | inl own ↦ (i, ri, own)
    | inr old ↦
        let h = v.held old.0 in
        elim (Bool-cases (h.0 == i)) [
          | inl e ↦ absurd (ground (arith, h.2, old.1, ==_iff h.0 i))
          | inr ne ↦ let o = f.others h.0 (ground arith) in (h.0, h.1, rw (o.0, o.1) h.2)
        ]
  ]

  pub after-IsSafe : IsSafe (n + 1) s'
  after-IsSafe = record {
    task = after-IsTask;
    single = single_after;
    held = held_after;
    bound = λ j. elim (Bool-cases (j == i)) [
      | inl e ↦ rw ((==_iff j i).0 e) f.bound
      | inr ne ↦ ground (arith, f.others j, v.bound j)
    ];
  }
