-- ===== src/Task/Switch.antt =====
-- A task switch keeps every task: the task that was running goes to the end of its ready list, or
-- to the wait list if it has ended.
use mintos.Base.{
  ℕ, ◌<◌, ◌≡◌, ◌≢◌, refl, true, false, List, [], ◌∷◌, ◌++◌, arith, has, ◌==◌, Bool-cases, inl, inr,
  ==_iff, lt→ltb, has-append, ◌∙◌, ne→==_false, ==_self,
}
use mintos.LinkList.{LinkList, Memory, null, add_list_to_tail}
use mintos.LinkList.Invariant.{IsList, IsList-frame, Linked-ne_null, last_or_null, last_or_null-mem}
use mintos.LinkList.Add.{add_list_to_tail-IsList}
use mintos.Mutex.{update}
use mintos.Task.{Kernel, task_max_ready_list_count, task_processor_time}
use mintos.Task.Pool.{add_task_to_ready_list}
use mintos.Task.Scheduler.{switch_task}
use mintos.Task.Lists.{IsReady, IsScheduler, HasRoom}

-- Adding `item` to one list leaves a list alone that shares no task with the two.
other-IsList :
    (m : Memory) (l l' : LinkList) (xs ys : List ℕ) (item : ℕ)
    → ((a : ℕ) → a ≢ item → a ≢ last_or_null xs → (add_list_to_tail m l item).0 a ≡ m a)
    → ((a : ℕ) → has a ys ≡ true → has a xs ≡ false)
    → has item ys ≡ false
    → IsList m l' ys
    → IsList (add_list_to_tail m l item).0 l' ys
other-IsList m l l' [] ys item same apart out v =
    IsList-frame m (add_list_to_tail m l item).0 l' ys
      (λ a h. same a (ground arith) (Linked-ne_null m a ys v.linked h)) v
other-IsList m l l' (x ∷ xs) ys item same apart out v =
    IsList-frame m (add_list_to_tail m l item).0 l' ys
      (λ a h. same a (ground arith) (ground (arith, apart a h, last_or_null-mem x xs))) v

-- A task that stands in no list.
pub record Off (xs : ℕ → List ℕ) (ws : List ℕ) (a : ℕ) : Type 0 where
  pub real : a ≢ null
  pub ready : (i : ℕ) → i < task_max_ready_list_count → has a (xs i) ≡ false
  pub wait : has a ws ≡ false

-- The lists alone, whatever task runs.
pub record IsListed (k : Kernel) (xs : ℕ → List ℕ) (ws : List ℕ) : Type 0 where
  pub ready : IsReady k xs
  pub wait : IsList k.links k.wait_list ws
  pub wait_apart :
      (i a : ℕ) → i < task_max_ready_list_count → has a (xs i) ≡ true → has a ws ≡ false

has-snoc : (a p : ℕ) (ys : List ℕ) → a ≢ p → has a (ys ++ p ∷ []) ≡ has a ys
has-snoc a p ys ne = ground (arith, has-append a ys (p ∷ []))

has-snoc_false : (a p : ℕ) (ys : List ℕ) → has a ys ≡ false → a ≢ p → has a (ys ++ p ∷ []) ≡ false
has-snoc_false a p ys h ne = has-snoc a p ys ne ∙ h

pub apart_of_has : (a p : ℕ) (ys : List ℕ) → has a ys ≡ true → has p ys ≡ false → a ≢ p
apart_of_has a p ys h out e = let h' : has p ys ≡ true = rw e at h in cc

module _ (k : Kernel) (xs : ℕ → List ℕ) (ws : List ℕ) (p c : ℕ)
    (small : c < task_max_ready_list_count) (v : IsListed k xs ws) (off : Off xs ws p)
    (room : HasRoom xs ws) where
  abbrev pub added : Memory × LinkList
  added = add_list_to_tail k.links (k.ready_lists c) p

  added-IsList :
      IsList added.0 added.1 (xs c ++ p ∷ [])
      × ((a : ℕ) → a ≢ p → a ≢ last_or_null (xs c) → added.0 a ≡ k.links a)
  added-IsList =
      let r =
        add_list_to_tail-IsList k.links (k.ready_lists c) (xs c) p (v.ready.list c small) off.real
          (off.ready c small) (room.ready_room c small) in
      (r.0, r.3)

  abbrev pub longer : ℕ → List ℕ
  longer = update xs c (xs c ++ p ∷ [])

  pub longer_without : (i a : ℕ) → has a (xs i) ≡ false → a ≢ p → has a (longer i) ≡ false
  longer_without i a h ne = elim (Bool-cases (i == c)) [
    | inl at ↦
        let same : i ≡ c = (==_iff i c).0 at in rw at (has-snoc_false a p (xs c) (rw same at h) ne)
    | inr other ↦ rw other h
  ]

  -- An item of the longer lists is an item of the old ones, or the new one.
  longer_within : (i a : ℕ) → has a (longer i) ≡ true → a ≢ p → has a (xs i) ≡ true
  longer_within i a h ne = elim (Bool-cases (i == c)) [
    | inl at ↦
        let same : i ≡ c = (==_iff i c).0 at in
        let h' : has a (xs c ++ p ∷ []) ≡ true = rw at at h in
        rw same (ground (arith, has-snoc a p (xs c) ne))
    | inr other ↦ rw other at h
  ]

  longer-has : (i : ℕ) → i < task_max_ready_list_count → i ≢ c → has p (longer i) ≡ false
  longer-has i hi ne = rw (ne→==_false i c ne) (off.ready i hi)

  pub added-IsReady :
      IsReady (record k { links = added.0; ready_lists = update k.ready_lists c added.1 }) longer
  added-IsReady = record {
    list = λ i hi. elim (Bool-cases (i == c)) [
      | inl at ↦ rw at added-IsList.0
      | inr ne ↦ rw ne (
          other-IsList k.links (k.ready_lists c) (k.ready_lists i) (xs c) (xs i) p added-IsList.1
            (λ a h. v.ready.apart i c a hi small (ground arith) h) (off.ready i hi)
            (v.ready.list i hi))
    ];
    apart = λ i j a hi hj ne h. elim (Bool-cases (a == p)) [
      | inr other ↦
          let ap : a ≢ p = ground arith in
          longer_without j a (v.ready.apart i j a hi hj ne (longer_within i a h ap)) ap
      | inl same ↦
          let e : a ≡ p = (==_iff a p).0 same in
          elim (Bool-cases (j == c)) [
            | inr nj ↦ rw e (longer-has j hj (ground arith))
            | inl jc ↦
                let out = longer-has i hi (ground (arith, ==_iff j c)) in
                let h' : has p (longer i) ≡ true = rw e at h in cc
          ]
    ];
    counts = v.ready.counts;
  }

  pub added-wait : IsList added.0 k.wait_list ws
  added-wait =
      other-IsList k.links (k.ready_lists c) k.wait_list (xs c) ws p added-IsList.1
        (λ a h. elim (Bool-cases (has a (xs c))) [
          | inr out ↦ out
          | inl also ↦ let out = v.wait_apart c a small also in cc
        ])
        off.wait v.wait

  pub added-wait_apart :
      (i a : ℕ) → i < task_max_ready_list_count → has a (longer i) ≡ true → has a ws ≡ false
  added-wait_apart i a hi h = elim (Bool-cases (a == p)) [
    | inl same ↦ let e : a ≡ p = (==_iff a p).0 same in rw e off.wait
    | inr other ↦ v.wait_apart i a hi (longer_within i a h (ground arith))
  ]

-- The outcome of a switch from `p` to `next`: who runs, what is saved and what is loaded.
pub record Switched (k k' : Kernel) (next : ℕ) : Type 0 where
  pub runs : k'.running_task ≡ next
  pub loaded : k'.registers ≡ (k.tcbs next).context
  pub fresh_time : k'.processor_time ≡ task_processor_time
  pub others : (a : ℕ) → a ≢ k.running_task → k'.tcbs a ≡ k.tcbs a
  pub same_flags : (k'.tcbs k.running_task).flags ≡ (k.tcbs k.running_task).flags

module _ (k : Kernel) (xs : ℕ → List ℕ) (ws : List ℕ) (next spent : ℕ) (v : IsListed k xs ws)
    (off : Off xs ws k.running_task) (off' : Off xs ws next) (ne : next ≢ k.running_task)
    (room : HasRoom xs ws) where
  pub switch_task-ready :
      (k.tcbs k.running_task).flags.end_task ≡ false
      → (c : ℕ) → (k.tcbs k.running_task).flags.priority ≡ c
      → c < task_max_ready_list_count
      → let k' = switch_task k next spent in
        IsScheduler k' (update xs c (xs c ++ k.running_task ∷ [])) ws
        × Switched k k' next
        × ((k'.tcbs k.running_task).context ≡ k.registers)
  unfolding switch_task add_task_to_ready_list
  switch_task-ready live c e small =
      let p = k.running_task in
      let r = added-IsReady k xs ws p c small v off room in
      rw (live, ==_self p, e, lt→ltb c task_max_ready_list_count small)
        (
          record {
            ready = record { list = r.list; apart = r.apart; counts = r.counts };
            wait = added-wait k xs ws p c small v off room;
            wait_apart = added-wait_apart k xs ws p c small v off room;
            running = off'.real;
            running_ready =
                λ i hi. longer_without k xs ws p c small v off room i next (off'.ready i hi) ne;
            running_wait = off'.wait;
          },
          record {
            runs = refl;
            loaded = refl;
            fresh_time = refl;
            others = λ a h. rw (ne→==_false a p h);
            same_flags = rw (==_self p) (ground arith);
          },
          rw (==_self p),
        )

  pub switch_task-ended :
      (k.tcbs k.running_task).flags.end_task ≡ true
      → let k' = switch_task k next spent in
        IsScheduler k' xs (ws ++ k.running_task ∷ []) × Switched k k' next
  unfolding switch_task
  switch_task-ended ended =
      let p = k.running_task in
      let r =
        add_list_to_tail-IsList k.links k.wait_list ws p v.wait off.real off.wait room.wait_room in
      rw ended (
        record {
          ready = record {
            list = λ i hi.
                other-IsList k.links k.wait_list (k.ready_lists i) ws (xs i) p r.3
                  (λ a h. v.wait_apart i a hi h) (off.ready i hi) (v.ready.list i hi);
            apart = v.ready.apart;
            counts = v.ready.counts;
          };
          wait = r.0;
          wait_apart = λ i a hi h.
              has-snoc_false a p ws (v.wait_apart i a hi h)
                (apart_of_has a p (xs i) h (off.ready i hi));
          running = off'.real;
          running_ready = off'.ready;
          running_wait = has-snoc_false next p ws off'.wait ne;
        },
        record {
          runs = refl;
          loaded = refl;
          fresh_time = refl;
          others = λ a h. refl;
          same_flags = refl;
        },
      )
