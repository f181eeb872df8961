-- ===== src/Task/Priorities.antt =====
-- kChangePriority on a task that waits in a ready list.
use mathlib.Core.Path.{subst}
use mintos.Base.{
  ℕ, ◌≤◌, ◌<◌, ◌≡◌, ◌≢◌, refl, true, false, some, List, [], ◌∷◌, ◌++◌, arith, has, has-append,
  length, length-append, ◌==◌, ==_self, Bool-cases, inl, inr, ==_iff, ◌∙◌, sym, ap, lt→ltb,
  le→ltb_false, lt→leb_false, ne→==_false,
}
use mintos.LinkList.{LinkList, Memory, null, remove_list}
use mintos.LinkList.Invariant.{
  IsList, IsList-frame, Linked-ne_null, NoId, last_or_null, last_from, last_or_null-mem,
  Distinct-split,
}
use mintos.LinkList.Unlink.{Removed}
use mintos.LinkList.Remove.{remove_list-Removed}
use mintos.Mutex.{update}
use mintos.Task.{
  Kernel, task_max_count, task_max_ready_list_count, tcb_at, tcb_offset, set_priority,
}
use mintos.Task.Pool.{add_task_to_ready_list}
use mintos.Task.Scheduler.{remove_task_from_ready_list, change_removed, change_priority}
use mintos.Task.Lists.{IsScheduler, HasRoom}
use mintos.Task.Switch.{
  Off, IsListed, added-IsReady, added, longer_without, added-wait, added-wait_apart,
}

has_middle : (a x : ℕ) (xs ys : List ℕ) → has a (xs ++ ys) ≡ true → has a (xs ++ x ∷ ys) ≡ true
has_middle a x xs ys h = ground (arith, has-append a xs ys, has-append a xs (x ∷ ys))

has_middle_false :
    (a x : ℕ) (xs ys : List ℕ) → has a (xs ++ x ∷ ys) ≡ false → has a (xs ++ ys) ≡ false
has_middle_false a x xs ys h = ground (arith, has-append a xs ys, has-append a xs (x ∷ ys))

-- A task that waits in ready list `c` between `before` and `behind`.
pub record Waits (k : Kernel) (xs : ℕ → List ℕ) (id c : ℕ) (before behind : List ℕ) : Type 0 where
  pub in_pool : tcb_offset id < task_max_count
  pub in_range : c < task_max_ready_list_count
  pub has_id : (k.links (tcb_at (tcb_offset id))).id ≡ id
  pub has_priority : (k.tcbs (tcb_at (tcb_offset id))).flags.priority ≡ c
  pub place : xs c ≡ before ++ tcb_at (tcb_offset id) ∷ behind
  pub first : NoId k.links id before
  pub not_running : (k.links k.running_task).id ≢ id

module _ (k : Kernel) (xs : ℕ → List ℕ) (ws : List ℕ) (id c : ℕ) (before behind : List ℕ)
    (v : IsScheduler k xs ws) (t : Waits k xs id c before behind) where
  abbrev target : ℕ
  target = tcb_at (tcb_offset id)

  abbrev fewer : ℕ → List ℕ
  fewer = update xs c (before ++ behind)

  here : IsList k.links (k.ready_lists c) (before ++ target ∷ behind)
  here = subst (IsList k.links (k.ready_lists c)) t.place (v.ready.list c t.in_range)

  target_in : has target (xs c) ≡ true
  target_in = rw t.place (rw has-append (ground (arith, ==_self target)))

  fewer_within : (j a : ℕ) → has a (fewer j) ≡ true → has a (xs j) ≡ true
  fewer_within j a h = elim (Bool-cases (j == c)) [
    | inl at ↦
        let same : j ≡ c = (==_iff j c).0 at in
        rw (same, t.place) (has_middle a target before behind (rw at at h))
    | inr ne ↦ rw ne at h
  ]

  fewer_without : (j a : ℕ) → has a (xs j) ≡ false → has a (fewer j) ≡ false
  fewer_without j a h = elim (Bool-cases (j == c)) [
    | inl at ↦
        let same : j ≡ c = (==_iff j c).0 at in
        rw at (has_middle_false a target before behind (rw (same, t.place) at h))
    | inr ne ↦ rw ne h
  ]

  last_in : (b : ℕ) (bs : List ℕ) → before ≡ b ∷ bs → has (last_from b bs) (xs c) ≡ true
  last_in b bs e = rw (t.place, has-append, e) (ground (arith, last_or_null-mem b bs))

  last_apart :
      (a : ℕ) (ys : List ℕ) → before ≡ ys → a ≢ null → has a (xs c) ≡ false → a ≢ last_or_null ys
  last_apart a [] e real out h = real h
  last_apart a (b ∷ bs) e real out h = let h' : has a (xs c) ≡ true = rw h (last_in b bs e) in cc

  module _ (m : Memory) (l : LinkList) (r : Removed k.links before behind m l) where
    abbrev taken : Kernel
    taken = record k { links = m; ready_lists = update k.ready_lists c l }

    same_elsewhere :
        (l' : LinkList) (ys : List ℕ)
        → IsList k.links l' ys
        → ((a : ℕ) → has a ys ≡ true → has a (xs c) ≡ false)
        → IsList m l' ys
    same_elsewhere l' ys w apart =
        IsList-frame k.links m l' ys
          (λ a h.
            r.same_link a
              (last_apart a before refl (Linked-ne_null k.links a ys w.linked h) (apart a h)))
          w

    taken-IsListed : IsListed taken fewer ws
    taken-IsListed = record {
      ready = record {
        list = λ j hj. elim (Bool-cases (j == c)) [
          | inl at ↦ rw at r.list
          | inr ne ↦ rw ne (
              same_elsewhere (k.ready_lists j) (xs j) (v.ready.list j hj)
                (λ a h. v.ready.apart j c a hj t.in_range (ground arith) h))
        ];
        apart = λ i j a hi hj ne h.
            fewer_without j a (v.ready.apart i j a hi hj ne (fewer_within i a h));
        counts = v.ready.counts;
      };
      wait = same_elsewhere k.wait_list ws v.wait wait_ready;
      wait_apart = λ i a hi h. v.wait_apart i a hi (fewer_within i a h);
    }
      where
        wait_ready : (a : ℕ) → has a ws ≡ true → has a (xs c) ≡ false
        wait_ready a h = elim (Bool-cases (has a (xs c))) [
          | inr out ↦ out
          | inl also ↦ let out = v.wait_apart c a t.in_range also in cc
        ]

    target_gone : Off fewer ws target
    target_gone = record {
      real = Linked-ne_null k.links target (xs c) (v.ready.list c t.in_range).linked target_in;
      ready = λ j hj. elim (Bool-cases (j == c)) [
        | inl at ↦
            let d = Distinct-split target before behind here.distinct in
            rw (at, has-append) (ground (arith, d.1, d.2))
        | inr ne ↦ rw ne (v.ready.apart c j target t.in_range hj (ground arith) target_in)
      ];
      wait = v.wait_apart c target t.in_range target_in;
    }

  remove_task_from_ready_list-Removed :
      (fuel : ℕ)
      → length before < fuel
      → (m : Memory) × (l : LinkList) × (remove_task_from_ready_list fuel k id
          ≡ some (target, record k { links = m; ready_lists = update k.ready_lists c l }))
        × Removed k.links before behind m l
  unfolding remove_task_from_ready_list
  remove_task_from_ready_list-Removed fuel enough =
      let r =
        remove_list-Removed fuel k.links (k.ready_lists c) before behind target here
          (subst (λ i. NoId k.links i before) (sym t.has_id) t.first) enough in
      let e : remove_list fuel k.links (k.ready_lists c) id ≡ some (r.0, r.1, target) =
        ap (remove_list fuel k.links (k.ready_lists c)) (sym t.has_id) ∙ r.2 in
      (
        r.0,
        r.1,
        rw (
          lt→leb_false task_max_count (tcb_offset id) t.in_pool,
          (==_iff (k.links target).id id).1 t.has_id,
          t.has_priority,
          e,
        ),
        r.3,
      )

  open_places : HasRoom xs ws → HasRoom fewer ws
  open_places room = record {
    ready_room = λ i hi. elim (Bool-cases (i == c)) [
      | inl at ↦ rw at (
          omega (
            arith,
            ap length t.place,
            length-append before (target ∷ behind),
            length-append before behind,
            room.ready_room c t.in_range,
          ))
      | inr ne ↦ rw ne (room.ready_room i hi)
    ];
    wait_room = room.wait_room;
  }

  target-ne-running : target ≢ k.running_task
  target-ne-running h = t.not_running (ap (λ a. (k.links a).id) (sym h) ∙ t.has_id)

  module _ (fuel : ℕ) (enough : length before < fuel) where
    change_other :
        (p : ℕ)
        → p ≤ task_max_ready_list_count
        → (m : Memory) × (l : LinkList) × (change_priority fuel k id p
            ≡ some (
              true,
              (add_task_to_ready_list
                  (set_priority
                    (record k { links = m; ready_lists = update k.ready_lists c l })
                    target
                    p)
                  target).1,
            ))
          × Removed k.links before behind m l
    unfolding change_priority change_removed
    change_other p small =
        let r = remove_task_from_ready_list-Removed fuel enough in
        let real : (target == null) ≡ false = ground arith in
        (
          r.0,
          r.1,
          rw (
            le→ltb_false task_max_ready_list_count p small,
            ne→==_false (k.links k.running_task).id id t.not_running,
            r.2,
            real,
          ),
          r.3,
        )

    -- kChangePriority of a waiting task to one of the five priorities moves it from its ready list
    -- to the end of the list of that priority, and the lists stay in order.
    pub change_priority-moves :
        (p : ℕ)
        → p < task_max_ready_list_count
        → HasRoom xs ws
        → (k' : Kernel) × (change_priority fuel k id p ≡ some (true, k'))
          × IsScheduler k' (update fewer p (fewer p ++ target ∷ [])) ws
          × ((k'.tcbs target).flags.priority ≡ p)
    unfolding add_task_to_ready_list
    change_priority-moves p small room =
        let r = change_other p (omega arith) in
        let k₂ : Kernel = set_priority (taken r.0 r.1 r.3) target p in
        let w = taken-IsListed r.0 r.1 r.3 in
        let w₂ : IsListed k₂ fewer ws = record {
          ready = record { list = w.ready.list; apart = w.ready.apart; counts = w.ready.counts };
          wait = w.wait;
          wait_apart = w.wait_apart;
        } in
        let off = target_gone r.0 r.1 r.3 in
        let room' = open_places room in
        let a = added k₂ fewer ws target p small w₂ off room' in
        let k' : Kernel = record k₂ { links = a.0; ready_lists = update k₂.ready_lists p a.1 } in
        let e : (add_task_to_ready_list k₂ target).1 ≡ k' =
          rw (==_self target, lt→ltb p task_max_ready_list_count small) in
        (
          k',
          r.2 ∙ ap (λ (z : Kernel). some (true, z)) e,
          record {
            ready = added-IsReady k₂ fewer ws target p small w₂ off room';
            wait = added-wait k₂ fewer ws target p small w₂ off room';
            wait_apart = added-wait_apart k₂ fewer ws target p small w₂ off room';
            running = v.running;
            running_ready = λ i hi.
                longer_without k₂ fewer ws target p small w₂ off room' i k.running_task
                  (fewer_without i k.running_task (v.running_ready i hi))
                  (λ h. target-ne-running (sym h));
            running_wait = v.running_wait;
          },
          rw (==_self target),
        )

    -- kChangePriority accepts the priority 5 too. For it the task leaves its ready list and is put
    -- into no list: the function returns TRUE, and the task is neither ready nor waiting nor
    -- running.
    pub change_priority-loses :
        (k' : Kernel) × (change_priority fuel k id task_max_ready_list_count ≡ some (true, k'))
        × IsScheduler k' fewer ws
        × Off fewer ws target
        × (k'.running_task ≢ target)
    unfolding add_task_to_ready_list
    change_priority-loses =
        let r = change_other task_max_ready_list_count (omega arith) in
        let k₂ : Kernel = set_priority (taken r.0 r.1 r.3) target task_max_ready_list_count in
        let w = taken-IsListed r.0 r.1 r.3 in
        let e : (add_task_to_ready_list k₂ target).1 ≡ k₂ = rw (==_self target) in
        (
          k₂,
          r.2 ∙ ap (λ (z : Kernel). some (true, z)) e,
          record {
            ready = record { list = w.ready.list; apart = w.ready.apart; counts = w.ready.counts };
            wait = w.wait;
            wait_apart = w.wait_apart;
            running = v.running;
            running_ready = λ i hi. fewer_without i k.running_task (v.running_ready i hi);
            running_wait = v.running_wait;
          },
          target_gone r.0 r.1 r.3,
          λ h. target-ne-running (sym h),
        )
