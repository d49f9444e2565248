-- ===== src/Kernel/Lifecycle/Scheduling/Running.antt =====
-- The second half of ScheduleAndActivate: the first ready task of the highest priority runs.
use rtk.Common.{
  ℕ, ◌+◌, ◌-◌, ◌/◌, ◌%◌, ◌^◌, ◌≤◌, ◌<◌, ◌≡◌, ◌≢◌, ◌∙◌, ap, refl, true, false, some, List, [], ◌∷◌,
  arith, if◌then◌else◌, ◌==◌, Bool-cases, ==-refl, inl, inr, has, subst,
}
use rtk.Queue.{update, null, Memory, dequeue_queue}
use rtk.Queue.Segment.{Dll}
use rtk.Queue.Store.{IsStore}
use rtk.Queue.Laws.{dequeue_head}
use rtk.Kernel.State.{
  Kernel, Task, active, task_node, set_task, priority_queue, null_priority, activate,
  is_queued_state,
}
use rtk.Kernel.Tasks.{dequeue_priority_task_queue}
use rtk.Kernel.Tasks.Placement.{IsPlaced, node_bound}
use rtk.Kernel.Lifecycle.{
  schedule_and_activate, put_back, get_next_scheduled_task, activate_current,
}
use rtk.Kernel.Lifecycle.Scheduling.{FirstOf, found, first_of, dequeue_from_first}
use rtk.Kernel.Lifecycle.Scheduling.Parking.{
  back_lists, resting, parked, put_back-eq-parked, parked-IsPlaced,
}

-- The descriptor of the task that starts.
abbrev pub started : (timer : ℕ) → Task → Task
started timer t = record t {
  state = active;
  last_activate_at = timer;
  allowed_user_time = (t.allowed_user_time + timer / 100) % 2 ^ 32;
  num_activates = t.num_activates + 1;
}

-- The kernel in which the descriptor `i` runs.
abbrev pub running : (timer : ℕ) → Memory → ℕ → Kernel → Kernel
running timer m i k = record k {
  tasks = (set_task i (started timer (k.tasks i)) k).tasks;
  memory = m;
  current_task = some i;
  effects = activate (k.tasks i).spsr (k.tasks i).sp (k.tasks i).pc ∷ k.effects;
}

head_ne :
    {bound q x : ℕ} {xs : List ℕ} {v : ℕ → List ℕ} {m : Memory}
    → IsStore bound v m
    → v q ≡ x ∷ xs
    → x ≢ null
head_ne {q} {x} {xs} {m} st here =
    let d : Dll m.node null (m.queue q).first (m.queue q).last (x ∷ xs) =
      rw here at (st.linked q) in
    d.1

module _ {v : ℕ → List ℕ} {k : Kernel} (w : IsPlaced v k) (r i : ℕ) (xs : List ℕ)
    (ready_at : v (priority_queue 1 r) ≡ task_node i ∷ xs) where
  front-Dll :
      Dll k.memory.node null
        (k.memory.queue (priority_queue 1 r)).first
        (k.memory.queue (priority_queue 1 r)).last
        (task_node i ∷ xs)
  front-Dll = rw ready_at at (w.store.linked (priority_queue 1 r))

  taken-IsStore :
      IsStore node_bound
        (update v (priority_queue 1 r) xs)
        (dequeue_queue (priority_queue 1 r) k.memory).1
  taken-IsStore = ((dequeue_head (priority_queue 1 r) w.store).1 (task_node i) xs ready_at).1

  in_front : has (task_node i) (v (priority_queue 1 r)) ≡ true
  in_front = rw ready_at (ground arith)

  taken_out : (p : ℕ) → has (task_node i) (update v (priority_queue 1 r) xs p) ≡ false
  taken_out p = elim (Bool-cases (p == priority_queue 1 r)) [
    | inl e ↦ rw e front-Dll.3
    | inr e ↦ rw e (
        ground (
          arith,
          w.store.apart p (priority_queue 1 r) (task_node i),
          in_front,
          Bool-cases (has (task_node i) (v p)),
        ))
  ]

  still_in : (a p : ℕ) → has a (update v (priority_queue 1 r) xs p) ≡ true → has a (v p) ≡ true
  still_in a p h = elim (Bool-cases (p == priority_queue 1 r)) [
    | inl e ↦
        let g : has a xs ≡ true = rw e at h in
        let same : priority_queue 1 r ≡ p = ground arith in
        let list : v p ≡ task_node i ∷ xs = subst (λ j. v j ≡ task_node i ∷ xs) same ready_at in
        rw list (ground arith)
    | inr e ↦ rw e at h
  ]

  pub running-IsPlaced :
      (timer : ℕ)
      → r ≤ null_priority
      → IsPlaced
          (update v (priority_queue 1 r) xs)
          (running timer (dequeue_queue (priority_queue 1 r) k.memory).1 i k)
  running-IsPlaced timer small = record {
    store = taken-IsStore;
    own = λ j p lt h. ground (arith, w.own j p lt, still_in (task_node j) p h, taken_out p);
    kinds = λ p a le h. w.kinds p a le (still_in a p h);
    off = λ d p g. ground (arith, taken_out p);
    current_in = λ d g. ground (arith, w.kinds (priority_queue 1 r) (task_node i), in_front);
    slots = λ j n lt g. ground (arith, w.slots j n lt);
  }

-- What ScheduleAndActivate does, in a placed kernel whose current task has a queue: the lists `lists`
-- are those with the current task back in its queue; of the ready queues `r` is the first that
-- holds a task, and `i` the task at its head.
pub record Scheduled (v : ℕ → List ℕ) (k : Kernel) (c timer : ℕ) (k' : Kernel) : Type 0 where
  pub r : ℕ
  pub i : ℕ
  pub xs : List ℕ
  pub highest : (j : ℕ) → j < r → back_lists k c v (priority_queue 1 j) ≡ []
  pub head : back_lists k c v (priority_queue 1 r) ≡ task_node i ∷ xs
  pub current : k'.current_task ≡ some i
  pub state : (k'.tasks i).state ≡ active
  pub others :
      (j : ℕ)
      → j ≢ i
      → k'.tasks j
        ≡ (if j == c then record (k.tasks c) { state = resting (k.tasks c) } else k.tasks j)
  pub same_priority : (k'.tasks i).priority ≡ (k.tasks i).priority
  pub same_tid : (k'.tasks i).tid ≡ (k.tasks i).tid
  pub same_stack : (k'.tasks i).sp ≡ (k.tasks i).sp
  pub messages : k'.messages ≡ k.messages
  pub bytes : k'.bytes ≡ k.bytes
  pub jump :
      k'.effects
      ≡ activate ((parked k c).tasks i).spsr ((parked k c).tasks i).sp ((parked k c).tasks i).pc
        ∷ k.effects
  pub placed : IsPlaced (update (back_lists k c v) (priority_queue 1 r) xs) k'

-- GetNextScheduledTask, where `r` is the first ready queue that holds a task.
pub next_is_first :
    {bound : ℕ} {v : ℕ → List ℕ} (k : Kernel) (r i : ℕ) (xs : List ℕ)
    → IsStore bound v k.memory
    → r < 5
    → ((j : ℕ) → 0 ≤ j → j < r → v (priority_queue 1 j) ≡ [])
    → v (priority_queue 1 r) ≡ task_node i ∷ xs
    → get_next_scheduled_task k
      ≡ record k { memory = (dequeue_queue (priority_queue 1 r) k.memory).1; current_task = some i }
unfolding get_next_scheduled_task dequeue_priority_task_queue
next_is_first k r i xs st hi before here =
    let run =
      dequeue_from_first 5 1 0 r (task_node i) xs k.memory st (omega arith) hi before here in
    let head = ((dequeue_head (priority_queue 1 r) st).1 (task_node i) xs here).0 in
    rw run (rw head (ground arith))

schedule_by_parts :
    (timer : ℕ) (k : Kernel) {p : Kernel}
    → put_back k ≡ some p
    → schedule_and_activate timer k ≡ activate_current timer (get_next_scheduled_task p)
unfolding schedule_and_activate
schedule_by_parts timer k e = rw e

pub activate_some :
    (timer : ℕ) (m : Memory) (i : ℕ) (k : Kernel)
    → activate_current timer (record k { memory = m; current_task = some i })
      ≡ some (running timer m i k)
unfolding activate_current
activate_some timer m i k = refl

tasks-parked :
    (k : Kernel) (c j : ℕ)
    → (parked k c).tasks j
      ≡ (if j == c then record (k.tasks c) { state = resting (k.tasks c) } else k.tasks j)
tasks-parked k c j = elim (Bool-cases (is_queued_state (resting (k.tasks c)))) [
  | inl h ↦ rw h refl
  | inr h ↦ rw h refl
]

messages-parked : (k : Kernel) (c : ℕ) → (parked k c).messages ≡ k.messages
messages-parked k c = elim (Bool-cases (is_queued_state (resting (k.tasks c)))) [
  | inl h ↦ rw h
  | inr h ↦ rw h
]

bytes-parked : (k : Kernel) (c : ℕ) → (parked k c).bytes ≡ k.bytes
bytes-parked k c = elim (Bool-cases (is_queued_state (resting (k.tasks c)))) [
  | inl h ↦ rw h
  | inr h ↦ rw h
]

effects-parked : (k : Kernel) (c : ℕ) → (parked k c).effects ≡ k.effects
effects-parked k c = elim (Bool-cases (is_queued_state (resting (k.tasks c)))) [
  | inl h ↦ rw h
  | inr h ↦ rw h
]

module _ {v : ℕ → List ℕ} {k : Kernel} {c : ℕ} (timer : ℕ) (w : IsPlaced v k)
    (e : k.current_task ≡ some c) (small : (k.tasks c).priority ≤ null_priority) where
  -- Taking the head of the highest ready queue, and running it.
  run_first :
      (r i : ℕ) (xs : List ℕ)
      → r < 5
      → ((j : ℕ) → 0 ≤ j → j < r → back_lists k c v (priority_queue 1 j) ≡ [])
      → back_lists k c v (priority_queue 1 r) ≡ task_node i ∷ xs
      → (k' : Kernel) × (schedule_and_activate timer k ≡ some k') × Scheduled v k c timer k'
  run_first r i xs hi before here = (
    running timer (dequeue_queue (priority_queue 1 r) (parked k c).memory).1 i (parked k c),
    schedule_by_parts timer k (put_back-eq-parked w e small)
        ∙ ap (activate_current timer)
            (next_is_first (parked k c) r i xs (parked-IsPlaced w e small).store hi before here)
        ∙ activate_some timer (dequeue_queue (priority_queue 1 r) (parked k c).memory).1 i
            (parked k c),
    record {
      r = r;
      i = i;
      xs = xs;
      highest = λ j lt. before j (omega arith) lt;
      head = here;
      current = refl;
      state = rw (==-refl i);
      others = λ j ne. ground (arith, tasks-parked k c j);
      same_priority = ground (arith, tasks-parked k c i);
      same_tid = ground (arith, tasks-parked k c i);
      same_stack = ground (arith, tasks-parked k c i);
      messages = messages-parked k c;
      bytes = bytes-parked k c;
      jump = rw (effects-parked k c);
      placed = running-IsPlaced (parked-IsPlaced w e small) r i xs here timer (omega arith);
    },
  )

  run_found :
      FirstOf 1 (back_lists k c v) 0 5
      → (k' : Kernel) × (schedule_and_activate timer k ≡ some k') × Scheduled v k c timer k'
  run_found (found r x xs lo hi before here) =
      let st = (parked-IsPlaced w e small).store in
      let ne : x ≢ null = head_ne st here in
      let back : x ≡ task_node (x - 1) = omega arith in
      run_first r (x - 1) xs hi before
        (subst (λ y. back_lists k c v (priority_queue 1 r) ≡ y ∷ xs) back here)

-- ScheduleAndActivate, in a placed kernel whose current task has a priority in range, if after the
-- current task is back in its queue some task is ready: it succeeds, and makes the head of the
-- ready queue of the highest priority that is not empty the current task, active, jumping to its
-- saved state; that task is in no queue, and the kernel is placed again. Of the other descriptors the
-- current task's alone changes, and only from active to ready; no message and no byte does.
pub schedule_highest :
    {v : ℕ → List ℕ} {k : Kernel} {c : ℕ} (timer r : ℕ)
    → IsPlaced v k
    → k.current_task ≡ some c
    → (k.tasks c).priority ≤ null_priority
    → r ≤ null_priority
    → back_lists k c v (priority_queue 1 r) ≢ []
    → (k' : Kernel) × (schedule_and_activate timer k ≡ some k') × Scheduled v k c timer k'
schedule_highest {v} {k} {c} timer r w e small hi full =
    run_found timer w e small (first_of 1 (back_lists k c v) 5 0 r (omega arith) (omega arith) full)
