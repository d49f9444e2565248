-- ===== src/Kernel/Tasks/States.antt =====
-- SetTaskState moves the descriptor to the queue of its new state.
use rtk.Common.{
  ==-refl, ℕ, ◌%◌, ◌≡◌, ◌≢◌, ◌∙◌, ap, subst, refl, inl, inr, true, false, some, List, arith, has,
  has-erase_ne, has-erase, ◌==◌, if◌then◌else◌, Bool-cases, not, ◌||◌,
}
use rtk.Common.Int.{pos, pos_part, ◌==ℤ◌, ==ℤ→eq, ==ℤ-refl}
use rtk.Queue.Segment.{has-erase_self}
use rtk.Queue.{null, remove_queue_node, enqueue_queue}
use rtk.Queue.Store.{IsStore}
use rtk.Queue.Laws.{without, remove_own}
use rtk.Kernel.State.{
  Kernel, Task, TaskState, max_tasks, task_node, is_queued_state, priority_queue, state_code,
  set_task, set_memory,
}
use rtk.Kernel.Tasks.{
  task_queue, set_task_state, requeue, remove_stateful_priority_task_queue_node,
  enqueue_stateful_priority_task_queue,
}
use rtk.Kernel.Tasks.Placement.{IsPlaced, moved, enqueue_own}

-- The task with the tid: its descriptor and its queue.
pub record IsTask (k : Kernel) (n i q : ℕ) : Type 0 where
  pub index : n % max_tasks ≡ i
  pub holds : (k.tasks i).tid ≡ pos n
  pub queued : task_queue (k.tasks i) ≡ some q

-- The descriptor with its new state, out of every queue.
abbrev pub changed : Kernel → (i q : ℕ) → TaskState → Kernel
changed k i q to =
    set_task i (record (k.tasks i) { state = to })
      (set_memory (remove_queue_node q (task_node i) k.memory) k)

-- A state's queue at the priority of a task that has one.
pub queue_of_state :
    (k : Kernel) (i q : ℕ) (to : TaskState)
    → task_queue (k.tasks i) ≡ some q
    → is_queued_state to ≡ true
    → task_queue (record (k.tasks i) { state = to })
      ≡ some (priority_queue (pos_part (state_code to)) (k.tasks i).priority)
unfolding task_queue
queue_of_state k i q to h g = ground arith

pub reach_requeue_at :
    (k : Kernel) (n q : ℕ) (to : TaskState)
    → ((k.tasks (n % max_tasks)).tid ==ℤ pos n) ≡ true
    → task_queue (k.tasks (n % max_tasks)) ≡ some q
    → set_task_state (pos n) to k
      ≡ requeue (pos n) (n % max_tasks) to (changed k (n % max_tasks) q to)
unfolding set_task_state remove_stateful_priority_task_queue_node
reach_requeue_at k n q to h f = rw (h, f)

module _ {v : ℕ → List ℕ} {k : Kernel} (w : IsPlaced v k) {n i q : ℕ} (t : IsTask k n i q) where
  removed-IsStore :
      IsStore 2049 (without (task_node i) v) (remove_queue_node q (task_node i) k.memory)
  unfolding task_queue
  removed-IsStore =
      remove_own q (task_node i) w.store (omega arith) (omega arith)
        (λ p h. ground (arith, w.own i p, t.queued, t.index))

  out_of_all : (p : ℕ) → has (task_node i) (without (task_node i) v p) ≡ false
  out_of_all p =
      has-erase_self k.memory.node null (k.memory.queue p).first (k.memory.queue p).last
        (task_node i) (v p) (w.store.linked p)

  changed-IsPlaced : (to : TaskState) → IsPlaced (without (task_node i) v) (changed k i q to)
  changed-IsPlaced to = record {
    store = removed-IsStore;
    own = λ j p lt h. elim (Bool-cases (j == i)) [
      | inl e ↦ ground (arith, out_of_all p)
      | inr e ↦ ground (arith, has-erase_ne (task_node i) (task_node j) (v p), w.own j p lt)
    ];
    off = λ c p e. ground (arith, has-erase (task_node i) (task_node c) (v p), w.off c p e);
    current_in = w.current_in;
    kinds = λ p a small h.
        ground (arith, has-erase_ne (task_node i) a (v p), out_of_all p, w.kinds p a small);
    slots = λ j m lt e. ground (arith, w.slots j m lt, t.holds, t.index);
  }

-- Descriptors that differ in the state of one.
module _ (f g : ℕ → Task) (i : ℕ) (to : TaskState)
    (h : g ≡ (λ j. if j == i then record (f i) { state = to } else f j)) where
  pub task_same : (j : ℕ) → j ≢ i → g j ≡ f j
  task_same j ne = ap (λ f. f j) h ∙ off ne
    where
      off : j ≢ i → (if j == i then record (f i) { state = to } else f j) ≡ f j
      off ne = ground arith

  pub task_set : g i ≡ record (f i) { state = to }
  task_set = ap (λ f. f i) h ∙ rw (==-refl i)

  pub task_at : (j : ℕ) → g j ≡ (if j == i then record (f i) { state = to } else f j)
  task_at j = ap (λ f. f j) h

-- What the queues hold after SetTaskState of the task `i`, `c` being the current task.
abbrev pub state_lists : (priority c i : ℕ) → TaskState → (ℕ → List ℕ) → ℕ → List ℕ
state_lists priority c i to v =
    if (c == i) || not (is_queued_state to)
    then without (task_node i) v
    else moved (priority_queue (pos_part (state_code to)) priority) (task_node i) v

module _ {v : ℕ → List ℕ} {k : Kernel} (w : IsPlaced v k) {n i q : ℕ} (t : IsTask k n i q) where
  reach_requeue :
      (to : TaskState) → set_task_state (pos n) to k ≡ requeue (pos n) i to (changed k i q to)
  reach_requeue to =
      subst (λ j. set_task_state (pos n) to k ≡ requeue (pos n) j to (changed k j q to)) t.index
        (reach_requeue_at k n q to (rw (t.index, t.holds) (==ℤ-refl (pos n))) (rw t.index t.queued))

  module _ (c : ℕ) (e : k.current_task ≡ some c) (to : TaskState) where
    same_tid : ((k.tasks c).tid ==ℤ pos n) ≡ (c == i)
    same_tid =
        ground
          (arith, w.slots c n (w.current_in c e), t.holds, t.index, ==ℤ→eq (k.tasks c).tid (pos n))

    requeue_stays :
        ((c == i) || not (is_queued_state to)) ≡ true
        → requeue (pos n) i to (changed k i q to) ≡ some (changed k i q to)
    unfolding requeue
    requeue_stays h = ground (arith, same_tid, t.holds)

    requeue_moves :
        ((c == i) || not (is_queued_state to)) ≡ false
        → (p : ℕ) → task_queue (record (k.tasks i) { state = to }) ≡ some p
        → requeue (pos n) i to (changed k i q to)
          ≡ some (
              set_memory
                (enqueue_queue p (task_node i) (changed k i q to).memory)
                (changed k i q to))
    unfolding requeue enqueue_stateful_priority_task_queue
    requeue_moves h p f = ground (arith, same_tid, t.holds)

-- SetTaskState on the tid of a task, in a placed kernel with a current task: it succeeds; the
-- descriptor changes in its state alone, and no other descriptor, message or byte does; and the
-- kernel is placed again, the descriptor being in no queue if it runs or its new state has none,
-- and else at the end of the queue of its new state and its priority.
pub set_task_state_moves :
    {v : ℕ → List ℕ} {k : Kernel} {n i q c : ℕ} (to : TaskState)
    → IsPlaced v k
    → IsTask k n i q
    → k.current_task ≡ some c
    → (k' : Kernel) × (set_task_state (pos n) to k ≡ some k')
      × (k'.tasks ≡ (set_task i (record (k.tasks i) { state = to }) k).tasks)
      × (k'.current_task ≡ some c)
      × (k'.bytes ≡ k.bytes)
      × (k'.messages ≡ k.messages)
      × IsPlaced (state_lists (k.tasks i).priority c i to v) k'
set_task_state_moves {v} {k} {n} {i} {q} {c} to w t e =
    elim (Bool-cases ((c == i) || not (is_queued_state to))) [
      | inl h ↦ (
        changed k i q to,
        reach_requeue w t to ∙ requeue_stays w t c e to h,
        refl,
        e,
        refl,
        refl,
        rw h (changed-IsPlaced w t to),
      )
      | inr h ↦
          let p = priority_queue (pos_part (state_code to)) (k.tasks i).priority in
          let f : task_queue (record (k.tasks i) { state = to }) ≡ some p =
            queue_of_state k i q to t.queued (orders h) in
          (
            set_memory (enqueue_queue p (task_node i) (changed k i q to).memory) (changed k i q to),
            reach_requeue w t to ∙ requeue_moves w t c e to h p f,
            refl,
            e,
            refl,
            refl,
            rw h (
                enqueue_own (changed-IsPlaced w t to) i p (omega (arith, t.index)) (out_of_all w t)
                  (here f) (λ d g. ground (arith, h))),
          )
    ]
  where
    orders : ((c == i) || not (is_queued_state to)) ≡ false → is_queued_state to ≡ true
    orders h = ground arith

    here :
        {p : ℕ}
        → task_queue (record (k.tasks i) { state = to }) ≡ some p
        → task_queue ((changed k i q to).tasks i) ≡ some p
    here f = rw (==-refl i) f
