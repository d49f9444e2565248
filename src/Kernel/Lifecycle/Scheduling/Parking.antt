-- ===== src/Kernel/Lifecycle/Scheduling/Parking.antt =====
-- The first half of ScheduleAndActivate: the task that ran goes back to its queue.
use rtk.Common.{
  ℕ, ◌≤◌, ◌≡◌, true, none, some, List, [], ◌∷◌, ◌++◌, arith, if◌then◌else◌, Bool-cases, ==-refl,
  inl, inr,
}
use rtk.Common.Int.{pos_part}
use rtk.Queue.{update, enqueue_queue}
use rtk.Kernel.State.{
  Kernel, Task, TaskState, active, ready, state_code, task_node, is_queued_state, set_task,
  set_memory, same_state, priority_queue, null_priority,
}
use rtk.Kernel.Tasks.{task_queue, enqueue_stateful_priority_task_queue}
use rtk.Kernel.Tasks.Placement.{IsPlaced, enqueue_own}
use rtk.Kernel.Lifecycle.{put_back}

-- The state in which a task waits for its next turn.
abbrev pub resting : Task → TaskState
resting t = if same_state t.state active then ready else t.state

abbrev pub rested : Kernel → ℕ → Kernel
rested k c = set_task c (record (k.tasks c) { state = resting (k.tasks c) }) k

abbrev pub resting_queue : Kernel → ℕ → ℕ
resting_queue k c =
    priority_queue (pos_part (state_code (resting (k.tasks c)))) (k.tasks c).priority

-- The queues' lists once the task `c` is back.
abbrev pub back_lists : Kernel → ℕ → (ℕ → List ℕ) → ℕ → List ℕ
back_lists k c v =
    if is_queued_state (resting (k.tasks c))
    then update v (resting_queue k c) (v (resting_queue k c) ++ task_node c ∷ [])
    else v

abbrev pub parked : Kernel → ℕ → Kernel
parked k c =
    if is_queued_state (resting (k.tasks c))
    then set_memory (enqueue_queue (resting_queue k c) (task_node c) k.memory) (rested k c)
    else rested k c

pub queue_at :
    (t : Task) (s : TaskState)
    → t.priority ≤ null_priority
    → is_queued_state s ≡ true
    → task_queue (record t { state = s })
      ≡ some (priority_queue (pos_part (state_code s)) t.priority)
unfolding task_queue
queue_at t s h g = ground arith

module _ {v : ℕ → List ℕ} {k : Kernel} {c : ℕ} (w : IsPlaced v k) (e : k.current_task ≡ some c)
    (small : (k.tasks c).priority ≤ null_priority) where
  own_queue :
      is_queued_state (resting (k.tasks c)) ≡ true
      → task_queue ((rested k c).tasks c) ≡ some (resting_queue k c)
  own_queue h = rw (==-refl c) (queue_at (k.tasks c) (resting (k.tasks c)) small h)

  pub put_back-eq-parked : put_back k ≡ some (parked k c)
  unfolding put_back enqueue_stateful_priority_task_queue
  put_back-eq-parked = elim (Bool-cases (is_queued_state (resting (k.tasks c)))) [
    | inl h ↦ rw e (rw h (rw (own_queue h)))
    | inr h ↦ rw e (rw h)
  ]

  rested-IsPlaced : IsPlaced v (record (rested k c) { current_task = none })
  rested-IsPlaced = record {
    store = w.store;
    own = λ j p lt h. ground (arith, w.own j p lt, w.off c p e);
    kinds = w.kinds;
    off = λ d p g. ground arith;
    current_in = λ d g. ground arith;
    slots = λ j n lt g. ground (arith, w.slots j n lt);
  }

  pub parked-IsPlaced : IsPlaced (back_lists k c v) (record (parked k c) { current_task = none })
  parked-IsPlaced = elim (Bool-cases (is_queued_state (resting (k.tasks c)))) [
    | inl h ↦ rw h (
        enqueue_own rested-IsPlaced c (resting_queue k c) (w.current_in c e) (λ p. w.off c p e)
          (own_queue h) (λ d g. ground arith))
    | inr h ↦ rw h rested-IsPlaced
  ]
