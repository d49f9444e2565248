-- ===== src/Kernel/Tasks.antt =====
-- kernel/task_queue.c, and the operations of kernel/task.c on tids, states and priorities.
pub mod Placement
pub mod States
pub mod Alive
pub mod Priorities
use rtk.Common.{
  ℕ, zero, suc, ◌+◌, ◌-◌, ◌^◌, ◌%◌, ◌/◌, Option, none, some, Bool, true, false, ◌&&◌, ltb, leb,
  ◌==◌, not, if◌then◌else◌, ◌>>=◌,
}
use rtk.Common.Int.{ℤ, pos, negsuc, leb_ℤ, ltb_ℤ, ◌==ℤ◌}
use rtk.Bytes.{store_word, word_of}
use rtk.Queue.{Memory, enqueue_queue, dequeue_queue, remove_queue_node, null}
use rtk.Kernel.State.{
  Kernel, Task, TaskState, free, active, ready, state_code, is_queued_state, is_alive_state,
  same_state, slot, set_task, set_memory, task_node, priority_queue, null_priority, low_priority,
  highest_priority, max_tasks,
}

-- `&sptq->states[node->state].priorities[node->priority]`
unfoldable pub task_queue : Task → Option ℕ
task_queue t = elim (state_code t.state) [
  | pos s ↦ if leb t.priority null_priority then some (priority_queue s t.priority) else none
  | negsuc _ ↦ none
]

unfoldable pub enqueue_stateful_priority_task_queue : ℕ → Kernel → Option Kernel
enqueue_stateful_priority_task_queue i k = do
  q ← task_queue (k.tasks i)
  some (set_memory (enqueue_queue q (task_node i) k.memory) k)

unfoldable pub remove_stateful_priority_task_queue_node : ℕ → Kernel → Option Kernel
remove_stateful_priority_task_queue_node i k = do
  q ← task_queue (k.tasks i)
  some (set_memory (remove_queue_node q (task_node i) k.memory) k)

-- The loop over the priorities that are left, from `p` on.
unfoldable pub dequeue_from : (rounds state p : ℕ) → Memory → ℕ × Memory
dequeue_from zero s p m = (null, m)
dequeue_from (suc rounds) s p m =
    let (dequeued, m') = dequeue_queue (priority_queue s p) m in
    let rest = dequeue_from rounds s (p + 1) m' in if dequeued == null then rest else (dequeued, m')

unfoldable pub dequeue_priority_task_queue : (state : ℕ) → Memory → ℕ × Memory
dequeue_priority_task_queue s m = dequeue_from (null_priority + 1) s highest_priority m

-- LONG_MAX of the 32-bit target
abbrev pub long_max : ℕ
long_max = 2 ^ 31 - 1

unfoldable pub is_valid_tid : ℤ → Bool
is_valid_tid tid = leb_ℤ (pos 0) tid && leb_ℤ tid (pos long_max)

unfoldable pub get_task_state : ℤ → Kernel → Option TaskState
get_task_state tid k = do
  i ← slot tid
  some (if (k.tasks i).tid ==ℤ tid then (k.tasks i).state else free)

unfoldable pub is_task_alive : ℤ → Kernel → Option Bool
is_task_alive tid k =
    if is_valid_tid tid then (do s ← get_task_state tid k; some (is_alive_state s)) else some false

unfoldable pub is_valid_priority : ℤ → Bool
is_valid_priority p = leb_ℤ (pos low_priority) p && leb_ℤ p (pos highest_priority)

unfoldable pub get_current_tid : Kernel → ℤ
get_current_tid k = elim k.current_task [ none ↦ negsuc 0 | some c ↦ (k.tasks c).tid ]

-- ERR_NO_PARENT is -2, ERR_PARENT_DESTROYED is -1.
unfoldable pub get_parent_tid : Kernel → Option ℤ
get_parent_tid k = do
  c ← k.current_task
  if (k.tasks c).parent_tid ==ℤ negsuc 0 then some (negsuc 1) else do
    alive ← is_task_alive (k.tasks c).parent_tid k
    some (if alive then (k.tasks c).parent_tid else negsuc 0)

unfoldable pub get_current_task_priority : Kernel → ℤ
get_current_task_priority k = elim k.current_task [
  | none ↦ negsuc 0
  | some c ↦ pos (k.tasks c).priority
]

unfoldable pub set_current_task_priority : ℕ → Kernel → ℤ × Kernel
set_current_task_priority to k = elim k.current_task [
  | none ↦ (negsuc 0, k)
  | some c ↦
      if ltb low_priority to
      then (negsuc 0, k)
      else (pos 0, set_task c (record (k.tasks c) { priority = to }) k)
]

-- Returns the descriptor's `state` field, as the source does.
unfoldable pub get_task_priority : ℤ → Kernel → Option ℤ
get_task_priority tid k = if not (is_valid_tid tid) then some (negsuc 0) else do
  alive ← is_task_alive tid k
  if not alive then some (negsuc 1) else do i ← slot tid; some (state_code (k.tasks i).state)

unfoldable pub set_current_task_state : TaskState → Kernel → Option Kernel
set_current_task_state to k = do
  c ← k.current_task
  some (set_task c (record (k.tasks c) { state = to }) k)

unfoldable pub get_current_task_state : Kernel → Option TaskState
get_current_task_state k = do c ← k.current_task; some (k.tasks c).state

-- The end of SetTaskState: back into a queue, unless the task runs or is gone.
unfoldable pub requeue : ℤ → ℕ → TaskState → Kernel → Option Kernel
requeue tid i to k = do
  c ← k.current_task
  if not (tid ==ℤ (k.tasks c).tid) && is_queued_state to
      then enqueue_stateful_priority_task_queue i k
      else some k

unfoldable pub set_task_state : ℤ → TaskState → Kernel → Option Kernel
set_task_state tid to k = do
  i ← slot tid
  if not ((k.tasks i).tid ==ℤ tid) then some k else do
    removed ← remove_stateful_priority_task_queue_node i k
    requeue tid i to (set_task i (record (removed.tasks i) { state = to }) removed)

-- The `if ( tid != current_task->tid )` of SetTaskPriority.
unfoldable pub requeue_other : ℤ → ℕ → Kernel → Option Kernel
requeue_other tid i k = do
  c ← k.current_task
  if not (tid ==ℤ (k.tasks c).tid) then enqueue_stateful_priority_task_queue i k else some k

-- `task_descriptors[tid].priority = to`, at `tid` itself: undefined from MAX_TASKS on.
unfoldable pub write_priority : ℤ → ℤ → Kernel → Option Kernel
write_priority (pos n) (pos p) k =
    if ltb n max_tasks then some (set_task n (record (k.tasks n) { priority = p }) k) else none
write_priority (pos n) (negsuc p) k = none
write_priority (negsuc n) to k = none

unfoldable pub set_task_priority : ℤ → ℤ → Kernel → Option (ℤ × Kernel)
set_task_priority tid to k =
    if not (is_valid_priority to)
    then some (negsuc 0, k)
    else (if not (is_valid_tid tid) then some (negsuc 1, k) else do
      alive ← is_task_alive tid k
      if not alive then some (negsuc 2, k) else do
        i ← slot tid
        removed ← remove_stateful_priority_task_queue_node i k
        written ← write_priority tid to removed
        done ← requeue_other tid i written
        some (pos 0, done))

unfoldable pub set_current_task_return_value : ℤ → Kernel → Option Kernel
set_current_task_return_value ret k = do
  c ← k.current_task
  some (record k { bytes = store_word (k.tasks c).sp (word_of ret) k.bytes })

unfoldable pub set_task_return_value : ℤ → ℤ → Kernel → Option Kernel
set_task_return_value tid ret k = do
  alive ← is_task_alive tid k
  if not alive then some k else do
    i ← slot tid
    some (record k { bytes = store_word (k.tasks i).sp (word_of ret) k.bytes })
