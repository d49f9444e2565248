-- ===== src/Kernel/Stats.antt =====
-- kernel/task.c and include/task.h: TasksStatsHandler and TaskStatsHandler.
pub mod Laws
use rtk.Common.{
  ℕ, zero, suc, ◌+◌, Option, none, some, List, [], ◌∷◌, ◌++◌, ◌==◌, if◌then◌else◌, ◌>>=◌, length,
}
use rtk.Common.Int.{ℤ}
use rtk.Queue.{null}
use rtk.Bytes.{word_of}
use rtk.Kernel.State.{
  Kernel, Task, state_code, slot, task_of_node, max_tasks, priority_queue, highest_priority,
  null_priority,
}
use rtk.Kernel.Tasks.{
  enqueue_stateful_priority_task_queue, remove_stateful_priority_task_queue_node,
}

-- `struct TaskStats`; `tid` and `state` are unsigned.
pub record TaskStats : Type 0 where
  pub tid : ℕ
  pub priority : ℕ
  pub state : ℕ
  pub num_activates : ℕ
  pub allowed_user_time : ℕ
  pub used_user_time : ℕ

-- `struct TasksStats`, with unsigned counts; `tasks` lists the entries that were written, `index` of them.
pub record TasksStats : Type 0 where
  pub num_tasks : ℕ
  pub num_alive_tasks : ℕ
  pub tasks : List TaskStats

-- What is written for one descriptor.
abbrev pub stats_of : Task → TaskStats
stats_of t = record {
  tid = word_of t.tid;
  priority = t.priority;
  state = word_of (state_code t.state);
  num_activates = t.num_activates;
  allowed_user_time = t.allowed_user_time;
  used_user_time = t.used_user_time;
}

unfoldable pub task_stats_handler : ℤ → Kernel → Option TaskStats
task_stats_handler tid k = do i ← slot tid; some (stats_of (k.tasks i))

-- `while ( head )`, with the entries in the order in which they are written. Without fuel the walk has no
-- result.
unfoldable pub stats_of_queue : (fuel head : ℕ) → Kernel → Option (List TaskStats)
stats_of_queue zero head k = none
stats_of_queue (suc fuel) head k =
    let rest = stats_of_queue fuel (k.memory.node head).next k in
    if head == null
    then some []
    else do later ← rest; some (stats_of (k.tasks (task_of_node head)) ∷ later)

-- The loop over the states from `s` on, at one priority.
unfoldable pub stats_of_states : (rounds s p : ℕ) → Kernel → Option (List TaskStats)
stats_of_states zero s p k = some []
stats_of_states (suc rounds) s p k = do
  here ← stats_of_queue (max_tasks + 1) (k.memory.queue (priority_queue s p)).first k
  later ← stats_of_states rounds (s + 1) p k
  some (here ++ later)

-- ZOMBIE to EVENT_BLOCKED
abbrev pub num_states : ℕ
num_states = 7

-- The loop over the priorities from `p` on.
unfoldable pub stats_of_priorities : (rounds p : ℕ) → Kernel → Option (List TaskStats)
stats_of_priorities zero p k = some []
stats_of_priorities (suc rounds) p k = do
  here ← stats_of_states num_states 0 p k
  later ← stats_of_priorities rounds (p + 1) k
  some (here ++ later)

unfoldable pub tasks_stats_handler : Kernel → Option (TasksStats × Kernel)
tasks_stats_handler k = do
  c ← k.current_task
  k1 ← enqueue_stateful_priority_task_queue c k
  entries ← stats_of_priorities (null_priority + 1) highest_priority k1
  k2 ← remove_stateful_priority_task_queue_node c k1
  some (
    record { num_tasks = length entries; num_alive_tasks = word_of k.num_tasks; tasks = entries },
    k2,
  )
