-- ===== src/Kernel/Lifecycle.antt =====
-- kernel/task.c: descriptors set up, created, scheduled and left; the entry to a task.
pub mod Scheduling
pub mod Creating
pub mod Filling
pub mod Booting
use rtk.Common.{
  ℕ, zero, suc, ◌+◌, ◌-◌, ◌*◌, ◌^◌, ◌%◌, ◌/◌, ◌∷◌, Option, none, some, Bool, ◌||◌, ltb, leb, ◌==◌,
  not, if◌then◌else◌, ◌>>=◌,
}
use rtk.Common.Int.{ℤ, pos, negsuc, leb_ℤ, ltb_ℤ, ◌+ℤ◌, pos_part}
use rtk.Bytes.{store_word, word_of}
use rtk.Queue.{Memory, enqueue_queue, dequeue_queue, null, set_next, set_prev, set_first, set_last}
use rtk.Kernel.State.{
  Kernel, Task, TaskState, free, active, ready, zombie, state_code, is_queued_state, same_state,
  set_task, set_memory, task_node, task_of_node, sibling_node, children, max_tasks,
  available_descriptors, low_priority, activate,
}
use rtk.Kernel.Tasks.{
  enqueue_stateful_priority_task_queue, dequeue_priority_task_queue, get_current_tid,
}

abbrev pub stack_size_bytes : ℕ
stack_size_bytes = 0x2000

-- One round of the loop of InitTasks; `stacks` is the address of the array.
abbrev pub init_task : (stacks i : ℕ) → Kernel → Kernel
init_task stacks i k = set_memory (enqueue_queue available_descriptors (task_node i) k.memory) (
    set_task i
      (record (k.tasks i) {
        tid = negsuc (max_tasks - 1 - i);
        stack = stacks + i * stack_size_bytes;
        state = free;
      })
      k)

-- The rounds from `i` on.
unfoldable pub init_tasks_from : (rounds stacks i : ℕ) → Kernel → Kernel
init_tasks_from zero stacks i k = k
init_tasks_from (suc rounds) stacks i k =
    init_tasks_from rounds stacks (i + 1) (init_task stacks i k)

unfoldable pub init_tasks : (stacks : ℕ) → Kernel → Kernel
init_tasks stacks k = init_tasks_from max_tasks stacks 0 k

abbrev pub num_regs_popped : ℕ
num_regs_popped = 14

-- The descriptor as CreateTask fills it; what it does not name keeps its old value.
abbrev pub fresh_task : ℕ → (priority code : ℕ) → Kernel → Task
fresh_task i priority code k = record (k.tasks i) {
  tid = (k.tasks i).tid +ℤ pos max_tasks;
  state = ready;
  priority = priority;
  parent_tid = get_current_tid k;
  sp = (k.tasks i).stack + stack_size_bytes - num_regs_popped * 4;
  spsr = 0x10;
  pc = code;
  awaiting_event_id = negsuc 0;
  used_user_time = 0;
}

-- The new task's queues and links; it joins the children of the current task.
unfoldable pub link_task : ℕ → Kernel → Memory → Memory
link_task i k m =
    let m1 = set_prev (task_node i) null (set_next (task_node i) null m) in
    let m2 = set_last (children i) null (set_first (children i) null m1) in
    let m3 = set_prev (sibling_node i) null (set_next (sibling_node i) null m2) in
    elim k.current_task [ none ↦ m3 | some c ↦ enqueue_queue (children c) (sibling_node i) m3 ]

-- `exit` is the address of Exit, where a task returns to. ERR_UNAVAILABLE_DESCRIPTOR is -2.
unfoldable pub create_task : (exit priority code : ℕ) → Kernel → Option (ℤ × Kernel)
create_task exit priority code k =
    let (node, m) = dequeue_queue available_descriptors k.memory in
    let i = task_of_node node in
    let task = fresh_task i priority code k in
    let bytes' =
      store_word ((k.tasks i).stack + stack_size_bytes - 4) (word_of (pos exit)) k.bytes in
    let linked = record (set_task i task (set_memory (link_task i k m) k)) { bytes = bytes' } in
    if node == null then some (negsuc 1, set_memory m k) else do
      scheduled ← enqueue_stateful_priority_task_queue i linked
      some (task.tid, record scheduled { num_tasks = scheduled.num_tasks +ℤ pos 1 })

-- ERR_INVALID_PRIORITY is -1.
unfoldable pub create_task_safe :
    (exit : ℕ) (priority : ℤ) (code : ℕ) → Kernel → Option (ℤ × Kernel)
create_task_safe exit priority code k =
    if ltb_ℤ priority (pos 0) || ltb_ℤ (pos low_priority) priority
    then some (negsuc 0, k)
    else create_task exit (pos_part priority) code k

unfoldable pub nop : Kernel → Kernel
nop k = k

unfoldable pub exit_task : Kernel → Option Kernel
exit_task k = do
  c ← k.current_task
  some (
      set_task c (record (k.tasks c) { state = zombie })
        (record k { num_tasks = k.num_tasks +ℤ negsuc 0 }))

-- GetNextScheduledTask, which makes the descriptor it returns the current one.
unfoldable pub get_next_scheduled_task : Kernel → Kernel
get_next_scheduled_task k =
    let (node, m) = dequeue_priority_task_queue 1 k.memory in
    record k { memory = m; current_task = if node == null then none else some (task_of_node node) }

-- The task that starts to run; `timer` is what GetTimerTime reads.
unfoldable pub activate_current : (timer : ℕ) → Kernel → Option Kernel
activate_current timer k = do
  c ← k.current_task
  let t = k.tasks c
  some
      (record (set_task c
        (record t {
          state = active;
          last_activate_at = timer;
          allowed_user_time = (t.allowed_user_time + timer / 100) % 2 ^ 32;
          num_activates = t.num_activates + 1;
        })
        k) { effects = activate t.spsr t.sp t.pc ∷ k.effects })

-- The task that ran goes back to its queue.
unfoldable pub put_back : Kernel → Option Kernel
put_back k = do
  c ← k.current_task
  let t = k.tasks c
  let s = if same_state t.state active then ready else t.state
  let k' = set_task c (record t { state = s }) k
  if is_queued_state s then enqueue_stateful_priority_task_queue c k' else some k'

unfoldable pub schedule_and_activate : (timer : ℕ) → Kernel → Option Kernel
schedule_and_activate timer k = do
  k' ← put_back k
  activate_current timer (get_next_scheduled_task k')

-- `timer` and `went_off` are the reading handed over and that of TimerWentOff.
unfoldable pub save_task_state : (spsr sp pc timer : ℕ) (went_off : Bool) → Kernel → Option Kernel
save_task_state spsr sp pc timer went_off k = do
  c ← k.current_task
  let t = k.tasks c
  let now = if went_off then 0 else timer
  some (
      set_task c
        (record t {
          spsr = spsr;
          sp = sp;
          pc = pc;
          used_user_time =
              (t.used_user_time + (t.last_activate_at + 2 ^ 32 - now) % 2 ^ 32 / 100) % 2 ^ 32;
        })
        k)
