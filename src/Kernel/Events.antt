-- ===== src/Kernel/Events.antt =====
-- kernel/task.c: interrupts and the tasks that wait for them, and DestroyHandler.
pub mod Waiting
pub mod Waking
pub mod Family
pub mod Freeing
pub mod Broods
pub mod Orphans
pub mod Destroying
mod Tests
use rtk.Common.{
  ℕ, zero, suc, ◌+◌, ◌-◌, ◌*◌, ◌^◌, ◌%◌, ◌∷◌, Option, none, some, Bool, ltb, ◌==◌, not,
  if◌then◌else◌, ◌>>=◌,
}
use rtk.Common.Int.{ℤ, pos, negsuc, leb_ℤ, ltb_ℤ, ◌+ℤ◌, ◌==ℤ◌}
use rtk.Bytes.{int_of_word}
use rtk.Queue.{enqueue_queue, dequeue_queue, remove_queue_node, null}
use rtk.Kernel.State.{
  Kernel, free, destroyed, ready, event_blocked, slot, set_task, set_memory, task_node,
  task_of_node, sibling_node, children, max_tasks, available_descriptors, priority_queue,
  highest_priority, null_priority, Effect, enable_interrupt, disable_interrupt,
  clear_timer_interrupt,
}
use rtk.Kernel.Tasks.{
  set_current_task_state, set_task_state, set_task_return_value, is_valid_tid, long_max,
}

abbrev pub effect : Effect → Kernel → Kernel
effect e k = record k { effects = e ∷ k.effects }

unfoldable pub await_event_handler : ℤ → Kernel → Option (ℤ × Kernel)
await_event_handler intr k = do
  c ← k.current_task
  k' ←
      set_current_task_state event_blocked
        (set_task c (record (k.tasks c) { awaiting_event_id = intr }) k)
  some (pos 0, effect (enable_interrupt intr) k')

-- The inner loop of UnblockTaskWaitingOnEvent, from the node `head` on: the first descriptor that
-- waits for the interrupt, if there is one. Without fuel the walk has no result.
unfoldable pub find_waiting : (fuel : ℕ) → ℤ → (head : ℕ) → Kernel → Option (Option ℕ)
find_waiting zero intr head k = none
find_waiting (suc fuel) intr head k =
    let i = task_of_node head in
    let rest = find_waiting fuel intr (k.memory.node head).next k in
    if head == null
    then some none
    else (if (k.tasks i).awaiting_event_id ==ℤ intr then some (some i) else rest)

-- ERR_COLLECT_DATA_AND_REENABLE_INTERRUPTS is -3.
unfoldable pub wake : ℕ → Kernel → Option Kernel
wake i k = do
  k' ← set_task_state (k.tasks i).tid ready k
  set_task_return_value (k'.tasks i).tid (negsuc 2) k'

-- The outer loop, over the priorities from `p` on.
unfoldable pub unblock_from : (rounds : ℕ) → ℤ → (p : ℕ) → Kernel → Option Kernel
unblock_from zero intr p k = some k
unblock_from (suc rounds) intr p k =
    let rest = unblock_from rounds intr (p + 1) k in
    do
      found ← find_waiting (max_tasks + 1) intr (k.memory.queue (priority_queue 6 p)).first k
      elim found [ none ↦ rest | some i ↦ wake i k ]

unfoldable pub unblock_task_waiting_on_event : ℤ → Kernel → Option Kernel
unblock_task_waiting_on_event intr k = unblock_from (null_priority + 1) intr highest_priority k

-- PIC_TIMER01
abbrev pub pic_timer01 : ℕ
pic_timer01 = 0x10

-- The interrupt that the code names is acknowledged or turned off.
unfoldable pub acknowledge : (intr : ℕ) (went_off : Bool) → Kernel → Kernel
acknowledge intr went_off k =
    if intr == pic_timer01
    then if went_off then effect clear_timer_interrupt k else k
    else effect (disable_interrupt (pos intr)) k

-- `timer` and `went_off` are the readings of GetTimerTime and TimerWentOff.
unfoldable pub handle_irq : ℤ → (timer : ℕ) (went_off : Bool) → Kernel → Option (ℕ × Kernel)
handle_irq (pos n) timer went_off k = some (if went_off then 0 else timer, k)
handle_irq (negsuc n) timer went_off k = do
  let intr = 2 ^ (n + 1) % 2 ^ 32
  k' ← unblock_task_waiting_on_event (int_of_word intr) (acknowledge intr went_off k)
  some (if went_off then 0 else timer, k')

-- The end of DestroyHandler: the descriptor is freed, or retired when its tids run out.
unfoldable pub release : ℤ → ℕ → Kernel → Option Kernel
release tid i k =
    if ltb_ℤ (k.tasks i).tid (pos (long_max - max_tasks))
    then (do
      k' ← set_task_state tid free k
      some (set_memory (enqueue_queue available_descriptors (task_node i) k'.memory) k'))
    else set_task_state tid destroyed k

abbrev pub disable_awaited : ℕ → Kernel → Kernel
disable_awaited i k =
    if leb_ℤ (pos 0) (k.tasks i).awaiting_event_id
    then effect (disable_interrupt (k.tasks i).awaiting_event_id) k
    else k

-- The descriptor of the task whose `siblings` field is at the node.
abbrev pub task_of_sibling : ℕ → ℕ
task_of_sibling p = p - 1 - max_tasks

-- DestroyHandler, and its loop over the children of the descriptor `i`. Without fuel there is no
-- result. ERR_DESTROY_IMPOSSIBLE_TID is -1, ERR_DESTROY_NONEXISTENT_TASK is -2.
unfoldable mutual
  pub destroy : (fuel : ℕ) → ℤ → Kernel → Option (ℤ × Kernel)
  destroy zero tid k = none
  destroy (suc fuel) tid k = if not (is_valid_tid tid) then some (negsuc 0, k) else do
    i ← slot tid
    if not ((k.tasks i).tid ==ℤ tid) then some (negsuc 1, k) else do
      parent ← slot (k.tasks i).parent_tid
      k1 ←
          destroy_children fuel i
            (set_memory (remove_queue_node (children parent) (sibling_node i) k.memory) k)
      k2 ← release tid i k1
      let k3 = disable_awaited i k2
      some (pos 0, record k3 { num_tasks = k3.num_tasks +ℤ negsuc 0 })

  pub destroy_children : (fuel : ℕ) → ℕ → Kernel → Option Kernel
  destroy_children zero i k = none
  destroy_children (suc fuel) i k =
      let (node, m) = dequeue_queue (children i) k.memory in
      let rest = do
        (_, k') ← destroy fuel (k.tasks (task_of_sibling node)).tid (set_memory m k)
        destroy_children fuel i k'
      in if node == null then some (set_memory m k) else rest

-- A chain of at most MAX_TASKS descendants takes two rounds for each.
unfoldable pub destroy_handler : ℤ → Kernel → Option (ℤ × Kernel)
destroy_handler tid k = destroy (2 * max_tasks + 2) tid k
