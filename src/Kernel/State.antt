-- ===== src/Kernel/State.antt =====
-- The kernel's static data: the descriptors and queues of kernel/task.c and kernel/task.h, the
-- message nodes of kernel/communication.c, and the memory that they all stand in.
-- A result `none` is undefined behaviour of the C program: a null pointer read through, or an
-- index outside its array.
use rtk.Common.{ℕ, ◌+◌, ◌*◌, ◌%◌, ◌-◌, List, Option, none, some, Bool, false, ◌==◌, if◌then◌else◌}
use rtk.Common.Int.{ℤ, pos, negsuc, leb_ℤ, ltb_ℤ}
use rtk.Bytes.{Bytes}
use rtk.Queue.{Memory}

abbrev pub max_tasks : ℕ
max_tasks = 1024

-- `enum TaskState`
pub data TaskState : Type 0 where
  destroyed free zombie ready active send_blocked receive_blocked reply_blocked event_blocked :
      TaskState

abbrev pub state_code : TaskState → ℤ
state_code destroyed = negsuc 1
state_code free = negsuc 0
state_code zombie = pos 0
state_code ready = pos 1
state_code active = pos 2
state_code send_blocked = pos 3
state_code receive_blocked = pos 4
state_code reply_blocked = pos 5
state_code event_blocked = pos 6

-- `state >= 0`, `state > 0`
abbrev pub is_queued_state : TaskState → Bool
is_queued_state s = leb_ℤ (pos 0) (state_code s)

abbrev pub is_alive_state : TaskState → Bool
is_alive_state s = ltb_ℤ (pos 0) (state_code s)

-- `==` on `enum TaskState`
abbrev pub same_state : TaskState → TaskState → Bool
same_state s t = elim (state_code s) [
  | pos m ↦ elim (state_code t) [ pos n ↦ m == n | negsuc _ ↦ false ]
  | negsuc m ↦ elim (state_code t) [ pos _ ↦ false | negsuc n ↦ m == n ]
]

-- `enum Priority`
abbrev pub highest_priority : ℕ
highest_priority = 0

abbrev pub low_priority : ℕ
low_priority = 3

abbrev pub null_priority : ℕ
null_priority = 4

-- `struct task` without its queues and links, which stand in the memory of queues. `generation`
-- is never read or written.
pub record Task : Type 0 where
  pub tid : ℤ
  pub state : TaskState
  pub priority : ℕ
  pub parent_tid : ℤ
  pub stack : ℕ
  pub sp : ℕ
  pub spsr : ℕ
  pub pc : ℕ
  pub awaiting_event_id : ℤ
  pub num_activates : ℕ
  pub last_activate_at : ℕ
  pub allowed_user_time : ℕ
  pub used_user_time : ℕ

-- `struct msg_queue_node` without its links
pub record Message : Type 0 where
  pub from_tid : ℤ
  pub to_tid : ℤ
  pub put_tid : ℕ
  pub msg_buffer : ℕ
  pub msg_buffer_size : ℤ
  pub reply_buffer : ℕ
  pub reply_buffer_size : ℤ
  pub receive_buffer : ℕ
  pub receive_buffer_size : ℤ

-- Writes to device registers, and the jump into a task.
pub data Effect : Type 0 where
  enable_interrupt : ℤ → Effect
  disable_interrupt : ℤ → Effect
  clear_timer_interrupt : Effect
  activate : (spsr sp pc : ℕ) → Effect

-- `current_task` is the index of a descriptor, `none` for the null pointer; `effects` lists what
-- went to the devices, the newest first.
pub record Kernel : Type 0 where
  pub num_tasks : ℤ
  pub tasks : ℕ → Task
  pub current_task : Option ℕ
  pub memory : Memory
  pub messages : ℕ → Message
  pub bytes : Bytes
  pub effects : List Effect

-- Addresses of the nodes: descriptors, their `siblings`, message nodes.
abbrev pub task_node : ℕ → ℕ
task_node i = i + 1

abbrev pub sibling_node : ℕ → ℕ
sibling_node i = max_tasks + i + 1

abbrev pub message_node : ℕ → ℕ
message_node i = 2 * max_tasks + i + 1

-- The index of the descriptor at a node's address, and of the message node.
abbrev pub task_of_node : ℕ → ℕ
task_of_node p = p - 1

abbrev pub message_of_node : ℕ → ℕ
message_of_node p = p - 1 - 2 * max_tasks

-- Addresses of the queue headers: `scheduler.states[s].priorities[p]`, `available_descriptors`,
-- `children` of a descriptor, `msg_queues`.
abbrev pub priority_queue : (state priority : ℕ) → ℕ
priority_queue s p = s * 5 + p

abbrev pub available_descriptors : ℕ
available_descriptors = 35

abbrev pub children : ℕ → ℕ
children i = 36 + i

abbrev pub msg_queue : ℕ → ℕ
msg_queue i = 36 + max_tasks + i

-- `tid % MAX_TASKS` as an index: the remainder of a negative number is negative or zero.
abbrev pub slot : ℤ → Option ℕ
slot (pos n) = some (n % max_tasks)
slot (negsuc n) = if (n + 1) % max_tasks == 0 then some 0 else none

abbrev pub set_task : ℕ → Task → Kernel → Kernel
set_task i t k = record k { tasks = λ j. if j == i then t else k.tasks j }

abbrev pub set_memory : Memory → Kernel → Kernel
set_memory m k = record k { memory = m }

abbrev pub initial_task : Task
initial_task = record {
  tid = pos 0;
  state = destroyed;
  priority = 0;
  parent_tid = pos 0;
  stack = 0;
  sp = 0;
  spsr = 0;
  pc = 0;
  awaiting_event_id = pos 0;
  num_activates = 0;
  last_activate_at = 0;
  allowed_user_time = 0;
  used_user_time = 0;
}
