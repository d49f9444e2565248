-- ===== src/Kernel/Tests.antt =====
-- The theorems about the kernel at small kernels.
use rtk.Common.{
  true, ℕ, map, ◌≤◌, ◌%◌, ◌≡◌, refl, inr, some, List, [], ◌∷◌, arith, ◌==◌, if◌then◌else◌,
}
use rtk.Common.Int.{pos, negsuc}
use rtk.Queue.{null, Memory, update, enqueue_queue}
use rtk.Queue.Store.{IsStore, enqueue-IsStore}
use rtk.Kernel.State.{
  Kernel, TaskState, Message, set_task, free, ready, active, send_blocked, reply_blocked,
  event_blocked, message_node, msg_queue, initial_task, max_tasks,
}
use rtk.Kernel.Tasks.{task_queue, set_task_state, set_task_priority}
use rtk.Kernel.Tasks.Placement.{IsPlaced, node_bound, enqueue_own}
use rtk.Kernel.Tasks.States.{IsTask, state_lists, set_task_state_moves}
use rtk.Kernel.Tasks.Priorities.{set_task_priority_fails}
use rtk.Kernel.Lifecycle.{schedule_and_activate}
use rtk.Kernel.Lifecycle.Scheduling.Running.{Scheduled, schedule_highest}
use rtk.Kernel.Stats.{tasks_stats_handler}
use rtk.Kernel.Stats.Laws.{entry, tasks_stats_handler_lem}
use rtk.Kernel.Events.{acknowledge, handle_irq}
use rtk.Kernel.Events.Waking.{Handled, handle_irq_lem}
use rtk.Kernel.Communication.{send_proxy, receive_proxy, reply_proxy, with_receiver}
use rtk.Kernel.Communication.Errors.{nobody_there}
use rtk.Kernel.Communication.Rendezvous.{IsWaiting}
use rtk.Kernel.Communication.Sending.{Met, send_to_waiting}
use rtk.Kernel.Communication.Replying.{Replied, reply_wakes}
use rtk.Kernel.Communication.Receiving.{Waiting, receive_waits}
use rtk.Kernel.Communication.Queued.{HasMail}

abbrev pub blank : Memory
blank = record {
  node = λ _. record { next = null; prev = null };
  queue = λ _. record { first = null; last = null };
}

abbrev pub no_lists : ℕ → List ℕ
no_lists _ = []

pub blank-IsStore : IsStore node_bound no_lists blank
blank-IsStore = record {
  linked = λ p. (refl, refl);
  apart = λ p q a h k. ground arith;
  idle = λ a lt h. refl;
}

abbrev pub no_message : Message
no_message = record {
  from_tid = pos 1;
  to_tid = pos 0;
  put_tid = 0;
  msg_buffer = 0;
  msg_buffer_size = pos 0;
  reply_buffer = 200;
  reply_buffer_size = pos 4;
  receive_buffer = 300;
  receive_buffer_size = pos 4;
}

-- Task 0 runs, and every other is in the state `s`; `m` is the memory of queues.
abbrev pub world : TaskState → Memory → Kernel
world s m = record {
  num_tasks = pos 2;
  tasks = λ j. record initial_task {
    tid = pos j;
    state = if j == 0 then active else s;
    sp = 400;
    awaiting_event_id = pos 16;
  };
  current_task = some 0;
  memory = m;
  messages = λ j. no_message;
  bytes = λ a. a % 256;
  effects = [];
}

still-IsPlaced : (s : TaskState) → IsPlaced no_lists (world s blank)
still-IsPlaced s = record {
  store = blank-IsStore;
  own = λ i q lt h. ground arith;
  kinds = λ q a le h. ground arith;
  off = λ c q e. refl;
  current_in = λ c e. ground arith;
  slots = λ i n lt e. ground arith;
}

-- Task 1 stands in the queue `q` of its state.
abbrev pub one_list : ℕ → ℕ → List ℕ
one_list q = update no_lists q (2 ∷ [])

abbrev pub queued : TaskState → ℕ → Kernel
queued s q = world s (enqueue_queue q 2 blank)

pub queued-IsPlaced :
    (s : TaskState) (q : ℕ)
    → task_queue ((world s blank).tasks 1) ≡ some q
    → IsPlaced (one_list q) (queued s q)
queued-IsPlaced s q e =
    enqueue_own (still-IsPlaced s) 1 q (omega arith) (λ p. refl) e (λ c g. ground arith)

pub runner : (s : TaskState) (q : ℕ) → IsTask (queued s q) 0 0 10
unfolding task_queue
runner s q = record { index = refl; holds = refl; queued = refl }

schedule_highest_example :
    (k' : Kernel) × (schedule_and_activate 0 (queued ready 5) ≡ some k')
    × Scheduled (one_list 5) (queued ready 5) 0 0 k'
unfolding task_queue
schedule_highest_example =
    schedule_highest 0 0 (queued-IsPlaced ready 5 refl) refl (omega arith) (omega arith)
      (λ e. ground arith)

set_task_state_moves_example :
    (k' : Kernel) × (set_task_state (pos 1) ready (queued send_blocked 15) ≡ some k')
    × (k'.tasks
        ≡ (set_task 1
            (record ((queued send_blocked 15).tasks 1) { state = ready })
            (queued send_blocked 15)).tasks)
    × (k'.current_task ≡ some 0)
    × (k'.bytes ≡ (queued send_blocked 15).bytes)
    × (k'.messages ≡ (queued send_blocked 15).messages)
    × IsPlaced (state_lists 0 0 1 ready (one_list 15)) k'
unfolding task_queue
set_task_state_moves_example =
    set_task_state_moves {n = 1} {i = 1} {q = 15} ready (queued-IsPlaced send_blocked 15 refl)
      (record { index = refl; holds = refl; queued = refl }) refl

nobody_there_example :
    (send_proxy no_message (pos 5) 0 (pos 0) 0 (pos 0) (world free blank)
      ≡ some (negsuc 1, world free blank))
    × (reply_proxy (pos 5) 0 (pos 0) (world free blank) ≡ some (negsuc 1, world free blank))
nobody_there_example =
    nobody_there no_message 0 (pos 0) 0 (pos 0) (world free blank) 5 (omega arith) (inr refl)

waiting : IsWaiting (one_list 15) (queued send_blocked 15) 0 0 10 1 1 15 4
unfolding task_queue
waiting = record {
  placed = queued-IsPlaced send_blocked 15 refl;
  running = refl;
  sender = runner send_blocked 15;
  receiver = record { index = refl; holds = refl; queued = refl };
  apart = omega arith;
  small = omega arith;
  waits = refl;
  empty = refl;
  unposted = λ p. ground arith;
  room = refl;
}

send_to_waiting_example :
    (k' : Kernel) × (send_proxy no_message (pos 1) 100 (pos 6) 200 (pos 4) (queued send_blocked 15)
      ≡ some (pos 6, k'))
    × Met (one_list 15) (queued send_blocked 15) 0 0 1 4 100 6 200 (pos 4) k'
send_to_waiting_example = send_to_waiting no_message 100 6 200 (pos 4) waiting

reply_wakes_example :
    (k' : Kernel) × (reply_proxy (pos 1) 100 (pos 6) (queued reply_blocked 25)
      ≡ some (negsuc 3, k'))
    × Replied (one_list 25) (queued reply_blocked 25) 0 1 100 6 4 k'
unfolding task_queue
reply_wakes_example = reply_wakes 100 6 (queued-IsPlaced reply_blocked 25 refl) refl (record {
  task = record { index = refl; holds = refl; queued = refl };
  small = omega arith;
  waits = refl;
  from = refl;
  size = refl;
})

-- Tasks 1 and 2 have sent to task 0.
abbrev mail : ℕ → List ℕ
mail =
    update (update no_lists (msg_queue 0) (message_node 1 ∷ [])) (msg_queue 0)
      (message_node 1 ∷ message_node 2 ∷ [])

abbrev post : Memory
post =
    enqueue_queue (msg_queue 0) (message_node 2)
      (enqueue_queue (msg_queue 0) (message_node 1) blank)

post-IsStore : IsStore node_bound mail post
post-IsStore =
    enqueue-IsStore
      (enqueue-IsStore blank-IsStore (msg_queue 0) (message_node 1) (omega arith) (λ p. refl))
      (msg_queue 0) (message_node 2) (omega arith) (λ p. ground arith)

has_mail : HasMail mail (world reply_blocked post) 0 0 10 1 2 (message_node 2 ∷ [])
unfolding task_queue enqueue_queue
has_mail = record {
  placed = record {
    store = post-IsStore;
    own = λ i q lt h. ground arith;
    kinds = λ q a le h. ground arith;
    off = λ c q e. ground arith;
    current_in = λ c e. ground arith;
    slots = λ i n lt e. ground arith;
  };
  running = refl;
  task = record { index = refl; holds = refl; queued = refl };
  queue = refl;
  end = refl;
}

set_task_priority_fails_example :
    set_task_priority (pos 1) (pos 2) (world ready blank) ≡ some (negsuc 0, world ready blank)
set_task_priority_fails_example = set_task_priority_fails (pos 1) (pos 2) (world ready blank)

handle_irq_lem_example :
    Handled
      (one_list 30)
      (acknowledge 16 true (queued event_blocked 30))
      (some 1)
      0
      (handle_irq (negsuc 3) 77 true (queued event_blocked 30))
unfolding task_queue
handle_irq_lem_example =
    handle_irq_lem 3 77 true (queued-IsPlaced event_blocked 30 refl) refl
      (λ i h. (1, ground arith, omega arith))

tasks_stats_handler_lem_example :
    (tasks_stats_handler (queued ready 5)
      ≡ some (
        record {
          num_tasks = 2;
          num_alive_tasks = 2;
          tasks = map (entry (queued ready 5)) (2 ∷ 1 ∷ []);
        },
        queued ready 5,
      ))
    × (2 ≤ max_tasks)
unfolding task_queue
tasks_stats_handler_lem_example =
    tasks_stats_handler_lem {q = 10} (queued-IsPlaced ready 5 refl) refl refl

-- Nobody has sent to task 0.
receive_waits_example :
    (k' : Kernel) × (receive_proxy no_message
        (record { next = 7; prev = 8 })
        500
        600
        (pos 8)
        (world ready blank)
      ≡ some (pos 0, k'))
    × Waiting no_lists (world ready blank) 0 (with_receiver 500 600 (pos 8) no_message) k'
unfolding task_queue
receive_waits_example =
    receive_waits {q = 10} no_message (record { next = 7; prev = 8 }) 500 600 (pos 8)
      (record {
        placed = still-IsPlaced ready;
        running = refl;
        task = record { index = refl; holds = refl; queued = refl };
        queue = refl;
        unposted = λ p. refl;
      })
