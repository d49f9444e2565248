-- ===== src/Kernel/Runs.antt =====
-- Runs of the kernel: system calls, interrupts and turns of the scheduler, one after the other.
pub mod Unique
pub mod Live
pub mod Moves
pub mod Steps
use rtk.Common.{ℕ, ◌≡◌, ◌≢◌, ◌≤◌, Option, none, some, Bool, List, has, true, false, ◌%◌, ◌⊎◌}
use rtk.Common.Int.{ℤ, pos, negsuc}
use rtk.Queue.{QueueNode}
use rtk.Kernel.State.{Kernel, Message, null_priority, is_alive_state, max_tasks}
use rtk.Kernel.Tasks.Placement.{IsPlaced}
use rtk.Kernel.Lifecycle.{schedule_and_activate, create_task, exit_task, save_task_state, nop}
use rtk.Kernel.Lifecycle.Creating.{HasFree}
use rtk.Kernel.Events.Orphans.{IsFamily}
use rtk.Kernel.Events.Family.{Family, order, member, nobody}
use rtk.Kernel.Events.{await_event_handler, handle_irq, destroy_handler}
use rtk.Kernel.Events.Waking.{HasTids}
use rtk.Kernel.Communication.{send_proxy, receive_proxy, reply_proxy}
use rtk.Kernel.Communication.Receiving.{HasNoMail}
use rtk.Kernel.Communication.Rendezvous.{IsWaiting}
use rtk.Kernel.Communication.Posting.{IsBusy}
use rtk.Kernel.Communication.Fetching.{HasLetter, fetched}
use rtk.Kernel.Tasks.{
  long_max, set_current_task_return_value, set_current_task_priority, set_task_priority, task_queue,
}
use rtk.Kernel.Stats.{TasksStats, tasks_stats_handler}
use rtk.Kernel.Communication.Replying.{AwaitsReply}

-- NullProcess's descriptor.
abbrev pub idle : ℕ
idle = 0

-- One step of the kernel, taken by a task other than NullProcess, which makes no system calls, by an
-- interrupt, or by the scheduler. What a step asks for before its call is a condition on the kernel, and not a test of
-- the code: that a sender's own message stands in no queue, say.
pub data Step : Kernel → Kernel → Type 0 where
  turn : {k k' : Kernel} (timer : ℕ) → schedule_and_activate timer k ≡ some k' → Step k k'
  receive :
      {k k' : Kernel} {v : ℕ → List ℕ} {a c q : ℕ} (junk : Message) (stale : QueueNode)
      (tid msg : ℕ) (msglen : ℤ)
      → HasNoMail v k a c q
      → c ≢ idle
      → receive_proxy junk stale tid msg msglen k ≡ some (pos 0, k')
      → Step k k'
  send :
      {k k' : Kernel} {v : ℕ → List ℕ} {a c qa b i qb rl : ℕ} (junk : Message) (msg ml reply : ℕ)
      (rlen : ℤ)
      → IsWaiting v k a c qa b i qb rl
      → c ≢ idle
      → i ≢ idle
      → send_proxy junk (pos b) msg (pos ml) reply rlen k ≡ some (pos ml, k')
      → Step k k'
  post :
      {k k' : Kernel} {v : ℕ → List ℕ} {a c qa b i : ℕ} (junk : Message) (msg : ℕ) (ml : ℤ)
      (reply : ℕ) (rlen : ℤ)
      → IsBusy v k a c qa b i
      → c ≢ idle
      → send_proxy junk (pos b) msg ml reply rlen k ≡ some (pos 0, k')
      → Step k k'
  fetch :
      {k k' : Kernel} {v : ℕ → List ℕ} {a c q x z : ℕ} {xs : List ℕ} {s qs ml rl : ℕ}
      (junk : Message) (stale : QueueNode) (tid msg : ℕ) (msglen : ℤ)
      → HasLetter v k a c q x z xs s qs (fetched k x z tid msg msglen) ml rl
      → c ≢ idle
      → x ≢ idle
      → receive_proxy junk stale tid msg msglen k ≡ some (pos ml, k')
      → Step k k'
  refused :
      {k k' : Kernel} {n : ℕ} {r : ℤ} (junk : Message) (msg : ℕ) (ml : ℤ) (reply : ℕ) (rlen : ℤ)
      → n ≤ long_max
      → ((k.tasks (n % max_tasks)).tid ≢ pos n)
        ⊎ (is_alive_state (k.tasks (n % max_tasks)).state ≡ false)
      → (send_proxy junk (pos n) msg ml reply rlen k ≡ some (r, k'))
        ⊎ (reply_proxy (pos n) reply rlen k ≡ some (r, k'))
      → Step k k'
  reply :
      {k k' : Kernel} {b i q room : ℕ} {r : ℤ} (from len : ℕ)
      → AwaitsReply k b i q room
      → i ≢ idle
      → reply_proxy (pos b) from (pos len) k ≡ some (r, k')
      → Step k k'
  create :
      {k k' : Kernel} {v : ℕ → List ℕ} {i n : ℕ} {xs : List ℕ} {r : ℤ} (exit priority code : ℕ)
      → HasFree v k i n xs
      → priority ≤ null_priority
      → create_task exit priority code k ≡ some (r, k')
      → Step k k'
  exit :
      {k k' : Kernel} {c : ℕ}
      → k.current_task ≡ some c
      → c ≢ idle
      → exit_task k ≡ some k'
      → Step k k'
  destroy :
      {k k' : Kernel} {v : ℕ → List ℕ} {c parent n : ℕ} {kids : Family} {r : ℤ}
      → IsFamily v k c parent n kids
      → has idle (order (member n kids nobody)) ≡ false
      → destroy_handler (pos n) k ≡ some (r, k')
      → Step k k'
  await :
      {k k' : Kernel} {c : ℕ} {r : ℤ} (intr : ℤ)
      → k.current_task ≡ some c
      → c ≢ idle
      → await_event_handler intr k ≡ some (r, k')
      → Step k k'
  interrupt :
      {k k' : Kernel} {v : ℕ → List ℕ} {time : ℕ} (m timer : ℕ) (went_off : Bool)
      → IsPlaced v k
      → HasTids v k
      → handle_irq (negsuc m) timer went_off k ≡ some (time, k')
      → Step k k'
  -- The calls that change the current task's descriptor alone, its stack, or nothing.
  save :
      {k k' : Kernel} (spsr sp pc timer : ℕ) (went_off : Bool)
      → save_task_state spsr sp pc timer went_off k ≡ some k'
      → Step k k'
  return_value :
      {k k' : Kernel} (ret : ℤ) → set_current_task_return_value ret k ≡ some k' → Step k k'
  own_priority :
      {k k' : Kernel} {c : ℕ} {r : ℤ} (to : ℕ)
      → k.current_task ≡ some c
      → c ≢ idle
      → set_current_task_priority to k ≡ (r, k')
      → Step k k'
  other_priority :
      {k k' : Kernel} {r : ℤ} (tid to : ℤ) → set_task_priority tid to k ≡ some (r, k') → Step k k'
  pass : {k k' : Kernel} → nop k ≡ k' → Step k k'
  report :
      {k k' : Kernel} {v : ℕ → List ℕ} {c q : ℕ} {stats : TasksStats}
      → IsPlaced v k
      → k.current_task ≡ some c
      → task_queue (k.tasks c) ≡ some q
      → tasks_stats_handler k ≡ some (stats, k')
      → Step k k'

pub data Reach : Kernel → Kernel → Type 0 where
  start : {k : Kernel} → Reach k k
  step : {k k' k'' : Kernel} → Reach k k' → Step k' k'' → Reach k k''
