-- ===== src/Kernel/Communication/Errors.antt =====
-- Send and Reply to nobody.
use rtk.Common.{ℕ, ◌%◌, ◌≤◌, ◌≡◌, ◌≢◌, ◌⊎◌, false, some}
use rtk.Common.Int.{ℤ, pos, negsuc}
use rtk.Kernel.State.{Kernel, Message, is_alive_state, max_tasks}
use rtk.Kernel.Tasks.{long_max}
use rtk.Kernel.Tasks.Alive.{is_valid_tid-pos, is_valid_tid-negsuc, is_task_alive-false}
use rtk.Kernel.Communication.{send_proxy, reply_proxy}

-- To a negative tid Send and Reply both return -1, and the kernel is unchanged.
pub invalid_tid :
    (junk : Message) (msg : ℕ) (msglen : ℤ) (reply : ℕ) (replylen : ℤ) (k : Kernel) (n : ℕ)
    → (send_proxy junk (negsuc n) msg msglen reply replylen k ≡ some (negsuc 0, k))
      × (reply_proxy (negsuc n) reply replylen k ≡ some (negsuc 0, k))
unfolding send_proxy reply_proxy
invalid_tid junk msg msglen reply replylen k n =
    (rw (is_valid_tid-negsuc n), rw (is_valid_tid-negsuc n))

-- To a tid whose descriptor has another tid by now, or is a zombie, free or destroyed, Send and
-- Reply both return -2, and the kernel is unchanged.
pub nobody_there :
    (junk : Message) (msg : ℕ) (msglen : ℤ) (reply : ℕ) (replylen : ℤ) (k : Kernel) (n : ℕ)
    → n ≤ long_max
    → ((k.tasks (n % max_tasks)).tid ≢ pos n)
      ⊎ (is_alive_state (k.tasks (n % max_tasks)).state ≡ false)
    → (send_proxy junk (pos n) msg msglen reply replylen k ≡ some (negsuc 1, k))
      × (reply_proxy (pos n) reply replylen k ≡ some (negsuc 1, k))
unfolding send_proxy reply_proxy
nobody_there junk msg msglen reply replylen k n small dead = (
  rw (is_valid_tid-pos n small, is_task_alive-false k n small dead),
  rw (is_valid_tid-pos n small, is_task_alive-false k n small dead),
)
