-- ===== src/Kernel/Communication/Exchange.antt =====
-- Send, a turn of the scheduler, and Reply: a request and its answer.
use rtk.Common.{ℕ, ◌≤◌, ◌≡◌, some, List, [], ◌∷◌, ◌++◌, arith}
use rtk.Common.Int.{pos}
use rtk.Bytes.{store_word, word_of}
use rtk.Queue.{update}
use rtk.Queue.Laws.{without}
use rtk.Kernel.State.{Kernel, ready, active, task_node, priority_queue, null_priority}
use rtk.Kernel.Tasks.{long_max}
use rtk.Kernel.Tasks.Placement.{IsPlaced, moved}
use rtk.Kernel.Lifecycle.Scheduling.Parking.{back_lists}
use rtk.Kernel.Lifecycle.Scheduling.Running.{Scheduled}
use rtk.Kernel.Communication.Deliver.{copied, shorter}
use rtk.Kernel.Communication.Rendezvous.{IsWaiting}
use rtk.Kernel.Communication.Sending.{Met}

-- A caller and a receiver that waits for it, with priorities in range, and no ready task of the receiver's
-- priority or a higher one; the caller has room for a reply of `room` bytes.
pub record IsRequest (v : ℕ → List ℕ) (k : Kernel) (a c qa b i qb rl : ℕ) : Type 0 where
  pub waiting : IsWaiting v k a c qa b i qb rl
  pub caller_tid : a ≤ long_max
  pub caller : (k.tasks c).priority ≤ null_priority
  pub receiver : (k.tasks i).priority ≤ null_priority
  pub first : (j : ℕ) → j ≤ (k.tasks i).priority → v (priority_queue 1 j) ≡ []

-- The end of the exchange: the receiver runs, and the caller is ready, with the reply and its size.
pub record Answered (k : Kernel) (a c i rl msg ml reply room answer len : ℕ) (k' : Kernel)
    : Type 0 where
  pub runs : k'.current_task ≡ some i
  pub active : (k'.tasks i).state ≡ active
  pub caller : k'.tasks c ≡ record (k.tasks c) { state = ready }
  pub bytes :
      k'.bytes
      ≡ store_word (k.tasks c).sp (word_of (pos len)) (
          copied reply answer (shorter room len) (
            store_word (k.tasks i).sp (word_of (pos ml)) (
              copied
                (k.messages i).receive_buffer
                msg
                (shorter rl ml)
                (store_word (k.messages i).put_tid (word_of (pos a)) k.bytes))))
  pub lists : ℕ → List ℕ
  pub before : List ℕ
  pub placed : IsPlaced lists k'
  pub in_line : lists (priority_queue 1 (k.tasks c).priority) ≡ before ++ task_node c ∷ []

module _ {v : ℕ → List ℕ} {k : Kernel} {a c qa b i qb rl : ℕ}
    (h : IsRequest v k a c qa b i qb rl) where
  -- The lists when the message is handed over.
  abbrev handed_lists : ℕ → List ℕ
  handed_lists =
      moved (priority_queue 1 (k.tasks i).priority) (task_node i) (without (task_node c) v)

  module _ {msg ml reply room : ℕ} {k1 : Kernel}
      (m : Met v k a c i rl msg ml reply (pos room) k1) where
    receiver_ready : k1.tasks i ≡ record (k.tasks i) { state = ready }
    receiver_ready = ground (arith, m.tasks i)

    module _ {timer : ℕ} {k2 : Kernel} (s : Scheduled handed_lists k1 c timer k2) where
      abbrev turn_lists : ℕ → List ℕ
      turn_lists = update (back_lists k1 c handed_lists) (priority_queue 1 s.r) s.xs
