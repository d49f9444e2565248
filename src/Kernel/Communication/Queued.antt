-- ===== src/Kernel/Communication/Queued.antt =====
-- ReceiveProxy when messages are queued.
use rtk.Common.{ℕ, ◌≡◌, ◌∙◌, some, List, ◌∷◌, arith, ◌==◌, if◌then◌else◌, false}
use rtk.Common.Int.{ℤ, pos}
use rtk.Queue.{null, QueueNode, dequeue_queue}
use rtk.Queue.Segment.{Dll}
use rtk.Queue.Laws.{dequeue_head}
use rtk.Kernel.State.{Kernel, Message, message_node, message_of_node, msg_queue, set_memory}
use rtk.Kernel.Tasks.Alive.{get_current_tid-eq}
use rtk.Kernel.Tasks.Placement.{IsPlaced}
use rtk.Kernel.Tasks.States.{IsTask}
use rtk.Kernel.Communication.{receive_proxy, complete_receive, deliver, set_message, with_receiver}

-- The current task `c` with tid `a`, whose message queue begins with the node of `x` and ends with
-- that of `z`.
pub record HasMail (v : ℕ → List ℕ) (k : Kernel) (a c q x z : ℕ) (xs : List ℕ) : Type 0 where
  pub placed : IsPlaced v k
  pub running : k.current_task ≡ some c
  pub task : IsTask k a c q
  pub queue : v (msg_queue c) ≡ message_node x ∷ xs
  pub end : (k.memory.queue (msg_queue c)).last ≡ message_node z

module _ {v : ℕ → List ℕ} {k : Kernel} {a c q x z : ℕ} {xs : List ℕ} (h : HasMail v k a c q x z xs)
    (tid msg : ℕ) (msglen : ℤ) where
  -- The receiver's buffer is noted in the last node.
  abbrev pub noted : Kernel
  noted = set_message z (with_receiver tid msg msglen (k.messages z)) k

  -- And the first node is taken off.
  abbrev pub opened : Kernel
  opened = set_memory (dequeue_queue (msg_queue c) k.memory).1 noted

  first_node : (k.memory.queue (msg_queue c)).first ≡ message_node x
  first_node = list.0
    where
      list :
          Dll k.memory.node null
            (k.memory.queue (msg_queue c)).first
            (k.memory.queue (msg_queue c)).last
            (message_node x ∷ xs)
      list = rw h.queue at (h.placed.store.linked (msg_queue c))

  taken : (dequeue_queue (msg_queue c) k.memory).0 ≡ message_node x
  taken = ((dequeue_head (msg_queue c) h.placed.store).1 (message_node x) xs h.queue).0

  not_null : (y : ℕ) → (message_node y == null) ≡ false
  not_null y = ground arith

  back : (y : ℕ) → message_of_node (message_node y) ≡ y
  back y = omega arith

  receive_is_complete :
      (junk : Message) (stale : QueueNode)
      → receive_proxy junk stale tid msg msglen k ≡ complete_receive (pos a) noted
  unfolding receive_proxy
  receive_is_complete junk stale =
      rw (get_current_tid-eq k c a h.running h.task.holds)
        (rw h.task.index (rw (first_node, h.end, not_null x) (rw (back z))))

  complete_is_deliver : complete_receive (pos a) noted ≡ deliver (noted.messages x) opened
  unfolding complete_receive
  complete_is_deliver = rw (h.task.index, taken) (rw (not_null x, back x))

-- ReceiveProxy with messages in the queue takes the first, but notes the receiver's buffer in the
-- last: it delivers the first message into the receiver's buffer if that message is also the last,
-- and else by whatever buffer its node holds from before.
pub receive_takes_first :
    {v : ℕ → List ℕ} {k : Kernel} {a c q x z : ℕ} {xs : List ℕ} (junk : Message) (stale : QueueNode)
    (tid msg : ℕ) (msglen : ℤ)
    → (h : HasMail v k a c q x z xs)
    → receive_proxy junk stale tid msg msglen k
      ≡ deliver
          (if x == z then with_receiver tid msg msglen (k.messages z) else k.messages x)
          (opened h tid msg msglen)
receive_takes_first junk stale tid msg msglen h =
    receive_is_complete h tid msg msglen junk stale ∙ complete_is_deliver h tid msg msglen
