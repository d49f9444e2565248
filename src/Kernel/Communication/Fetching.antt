-- ===== src/Kernel/Communication/Fetching.antt =====
-- ReceiveProxy with messages in the queue: the first is delivered.
use rtk.Common.{
  ℕ, ◌≤◌, ◌≡◌, ◌≢◌, ◌∙◌, true, some, List, arith, ◌==◌, if◌then◌else◌, Bool-cases, has,
}
use rtk.Common.Int.{ℤ, pos}
use rtk.Queue.{QueueNode, update}
use rtk.Queue.Laws.{dequeue_head}
use rtk.Queue.Store.{IsStore}
use rtk.Kernel.State.{Kernel, Message, message_node, msg_queue, task_node}
use rtk.Kernel.Tasks.{long_max}
use rtk.Kernel.Tasks.Placement.{IsPlaced, node_bound}
use rtk.Kernel.Tasks.States.{IsTask}
use rtk.Kernel.Communication.{receive_proxy, with_receiver}
use rtk.Kernel.Communication.Deliver.{Delivered, deliver_lem}
use rtk.Kernel.Communication.Queued.{HasMail, opened, receive_takes_first}

-- The node that is delivered: the receiver's buffer is noted in it only if it is the last.
abbrev pub fetched : (k : Kernel) (x z tid msg : ℕ) → ℤ → Message
fetched k x z tid msg msglen =
    if x == z then with_receiver tid msg msglen (k.messages z) else k.messages x

-- The current task `c` with tid `a` has mail; the first message, of `ml` bytes, was sent to it by
-- the task `x` with tid `s`, which is another one, and the buffer that is noted for it has `rl` bytes.
pub record HasLetter (v : ℕ → List ℕ) (k : Kernel) (a c q x z : ℕ) (xs : List ℕ) (s qs : ℕ)
    (m : Message) (ml rl : ℕ) : Type 0 where
  pub mail : HasMail v k a c q x z xs
  pub sender : IsTask k s x qs
  pub apart : c ≢ x
  pub small : a ≤ long_max
  pub from : m.from_tid ≡ pos s
  pub to : m.to_tid ≡ pos a
  pub sent : m.msg_buffer_size ≡ pos ml
  pub room : m.receive_buffer_size ≡ pos rl

module _ {v : ℕ → List ℕ} {k : Kernel} {a c q x z : ℕ} {xs : List ℕ} (h : HasMail v k a c q x z xs)
    (tid msg : ℕ) (msglen : ℤ) where
  -- The queue without its first message.
  abbrev pub rest_lists : ℕ → List ℕ
  rest_lists = update v (msg_queue c) xs

  rest-IsStore : IsStore node_bound rest_lists (opened h tid msg msglen).memory
  rest-IsStore = ((dequeue_head (msg_queue c) h.placed.store).1 (message_node x) xs h.queue).1

  has-rest : (y p : ℕ) → has y (rest_lists p) ≡ true → has y (v p) ≡ true
  has-rest y p g = ground (arith, h.queue)

  opened-IsPlaced : IsPlaced rest_lists (opened h tid msg msglen)
  opened-IsPlaced = record {
    store = rest-IsStore;
    own = λ j p lt g. h.placed.own j p lt (has-rest (task_node j) p g);
    kinds = λ p y le g. h.placed.kinds p y le (has-rest y p g);
    off = λ d p e. ground (
      arith,
      h.placed.off d p e,
      has-rest (task_node d) p,
      Bool-cases (has (task_node d) (rest_lists p)),
    );
    current_in = h.placed.current_in;
    slots = h.placed.slots;
  }

-- ReceiveProxy of a task to which others have sent, when the buffer that is noted for the first message has a
-- size: it returns the size of that message, which leaves the queue. The receiver is ready, in no queue while it
-- runs; the sender waits for the reply, in the queue for it; no other descriptor changes. In memory
-- the sender's tid stands where the noted buffer says, as much of the message as fits in that
-- buffer (nothing, if either buffer is null), and the message's full size on the receiver's stack.
pub receive_fetches :
    {v : ℕ → List ℕ} {k : Kernel} {a c q x z : ℕ} {xs : List ℕ} {s qs ml rl : ℕ} (junk : Message)
    (stale : QueueNode) (tid msg : ℕ) (msglen : ℤ)
    → (h : HasLetter v k a c q x z xs s qs (fetched k x z tid msg msglen) ml rl)
    → (k' : Kernel) × (receive_proxy junk stale tid msg msglen k ≡ some (pos ml, k'))
      × Delivered
          (rest_lists h.mail tid msg msglen)
          (opened h.mail tid msg msglen)
          (fetched k x z tid msg msglen)
          c
          s
          x
          c
          ml
          rl
          k'
receive_fetches {k = k} {x = x} {z = z} junk stale tid msg msglen h =
    let d =
      deliver_lem (fetched k x z tid msg msglen) (opened-IsPlaced h.mail tid msg msglen)
        h.mail.running
        (record {
          from = h.from;
          to = h.to;
          sender = record {
            index = h.sender.index;
            holds = h.sender.holds;
            queued = h.sender.queued;
          };
          receiver = record {
            index = h.mail.task.index;
            holds = h.mail.task.holds;
            queued = h.mail.task.queued;
          };
          apart = h.apart;
          small = h.small;
          sent = h.sent;
          room = h.room;
        }) in
    (d.0, receive_takes_first junk stale tid msg msglen h.mail ∙ d.1, d.2)
