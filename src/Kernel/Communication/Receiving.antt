-- ===== src/Kernel/Communication/Receiving.antt =====
-- ReceiveProxy when nobody has sent.
use rtk.Common.{ℕ, ◌≤◌, ◌≡◌, refl, false, some, List, [], arith, ◌==◌, if◌then◌else◌, has}
use rtk.Common.Int.{ℤ, pos}
use rtk.Queue.{null, QueueNode, Memory, set_next, set_prev}
use rtk.Queue.Segment.{Dll, frame}
use rtk.Queue.Store.{IsStore}
use rtk.Kernel.State.{Kernel, Message, send_blocked, message_node, msg_queue, set_task, set_memory}
use rtk.Kernel.Tasks.Alive.{get_current_tid-eq, set_current_task_state-eq}
use rtk.Kernel.Tasks.Placement.{IsPlaced, node_bound}
use rtk.Kernel.Tasks.States.{IsTask}
use rtk.Kernel.Communication.{receive_proxy, set_message, with_receiver}

-- The current task `c` with tid `a`, to which nobody has sent, and whose message node is in no queue.
pub record HasNoMail (v : ℕ → List ℕ) (k : Kernel) (a c q : ℕ) : Type 0 where
  pub placed : IsPlaced v k
  pub running : k.current_task ≡ some c
  pub task : IsTask k a c q
  pub queue : v (msg_queue c) ≡ []
  pub unposted : (p : ℕ) → has (message_node c) (v p) ≡ false

-- The kernel in which the task `c` waits for a message.
pub record Waiting (v : ℕ → List ℕ) (k : Kernel) (c : ℕ) (n : Message) (k' : Kernel) : Type 0 where
  pub tasks :
      (j : ℕ)
      → k'.tasks j ≡ (if j == c then record (k.tasks c) { state = send_blocked } else k.tasks j)
  pub messages : (j : ℕ) → k'.messages j ≡ (if j == c then n else k.messages j)
  pub current : k'.current_task ≡ some c
  pub bytes : k'.bytes ≡ k.bytes
  pub placed : IsPlaced v k'

-- A write to a node that is in no queue, and above the nodes of descriptors.
abbrev written : QueueNode → ℕ → Memory → Memory
written n a m = set_prev a n.prev (set_next a n.next m)

written-IsStore :
    {v : ℕ → List ℕ} {m : Memory} (n : QueueNode) (a : ℕ)
    → IsStore node_bound v m
    → node_bound ≤ a
    → ((p : ℕ) → has a (v p) ≡ false)
    → IsStore node_bound v (written n a m)
written-IsStore {v} {m} n a s le out = record {
  linked = λ q.
      frame m.node (written n a m).node null (m.queue q).first (m.queue q).last (v q) (s.linked q)
        (λ x h. ground (arith, out q));
  apart = s.apart;
  idle = λ x lt h. ground (arith, s.idle x);
}

module _ {v : ℕ → List ℕ} {k : Kernel} {a c q : ℕ} (h : HasNoMail v k a c q) (junk : Message)
    (stale : QueueNode) (tid msg : ℕ) (msglen : ℤ) where
  abbrev blocked : Kernel
  blocked = set_task c (record (k.tasks c) { state = send_blocked }) k

  abbrev noted : Kernel
  noted =
      set_message c (with_receiver tid msg msglen junk)
        (set_memory (written stale (message_node c) k.memory) blocked)

  empty : (k.memory.queue (msg_queue c)).first ≡ null
  empty = first.0
    where
      first :
          Dll k.memory.node null
            (k.memory.queue (msg_queue c)).first
            (k.memory.queue (msg_queue c)).last
            []
      first = rw h.queue at (h.placed.store.linked (msg_queue c))

  receive-eq : receive_proxy junk stale tid msg msglen k ≡ some (pos 0, noted)
  unfolding receive_proxy
  receive-eq =
      rw (get_current_tid-eq k c a h.running h.task.holds) (
        rw h.task.index (rw empty (rw (set_current_task_state-eq k c send_blocked h.running) refl)))

  noted-IsPlaced : IsPlaced v noted
  noted-IsPlaced = record {
    store = written-IsStore stale (message_node c) h.placed.store (omega arith) h.unposted;
    own = λ j p lt g. ground (arith, h.placed.own j p lt g, h.placed.off c p h.running);
    kinds = h.placed.kinds;
    off = h.placed.off;
    current_in = h.placed.current_in;
    slots = λ j n lt e. ground (arith, h.placed.slots j n lt);
  }

-- ReceiveProxy with no message in the queue returns 0. The caller waits for a message from then on, and its
-- message node says where the sender's tid and the message are to go; nothing else changes, and the
-- kernel is placed. What the node's links hold then does not matter.
pub receive_waits :
    {v : ℕ → List ℕ} {k : Kernel} {a c q : ℕ} (junk : Message) (stale : QueueNode) (tid msg : ℕ)
    (msglen : ℤ)
    → HasNoMail v k a c q
    → (k' : Kernel) × (receive_proxy junk stale tid msg msglen k ≡ some (pos 0, k'))
      × Waiting v k c (with_receiver tid msg msglen junk) k'
receive_waits junk stale tid msg msglen h = (
  noted h junk stale tid msg msglen,
  receive-eq h junk stale tid msg msglen,
  record {
    tasks = λ j. refl;
    messages = λ j. refl;
    current = h.running;
    bytes = refl;
    placed = noted-IsPlaced h junk stale tid msg msglen;
  },
)
