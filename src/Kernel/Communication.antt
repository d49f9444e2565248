-- ===== src/Kernel/Communication.antt =====
-- kernel/communication.c: Send, Receive and Reply.
-- `junk` and `stale` are what the local `struct msg_queue_node n` of a function holds before it is
-- filled: the fields and links that the function does not set are copied from there.
pub mod Errors
pub mod Deliver
pub mod Rendezvous
pub mod Sending
pub mod Replying
pub mod Exchange
pub mod Receiving
pub mod Queued
pub mod Posting
pub mod Fetching
pub mod Mailing
mod Tests
use rtk.Common.{ℕ, zero, suc, ◌+◌, Option, none, some, ◌==◌, not, ◌&&◌, if◌then◌else◌, ◌>>=◌}
use rtk.Common.Int.{ℤ, pos, negsuc, ltb_ℤ}
use rtk.Bytes.{Bytes, memcpy, store_word, word_of}
use rtk.Queue.{
  enqueue_queue, dequeue_queue, set_first, set_last, set_next, set_prev, null, Memory, QueueNode,
}
use rtk.Kernel.State.{
  Kernel, Message, ready, send_blocked, receive_blocked, reply_blocked, same_state, slot,
  set_memory, message_node, message_of_node, msg_queue, max_tasks,
}
use rtk.Kernel.Tasks.{
  set_current_task_state, set_task_state, get_task_state, set_task_return_value, is_valid_tid,
  is_task_alive, get_current_tid,
}

-- The rounds from `i` on of the loop of InitCommunication.
unfoldable pub init_queues : (rounds i : ℕ) → Memory → Memory
init_queues zero i m = m
init_queues (suc rounds) i m =
    init_queues rounds (i + 1) (set_last (msg_queue i) null (set_first (msg_queue i) null m))

unfoldable pub init_communication : Kernel → Kernel
init_communication k = set_memory (init_queues max_tasks 0 k.memory) k

abbrev pub set_message : ℕ → Message → Kernel → Kernel
set_message i n k = record k { messages = λ j. if j == i then n else k.messages j }

-- lib/math.c
abbrev pub min : ℤ → ℤ → ℤ
min a b = if ltb_ℤ a b then a else b

-- `if ( dest != NULL && src != NULL ) memcpy( dest, src, n )`; a negative `n` would be taken for a
-- size that runs off the memory.
unfoldable pub copy_message : (dest src : ℕ) → ℤ → Bytes → Option Bytes
copy_message dest src n m =
    if not (dest == null) && not (src == null)
    then elim n [ pos len ↦ some (memcpy dest src len m) | negsuc _ ↦ none ]
    else some m

-- What CompleteReceive does with the message node that it took off the queue.
unfoldable pub deliver : Message → Kernel → Option (ℤ × Kernel)
deliver n k = do
  bytes' ←
      copy_message n.receive_buffer n.msg_buffer (min n.receive_buffer_size n.msg_buffer_size)
        (store_word n.put_tid (word_of n.from_tid) k.bytes)
  k1 ← set_task_state n.from_tid reply_blocked (record k { bytes = bytes' })
  k2 ← set_task_state n.to_tid ready k1
  k3 ← set_task_return_value n.to_tid n.msg_buffer_size k2
  some (n.msg_buffer_size, k3)

unfoldable pub complete_receive : ℤ → Kernel → Option (ℤ × Kernel)
complete_receive tid k = do
  i ← slot tid
  let (node, m) = dequeue_queue (msg_queue i) k.memory
  if node == null then none else deliver (k.messages (message_of_node node)) (set_memory m k)

-- The message node that SendProxy fills.
abbrev pub sent_message : Message → (from to : ℤ) → (msg : ℕ) → ℤ → (reply : ℕ) → ℤ → Message
sent_message junk from to msg msglen reply replylen = record junk {
  from_tid = from;
  to_tid = to;
  msg_buffer = msg;
  msg_buffer_size = msglen;
  reply_buffer = reply;
  reply_buffer_size = replylen;
}

-- The end of SendProxy, where the receiver waits: its buffer is handed to the sender's node.
unfoldable pub meet_receiver : (tid : ℤ) (mine theirs : ℕ) → Kernel → Option (ℤ × Kernel)
meet_receiver tid mine theirs k = complete_receive tid (
    set_message mine
      (record (k.messages mine) {
        put_tid = (k.messages theirs).put_tid;
        receive_buffer = (k.messages theirs).receive_buffer;
        receive_buffer_size = (k.messages theirs).receive_buffer_size;
      })
      k)

-- ERR_SEND_IMPOSSIBLE_TID is -1, ERR_SEND_NONEXISTENT_TASK is -2.
unfoldable pub send_proxy :
    (junk : Message) (tid : ℤ) (msg : ℕ) (msglen : ℤ) (reply : ℕ) (replylen : ℤ)
    → Kernel
    → Option (ℤ × Kernel)
send_proxy junk tid msg msglen reply replylen k =
    if not (is_valid_tid tid) then some (negsuc 0, k) else do
      alive ← is_task_alive tid k
      if not alive then some (negsuc 1, k) else do
        let mytid = get_current_tid k
        mine ← slot mytid
        theirs ← slot tid
        let k1 = set_message mine (sent_message junk mytid tid msg msglen reply replylen) k
        let m1 = set_prev (message_node mine) null (set_next (message_node mine) null k1.memory)
        let k2 = set_memory (enqueue_queue (msg_queue theirs) (message_node mine) m1) k1
        k3 ← set_current_task_state receive_blocked k2
        state ← get_task_state tid k3
        if same_state state send_blocked then meet_receiver tid mine theirs k3 else some (pos 0, k3)

-- The receiver's buffer, as ReceiveProxy notes it in a message node.
abbrev pub with_receiver : (tid msg : ℕ) → ℤ → Message → Message
with_receiver tid msg msglen n = record n {
  put_tid = tid;
  receive_buffer = msg;
  receive_buffer_size = msglen;
}

-- With messages in the queue the buffer goes into the node of the last one, as in the source.
unfoldable pub receive_proxy :
    (junk : Message) (stale : QueueNode) (tid msg : ℕ) (msglen : ℤ) → Kernel → Option (ℤ × Kernel)
receive_proxy junk stale tid msg msglen k = do
  let mytid = get_current_tid k
  mine ← slot mytid
  let queue = k.memory.queue (msg_queue mine)
  if queue.first == null
      then (do
        k1 ← set_current_task_state send_blocked k
        let m1 =
            set_prev (message_node mine) stale.prev
              (set_next (message_node mine) stale.next k1.memory)
        some (pos 0, set_message mine (with_receiver tid msg msglen junk) (set_memory m1 k1)))
      else (let n = message_of_node queue.last in
          complete_receive mytid (set_message n (with_receiver tid msg msglen (k.messages n)) k))

-- The part of ReplyProxy behind its checks. ERR_BUFFER_TOO_SMALL is -4.
unfoldable pub complete_reply : Message → (reply : ℕ) → ℤ → Kernel → Option (ℤ × Kernel)
complete_reply n reply replylen k = do
  bytes' ← copy_message n.reply_buffer reply (min n.reply_buffer_size replylen) k.bytes
  k1 ← set_task_state n.from_tid ready (record k { bytes = bytes' })
  k2 ← set_task_return_value n.from_tid replylen k1
  some (if ltb_ℤ n.reply_buffer_size replylen then negsuc 3 else pos 0, k2)

-- ERR_REPLY_IMPOSSIBLE_TID is -1, ERR_REPLY_NONEXISTENT_TASK is -2, ERR_NOT_REPLY_BLOCKED is -3.
unfoldable pub reply_proxy : (tid : ℤ) (reply : ℕ) (replylen : ℤ) → Kernel → Option (ℤ × Kernel)
reply_proxy tid reply replylen k = if not (is_valid_tid tid) then some (negsuc 0, k) else do
  alive ← is_task_alive tid k
  if not alive then some (negsuc 1, k) else do
    state ← get_task_state tid k
    if not (same_state state reply_blocked)
        then some (negsuc 2, k)
        else do i ← slot tid; complete_reply (k.messages i) reply replylen k
