-- ===== src/Kernel/Communication/Rendezvous.antt =====
-- Send to a task that waits in Receive.
use rtk.Common.{
  ℕ, ◌≤◌, ◌≡◌, ◌≢◌, ◌∙◌, ap, ap₂, refl, false, some, List, [], arith, ◌==◌, ==-refl, has,
}
use rtk.Common.Int.{ℤ, pos}
use rtk.Queue.{null, Memory, set_next, set_prev, enqueue_queue, dequeue_queue}
use rtk.Queue.Store.{IsStore}
use rtk.Queue.Pass.{relink, enqueue_then_dequeue}
use rtk.Kernel.State.{
  Kernel, Task, Message, send_blocked, receive_blocked, set_task, message_node, message_of_node,
  msg_queue, set_memory, priority_queue,
}
use rtk.Kernel.Tasks.{long_max, get_task_state}
use rtk.Kernel.Tasks.Alive.{
  get_current_tid-eq, set_current_task_state-eq, Names, is_valid_tid-pos, is_task_alive-eq,
  get_task_state-eq,
}
use rtk.Kernel.Tasks.Placement.{IsPlaced, node_bound}
use rtk.Kernel.Tasks.States.{IsTask, queue_of_state}
use rtk.Kernel.Communication.{
  deliver, complete_receive, send_proxy, meet_receiver, sent_message, set_message, with_receiver,
}
use rtk.Kernel.Communication.Deliver.{IsMessage, Delivered, deliver_lem}

-- The message node of `c` as posted: linked to nothing, then at the end of the receiver's queue.
abbrev pub posted : (c i : ℕ) → Memory → Memory
posted c i m =
    enqueue_queue (msg_queue i) (message_node c)
      (set_prev (message_node c) null (set_next (message_node c) null m))

-- A caller `c` with tid `a`, and a task `i` with tid `b` that waits for a message of at most `rl`
-- bytes; nobody else has sent to it, and the caller's message node is in no queue.
pub record IsWaiting (v : ℕ → List ℕ) (k : Kernel) (a c qa b i qb rl : ℕ) : Type 0 where
  pub placed : IsPlaced v k
  pub running : k.current_task ≡ some c
  pub sender : IsTask k a c qa
  pub receiver : IsTask k b i qb
  pub apart : i ≢ c
  pub small : b ≤ long_max
  pub waits : (k.tasks i).state ≡ send_blocked
  pub empty : v (msg_queue i) ≡ []
  pub unposted : (p : ℕ) → has (message_node c) (v p) ≡ false
  pub room : (k.messages i).receive_buffer_size ≡ pos rl

-- The message as it is delivered: the sender's node with the receiver's buffer.
abbrev pub handed : (junk : Message) → (k : Kernel) → (a b i msg ml reply : ℕ) → ℤ → Message
handed junk k a b i msg ml reply rlen =
    with_receiver (k.messages i).put_tid (k.messages i).receive_buffer
      (k.messages i).receive_buffer_size (sent_message junk (pos a) (pos b) msg (pos ml) reply rlen)

module _ {v : ℕ → List ℕ} {k : Kernel} {a c qa b i qb rl : ℕ} (h : IsWaiting v k a c qa b i qb rl)
    (junk : Message) (msg ml reply : ℕ) (rlen : ℤ) where
  -- The kernel when SendProxy has posted its message and blocked its caller.
  abbrev pub after_post : Kernel
  after_post =
      set_task c (record (k.tasks c) { state = receive_blocked })
        (set_memory (posted c i k.memory)
          (set_message c (sent_message junk (pos a) (pos b) msg (pos ml) reply rlen) k))

  -- The kernel when CompleteReceive has taken the message node off again.
  abbrev pub after_take : Kernel
  after_take =
      set_memory (dequeue_queue (msg_queue i) (posted c i k.memory)).1
        (set_message c (handed junk k a b i msg ml reply rlen) after_post)

  passed :
      ((dequeue_queue (msg_queue i) (posted c i k.memory)).0 ≡ message_node c)
      × IsStore node_bound v (dequeue_queue (msg_queue i) (posted c i k.memory)).1
  passed =
      enqueue_then_dequeue
        (relink h.placed.store (message_node c) null null (omega arith) h.unposted) (message_node c)
        (msg_queue i) (omega arith) h.unposted h.empty

  after_take-IsPlaced : IsPlaced v after_take
  after_take-IsPlaced = record {
    store = passed.1;
    own = λ j p lt g. ground (arith, h.placed.own j p lt, h.placed.off c p h.running);
    kinds = h.placed.kinds;
    off = h.placed.off;
    current_in = h.placed.current_in;
    slots = λ j n lt g. ground (arith, h.placed.slots j n lt);
  }

  names : Names k b i
  names = record { index = h.receiver.index; small = h.small; holds = h.receiver.holds }

  -- The kernel when the message is posted, its sender not yet blocked.
  abbrev pub after_message : Kernel
  after_message =
      set_memory (posted c i k.memory)
        (set_message c (sent_message junk (pos a) (pos b) msg (pos ml) reply rlen) k)

  pub still_there : after_post.tasks i ≡ k.tasks i
  still_there = ground (arith, h.apart)

  still_waits : get_task_state (pos b) after_post ≡ some send_blocked
  still_waits =
      get_task_state-eq {k = after_post} {n = b} {i = i} (record {
        index = h.receiver.index;
        small = h.small;
        holds = rw still_there h.receiver.holds;
      })
      ∙ ap some (ap (λ (t : Task). t.state) still_there ∙ h.waits)

  send_is_post :
      send_proxy junk (pos b) msg (pos ml) reply rlen k ≡ meet_receiver (pos b) c i after_post
  unfolding send_proxy
  send_is_post =
      rw (is_valid_tid-pos b h.small, is_task_alive-eq names, h.waits)
        (rw (get_current_tid-eq k c a h.running h.sender.holds) (
          rw (h.sender.index, h.receiver.index)
            (rw (set_current_task_state-eq (after_message) c receive_blocked h.running)
              (rw still_waits))))

  not_null : (message_node c == null) ≡ false
  not_null = ground arith

  back : message_of_node (message_node c) ≡ c
  back = omega arith

  own_message : after_post.messages c ≡ sent_message junk (pos a) (pos b) msg (pos ml) reply rlen
  own_message = rw (==-refl c)

  their_message : after_post.messages i ≡ k.messages i
  their_message = ground (arith, h.apart)

  message_is_handed :
      with_receiver
        (after_post.messages i).put_tid
        (after_post.messages i).receive_buffer
        (after_post.messages i).receive_buffer_size
        (after_post.messages c)
      ≡ handed junk k a b i msg ml reply rlen
  message_is_handed =
      ap₂ (λ (m n : Message). with_receiver m.put_tid m.receive_buffer m.receive_buffer_size n)
        their_message own_message

  take_is_deliver :
      complete_receive (pos b) (set_message c (handed junk k a b i msg ml reply rlen) after_post)
      ≡ deliver (handed junk k a b i msg ml reply rlen) after_take
  unfolding complete_receive
  take_is_deliver = rw (h.receiver.index, passed.0) (rw (not_null, back) (rw (==-refl c)))

  meet_is_deliver :
      meet_receiver (pos b) c i after_post
      ≡ deliver (handed junk k a b i msg ml reply rlen) after_take
  unfolding meet_receiver
  meet_is_deliver =
      ap (λ m. complete_receive (pos b) (set_message c m after_post)) message_is_handed
      ∙ take_is_deliver

  the-IsMessage :
      IsMessage after_take
        (handed junk k a b i msg ml reply rlen)
        a
        c
        (priority_queue 4 (k.tasks c).priority)
        b
        i
        qb
        ml
        rl
  the-IsMessage = record {
    from = refl;
    to = refl;
    sender = record {
      index = h.sender.index;
      holds = rw (==-refl c) h.sender.holds;
      queued = rw (==-refl c) (queue_of_state k c qa receive_blocked h.sender.queued refl);
    };
    receiver = record {
      index = h.receiver.index;
      holds = rw still_there h.receiver.holds;
      queued = rw still_there h.receiver.queued;
    };
    apart = h.apart;
    small = h.small;
    sent = refl;
    room = h.room;
  }

  pub delivered :
      (k' : Kernel) × (send_proxy junk (pos b) msg (pos ml) reply rlen k ≡ some (pos ml, k'))
      × Delivered v after_take (handed junk k a b i msg ml reply rlen) c a c i ml rl k'
  delivered =
      let d =
        deliver_lem (handed junk k a b i msg ml reply rlen) after_take-IsPlaced h.running
          the-IsMessage in
      (d.0, send_is_post ∙ meet_is_deliver ∙ d.1, d.2)
