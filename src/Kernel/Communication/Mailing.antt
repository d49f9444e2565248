-- ===== src/Kernel/Communication/Mailing.antt =====
-- Send to a ready task, a turn of the scheduler, and Receive: a message that waits in a queue.
use rtk.Common.{
  ℕ, ◌≤◌, ◌<◌, ◌≡◌, ◌≢◌, ◌∙◌, ap, refl, subst, true, false, some, List, [], ◌∷◌, arith, ◌==◌,
  if◌then◌else◌, ==-refl,
}
use rtk.Common.Int.{ℤ, pos}
use rtk.Bytes.{store_word, word_of}
use rtk.Queue.{update, null, QueueNode}
use rtk.Queue.Segment.{Dll}
use rtk.Kernel.State.{
  Kernel, Task, Message, ready, active, receive_blocked, reply_blocked, task_node, message_node,
  msg_queue, priority_queue, null_priority,
}
use rtk.Kernel.Tasks.{long_max, task_queue}
use rtk.Kernel.Tasks.Placement.{IsPlaced}
use rtk.Kernel.Tasks.States.{IsTask, state_lists}
use rtk.Kernel.Lifecycle.{schedule_and_activate}
use rtk.Kernel.Lifecycle.Scheduling.Parking.{back_lists, queue_at}
use rtk.Kernel.Lifecycle.Scheduling.Running.{Scheduled, schedule_highest}
use rtk.Kernel.Communication.{send_proxy, receive_proxy, with_receiver}
use rtk.Kernel.Communication.Deliver.{Delivered, copied, shorter}
use rtk.Kernel.Communication.Posting.{IsBusy, Posted, posted_lists, send_to_busy}
use rtk.Kernel.Communication.Queued.{HasMail, opened}
use rtk.Kernel.Communication.Fetching.{HasLetter, receive_fetches, fetched, rest_lists}

-- A caller `c` and another task `i` that is the first ready one of its priority, with no ready task of
-- a higher priority; the priorities are in range, and nobody else has sent to `i`.
pub record IsNext (v : ℕ → List ℕ) (k : Kernel) (a c qa b i : ℕ) (xs : List ℕ) : Type 0 where
  pub busy : IsBusy v k a c qa b i
  pub apart : i ≢ c
  pub caller : (k.tasks c).priority ≤ null_priority
  pub receiver : (k.tasks i).priority ≤ null_priority
  pub first : v (priority_queue 1 (k.tasks i).priority) ≡ task_node i ∷ xs
  pub higher : (j : ℕ) → j < (k.tasks i).priority → v (priority_queue 1 j) ≡ []
  pub empty : v (msg_queue i) ≡ []

-- The end: the receiver runs with the message, and the caller waits for the reply.
pub record Fetched (k : Kernel) (a c i tid msg ml rl source : ℕ) (k' : Kernel) : Type 0 where
  pub runs : k'.current_task ≡ some i
  pub caller : k'.tasks c ≡ record (k.tasks c) { state = reply_blocked }
  pub bytes :
      k'.bytes
      ≡ store_word
          (k.tasks i).sp
          (word_of (pos ml))
          (copied msg source (shorter rl ml) (store_word tid (word_of (pos a)) k.bytes))
  pub lists : ℕ → List ℕ
  pub placed : IsPlaced lists k'
  pub empty : lists (msg_queue i) ≡ []

pub queue_of_active :
    (t : Task)
    → t.state ≡ active
    → (p : ℕ) → t.priority ≡ p
    → p ≤ null_priority
    → task_queue t ≡ some (priority_queue 2 p)
unfolding task_queue
queue_of_active t e p f le = ground arith

module _ {v : ℕ → List ℕ} {k : Kernel} {a c qa b i : ℕ} {xs : List ℕ} (h : IsNext v k a c qa b i xs)
    {m : Message} {k1 : Kernel} (p : Posted v k c i m k1) where
  abbrev mailed : ℕ → List ℕ
  mailed = posted_lists c i v

  caller_blocked : k1.tasks c ≡ record (k.tasks c) { state = receive_blocked }
  caller_blocked = ground (arith, p.tasks c)

  receiver_same : k1.tasks i ≡ k.tasks i
  receiver_same = ground (arith, p.tasks i, h.apart)

  -- The ready queues at the scheduler's next turn.
  back_lists_at : (q : ℕ) → q < 20 → back_lists k1 c mailed q ≡ v q
  back_lists_at q lt = rw caller_blocked (ground arith)

  -- And the receiver's messages.
  back_lists_mail : back_lists k1 c mailed (msg_queue i) ≡ message_node c ∷ []
  back_lists_mail = rw caller_blocked (ground (arith, h.empty, h.caller))

  turn :
      (j : ℕ)
      → j ≤ (k.tasks i).priority
      → back_lists k1 c mailed (priority_queue 1 j)
        ≡ (if j == (k.tasks i).priority then task_node i ∷ xs else [])
  turn j le =
      rw (back_lists_at (priority_queue 1 j) (omega (arith, h.receiver)))
        (ground (arith, h.first, h.higher j))

  scheduled :
      (timer : ℕ)
      → (k2 : Kernel) × (schedule_and_activate timer k1 ≡ some k2) × Scheduled mailed k1 c timer k2
  scheduled timer =
      schedule_highest timer (k.tasks i).priority p.placed (p.current ∙ h.busy.running)
        (rw caller_blocked h.caller) h.receiver
        (λ e. ground (
          arith,
          back_lists_at (priority_queue 1 (k.tasks i).priority) (omega (arith, h.receiver)),
          h.first,
        ))

  module _ {timer : ℕ} {k2 : Kernel} (s : Scheduled mailed k1 c timer k2) where
    abbrev turn_lists : ℕ → List ℕ
    turn_lists = update (back_lists k1 c mailed) (priority_queue 1 s.r) s.xs

    its_turn : (s.r ≡ (k.tasks i).priority) × (s.i ≡ i)
    its_turn =
        let low : s.r ≤ (k.tasks i).priority =
          ground (arith, s.highest (k.tasks i).priority, turn (k.tasks i).priority (omega arith)) in
        let is : s.r ≡ (k.tasks i).priority = ground (arith, s.head, turn s.r low) in
        (is, ground (arith, s.head, turn s.r low))

    caller_still : k2.tasks c ≡ record (k.tasks c) { state = receive_blocked }
    caller_still = ground (arith, s.others c, its_turn, h.apart, caller_blocked)

    current : k2.current_task ≡ some i
    current = s.current ∙ ap some its_turn.1

    mail_left : turn_lists (msg_queue i) ≡ message_node c ∷ []
    mail_left = ground (arith, back_lists_mail, its_turn, h.receiver)

    last_mail : (k2.memory.queue (msg_queue i)).last ≡ message_node c
    last_mail =
        let d : Dll k2.memory.node null (k2.memory.queue (msg_queue i)).first
            (k2.memory.queue (msg_queue i)).last (message_node c ∷ []) =
          rw mail_left at (s.placed.store.linked (msg_queue i)) in
        d.4.1

    same_priority : (k2.tasks i).priority ≡ (k.tasks i).priority
    same_priority = ground (arith, s.same_priority, its_turn, receiver_same)

    same_stack : (k2.tasks i).sp ≡ (k.tasks i).sp
    same_stack = ground (arith, s.same_stack, its_turn, receiver_same)

    receiver-IsTask : IsTask k2 b i (priority_queue 2 (k.tasks i).priority)
    receiver-IsTask = record {
      index = h.busy.receiver.index;
      holds = ground (arith, s.same_tid, its_turn, receiver_same, h.busy.receiver.holds);
      queued =
          queue_of_active (k2.tasks i) (subst (λ j. (k2.tasks j).state ≡ active) its_turn.1 s.state)
            (k.tasks i).priority same_priority h.receiver;
    }

    turn_mail : HasMail turn_lists k2 b i (priority_queue 2 (k.tasks i).priority) c c []
    turn_mail = record {
      placed = s.placed;
      running = current;
      task = receiver-IsTask;
      queue = mail_left;
      end = last_mail;
    }

    letter_is : (tid msg : ℕ) (rl : ℤ) → fetched k2 c c tid msg rl ≡ with_receiver tid msg rl m
    letter_is tid msg rl =
        let same : (c == c) ≡ true = ==-refl c in
        let mine : k1.messages c ≡ m = p.messages c ∙ rw same refl in
        let now : k2.messages c ≡ m = ap (λ (f : ℕ → Message). f c) s.messages ∙ mine in
        rw same (ap (with_receiver tid msg rl) now)

    module _ (small : b ≤ long_max) (tid msg ml rl source : ℕ) (from : m.from_tid ≡ pos a)
        (to : m.to_tid ≡ pos b) (sent : m.msg_buffer_size ≡ pos ml)
        (buffer : m.msg_buffer ≡ source) where
      the_letter :
          HasLetter turn_lists k2 b i
            (priority_queue 2 (k.tasks i).priority)
            c
            c
            []
            a
            (priority_queue 4 (k.tasks c).priority)
            (fetched k2 c c tid msg (pos rl))
            ml
            rl
      the_letter =
          let is = letter_is tid msg (pos rl) in
          record {
            mail = turn_mail;
            sender = record {
              index = h.busy.sender.index;
              holds = rw caller_still h.busy.sender.holds;
              queued = rw caller_still (queue_at (k.tasks c) receive_blocked h.caller refl);
            };
            apart = h.apart;
            small = small;
            from = ap (λ (n : Message). n.from_tid) is ∙ from;
            to = ap (λ (n : Message). n.to_tid) is ∙ to;
            sent = ap (λ (n : Message). n.msg_buffer_size) is ∙ sent;
            room = ap (λ (n : Message). n.receive_buffer_size) is;
          }

      module _ {k3 : Kernel}
          (r : Delivered
            (rest_lists turn_mail tid msg (pos rl))
            (opened turn_mail tid msg (pos rl))
            (fetched k2 c c tid msg (pos rl))
            i
            a
            c
            i
            ml
            rl
            k3) where
        fetched_bytes :
            k3.bytes
            ≡ store_word
                (k.tasks i).sp
                (word_of (pos ml))
                (copied msg source (shorter rl ml) (store_word tid (word_of (pos a)) k.bytes))
        fetched_bytes =
            let is = letter_is tid msg (pos rl) in
            r.bytes
            ∙ ap
                (λ (n : Message). store_word (k2.tasks i).sp (word_of (pos ml)) (
                  copied n.receive_buffer n.msg_buffer (shorter rl ml)
                    (store_word n.put_tid (word_of (pos a)) k2.bytes)))
                is
            ∙ (λ j. store_word (same_stack j) (word_of (pos ml)) (
                copied msg (buffer j) (shorter rl ml)
                  (store_word tid (word_of (pos a)) ((s.bytes ∙ p.bytes) j))))

        abbrev end_lists : ℕ → List ℕ
        end_lists = state_lists (k2.tasks i).priority i i ready (
            state_lists (k2.tasks c).priority i c reply_blocked
              (rest_lists turn_mail tid msg (pos rl)))

        no_mail : end_lists (msg_queue i) ≡ []
        no_mail =
            let same : (i == i) ≡ true = ==-refl i in
            let other : (i == c) ≡ false = ground (arith, h.apart) in
            rw (same, other, caller_still) (ground (arith, h.caller))

        arrived : Fetched k a c i tid msg ml rl source k3
        arrived = record {
          runs = r.current;
          caller = ground (arith, r.tasks c, h.apart, caller_still);
          bytes = fetched_bytes;
          lists = end_lists;
          placed = r.placed;
          empty = no_mail;
        }

-- Send to a task that is ready, the first of the highest ready queue, and to which nobody else has sent, in a placed
-- kernel with priorities in range; then one turn of the scheduler; then that task's Receive, with a buffer of `rl`
-- bytes. All succeed: Send returns 0, the turn is the receiver's, and Receive returns the message's
-- size. At the end the receiver runs and its queue of messages is empty; the caller waits for the reply, and is else as it was;
-- memory holds the caller's tid where the receiver asked for it, as much of the message as fits in
-- its buffer (nothing, if either buffer is null), and the message's size on the receiver's stack; the kernel is placed.
pub mail_arrives :
    {v : ℕ → List ℕ} {k : Kernel} {a c qa b i : ℕ} {xs : List ℕ} (junk junk' : Message)
    (stale : QueueNode) (source ml reply : ℕ) (room : ℤ) (timer tid msg rl : ℕ)
    → IsNext v k a c qa b i xs
    → (k1 : Kernel) × (k2 : Kernel) × (k3 : Kernel) × (send_proxy junk
          (pos b)
          source
          (pos ml)
          reply
          room
          k
        ≡ some (pos 0, k1))
      × (schedule_and_activate timer k1 ≡ some k2)
      × (receive_proxy junk' stale tid msg (pos rl) k2 ≡ some (pos ml, k3))
      × Fetched k a c i tid msg ml rl source k3
mail_arrives {k = k} {a = a} {c = c} {b = b} {i = i} junk junk' stale source ml reply room timer tid
      msg rl h =
    let (k1, sent, p) = send_to_busy junk source (pos ml) reply room h.busy in
    let (k2, turned, s) = scheduled h p timer in
    let letter = the_letter h p s h.busy.receiver.small tid msg ml rl source refl refl refl refl in
    let (k3, received, r) = receive_fetches junk' stale tid msg (pos rl) letter in
    (
      k1,
      k2,
      k3,
      sent,
      turned,
      received,
      arrived h p s h.busy.receiver.small tid msg ml rl source refl refl refl refl r,
    )
