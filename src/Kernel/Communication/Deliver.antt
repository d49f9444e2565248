-- ===== src/Kernel/Communication/Deliver.antt =====
-- CompleteReceive's work on one message: both tasks change state, and the bytes arrive.
use rtk.Common.{ℕ, ◌≤◌, ◌≡◌, ◌≢◌, ◌∙◌, ap, some, List, arith, ◌==◌, if◌then◌else◌, ltb, not, ◌&&◌}
use rtk.Common.Int.{pos}
use rtk.Bytes.{Bytes, memcpy, store_word, word_of}
use rtk.Queue.{null}
use rtk.Kernel.State.{Kernel, Task, Message, ready, reply_blocked, is_alive_state}
use rtk.Kernel.Tasks.{set_task_state, long_max}
use rtk.Kernel.Tasks.Alive.{Names, set_task_return_value-eq}
use rtk.Kernel.Tasks.Placement.{IsPlaced}
use rtk.Kernel.Tasks.States.{
  IsTask, state_lists, set_task_state_moves, task_same, task_set, task_at,
}
use rtk.Kernel.Communication.{copy_message, deliver, min}

-- The bytes that arrive: the shorter of the two sizes, unless a buffer is null.
abbrev pub shorter : ℕ → ℕ → ℕ
shorter a b = if ltb a b then a else b

abbrev pub copied : (dest src num : ℕ) → Bytes → Bytes
copied dest src num m = if not (dest == null) && not (src == null) then memcpy dest src num m else m

pub copy_message-eq :
    (dest src a b : ℕ) (m : Bytes)
    → copy_message dest src (min (pos a) (pos b)) m ≡ some (copied dest src (shorter a b) m)
unfolding copy_message
copy_message-eq dest src a b m = ground arith

pub rebytes :
    {v : ℕ → List ℕ} {k : Kernel} (b : Bytes) → IsPlaced v k → IsPlaced v (record k { bytes = b })
rebytes b w = record {
  store = w.store;
  own = w.own;
  kinds = w.kinds;
  off = w.off;
  current_in = w.current_in;
  slots = w.slots;
}

-- A message between two different tasks, in a kernel that runs the task `c`.
pub record IsMessage (k : Kernel) (m : Message) (a ia qa b ib qb ml rl : ℕ) : Type 0 where
  pub from : m.from_tid ≡ pos a
  pub to : m.to_tid ≡ pos b
  pub sender : IsTask k a ia qa
  pub receiver : IsTask k b ib qb
  pub apart : ib ≢ ia
  pub small : b ≤ long_max
  pub sent : m.msg_buffer_size ≡ pos ml
  pub room : m.receive_buffer_size ≡ pos rl

-- What has happened once the message is delivered.
pub record Delivered (v : ℕ → List ℕ) (k : Kernel) (m : Message) (c a ia ib ml rl : ℕ) (k' : Kernel)
    : Type 0 where
  pub tasks :
      (j : ℕ)
      → k'.tasks j ≡ (
          if j == ib
          then record (k.tasks ib) { state = ready }
          else if j == ia
          then record (k.tasks ia) { state = reply_blocked }
          else k.tasks j)
  pub bytes :
      k'.bytes
      ≡ store_word (k.tasks ib).sp (word_of (pos ml)) (
          copied m.receive_buffer m.msg_buffer
            (shorter rl ml)
            (store_word m.put_tid (word_of (pos a)) k.bytes))
  pub current : k'.current_task ≡ some c
  pub messages : k'.messages ≡ k.messages
  pub placed :
      IsPlaced
        (state_lists
          (k.tasks ib).priority
          c
          ib
          ready
          (state_lists (k.tasks ia).priority c ia reply_blocked v))
        k'

module _ {v : ℕ → List ℕ} {k : Kernel} {c : ℕ} (m : Message) {a ia qa b ib qb ml rl : ℕ}
    (w : IsPlaced v k) (e : k.current_task ≡ some c) (t : IsMessage k m a ia qa b ib qb ml rl) where
  abbrev arrived : Bytes
  arrived =
      copied m.receive_buffer m.msg_buffer (shorter rl ml)
        (store_word m.put_tid (word_of (pos a)) k.bytes)

  deliver_steps :
      (k1 k2 : Kernel)
      → set_task_state (pos a) reply_blocked (record k { bytes = arrived }) ≡ some k1
      → set_task_state (pos b) ready k1 ≡ some k2
      → Names k2 b ib
      → (k2.tasks ib).state ≡ ready
      → deliver m k
        ≡ some
            (pos ml, record k2 { bytes = store_word (k2.tasks ib).sp (word_of (pos ml)) k2.bytes })
  unfolding deliver
  deliver_steps k1 k2 e1 e2 names alive =
      rw (t.from, t.to, t.sent, t.room)
        (rw
          (copy_message-eq m.receive_buffer m.msg_buffer rl ml
            (store_word m.put_tid (word_of (pos a)) k.bytes))
          (rw e1 (rw e2 (rw (set_task_return_value-eq names (pos ml) (ap is_alive_state alive))))))

  -- CompleteReceive's part behind the queue: the sender waits for its reply, the receiver is ready
  -- with the message's bytes, and the kernel is placed again.
  pub deliver_lem :
      (k' : Kernel) × (deliver m k ≡ some (pos ml, k')) × Delivered v k m c a ia ib ml rl k'
  deliver_lem =
      let s1 =
        set_task_state_moves {k = record k { bytes = arrived }} {n = a} {i = ia} {q = qa}
          reply_blocked (rebytes arrived w) sender' e in
      let same1 : s1.0.tasks ib ≡ k.tasks ib =
        task_same k.tasks s1.0.tasks ia reply_blocked s1.2 ib t.apart in
      let t1 : IsTask s1.0 b ib qb = record {
        index = t.receiver.index;
        holds = rw same1 t.receiver.holds;
        queued = rw same1 t.receiver.queued;
      } in
      let s2 = set_task_state_moves {n = b} {i = ib} {q = qb} ready s1.6 t1 s1.3 in
      let same2 : s2.0.tasks ib ≡ record (k.tasks ib) { state = ready } =
        task_set s1.0.tasks s2.0.tasks ib ready s2.2
        ∙ ap (λ (u : Task). record u { state = ready }) same1 in
      let names : Names s2.0 b ib = record {
        index = t.receiver.index;
        small = t.small;
        holds = rw same2 t.receiver.holds;
      } in
      (
        record s2.0 { bytes = store_word (s2.0.tasks ib).sp (word_of (pos ml)) s2.0.bytes },
        deliver_steps s1.0 s2.0 s1.1 s2.1 names (ap (λ (u : Task). u.state) same2),
        record {
          tasks = λ j. rw (
            task_at s1.0.tasks s2.0.tasks ib ready s2.2 j,
            same1,
            task_at k.tasks s1.0.tasks ia reply_blocked s1.2 j,
          );
          bytes = rw (same2, s2.4, s1.4);
          current = s2.3;
          messages = s2.5 ∙ s1.5;
          placed =
              rebytes (store_word (s2.0.tasks ib).sp (word_of (pos ml)) s2.0.bytes)
                (rw (ap (λ (u : Task). u.priority) same1) at s2.6);
        },
      )
    where
      sender' : IsTask (record k { bytes = arrived }) a ia qa
      sender' = record { index = t.sender.index; holds = t.sender.holds; queued = t.sender.queued }
