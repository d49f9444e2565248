-- ===== src/Kernel/Communication/Replying.antt =====
-- ReplyProxy.
use rtk.Common.{ℕ, List, ◌≤◌, ◌≡◌, ◌∙◌, ap, some, arith, ◌==◌, if◌then◌else◌, ltb}
use rtk.Common.Int.{pos, negsuc}
use rtk.Bytes.{store_word, word_of}
use rtk.Kernel.State.{Kernel, Task, ready, reply_blocked, is_alive_state}
use rtk.Kernel.Tasks.{long_max, set_task_state}
use rtk.Kernel.Tasks.Alive.{
  Names, is_valid_tid-pos, is_task_alive-eq, get_task_state-eq, set_task_return_value-eq,
}
use rtk.Kernel.Tasks.Placement.{IsPlaced}
use rtk.Kernel.Tasks.States.{IsTask, state_lists, set_task_state_moves, task_at, task_set}
use rtk.Kernel.Communication.{reply_proxy, complete_reply}
use rtk.Kernel.Communication.Deliver.{copied, shorter, copy_message-eq, rebytes}

-- A task `i` with tid `b` that waits for a reply of at most `room` bytes.
pub record AwaitsReply (k : Kernel) (b i q room : ℕ) : Type 0 where
  pub task : IsTask k b i q
  pub small : b ≤ long_max
  pub waits : (k.tasks i).state ≡ reply_blocked
  pub from : (k.messages i).from_tid ≡ pos b
  pub size : (k.messages i).reply_buffer_size ≡ pos room

-- The kernel after the reply.
pub record Replied (v : ℕ → List ℕ) (k : Kernel) (c i reply len room : ℕ) (k' : Kernel)
    : Type 0 where
  pub tasks :
      (j : ℕ) → k'.tasks j ≡ (if j == i then record (k.tasks i) { state = ready } else k.tasks j)
  pub current : k'.current_task ≡ some c
  pub bytes :
      k'.bytes
      ≡ store_word
          (k.tasks i).sp
          (word_of (pos len))
          (copied (k.messages i).reply_buffer reply (shorter room len) k.bytes)
  pub placed : IsPlaced (state_lists (k.tasks i).priority c i ready v) k'

module _ {v : ℕ → List ℕ} {k : Kernel} {c b i q room : ℕ} (w : IsPlaced v k)
    (e : k.current_task ≡ some c) (h : AwaitsReply k b i q room) (reply len : ℕ) where
  abbrev filled : Kernel
  filled = record k { bytes = copied (k.messages i).reply_buffer reply (shorter room len) k.bytes }

  names : Names k b i
  names = record { index = h.task.index; small = h.small; holds = h.task.holds }

  to_complete :
      reply_proxy (pos b) reply (pos len) k ≡ complete_reply (k.messages i) reply (pos len) k
  unfolding reply_proxy
  to_complete =
      rw (is_valid_tid-pos b h.small, is_task_alive-eq names, get_task_state-eq names, h.waits)
        (rw h.task.index)

  complete_steps :
      (k1 : Kernel)
      → set_task_state (pos b) ready filled ≡ some k1
      → Names k1 b i
      → (k1.tasks i).state ≡ ready
      → complete_reply (k.messages i) reply (pos len) k
        ≡ some (
          if ltb room len then negsuc 3 else pos 0,
          record k1 { bytes = store_word (k1.tasks i).sp (word_of (pos len)) k1.bytes },
        )
  unfolding complete_reply
  complete_steps k1 e1 n1 alive =
      rw (h.from, h.size)
        (rw (copy_message-eq (k.messages i).reply_buffer reply room len k.bytes) (
          rw e1
            (rw (set_task_return_value-eq n1 (pos len) (ap is_alive_state alive)) (ground arith))))

-- ReplyProxy to a task that waits for its reply: that task is ready, at the end of its ready queue
-- unless it runs, and no other descriptor changes; as much of the reply as fits in its buffer is
-- copied there (nothing, if either buffer is null) and the reply's full size stands on its stack.
-- The result is -4 if the reply is larger than the buffer, and 0 if it fits.
pub reply_wakes :
    {v : ℕ → List ℕ} {k : Kernel} {c b i q room : ℕ} (reply len : ℕ)
    → IsPlaced v k
    → k.current_task ≡ some c
    → AwaitsReply k b i q room
    → (k' : Kernel) × (reply_proxy (pos b) reply (pos len) k
        ≡ some (if ltb room len then negsuc 3 else pos 0, k'))
      × Replied v k c i reply len room k'
reply_wakes {k} {b} {i} {q} reply len w e h =
    let k0 = filled w e h reply len in
    let s =
      set_task_state_moves {k = k0} {n = b} {i = i} {q = q} ready (rebytes k0.bytes w)
        (record { index = h.task.index; holds = h.task.holds; queued = h.task.queued }) e in
    let same : s.0.tasks i ≡ record (k.tasks i) { state = ready } =
      task_set k.tasks s.0.tasks i ready s.2 in
    let names1 : Names s.0 b i = record {
      index = h.task.index;
      small = h.small;
      holds = rw same h.task.holds;
    } in
    (
      record s.0 { bytes = store_word (s.0.tasks i).sp (word_of (pos len)) s.0.bytes },
      to_complete w e h reply len
          ∙ complete_steps w e h reply len s.0 s.1 names1 (ap (λ (t : Task). t.state) same),
      record {
        tasks = task_at k.tasks s.0.tasks i ready s.2;
        current = s.3;
        bytes = rw (same, s.4);
        placed = rebytes (store_word (s.0.tasks i).sp (word_of (pos len)) s.0.bytes) s.6;
      },
    )
