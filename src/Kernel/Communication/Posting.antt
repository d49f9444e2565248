-- ===== src/Kernel/Communication/Posting.antt =====
-- SendProxy to a task that does not wait for a message.
use rtk.Common.{
  ℕ, ◌≡◌, ◌≢◌, ◌∙◌, ap, refl, true, false, some, List, [], ◌∷◌, ◌++◌, arith, ◌==◌, if◌then◌else◌,
  Bool-cases, inl, inr, has, has-append, sym,
}
use rtk.Common.Int.{ℤ, pos}
use rtk.Queue.{null, Memory, update, set_next, set_prev, enqueue_queue}
use rtk.Queue.Pass.{relink}
use rtk.Queue.Store.{IsStore, enqueue-IsStore}
use rtk.Kernel.State.{
  Kernel, Message, send_blocked, receive_blocked, same_state, is_alive_state, set_task,
  message_node, msg_queue, set_memory, task_node,
}
use rtk.Kernel.Tasks.{get_task_state}
use rtk.Kernel.Tasks.Alive.{
  get_current_tid-eq, set_current_task_state-eq, Names, is_valid_tid-pos, is_task_alive-eq,
  get_task_state-eq,
}
use rtk.Kernel.Tasks.Placement.{IsPlaced, node_bound}
use rtk.Kernel.Tasks.States.{IsTask}
use rtk.Kernel.Communication.{send_proxy, sent_message, set_message}

-- A caller `c` with tid `a`, whose message node is in no queue, and a task `i` with tid `b` that is
-- alive and does not wait for a message.
pub record IsBusy (v : ℕ → List ℕ) (k : Kernel) (a c qa b i : ℕ) : Type 0 where
  pub placed : IsPlaced v k
  pub running : k.current_task ≡ some c
  pub sender : IsTask k a c qa
  pub receiver : Names k b i
  pub alive : is_alive_state (k.tasks i).state ≡ true
  pub busy : same_state (k.tasks i).state send_blocked ≡ false
  pub unposted : (p : ℕ) → has (message_node c) (v p) ≡ false

-- The message node is the last of the receiver's queue.
abbrev pub posted_lists : (c i : ℕ) → (ℕ → List ℕ) → ℕ → List ℕ
posted_lists c i v = update v (msg_queue i) (v (msg_queue i) ++ message_node c ∷ [])

-- Every other node stands where it stood.
pub has-posted :
    (c i x p : ℕ) (v : ℕ → List ℕ) → x ≢ message_node c → has x (posted_lists c i v p) ≡ has x (v p)
has-posted c i x p v ne = ground (arith, has-append x (v (msg_queue i)) (message_node c ∷ []))

-- The kernel after the caller `c` has sent to the busy task `i`.
pub record Posted (v : ℕ → List ℕ) (k : Kernel) (c i : ℕ) (m : Message) (k' : Kernel) : Type 0 where
  pub tasks :
      (j : ℕ)
      → k'.tasks j ≡ (if j == c then record (k.tasks c) { state = receive_blocked } else k.tasks j)
  pub messages : (j : ℕ) → k'.messages j ≡ (if j == c then m else k.messages j)
  pub current : k'.current_task ≡ k.current_task
  pub bytes : k'.bytes ≡ k.bytes
  pub placed : IsPlaced (posted_lists c i v) k'

module _ {v : ℕ → List ℕ} {k : Kernel} {a c qa b i : ℕ} (h : IsBusy v k a c qa b i)
    (m : Message) where
  abbrev relinked : Memory
  relinked = set_prev (message_node c) null (set_next (message_node c) null k.memory)

  -- The message is posted, its sender not yet blocked.
  abbrev noted : Kernel
  noted = set_memory (enqueue_queue (msg_queue i) (message_node c) relinked) (set_message c m k)

  abbrev after : Kernel
  after = set_task c (record (k.tasks c) { state = receive_blocked }) noted

  after-IsStore : IsStore node_bound (posted_lists c i v) after.memory
  after-IsStore =
      enqueue-IsStore (relink h.placed.store (message_node c) null null (omega arith) h.unposted)
        (msg_queue i) (message_node c) (omega arith) h.unposted

  after-IsPlaced : IsPlaced (posted_lists c i v) after
  after-IsPlaced = record {
    store = after-IsStore;
    own = λ j p lt g.
        let old : has (task_node j) (v p) ≡ true =
          sym (has-posted c i (task_node j) p v (omega arith)) ∙ g in
        ground (arith, h.placed.own j p lt, h.placed.off c p h.running);
    kinds = λ q x le g. ground (arith, h.placed.kinds q x le);
    off = λ d p e.
        let lt = h.placed.current_in d e in
        has-posted c i (task_node d) p v (omega arith) ∙ h.placed.off d p e;
    current_in = h.placed.current_in;
    slots = λ j n lt g. ground (arith, h.placed.slots j n lt);
  }

  -- The receiver does not wait, whether it is the caller or not.
  still_busy :
      get_task_state (pos b) after ≡ some (if i == c then receive_blocked else (k.tasks i).state)
  still_busy =
      get_task_state-eq {k = after} {n = b} {i = i} (record {
        index = h.receiver.index;
        small = h.receiver.small;
        holds = ground (arith, h.receiver.holds);
      })
      ∙ ap some (ground arith)

  no_rendezvous :
      same_state (if i == c then receive_blocked else (k.tasks i).state) send_blocked ≡ false
  no_rendezvous = elim (Bool-cases (i == c)) [ inl e ↦ rw e refl | inr e ↦ rw e h.busy ]

-- SendProxy to a task that is alive and does not wait for a message, be it the caller itself: it returns 0. The message
-- stands at the end of the receiver's queue; the caller waits for it to be received, in no queue
-- while it runs. No other descriptor and no byte changes, nor does another message, and the kernel is placed.
pub send_to_busy :
    {v : ℕ → List ℕ} {k : Kernel} {a c qa b i : ℕ} (junk : Message) (msg : ℕ) (ml : ℤ) (reply : ℕ)
    (rl : ℤ)
    → IsBusy v k a c qa b i
    → (k' : Kernel) × (send_proxy junk (pos b) msg ml reply rl k ≡ some (pos 0, k'))
      × Posted v k c i (sent_message junk (pos a) (pos b) msg ml reply rl) k'
unfolding send_proxy
send_to_busy {v} {k} {a} {c} {qa} {b} {i} junk msg ml reply rl h =
    let m = sent_message junk (pos a) (pos b) msg ml reply rl in
    (
      after h m,
      rw (is_valid_tid-pos b h.receiver.small, is_task_alive-eq h.receiver, h.alive)
          (rw (get_current_tid-eq k c a h.running h.sender.holds) (
            rw (h.sender.index, h.receiver.index)
              (rw (set_current_task_state-eq (noted h m) c receive_blocked h.running)
                (rw (still_busy h m) (rw (no_rendezvous h m) refl))))),
      record {
        tasks = λ j. refl;
        messages = λ j. refl;
        current = refl;
        bytes = refl;
        placed = after-IsPlaced h m;
      },
    )
