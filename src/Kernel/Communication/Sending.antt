-- ===== src/Kernel/Communication/Sending.antt =====
-- SendProxy to a task that waits in ReceiveProxy, as its callers see it.
use rtk.Common.{ℕ, ◌≡◌, ◌≢◌, ap, ◌∙◌, subst₂, some, arith, ◌==◌, if◌then◌else◌, ==-refl, List}
use rtk.Common.Int.{ℤ, pos}
use rtk.Bytes.{store_word, word_of}
use rtk.Kernel.State.{Kernel, Task, Message, ready, receive_blocked, reply_blocked}
use rtk.Kernel.Tasks.Placement.{IsPlaced}
use rtk.Kernel.Tasks.States.{state_lists}
use rtk.Kernel.Communication.{send_proxy}
use rtk.Kernel.Communication.Deliver.{Delivered, copied, shorter}
use rtk.Kernel.Communication.Rendezvous.{IsWaiting, after_take, still_there, delivered, handed}

-- The kernel after a rendezvous of the caller `c` (tid `a`) and the waiting task `i`.
pub record Met (v : ℕ → List ℕ) (k : Kernel) (a c i rl msg ml reply : ℕ) (rlen : ℤ) (k' : Kernel)
    : Type 0 where
  pub tasks :
      (j : ℕ)
      → k'.tasks j ≡ (
          if j == i
          then record (k.tasks i) { state = ready }
          else if j == c
          then record (k.tasks c) { state = reply_blocked }
          else k.tasks j)
  pub bytes :
      k'.bytes
      ≡ store_word (k.tasks i).sp (word_of (pos ml)) (
          copied
            (k.messages i).receive_buffer
            msg
            (shorter rl ml)
            (store_word (k.messages i).put_tid (word_of (pos a)) k.bytes))
  pub current : k'.current_task ≡ some c
  pub reply_to : (k'.messages c).reply_buffer ≡ reply
  pub reply_room : (k'.messages c).reply_buffer_size ≡ rlen
  pub reply_from : (k'.messages c).from_tid ≡ pos a
  pub placed :
      IsPlaced
        (state_lists
          (k.tasks i).priority
          c
          i
          ready
          (state_lists (k.tasks c).priority c c reply_blocked v))
        k'

-- Two descriptors' states, one of them set twice.
regroup :
    (f : ℕ → Task) (c i j : ℕ)
    → i ≢ c
    → let g = λ (x : ℕ). if x == c then record (f c) { state = receive_blocked } else f x in
      ◌≡◌ {A = Task}
        (if j == i
          then record (g i) { state = ready }
          else if j == c
          then record (g c) { state = reply_blocked }
          else g j)
        (if j == i
          then record (f i) { state = ready }
          else if j == c
          then record (f c) { state = reply_blocked }
          else f j)
regroup f c i j ne = ground arith

-- SendProxy to a task that waits for a message, when nobody else has sent to it: it returns the
-- message's size. The receiver is ready, at the end of its ready queue, the sender waits for the
-- reply, in no queue while it runs, and no other descriptor changes. In memory the sender's tid
-- stands where the receiver asked for it, as much of the message as fits in the receiver's buffer
-- (nothing, if either buffer is null), and the message's full size on the receiver's stack.
pub send_to_waiting :
    {v : ℕ → List ℕ} {k : Kernel} {a c qa b i qb rl : ℕ} (junk : Message) (msg ml reply : ℕ)
    (rlen : ℤ)
    → IsWaiting v k a c qa b i qb rl
    → (k' : Kernel) × (send_proxy junk (pos b) msg (pos ml) reply rlen k ≡ some (pos ml, k'))
      × Met v k a c i rl msg ml reply rlen k'
send_to_waiting {v} {k} {a} {c} {qa} {b} {i} {qb} {rl} junk msg ml reply rlen h = (
  d.0,
  d.1,
  record {
    tasks = λ j. d.2.tasks j ∙ regroup k.tasks c i j h.apart;
    bytes =
        d.2.bytes
        ∙ ap
            (λ (t : Task). store_word t.sp (word_of (pos ml)) (
              copied (k.messages i).receive_buffer msg (shorter rl ml)
                (store_word (k.messages i).put_tid (word_of (pos a)) k.bytes)))
            theirs;
    current = d.2.current;
    reply_to = rw d.2.messages (rw (==-refl c));
    reply_room = rw d.2.messages (rw (==-refl c));
    reply_from = rw d.2.messages (rw (==-refl c));
    placed =
        subst₂
          (λ (t u : Task).
            IsPlaced (state_lists t.priority c i ready (state_lists u.priority c c reply_blocked v))
              d.0)
          theirs mine' d.2.placed;
  },
)
  where
    d :
        (k' : Kernel) × (send_proxy junk (pos b) msg (pos ml) reply rlen k ≡ some (pos ml, k'))
        × Delivered v
            (after_take h junk msg ml reply rlen)
            (handed junk k a b i msg ml reply rlen)
            c
            a
            c
            i
            ml
            rl
            k'
    d = delivered h junk msg ml reply rlen

    theirs : (after_take h junk msg ml reply rlen).tasks i ≡ k.tasks i
    theirs = still_there h junk msg ml reply rlen

    mine' :
        (after_take h junk msg ml reply rlen).tasks c
        ≡ record (k.tasks c) { state = receive_blocked }
    mine' = rw (==-refl c)
