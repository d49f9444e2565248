-- ===== src/Semaphore.antt =====
-- usr/semaphore.c: SemInit and the loop of SemaphoreServer. The waiting tasks' nodes stand in the
-- queue of lib/queue.c that the semaphore holds. The result `none` is a null pointer read, or an
-- index outside `nodes`.
pub mod Laws
pub mod Service
mod Tests
use rtk.Common.{ℕ, ◌+◌, ◌-◌, Option, none, some, List, [], ◌∷◌, ltb, ◌==◌, if◌then◌else◌}
use rtk.Common.Int.{ℤ, pos, negsuc, ◌+ℤ◌, ltb_ℤ, leb_ℤ}
use rtk.Queue.{null, Memory, set_first, set_last, enqueue_queue, dequeue_queue}
use rtk.Kernel.State.{max_tasks}

-- The memory, the counter of each semaphore (a semaphore is known by the address of its queue), and
-- the field `tid` of each element of `nodes`.
pub record SemaphoreServer : Type 0 where
  pub memory : Memory
  pub counter : ℕ → ℤ
  pub tids : ℕ → ℕ

-- The address of `nodes[i]`, and the index at an address.
abbrev pub sem_node : ℕ → ℕ
sem_node i = i + 1

abbrev pub sem_index : ℕ → ℕ
sem_index p = p - 1

unfoldable pub sem_init : (s : ℕ) (initial : ℤ) → SemaphoreServer → SemaphoreServer
sem_init s initial w = record w {
  counter = λ p. if p == s then initial else w.counter p;
  memory = set_last s null (set_first s null w.memory);
}

-- `enum SemReqType`, with the semaphore; `other` is what the `default` case gets.
pub data SemReq : Type 0 where
  sem_v sem_p : ℕ → SemReq
  other : SemReq

abbrev pub set_counter : ℕ → ℤ → SemaphoreServer → SemaphoreServer
set_counter s n w = record w { counter = λ p. if p == s then n else w.counter p }

unfoldable pub take_waiting : ℕ → SemaphoreServer → Option (List ℕ × SemaphoreServer)
take_waiting s w =
    let taken = dequeue_queue s w.memory in
    if taken.0 == null
    then none
    else some (w.tids (sem_index taken.0) ∷ [], record w { memory = taken.1 })

-- One round of the loop: the tids that it replies to, and the state that it leaves.
unfoldable pub semaphore_server :
    (sender_tid : ℕ) → SemReq → SemaphoreServer → Option (List ℕ × SemaphoreServer)
semaphore_server sender_tid (sem_v s) w =
    let counted = set_counter s (w.counter s +ℤ negsuc 0) w in
    if ltb_ℤ (w.counter s +ℤ negsuc 0) (pos 0)
    then (if ltb sender_tid max_tasks
        then some (
          [],
          record counted {
            tids = λ i. if i == sender_tid then sender_tid else w.tids i;
            memory = enqueue_queue s (sem_node sender_tid) w.memory;
          },
        )
        else none)
    else some ([], counted)
semaphore_server sender_tid (sem_p s) w =
    let counted = set_counter s (w.counter s +ℤ pos 1) w in
    if leb_ℤ (w.counter s +ℤ pos 1) (pos 0) then take_waiting s counted else some ([], counted)
semaphore_server sender_tid other w = some ([], w)
