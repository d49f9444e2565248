-- ===== src/Queue.antt =====
-- lib/queue.c and lib/queue.h: intrusive doubly linked queues. Nodes and queue headers live in a
-- memory, at addresses; the null pointer is address 0. A function of the source that writes through
-- pointers returns the memory after its writes, made in the order of the source.
pub mod Segment
pub mod Writes
pub mod Store
pub mod Counting
pub mod Undo
pub mod Laws
pub mod Pass
mod Tests
use rtk.Common.{ℕ, Bool, true, false, ◌==◌, if◌then◌else◌}

abbrev pub null : ℕ
null = 0

-- `struct queue_node`
pub record QueueNode : Type 0 where
  pub next : ℕ
  pub prev : ℕ

-- `struct queue`
pub record Queue : Type 0 where
  pub first : ℕ
  pub last : ℕ

-- What is stored: the node at each node address, the header at each queue's address.
pub record Memory : Type 0 where
  pub node : ℕ → QueueNode
  pub queue : ℕ → Queue

abbrev pub update {ℓ} : {A : Type ℓ} → (ℕ → A) → ℕ → A → ℕ → A
update f i v j = if j == i then v else f j

-- Single writes.
abbrev pub set_next : ℕ → ℕ → Memory → Memory
set_next p v m = record m { node = update m.node p (record { next = v; prev = (m.node p).prev }) }

abbrev pub set_prev : ℕ → ℕ → Memory → Memory
set_prev p v m = record m { node = update m.node p (record { next = (m.node p).next; prev = v }) }

abbrev pub set_first : ℕ → ℕ → Memory → Memory
set_first q v m = record m {
  queue = update m.queue q (record { first = v; last = (m.queue q).last });
}

abbrev pub set_last : ℕ → ℕ → Memory → Memory
set_last q v m = record m {
  queue = update m.queue q (record { first = (m.queue q).first; last = v });
}

-- `if ( test ) { write }`
abbrev pub when : Bool → (Memory → Memory) → Memory → Memory
when true f m = f m
when false f m = m

unfoldable pub enqueue_queue : (queue node : ℕ) → Memory → Memory
enqueue_queue queue node m =
    let m1 = when ((m.queue queue).first == null) (set_first queue node) m in
    let m2 = if (m1.queue queue).last == null then m1 else set_next (m1.queue queue).last node m1 in
    let m3 = set_prev node (m2.queue queue).last m2 in
    let m4 = set_next node null m3 in set_last queue node m4

-- The address taken off the queue, null if it is empty.
unfoldable pub dequeue_queue : (queue : ℕ) → Memory → ℕ × Memory
dequeue_queue queue m =
    let dequeued = (m.queue queue).first in
    if dequeued == null
    then (null, m)
    else (let m1 =
          if (m.node dequeued).next == null then m else set_prev (m.node dequeued).next null m in
        let m2 = when ((m1.queue queue).last == dequeued) (set_last queue null) m1 in
        let m3 = set_first queue (m2.node dequeued).next m2 in
        let m4 = set_prev dequeued null m3 in (dequeued, set_next dequeued null m4))

unfoldable pub remove_queue_node : (queue node : ℕ) → Memory → Memory
remove_queue_node queue node m =
    let m1 = when ((m.queue queue).first == node) (set_first queue (m.node node).next) m in
    let m2 = when ((m1.queue queue).last == node) (set_last queue (m1.node node).prev) m1 in
    let m3 =
      if (m2.node node).next == null
      then m2
      else set_prev (m2.node node).next (m2.node node).prev m2 in
    let m4 =
      if (m3.node node).prev == null
      then m3
      else set_next (m3.node node).prev (m3.node node).next m3 in
    let m5 = set_prev node null m4 in set_next node null m5
