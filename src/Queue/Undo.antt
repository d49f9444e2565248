-- ===== src/Queue/Undo.antt =====
-- RemoveQueueNode after EnqueueQueue.
use rtk.Common.{
  ℕ, ◌<◌, ◌≡◌, ◌≢◌, subst, false, List, [], ◌∷◌, arith, ◌==◌, Bool-cases, if◌then◌else◌, inl, inr,
  ◌⊎◌, has, fun_ext,
}
use rtk.Queue.{null, QueueNode, Memory, enqueue_queue, remove_queue_node}
use rtk.Queue.Segment.{Dll, first-has, last-has, bypass}
use rtk.Queue.Writes.{node-enqueue, queue-enqueue, node-remove, node-remove_null, queue-remove}
use rtk.Queue.Store.{IsStore}

last_next :
    (n : ℕ → QueueNode) (before first last x : ℕ) (xs : List ℕ)
    → Dll n before first last (x ∷ xs)
    → ((n last).next ≡ null) × (last ≢ null)
last_next n before first last x [] d = ground arith
last_next n before first last x (y ∷ ys) d = last_next n x (n x).next last y ys d.4

-- A queue is empty, or its last node is one and has no next.
header-cases :
    (n : ℕ → QueueNode) (first last : ℕ) (xs : List ℕ)
    → Dll n null first last xs
    → ((first ≡ null) × (last ≡ null)) ⊎ ((first ≢ null) × (last ≢ null) × ((n last).next ≡ null))
header-cases n first last [] d = inl (d.0, d.1)
header-cases n first last (x ∷ xs) d =
    let (ends, ne) = last_next n null first last x xs d in inr (ground arith, ne, ends)

-- In a memory whose queues hold the lists `v`, RemoveQueueNode of a node that EnqueueQueue has just put
-- on the same queue, the node being below `bound` and in no queue before, gives back the memory as it
-- was.
pub remove-enqueue :
    {bound : ℕ} {v : ℕ → List ℕ} {m : Memory} (q a : ℕ)
    → IsStore bound v m
    → a ≢ null
    → a < bound
    → ((p : ℕ) → has a (v p) ≡ false)
    → remove_queue_node q a (enqueue_queue q a m) ≡ m
remove-enqueue {v} {m} q a s ne lt out = λ i. record { node = nodes i; queue = queues i }
  where
    alone : m.node a ≡ record { next = null; prev = null }
    alone = s.idle a lt out

    not_first : (m.queue q).first ≢ a
    not_first =
        ground (
          arith,
          out q,
          first-has m.node null (m.queue q).first (m.queue q).last (v q) (s.linked q),
        )

    not_last : (m.queue q).last ≢ a
    not_last =
        ground (arith, out q, last-has m.node (m.queue q).first (m.queue q).last (v q) (s.linked q))

    header :
        ((((m.queue q).first ≡ null) × ((m.queue q).last ≡ null)))
        ⊎ (((m.queue q).first ≢ null)
            × ((m.queue q).last ≢ null)
            × ((m.node (m.queue q).last).next ≡ null))
    header = header-cases m.node (m.queue q).first (m.queue q).last (v q) (s.linked q)

    linked_a : (enqueue_queue q a m).node a ≡ record { next = null; prev = (m.queue q).last }
    linked_a = ground (arith, node-enqueue q a m a)

    at_null : (remove_queue_node q a (enqueue_queue q a m)).node null ≡ m.node null
    at_null = ground (arith, node-remove_null q a (enqueue_queue q a m) ne, node-enqueue q a m null)

    elsewhere :
        (z : ℕ)
        → z ≢ null
        → (remove_queue_node q a (enqueue_queue q a m)).node z ≡ (
            if z == a
            then record { next = null; prev = null }
            else bypass (enqueue_queue q a m).node a z)
    elsewhere z far =
        node-remove q a (enqueue_queue q a m) (ground (arith, linked_a))
          (ground (arith, linked_a, not_last)) z far

    nodes : (remove_queue_node q a (enqueue_queue q a m)).node ≡ m.node
    nodes = fun_ext (λ z. elim (Bool-cases (z == null)) [
      | inl e ↦
          let same : null ≡ z = ground arith in
          subst (λ z. (remove_queue_node q a (enqueue_queue q a m)).node z ≡ m.node z) same at_null
      | inr e ↦ elim header [
        | inl h ↦ ground (arith, elsewhere z, linked_a, alone, node-enqueue q a m z, not_last)
        | inr h ↦ ground (arith, elsewhere z, linked_a, alone, node-enqueue q a m z, not_last)
      ]
    ])

    queues : (remove_queue_node q a (enqueue_queue q a m)).queue ≡ m.queue
    queues = fun_ext (λ r. ground (
      arith,
      queue-remove q a (enqueue_queue q a m) r,
      queue-enqueue q a m r,
      queue-enqueue q a m q,
      linked_a,
      header,
      not_first,
      not_last,
    ))
