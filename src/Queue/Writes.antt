-- ===== src/Queue/Writes.antt =====
-- What the functions of lib/queue.c leave at each address.
use rtk.Common.{ℕ, ◌≡◌, ◌≢◌, fun_ext, arith, ◌==◌, if◌then◌else◌, ◌&&◌, not}
use rtk.Queue.{null, Memory, enqueue_queue, dequeue_queue, remove_queue_node}
use rtk.Queue.Segment.{bypass}

module _ (q a : ℕ) (m : Memory) where
  pub node-enqueue :
      (z : ℕ)
      → (enqueue_queue q a m).node z ≡ (
          if z == a
          then record { next = null; prev = (m.queue q).last }
          else if not ((m.queue q).last == null) && z == (m.queue q).last
          then record { next = a; prev = (m.node z).prev }
          else m.node z)
  unfolding enqueue_queue
  node-enqueue z = ground arith

  pub queue-enqueue :
      (r : ℕ)
      → (enqueue_queue q a m).queue r ≡ (
          if r == q
          then record {
            first = if (m.queue q).first == null then a else (m.queue q).first;
            last = a;
          }
          else m.queue r)
  unfolding enqueue_queue
  queue-enqueue r = ground arith

  -- A node that is not its own neighbour is unlinked.
  pub node-remove :
      (m.node a).next ≢ a
      → (m.node a).prev ≢ a
      → (z : ℕ) → z ≢ null
      → (remove_queue_node q a m).node z
        ≡ (if z == a then record { next = null; prev = null } else bypass m.node a z)
  unfolding remove_queue_node
  node-remove h k z ne = ground arith

  pub node-remove_null : a ≢ null → (remove_queue_node q a m).node null ≡ m.node null
  unfolding remove_queue_node
  node-remove_null h = ground arith

  pub queue-remove :
      (r : ℕ)
      → (remove_queue_node q a m).queue r ≡ (
          if r == q
          then record {
            first = if (m.queue q).first == a then (m.node a).next else (m.queue q).first;
            last = if (m.queue q).last == a then (m.node a).prev else (m.queue q).last;
          }
          else m.queue r)
  unfolding remove_queue_node
  queue-remove r = ground arith

-- Taking the first node off is unlinking it, where nothing stands before it.
pub dequeue-eq-remove :
    (q : ℕ) (m : Memory)
    → (m.queue q).first ≢ null
    → (m.node (m.queue q).first).prev ≡ null
    → (m.node (m.queue q).first).next ≢ (m.queue q).first
    → dequeue_queue q m ≡ ((m.queue q).first, remove_queue_node q (m.queue q).first m)
unfolding dequeue_queue remove_queue_node
dequeue-eq-remove q m ne head far = λ i. (same i, record { node = nodes i; queue = queues i })
  where
    same : (dequeue_queue q m).0 ≡ (m.queue q).first
    same = ground arith

    nodes : (dequeue_queue q m).1.node ≡ (remove_queue_node q (m.queue q).first m).node
    nodes = fun_ext (λ z. ground arith)

    queues : (dequeue_queue q m).1.queue ≡ (remove_queue_node q (m.queue q).first m).queue
    queues = fun_ext (λ r. ground arith)
