-- ===== src/Queue/Store.antt =====
-- A memory full of queues, seen as one list of addresses for each queue.
use rtk.Common.{
  ℕ, ◌<◌, ◌≡◌, ◌≢◌, ◌⊎◌, inl, inr, true, false, List, [], ◌∷◌, ◌++◌, arith, ◌==◌, has, erase,
  if◌then◌else◌, Bool-cases, has-append, has-erase, has-erase_ne,
}
use rtk.Queue.{null, Memory, update, enqueue_queue, remove_queue_node}
use rtk.Queue.Segment.{
  Dll, frame, null-not-mem, append-Dll, erase-Dll, last-has, next-mem, prev-mem, prev_of_first,
  next-ne, prev-ne, bypass,
}
use rtk.Queue.Writes.{node-enqueue, queue-enqueue, node-remove, node-remove_null, queue-remove}

-- Each queue's header leads through its list, no node is in two queues, and a node below `bound`
-- that is in none has null links.
pub record IsStore (bound : ℕ) (v : ℕ → List ℕ) (m : Memory) : Type 0 where
  pub linked : (q : ℕ) → Dll m.node null (m.queue q).first (m.queue q).last (v q)
  pub apart : (p q a : ℕ) → has a (v p) ≡ true → has a (v q) ≡ true → p ≡ q
  pub idle :
      (a : ℕ)
      → a < bound
      → ((q : ℕ) → has a (v q) ≡ false)
      → m.node a ≡ record { next = null; prev = null }

module _ {bound : ℕ} {v : ℕ → List ℕ} {m : Memory} (s : IsStore bound v m) (q a : ℕ) where
  -- `EnqueueQueue` of a node that is in no queue puts it at the end of that queue's list.
  pub enqueue-IsStore :
      a ≢ null
      → ((p : ℕ) → has a (v p) ≡ false)
      → IsStore bound (update v q (v q ++ a ∷ [])) (enqueue_queue q a m)
  enqueue-IsStore ne out = record {
    linked = λ p. elim (Bool-cases (p == q)) [
      | inl e ↦ ground (arith, here, queue-enqueue q a m p)
      | inr e ↦ ground (arith, there p e, queue-enqueue q a m p)
    ];
    apart = λ p r b hp hr. ground (
      arith,
      s.apart p r b,
      out p,
      out r,
      has-append b (v q) (a ∷ []),
      s.apart p q b,
      s.apart r q b,
      s.apart q r b,
    );
    idle = λ b lt h. ground (
      arith,
      node-enqueue q a m b,
      fresh_last,
      h q,
      has-append b (v q) (a ∷ []),
      s.idle b lt (λ p. ground (arith, h p, h q, has-append b (v q) (a ∷ []))),
    );
  }
    where
      fresh_last : (m.queue q).last ≢ null → has (m.queue q).last (v q) ≡ true
      fresh_last = last-has m.node (m.queue q).first (m.queue q).last (v q) (s.linked q)

      no_null : has null (v q) ≡ false
      no_null = null-not-mem m.node null (m.queue q).first (m.queue q).last (v q) (s.linked q)

      here :
          Dll
            (enqueue_queue q a m).node
            null
            (if (m.queue q).first == null then a else (m.queue q).first)
            a
            (v q ++ a ∷ [])
      here =
          append-Dll m.node (enqueue_queue q a m).node null (m.queue q).first (m.queue q).last a
            (v q) (s.linked q) (out q) ne (ground (arith, node-enqueue q a m a))
            (λ x h. ground (arith, node-enqueue q a m x, out q, no_null))

      there :
          (p : ℕ)
          → (p == q) ≡ false
          → Dll (enqueue_queue q a m).node null (m.queue p).first (m.queue p).last (v p)
      there p e =
          frame m.node (enqueue_queue q a m).node null (m.queue p).first (m.queue p).last (v p)
            (s.linked p)
            (λ z h. ground (arith, node-enqueue q a m z, out p, fresh_last, s.apart p q z))

  -- `RemoveQueueNode` of a node of the queue takes it out of that queue's list.
  pub remove-IsStore :
      has a (v q) ≡ true → IsStore bound (update v q (erase a (v q))) (remove_queue_node q a m)
  remove-IsStore mem = record {
    linked = λ p. elim (Bool-cases (p == q)) [
      | inl e ↦ ground (arith, here, queue-remove q a m p)
      | inr e ↦ ground (arith, there p e, queue-remove q a m p)
    ];
    apart = λ p r b hp hr.
        ground
          (arith, s.apart p r b, s.apart p q b, s.apart r q b, s.apart q r b, has-erase a b (v q));
    idle = λ b lt h. elim (Bool-cases (b == a)) [
      | inl e ↦ ground (arith, node_at a, a_null)
      | inr e ↦ idle_other b lt (ground arith) h
    ];
  }
    where
      far_next : (m.node a).next ≢ a
      far_next = next-ne m.node null (m.queue q).first (m.queue q).last a (v q) (s.linked q) mem

      no_null : (p : ℕ) → has null (v p) ≡ false
      no_null p = null-not-mem m.node null (m.queue p).first (m.queue p).last (v p) (s.linked p)

      far_prev : (m.node a).prev ≢ a
      far_prev =
          prev-ne m.node null (m.queue q).first (m.queue q).last a (v q) (s.linked q) (no_null q)
            mem

      a_null : a ≢ null
      a_null = ground (arith, no_null q)

      node_at :
          (z : ℕ)
          → z ≢ null
          → (remove_queue_node q a m).node z
            ≡ (if z == a then record { next = null; prev = null } else bypass m.node a z)
      node_at = node-remove q a m far_next far_prev

      -- Neighbours stand in the same list.
      next_in : ((m.node a).next ≡ null) ⊎ (has (m.node a).next (v q) ≡ true)
      next_in = next-mem m.node null (m.queue q).first (m.queue q).last a (v q) (s.linked q) mem

      prev_in : ((m.node a).prev ≡ null) ⊎ (has (m.node a).prev (v q) ≡ true)
      prev_in = ground (
        arith,
        prev_of_first m.node null (m.queue q).first (m.queue q).last a (v q) (s.linked q) mem,
        prev-mem m.node null (m.queue q).first (m.queue q).last a (v q) (s.linked q) mem,
      )

      here :
          Dll
            (remove_queue_node q a m).node
            null
            (if (m.queue q).first == a then (m.node a).next else (m.queue q).first)
            (if (m.queue q).last == a then (m.node a).prev else (m.queue q).last)
            (erase a (v q))
      here =
          erase-Dll m.node (remove_queue_node q a m).node null (m.queue q).first (m.queue q).last a
            (v q) (s.linked q) (no_null q) mem (λ z h ne. ground (arith, node_at z, no_null q))

      there :
          (p : ℕ)
          → (p == q) ≡ false
          → Dll (remove_queue_node q a m).node null (m.queue p).first (m.queue p).last (v p)
      there p e =
          frame m.node (remove_queue_node q a m).node null (m.queue p).first (m.queue p).last (v p)
            (s.linked p)
            (λ z h.
              ground (arith, node_at z, no_null p, next_in, prev_in, s.apart p q z, s.apart p q a))

      idle_other :
          (b : ℕ)
          → b < bound
          → b ≢ a
          → ((p : ℕ) → has b (update v q (erase a (v q)) p) ≡ false)
          → (remove_queue_node q a m).node b ≡ record { next = null; prev = null }
      idle_other b lt ne h =
          let out : (p : ℕ) → has b (v p) ≡ false =
            λ p. ground (arith, h p, h q, has-erase_ne a b (v q)) in
          elim (Bool-cases (b == null)) [
            | inl e ↦ ground (arith, node-remove_null q a m, s.idle b lt out)
            | inr e ↦ ground (arith, node_at b, s.idle b lt out, out q, next_in, prev_in)
          ]
