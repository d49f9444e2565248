-- ===== src/Queue/Laws.antt =====
-- What the functions of lib/queue.c promise to their callers, in a memory full of queues.
use rtk.Common.{
  ℕ, ◌<◌, ◌≡◌, refl, ◌≢◌, true, false, List, [], ◌∷◌, ◌++◌, fun_ext, arith, has, erase,
  erase_absent, Bool-cases, inl, inr, subst, sym, ◌==◌,
}
use rtk.Queue.{null, Memory, update, enqueue_queue, dequeue_queue, remove_queue_node}
use rtk.Queue.Segment.{Dll, next-ne, first-has, last-has}
use rtk.Queue.Writes.{dequeue-eq-remove}
use rtk.Queue.Store.{IsStore, enqueue-IsStore, remove-IsStore}

-- In a memory whose queues hold the lists `v`, EnqueueQueue of a node that is in no queue gives a
-- memory whose queues hold `v` with the node at the end of that queue's list.
pub enqueue_append :
    {bound : ℕ} {v : ℕ → List ℕ} {m : Memory} (q a : ℕ)
    → IsStore bound v m
    → a ≢ null
    → ((p : ℕ) → has a (v p) ≡ false)
    → IsStore bound (update v q (v q ++ a ∷ [])) (enqueue_queue q a m)
enqueue_append q a s ne out = enqueue-IsStore s q a ne out

-- RemoveQueueNode of a node below `bound` that is in no queue changes nothing, whatever queue it is
-- called on: the node's links are null already, and no header names it.
pub remove_idle :
    {bound : ℕ} {v : ℕ → List ℕ} {m : Memory} (q a : ℕ)
    → IsStore bound v m
    → a ≢ null
    → a < bound
    → ((p : ℕ) → has a (v p) ≡ false)
    → remove_queue_node q a m ≡ m
unfolding remove_queue_node
remove_idle {v} {m} q a s ne lt out = λ i. record { node = nodes i; queue = queues i }
  where
    alone : m.node a ≡ record { next = null; prev = null }
    alone = s.idle a lt out

    not_first : (m.queue q).first ≢ a
    not_first =
        ground (
          arith,
          out q,
          first-has m.node null (m.queue q).first (m.queue q).last (v q) (s.linked q),
        )

    not_last : (m.queue q).last ≢ a
    not_last =
        ground (arith, out q, last-has m.node (m.queue q).first (m.queue q).last (v q) (s.linked q))

    nodes : (remove_queue_node q a m).node ≡ m.node
    nodes = fun_ext (λ z. ground (arith, alone, not_first, not_last))

    queues : (remove_queue_node q a m).queue ≡ m.queue
    queues = fun_ext (λ r. ground (arith, alone, not_first, not_last))

dequeue_empty :
    {bound : ℕ} {v : ℕ → List ℕ} {m : Memory} (q : ℕ)
    → IsStore bound v m
    → v q ≡ []
    → dequeue_queue q m ≡ (null, m)
unfolding dequeue_queue
dequeue_empty {m} q s e =
    let d : Dll m.node null (m.queue q).first (m.queue q).last [] = rw e at (s.linked q) in rw d.0

-- DequeueQueue of a queue that holds `x ∷ xs`, in a memory whose queues hold the lists `v`, gives
-- `x` and leaves a memory whose queues hold `v` with `xs` for that queue.
pub dequeue_cons :
    {bound : ℕ} {v : ℕ → List ℕ} {m : Memory} (q x : ℕ) (xs : List ℕ)
    → IsStore bound v m
    → v q ≡ x ∷ xs
    → ((dequeue_queue q m).0 ≡ x) × IsStore bound (update v q xs) (dequeue_queue q m).1
dequeue_cons {v} {m} q x xs s e =
    let d : Dll m.node null (m.queue q).first (m.queue q).last (x ∷ xs) = rw e at (s.linked q) in
    let far = next-ne m.node null (m.queue q).first (m.queue q).last x (x ∷ xs) d (ground arith) in
    let run : dequeue_queue q m ≡ (x, remove_queue_node q x m) =
      rw (← d.0) (dequeue-eq-remove q m (ground arith) (ground arith) (ground arith)) in
    let gone = remove-IsStore s q x (rw e (ground arith)) in
    let head : erase x (v q) ≡ xs = rw e (ground arith) in rw run (refl, rw head at gone)

-- Both cases of DequeueQueue.
pub dequeue_head :
    {bound : ℕ} {v : ℕ → List ℕ} {m : Memory} (q : ℕ)
    → IsStore bound v m
    → (v q ≡ [] → dequeue_queue q m ≡ (null, m))
      × ((x : ℕ) (xs : List ℕ)
          → v q ≡ x ∷ xs
          → ((dequeue_queue q m).0 ≡ x) × IsStore bound (update v q xs) (dequeue_queue q m).1)
dequeue_head q s = (λ e. dequeue_empty q s e, λ x xs e. dequeue_cons q x xs s e)

-- RemoveQueueNode of a node that is in the queue, wherever it stands there, gives a memory whose
-- queues hold `v` with that node erased from the queue's list.
pub remove_erase :
    {bound : ℕ} {v : ℕ → List ℕ} {m : Memory} (q a : ℕ)
    → IsStore bound v m
    → has a (v q) ≡ true
    → IsStore bound (update v q (erase a (v q))) (remove_queue_node q a m)
remove_erase q a s mem = remove-IsStore s q a mem

-- Every queue's list less the node.
abbrev pub without : ℕ → (ℕ → List ℕ) → ℕ → List ℕ
without a v q = erase a (v q)

-- RemoveQueueNode on the only queue that the node may be in: afterwards it is in none.
pub remove_own :
    {bound : ℕ} {v : ℕ → List ℕ} {m : Memory} (q a : ℕ)
    → IsStore bound v m
    → a ≢ null
    → a < bound
    → ((p : ℕ) → has a (v p) ≡ true → p ≡ q)
    → IsStore bound (without a v) (remove_queue_node q a m)
remove_own {bound} {v} {m} q a s ne lt own = elim (Bool-cases (has a (v q))) [
  | inl inside ↦
      subst (λ w. IsStore bound w (remove_queue_node q a m))
        (fun_ext (λ p. elim (Bool-cases (p == q)) [
          | inl e ↦ ground arith
          | inr e ↦ ground (arith, erase_absent a (v p), own p, Bool-cases (has a (v p)))
        ]))
        (remove-IsStore s q a inside)
  | inr outside ↦
      let out : (p : ℕ) → has a (v p) ≡ false =
        λ p. ground (arith, own p, outside, Bool-cases (has a (v p))) in
      rw (remove_idle q a s ne lt out)
        (subst (λ w. IsStore bound w m) (fun_ext (λ p. sym (erase_absent a (v p) (out p)))) s)
]
