-- ===== src/Semaphore/Laws.antt =====
-- A semaphore's counter and its waiting tasks.
use rtk.Common.{
  ℕ, suc, ◌+◌, ◌-◌, ◌<◌, ◌≡◌, refl, sym, true, false, some, List, [], ◌∷◌, ◌++◌, ltb, arith, ◌==◌,
  if◌then◌else◌, Bool-cases, inl, inr, has, has-append, length, length-append,
}
use rtk.Common.Int.{pos, negsuc, neg_part, ◌+ℤ◌, ltb_ℤ, leb_ℤ}
use rtk.Queue.{null, update, enqueue_queue, dequeue_queue}
use rtk.Queue.Store.{IsStore, enqueue-IsStore}
use rtk.Queue.Laws.{dequeue_cons}
use rtk.Kernel.State.{max_tasks}
use rtk.Semaphore.{
  SemaphoreServer, sem_node, sem_v, sem_p, set_counter, take_waiting, semaphore_server,
}

-- The queues hold the lists `v` of nodes, every waiting task's node holds its tid, and as many
-- tasks wait for a semaphore as its counter is below 0.
pub record IsSemaphore (v : ℕ → List ℕ) (w : SemaphoreServer) : Type 0 where
  pub store : IsStore (max_tasks + 1) v w.memory
  pub named : (i s : ℕ) → has (sem_node i) (v s) ≡ true → w.tids i ≡ i
  pub counted : (s : ℕ) → length (v s) ≡ neg_part (w.counter s)

-- SemV by a task that waits for nothing: nobody is answered; if the counter was positive it is one
-- less and no queue changes, and else the task waits at the end of the semaphore's queue.
pub sem_v_lem :
    {v : ℕ → List ℕ} {w : SemaphoreServer} (t s : ℕ)
    → IsSemaphore v w
    → t < max_tasks
    → ((p : ℕ) → has (sem_node t) (v p) ≡ false)
    → (w' : SemaphoreServer) × (semaphore_server t (sem_v s) w ≡ some ([], w'))
      × ((p : ℕ) → w'.counter p ≡ (if p == s then w.counter s +ℤ negsuc 0 else w.counter p))
      × IsSemaphore
          (if ltb_ℤ (pos 0) (w.counter s) then v else update v s (v s ++ sem_node t ∷ []))
          w'
unfolding semaphore_server
sem_v_lem {v} {w} t s h small out = elim (Bool-cases (ltb_ℤ (pos 0) (w.counter s))) [
  | inl e ↦
      let test : ltb_ℤ (w.counter s +ℤ negsuc 0) (pos 0) ≡ false = ground arith in
      (
        set_counter s (w.counter s +ℤ negsuc 0) w,
        rw test refl,
        λ p. refl,
        rw e (record {
          store = h.store;
          named = h.named;
          counted = λ p. ground (arith, h.counted p);
        }),
      )
  | inr e ↦
      let test : ltb_ℤ (w.counter s +ℤ negsuc 0) (pos 0) ≡ true = ground arith in
      let below : ltb t max_tasks ≡ true = ground arith in
      (
        record (set_counter s (w.counter s +ℤ negsuc 0) w) {
          tids = λ i. if i == t then t else w.tids i;
          memory = enqueue_queue s (sem_node t) w.memory;
        },
        rw (test, below),
        λ p. refl,
        rw e (record {
          store = enqueue-IsStore h.store s (sem_node t) (omega arith) out;
          named = λ i p g.
              ground
                (arith, h.named i p, h.named i s, has-append (sem_node i) (v s) (sem_node t ∷ []));
          counted =
              λ p. ground (arith, h.counted p, h.counted s, length-append (v s) (sem_node t ∷ []));
        }),
      )
]

-- SemP on a semaphore for which a task waits, the node of the first being that of `t`: it succeeds, `t` and nobody
-- else is answered, the counter is one more, and the others wait in their order.
pub sem_p_wakes :
    {v : ℕ → List ℕ} {w : SemaphoreServer} (sender t s : ℕ) (xs : List ℕ)
    → IsSemaphore v w
    → v s ≡ sem_node t ∷ xs
    → (w' : SemaphoreServer) × (semaphore_server sender (sem_p s) w ≡ some (t ∷ [], w'))
      × ((p : ℕ) → w'.counter p ≡ (if p == s then w.counter s +ℤ pos 1 else w.counter p))
      × IsSemaphore (update v s xs) w'
unfolding semaphore_server take_waiting
sem_p_wakes {v} {w} sender t s xs h here = (
  record (set_counter s (w.counter s +ℤ pos 1) w) { memory = (dequeue_queue s w.memory).1 },
  rw (test, taken.0, not_null, back, mine),
  λ p. refl,
  record {
    store = taken.1;
    named = λ i p g. ground (arith, h.named i p, members i);
    counted = λ p. ground (arith, h.counted p, size);
  },
)
  where
    taken :
        ((dequeue_queue s w.memory).0 ≡ sem_node t)
        × IsStore (max_tasks + 1) (update v s xs) (dequeue_queue s w.memory).1
    taken = dequeue_cons s (sem_node t) xs h.store here

    size : suc (length xs) ≡ neg_part (w.counter s)
    size = rw here at (h.counted s)

    test : leb_ℤ (w.counter s +ℤ pos 1) (pos 0) ≡ true
    test = ground (arith, size)

    not_null : (sem_node t == null) ≡ false
    not_null = ground arith

    back : sem_node t - 1 ≡ t
    back = omega arith

    mine : w.tids t ≡ t
    mine = h.named t s (rw here (ground arith))

    members : (i : ℕ) → has (sem_node i) xs ≡ true → w.tids i ≡ i
    members i g = h.named i s (rw here (ground arith))

-- SemP on a semaphore for which no task waits: it succeeds, nobody is answered, and the counter is
-- one more.
pub sem_p_free :
    {v : ℕ → List ℕ} {w : SemaphoreServer} (sender s : ℕ)
    → IsSemaphore v w
    → v s ≡ []
    → (w' : SemaphoreServer) × (semaphore_server sender (sem_p s) w ≡ some ([], w'))
      × ((p : ℕ) → w'.counter p ≡ (if p == s then w.counter s +ℤ pos 1 else w.counter p))
      × IsSemaphore v w'
unfolding semaphore_server
sem_p_free {v} {w} sender s h empty = (
  set_counter s (w.counter s +ℤ pos 1) w,
  rw test refl,
  λ p. refl,
  record {
    store = h.store;
    named = h.named;
    counted = λ p. ground (arith, h.counted p, none_waits);
  },
)
  where
    none_waits : neg_part (w.counter s) ≡ 0
    none_waits = sym (rw empty at (h.counted s))

    test : leb_ℤ (w.counter s +ℤ pos 1) (pos 0) ≡ false
    test = ground (arith, none_waits)
