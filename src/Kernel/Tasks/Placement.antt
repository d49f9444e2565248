-- ===== src/Kernel/Tasks/Placement.antt =====
-- Which queue each descriptor stands in.
use rtk.Common.{
  ℕ, ◌<◌, ◌≤◌, ◌%◌, ◌≡◌, ◌≢◌, ◌⊎◌, inl, inr, true, false, some, List, [], ◌∷◌, ◌++◌, arith, has,
  has-append, has-erase_ne, ◌==◌, Bool-cases,
}
use rtk.Common.Int.{pos}
use rtk.Queue.{update, enqueue_queue}
use rtk.Queue.Store.{IsStore, enqueue-IsStore}
use rtk.Queue.Laws.{without}
use rtk.Kernel.State.{
  Kernel, set_memory, free, max_tasks, task_node, message_node, available_descriptors,
}
use rtk.Kernel.Tasks.{task_queue}

-- Nodes of descriptors and of siblings; message nodes stand above.
abbrev pub node_bound : ℕ
node_bound = message_node 0

-- The queues of the kernel hold the lists `v`. The scheduler's queues and the free queue hold
-- descriptors; a descriptor in a queue stands in the queue of its
-- own state and priority, or is free; the current task is in none; a tid leads to its descriptor.
pub record IsPlaced (v : ℕ → List ℕ) (k : Kernel) : Type 0 where
  pub store : IsStore node_bound v k.memory
  pub own :
      (i q : ℕ)
      → i < max_tasks
      → has (task_node i) (v q) ≡ true
      → (task_queue (k.tasks i) ≡ some q)
        ⊎ ((q ≡ available_descriptors) × ((k.tasks i).state ≡ free))
  pub kinds : (q a : ℕ) → q ≤ available_descriptors → has a (v q) ≡ true → a ≤ max_tasks
  pub off : (c q : ℕ) → k.current_task ≡ some c → has (task_node c) (v q) ≡ false
  pub current_in : (c : ℕ) → k.current_task ≡ some c → c < max_tasks
  pub slots : (i n : ℕ) → i < max_tasks → (k.tasks i).tid ≡ pos n → n % max_tasks ≡ i

-- The descriptor's node at the end of one queue, and nowhere else.
abbrev pub moved : (queue node : ℕ) → (ℕ → List ℕ) → ℕ → List ℕ
moved q a v = update (without a v) q (without a v q ++ a ∷ [])

pub has-moved : (q a b p : ℕ) (v : ℕ → List ℕ) → b ≢ a → has b (moved q a v p) ≡ has b (v p)
has-moved q a b p v ne =
    ground
      (arith, has-append b (without a v q) (a ∷ []), has-erase_ne a b (v q), has-erase_ne a b (v p))

-- A descriptor that is in no queue goes to the end of its own.
module _ {v : ℕ → List ℕ} {k : Kernel} (w : IsPlaced v k) (i q : ℕ) where
  pub enqueue_own :
      i < max_tasks
      → ((p : ℕ) → has (task_node i) (v p) ≡ false)
      → task_queue (k.tasks i) ≡ some q
      → ((c : ℕ) → k.current_task ≡ some c → c ≢ i)
      → IsPlaced
          (update v q (v q ++ task_node i ∷ []))
          (set_memory (enqueue_queue q (task_node i) k.memory) k)
  enqueue_own lt out queue other = record {
    store = enqueue-IsStore w.store q (task_node i) (omega arith) out;
    own = λ j p jlt h. elim (Bool-cases (j == i)) [
      | inl e ↦ ground (arith, has-append (task_node j) (v q) (task_node i ∷ []), out p)
      | inr e ↦ ground (arith, has-append (task_node j) (v q) (task_node i ∷ []), w.own j p jlt)
    ];
    off = λ c p e. ground (
      arith,
      has-append (task_node c) (v q) (task_node i ∷ []),
      w.off c p e,
      other c e,
      w.off c q e,
    );
    kinds = λ p b small h.
        ground (arith, has-append b (v q) (task_node i ∷ []), w.kinds p b small, w.kinds q b);
    current_in = w.current_in;
    slots = w.slots;
  }
