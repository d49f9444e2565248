-- ===== src/Kernel/Stats/Laws.antt =====
-- What TasksStatsHandler reports, and what it leaves behind.
use rtk.Common.{
  ℕ, zero, suc, ◌+◌, ◌≤◌, ◌<◌, ◌≡◌, ◌∙◌, ap, refl, sym, true, false, some, List, [], ◌∷◌, ◌++◌, map,
  arith, ◌==◌, has, has-append, length,
}
use rtk.Queue.{null, update, enqueue_queue, remove_queue_node}
use rtk.Bytes.{word_of}
use rtk.Queue.Segment.{Dll}
use rtk.Queue.Store.{IsStore, enqueue-IsStore}
use rtk.Queue.Counting.{concat, concat-append, store-length, concat-length}
use rtk.Queue.Undo.{remove-enqueue}
use rtk.Kernel.State.{
  Kernel, task_node, task_of_node, max_tasks, priority_queue, highest_priority, null_priority,
  set_memory, available_descriptors,
}
use rtk.Kernel.Tasks.{
  task_queue, enqueue_stateful_priority_task_queue, remove_stateful_priority_task_queue_node,
}
use rtk.Kernel.Tasks.Placement.{IsPlaced, node_bound}
use rtk.Kernel.Stats.{
  TaskStats, stats_of, stats_of_queue, stats_of_states, stats_of_priorities, tasks_stats_handler,
  num_states,
}

-- The entry of a descriptor's node.
abbrev pub entry : Kernel → ℕ → TaskStats
entry k a = stats_of (k.tasks (task_of_node a))

-- The scheduler's queues in the order in which they are visited.
abbrev pub state_queues : (rounds s p : ℕ) → List ℕ
state_queues zero s p = []
state_queues (suc rounds) s p = priority_queue s p ∷ state_queues rounds (s + 1) p

abbrev pub queues_from : (rounds p : ℕ) → List ℕ
queues_from zero p = []
queues_from (suc rounds) p = state_queues num_states 0 p ++ queues_from rounds (p + 1)

abbrev pub all_queues : List ℕ
all_queues = queues_from (null_priority + 1) highest_priority

map-append_lem : {A : Type 0} (f : ℕ → A) (xs ys : List ℕ) → map f (xs ++ ys) ≡ map f xs ++ map f ys
map-append_lem f [] ys = refl
map-append_lem f (x ∷ xs) ys = ap (λ zs. f x ∷ zs) (map-append_lem f xs ys)

stats_of_queue-list :
    (fuel : ℕ) (k : Kernel) (before first last : ℕ) (xs : List ℕ)
    → Dll k.memory.node before first last xs
    → length xs < fuel
    → stats_of_queue fuel first k ≡ some (map (entry k) xs)
unfolding stats_of_queue
stats_of_queue-list zero k before first last xs d lt = absurd (omega arith)
stats_of_queue-list (suc fuel) k before first last [] d lt = rw d.0 refl
stats_of_queue-list (suc fuel) k before first last (x ∷ xs) d lt =
    let not_null : (x == null) ≡ false = ground arith in
    rw d.0 (
      rw not_null
        (rw (stats_of_queue-list fuel k x (k.memory.node x).next last xs d.4 (omega arith)) refl))

-- The scheduler's queues hold descriptors only.
abbrev HoldsTasks : (ℕ → List ℕ) → Type 0
HoldsTasks v = (q a : ℕ) → q < available_descriptors → has a (v q) ≡ true → a ≤ max_tasks

module _ {v : ℕ → List ℕ} (k : Kernel) (s : IsStore node_bound v k.memory)
    (kinds : HoldsTasks v) where
  stats_of_states-list :
      (rounds t p : ℕ)
      → t + rounds ≤ 7
      → p < 5
      → stats_of_states rounds t p k ≡ some (map (entry k) (concat v (state_queues rounds t p)))
  unfolding stats_of_states
  stats_of_states-list zero t p le lt = refl
  stats_of_states-list (suc rounds) t p le lt =
      let q = priority_queue t p in
      let m = k.memory in
      rw
        (stats_of_queue-list (max_tasks + 1) k null (m.queue q).first (m.queue q).last (v q)
          (s.linked q) (omega (arith, store-length s q (λ a h. kinds q a (omega arith) h))))
        (rw (stats_of_states-list rounds (t + 1) p (omega arith) lt) (
          ap some
            (sym (map-append_lem (entry k) (v q) (concat v (state_queues rounds (t + 1) p))))))

  stats_of_priorities-list :
      (rounds p : ℕ)
      → p + rounds ≤ 5
      → stats_of_priorities rounds p k ≡ some (map (entry k) (concat v (queues_from rounds p)))
  unfolding stats_of_priorities
  stats_of_priorities-list zero p le = refl
  stats_of_priorities-list (suc rounds) p le =
      let here = state_queues num_states 0 p in
      let later = queues_from rounds (p + 1) in
      rw (stats_of_states-list num_states 0 p (omega arith) (omega arith)) (
        rw (stats_of_priorities-list rounds (p + 1) (omega arith)) (
          ap some (
            sym (map-append_lem (entry k) (concat v here) (concat v later))
            ∙ ap (map (entry k)) (sym (concat-append v here later)))))

map-length : {A : Type 0} (f : ℕ → A) (xs : List ℕ) → length (map f xs) ≡ length xs
map-length f [] = refl
map-length f (x ∷ xs) = ap suc (map-length f xs)

all_queues-small : (q : ℕ) → has q all_queues ≡ true → q < available_descriptors
all_queues-small q h = ground arith

-- The scheduler's queues while the current task `c` stands in its own.
abbrev pub shown : (ℕ → List ℕ) → (c q : ℕ) → List ℕ
shown v c q = concat (update v q (v q ++ task_node c ∷ [])) all_queues

handler-steps :
    (k k1 k2 : Kernel) (c : ℕ) (entries : List TaskStats)
    → k.current_task ≡ some c
    → enqueue_stateful_priority_task_queue c k ≡ some k1
    → stats_of_priorities (null_priority + 1) highest_priority k1 ≡ some entries
    → remove_stateful_priority_task_queue_node c k1 ≡ some k2
    → tasks_stats_handler k
      ≡ some (
        record {
          num_tasks = length entries;
          num_alive_tasks = word_of k.num_tasks;
          tasks = entries;
        },
        k2,
      )
unfolding tasks_stats_handler
handler-steps k k1 k2 c entries e entered reported left = simp (e, entered, reported, left)

module _ {v : ℕ → List ℕ} {k : Kernel} {c q : ℕ} (w : IsPlaced v k) (e : k.current_task ≡ some c)
    (own : task_queue (k.tasks c) ≡ some q) where
  abbrev during : Kernel
  during = set_memory (enqueue_queue q (task_node c) k.memory) k

  during-IsStore : IsStore node_bound (update v q (v q ++ task_node c ∷ [])) during.memory
  during-IsStore = enqueue-IsStore w.store q (task_node c) (omega arith) (λ p. w.off c p e)

  during-HoldsTasks : HoldsTasks (update v q (v q ++ task_node c ∷ []))
  during-HoldsTasks p a lt h =
      ground
        (arith, has-append a (v q) (task_node c ∷ []), w.kinds p a, w.kinds q a, w.current_in c e)

  reported :
      stats_of_priorities (null_priority + 1) highest_priority during
      ≡ some (map (entry k) (shown v c q))
  reported =
      stats_of_priorities-list during during-IsStore during-HoldsTasks (null_priority + 1)
        highest_priority (omega arith)

  entered : enqueue_stateful_priority_task_queue c k ≡ some during
  unfolding enqueue_stateful_priority_task_queue
  entered = rw own refl

  left :
      remove_stateful_priority_task_queue_node c during
      ≡ some (
          set_memory (remove_queue_node q (task_node c) (enqueue_queue q (task_node c) k.memory)) k)
  unfolding remove_stateful_priority_task_queue_node
  left = rw own refl

-- TasksStatsHandler, in a placed kernel with a current task that has a queue. It reports every descriptor in
-- the scheduler's queues, by priority, then by state, then in the order of the queue, the current task
-- as the last of its own queue; no more entries than the array has; and the number of tasks alive. The
-- kernel is as it was.
pub tasks_stats_handler_lem :
    {v : ℕ → List ℕ} {k : Kernel} {c q : ℕ}
    → IsPlaced v k
    → k.current_task ≡ some c
    → task_queue (k.tasks c) ≡ some q
    → (tasks_stats_handler k
        ≡ some (
          record {
            num_tasks = length (shown v c q);
            num_alive_tasks = word_of k.num_tasks;
            tasks = map (entry k) (shown v c q);
          },
          k,
        ))
      × (length (shown v c q) ≤ max_tasks)
tasks_stats_handler_lem {v} {k} {c} {q} w e own = (
  handler-steps k (during w e own)
        (set_memory (remove_queue_node q (task_node c) (enqueue_queue q (task_node c) k.memory)) k)
        c (map (entry k) (shown v c q)) e (entered w e own) (reported w e own) (left w e own)
      ∙ rw (map-length (entry k) (shown v c q)) (
          rw
            (remove-enqueue q (task_node c) w.store (omega arith) (omega (arith, w.current_in c e))
              (λ p. w.off c p e))
            refl),
  concat-length (during-IsStore w e own) all_queues refl
      (λ p a g h. during-HoldsTasks w e own p a (all_queues-small p g) h),
)
