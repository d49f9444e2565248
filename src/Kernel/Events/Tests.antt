-- ===== src/Kernel/Events/Tests.antt =====
-- DestroyHandler on a task with two children.
use rtk.Common.{
  ℕ, ◌%◌, ◌≡◌, refl, List, [], ◌∷◌, ◌++◌, arith, ◌==◌, if◌then◌else◌, some, map, subst, fun_ext,
  ◌<◌,
}
use rtk.Common.Int.{pos}
use rtk.Queue.{Memory, enqueue_queue}
use rtk.Queue.Store.{IsStore, enqueue-IsStore}
use rtk.Kernel.Tests.{blank, blank-IsStore, no_message}
use rtk.Kernel.State.{
  Kernel, active, ready, children, sibling_node, task_node, initial_task, available_descriptors,
}
use rtk.Kernel.Tasks.{task_queue}
use rtk.Kernel.Tasks.Placement.{IsPlaced, node_bound}
use rtk.Kernel.Events.{destroy_handler}
use rtk.Kernel.Events.Family.{Family, nobody, member, destroyed_lists, IsMember}
use rtk.Kernel.Events.Freeing.{Destroyed}
use rtk.Kernel.Events.Destroying.{destroy_family}

-- Tasks 1, 2 and 3 are ready, and 2 and 3 are the children of 1.
abbrev household : ℕ → List ℕ
household q =
    if q == 5
    then task_node 1 ∷ task_node 2 ∷ task_node 3 ∷ []
    else if q == children 1
    then sibling_node 2 ∷ sibling_node 3 ∷ []
    else []

abbrev home_memory : Memory
home_memory = enqueue_queue (children 1) (sibling_node 3) (
    enqueue_queue (children 1) (sibling_node 2) (
      enqueue_queue 5 (task_node 3)
        (enqueue_queue 5 (task_node 2) (enqueue_queue 5 (task_node 1) blank))))

-- Task 0 runs.
abbrev home : Kernel
home = record {
  num_tasks = pos 4;
  tasks = λ j. record initial_task {
    tid = pos j;
    state = if j == 0 then active else ready;
    parent_tid = pos (if j == 1 then 0 else 1);
    awaiting_event_id = pos 16;
  };
  current_task = some 0;
  memory = home_memory;
  messages = λ j. no_message;
  bytes = λ a. a % 256;
  effects = [];
}

home-IsStore : IsStore node_bound household home.memory
home-IsStore =
    subst (λ w. IsStore node_bound w home_memory) (fun_ext (λ q. ground arith))
      (enqueue-IsStore
        (enqueue-IsStore
          (enqueue-IsStore
            (enqueue-IsStore
              (enqueue-IsStore blank-IsStore 5 (task_node 1) (omega arith) (λ p. refl)) 5
              (task_node 2) (omega arith) (λ p. ground arith))
            5 (task_node 3) (omega arith) (λ p. ground arith))
          (children 1) (sibling_node 2) (omega arith) (λ p. ground arith))
        (children 1) (sibling_node 3) (omega arith) (λ p. ground arith))

home-IsPlaced : IsPlaced household home
unfolding task_queue
home-IsPlaced = record {
  store = home-IsStore;
  own = λ i q lt h. ground arith;
  kinds = λ q a le h. ground arith;
  off = λ c q e. ground arith;
  current_in = λ c e. ground arith;
  slots = λ i n lt e. ground arith;
}

abbrev both : Family
both = member 2 nobody (member 3 nobody nobody)

child_of_1 : (n : ℕ) → n < 4 → 1 < n → IsMember (home.tasks (n % 1024)) 0 1 n
unfolding task_queue
child_of_1 n lt gt = record {
  other = ground arith;
  holds = ground arith;
  queue = 5;
  queued = ground arith;
  small = ground arith;
  parent_tid = ground arith;
}

destroy_family_example :
    (k' : Kernel) × (destroy_handler (pos 1) home ≡ some (pos 0, k'))
    × Destroyed home (2 ∷ 3 ∷ 1 ∷ []) (destroyed_lists household (member 1 both nobody)) k'
    × (destroyed_lists household (member 1 both nobody) available_descriptors
        ≡ household available_descriptors ++ map task_node (2 ∷ 3 ∷ 1 ∷ []))
unfolding task_queue
destroy_family_example = destroy_family {kids = both} (record {
  placed = home-IsPlaced;
  running = refl;
  head = record {
    other = omega arith;
    holds = refl;
    queue = 5;
    queued = refl;
    small = omega arith;
    parent_tid = refl;
  };
  child = λ q e. ground arith;
  kids_queue = refl;
  members = (
    child_of_1 2 (omega arith) (omega arith),
    refl,
    tt,
    (child_of_1 3 (omega arith) (omega arith), refl, tt, tt),
  );
  unequal = refl;
  fresh = refl;
})
