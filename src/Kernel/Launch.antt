-- ===== src/Kernel/Launch.antt =====
-- kernel/rtk.c: RtkLaunch up to its loop.
pub mod Start
pub mod Tests
use rtk.Common.{
  ℕ, zero, suc, ◌+◌, ◌-◌, ◌*◌, ◌%◌, ◌≤◌, ◌<◌, ◌≡◌, ◌∙◌, refl, ap, subst, sym, Option, none, some,
  List, [], ◌∷◌, ◌++◌, arith, ltb, ◌==◌, if◌then◌else◌, has, ◌>>=◌, fun_ext,
}
use rtk.Common.Int.{ℤ, pos, negsuc, ◌+ℤ◌}
use rtk.Queue.{null, Memory, update, dequeue_queue, set_first, set_last}
use rtk.Kernel.State.{
  Kernel, TaskState, ready, free, task_node, sibling_node, children, max_tasks, null_priority,
  low_priority, set_memory, msg_queue, priority_queue, available_descriptors,
}
use rtk.Kernel.Tasks.Placement.{IsPlaced}
use rtk.Kernel.Tasks.{get_current_tid}
use rtk.Kernel.Communication.{init_communication, init_queues}
use rtk.Kernel.Lifecycle.{
  init_tasks, init_tasks_from, create_task, schedule_and_activate, stack_size_bytes, put_back,
}
use rtk.Kernel.Lifecycle.Creating.{
  CanCreate, HasFree, Created, created_lists, create_task_lem, free-CanCreate,
}
use rtk.Kernel.Lifecycle.Filling.{IsStatic, IsFilled, span, has-span, all-IsFilled}
use rtk.Kernel.Lifecycle.Booting.{rest_free, first-CanCreate}

-- `exit`, `null_process` and `init` are the addresses of these functions; SystemInit touches devices only.
unfoldable pub rtk_launch : (exit null_process init stacks : ℕ) → Kernel → Option Kernel
rtk_launch exit null_process init stacks k = do
  (first_tid, k1) ←
      create_task exit null_priority null_process (init_communication (init_tasks stacks k))
  (second_tid, k2) ← create_task exit low_priority init k1
  some k2

span-cons : (a n : ℕ) → span a (suc n) ≡ a ∷ span (suc a) n
unfolding span
span-cons a n = refl

no_current_tid : (k : Kernel) → k.current_task ≡ none → get_current_tid k ≡ negsuc 0
unfolding get_current_tid
no_current_tid k e = rw e refl

-- InitCommunication empties queues that are empty.
init_queues-same :
    (rounds i : ℕ) (m : Memory)
    → ((j : ℕ) → m.queue (msg_queue j) ≡ record { first = null; last = null })
    → init_queues rounds i m ≡ m
unfolding init_queues
init_queues-same zero i m empty = refl
init_queues-same (suc rounds) i m empty =
    ap (init_queues rounds (i + 1)) same ∙ init_queues-same rounds (i + 1) m empty
  where
    same : set_last (msg_queue i) null (set_first (msg_queue i) null m) ≡ m
    same = λ j. record { node = m.node; queue = queues j }
      where
        queues : (set_last (msg_queue i) null (set_first (msg_queue i) null m)).queue ≡ m.queue
        queues = fun_ext (λ r. ground (arith, empty i))

module _ {k : Kernel} (stacks : ℕ) (s : IsStatic k) where
  pub filled : IsFilled max_tasks k stacks (init_tasks stacks k)
  unfolding init_tasks
  filled = all-IsFilled 1023 k stacks (omega arith) s

  communication_same : init_communication (init_tasks stacks k) ≡ init_tasks stacks k
  unfolding init_communication
  communication_same =
      ap (λ m. set_memory m (init_tasks stacks k))
        (init_queues-same max_tasks 0 (init_tasks stacks k).memory
          (λ j. filled.others (msg_queue j) (omega arith)))

  -- NullProcess's descriptor is the first, and a task is made of it.
  first-Created :
      (exit null_process : ℕ)
      → (k1 : Kernel) × (create_task exit null_priority null_process (init_tasks stacks k)
          ≡ some (pos 0, k1))
        × Created (rest_free 1022) (init_tasks stacks k) 0 exit null_priority null_process k1
  first-Created exit null_process =
      create_task_lem exit null_priority null_process (first-CanCreate 1022 filled refl)
        (omega arith)

  module _ {exit null_process : ℕ} {k1 : Kernel}
      (c : Created
        (rest_free 1022)
        (init_tasks stacks k)
        0
        exit
        null_priority
        null_process
        k1) where
    -- The lists once NullProcess is ready.
    abbrev first_lists : ℕ → List ℕ
    first_lists = update (rest_free 1022) (priority_queue 1 null_priority) (task_node 0 ∷ [])

    lists-first : created_lists (init_tasks stacks k) 0 null_priority (rest_free 1022) ≡ first_lists
    lists-first = rw filled.nobody refl

    second-HasFree : HasFree first_lists k1 1 1 (span 3 1022)
    second-HasFree = record {
      placed = subst (λ v. IsPlaced v k1) lists-first c.placed;
      below = omega arith;
      first_free = span-cons 2 1022;
      childless = refl;
      lone = λ p. ground (arith, has-span 2 1023 1026);
      next_tid = ground (arith, c.tasks 1, filled.tasks 1);
      index = refl;
    }

    second-Created :
        (init : ℕ)
        → (k2 : Kernel) × (create_task exit low_priority init k1 ≡ some (pos 1, k2))
          × Created
              (update first_lists available_descriptors (span 3 1022))
              k1
              1
              exit
              low_priority
              init
              k2
    second-Created init =
        create_task_lem exit low_priority init (free-CanCreate second-HasFree) (omega arith)

-- NullProcess and Init are ready, and every other descriptor is free.
abbrev pub launched_lists : ℕ → List ℕ
launched_lists q =
    if q == priority_queue 1 null_priority
    then task_node 0 ∷ []
    else if q == priority_queue 1 low_priority
    then task_node 1 ∷ []
    else if q == available_descriptors
    then span 3 1022
    else []

-- A task as CreateTask leaves it.
pub record IsFresh (k : Kernel) (i stacks p code : ℕ) : Type 0 where
  pub tid : (k.tasks i).tid ≡ pos i
  pub state : (k.tasks i).state ≡ ready
  pub priority : (k.tasks i).priority ≡ p
  pub pc : (k.tasks i).pc ≡ code
  pub sp : (k.tasks i).sp ≡ stacks + i * stack_size_bytes + stack_size_bytes - 56
  pub parentless : (k.tasks i).parent_tid ≡ negsuc 0

module _ {k : Kernel} (stacks : ℕ) (s : IsStatic k) {exit null_process : ℕ} {k1 : Kernel}
    (c : Created (rest_free 1022) (init_tasks stacks k) 0 exit null_priority null_process k1) where
  launched_by :
      (init : ℕ) {k2 : Kernel}
      → create_task exit null_priority null_process (init_tasks stacks k) ≡ some (pos 0, k1)
      → create_task exit low_priority init k1 ≡ some (pos 1, k2)
      → rtk_launch exit null_process init stacks k ≡ some k2
  unfolding rtk_launch
  launched_by init made made' = rw (communication_same stacks s, made, made') refl

  both_lists :
      created_lists k1 1 low_priority
        (update (first_lists stacks s c) available_descriptors (span 3 1022))
      ≡ launched_lists
  both_lists = rw (c.current ∙ (filled stacks s).nobody) (fun_ext (λ q. ground arith))

-- The kernel when its loop starts.
pub record Launched (k : Kernel) (null_process init stacks : ℕ) (k' : Kernel) : Type 0 where
  pub null_task : IsFresh k' 0 stacks null_priority null_process
  pub init_task : IsFresh k' 1 stacks low_priority init
  pub rest :
      (j : ℕ)
      → 2 ≤ j
      → j < max_tasks
      → ((k'.tasks j).state ≡ free) × ((k'.tasks j).tid ≡ pos j +ℤ negsuc (max_tasks - 1))
  pub priorities : (j : ℕ) → (k'.tasks j).priority ≤ null_priority
  pub counted : k'.num_tasks ≡ k.num_tasks +ℤ pos 1 +ℤ pos 1
  pub nobody : k'.current_task ≡ none
  pub placed : IsPlaced launched_lists k'

-- RtkLaunch, from static data, gets to its loop. Then NullProcess is the ready task 0 and Init the ready
-- task 1, with their priorities, entry points and stacks; the other 1022 descriptors are free, each with
-- a tid that the next 1024 makes its index; every priority is in range; there are two tasks more; there
-- is no current task; and the kernel is placed, the two tasks in their ready queues and the free
-- descriptors in theirs.
pub rtk_launch_lem :
    (exit null_process init stacks : ℕ) (k : Kernel)
    → IsStatic k
    → (k' : Kernel) × (rtk_launch exit null_process init stacks k ≡ some k')
      × Launched k null_process init stacks k'
rtk_launch_lem exit null_process init stacks k s =
    let (k1, made, c) = first-Created stacks s exit null_process in
    let (k2, made', c') = second-Created stacks s c init in
    (
      k2,
      launched_by stacks s c init made made',
      record {
        null_task = record {
          tid = ground (arith, c'.tasks 0, c.tasks 0, (filled stacks s).tasks 0);
          state = ground (arith, c'.tasks 0, c.tasks 0);
          priority = ground (arith, c'.tasks 0, c.tasks 0);
          pc = ground (arith, c'.tasks 0, c.tasks 0);
          sp = ground (arith, c'.tasks 0, c.tasks 0, (filled stacks s).tasks 0);
          parentless = ground (
            arith,
            c'.tasks 0,
            c.tasks 0,
            no_current_tid (init_tasks stacks k) (filled stacks s).nobody,
          );
        };
        init_task = record {
          tid = ground (arith, c'.tasks 1, c.tasks 1, (filled stacks s).tasks 1);
          state = ground (arith, c'.tasks 1);
          priority = ground (arith, c'.tasks 1);
          pc = ground (arith, c'.tasks 1);
          sp = ground (arith, c'.tasks 1, c.tasks 1, (filled stacks s).tasks 1);
          parentless =
              ground (arith, c'.tasks 1, no_current_tid k1 (c.current ∙ (filled stacks s).nobody));
        };
        rest = λ j le lt. (
          ground (arith, c'.tasks j, c.tasks j, (filled stacks s).tasks j),
          ground (arith, c'.tasks j, c.tasks j, (filled stacks s).tasks j),
        );
        priorities =
            λ j. ground (arith, c'.tasks j, c.tasks j, (filled stacks s).tasks j, s.zeroed j);
        counted =
            c'.counted
            ∙ ap (λ n. n +ℤ pos 1) (c.counted ∙ ap (λ n. n +ℤ pos 1) (filled stacks s).counted);
        nobody = c'.current ∙ c.current ∙ (filled stacks s).nobody;
        placed = subst (λ v. IsPlaced v k2) (both_lists stacks s c) c'.placed;
      },
    )

-- The first round of its loop reads the state of the current task, and there is none.
pub first_round_fails :
    (exit null_process init stacks timer : ℕ) (k : Kernel)
    → IsStatic k
    → (rtk_launch exit null_process init stacks k >>= schedule_and_activate timer) ≡ none
unfolding schedule_and_activate put_back
first_round_fails exit null_process init stacks timer k s =
    let (k', runs, l) = rtk_launch_lem exit null_process init stacks k s in rw (runs, l.nobody) refl
