-- ===== src/Kernel/Runs/Live.antt =====
-- In every run there is a task to give the processor to.
use rtk.Common.{
  ℕ, ◌≡◌, ◌≤◌, ◌∙◌, ◌⊎◌, inl, inr, ap, sym, subst, true, Option, none, some, List, [], ◌∷◌, arith,
  ◌==◌, Bool-cases, has, has-append,
}
use rtk.Queue.{update}
use rtk.Kernel.State.{Kernel, Task, active, task_node, priority_queue, null_priority}
use rtk.Kernel.Tasks.Placement.{IsPlaced}
use rtk.Kernel.Lifecycle.{schedule_and_activate}
use rtk.Kernel.Lifecycle.Scheduling.Parking.{back_lists, resting_queue}
use rtk.Kernel.Lifecycle.Scheduling.Running.{Scheduled, schedule_highest}
use rtk.Kernel.Runs.{idle}
use rtk.Kernel.Runs.Unique.{lists_unique}

-- NullProcess's queue.
abbrev idle_queue : ℕ
idle_queue = priority_queue 1 null_priority

-- A placed kernel with a current task, all priorities in range, in which NullProcess has the lowest
-- priority, and runs or is ready.
pub record IsLive (v : ℕ → List ℕ) (k : Kernel) : Type 0 where
  pub placed : IsPlaced v k
  pub c : ℕ
  pub running : k.current_task ≡ some c
  pub priorities : (j : ℕ) → (k.tasks j).priority ≤ null_priority
  pub bottom : (k.tasks idle).priority ≡ null_priority
  pub on :
      ((c ≡ idle) × ((k.tasks idle).state ≡ active)) ⊎ (has (task_node idle) (v idle_queue) ≡ true)

back_lists-has :
    (k : Kernel) (c a p : ℕ) (v : ℕ → List ℕ)
    → has a (v p) ≡ true
    → has a (back_lists k c v p) ≡ true
back_lists-has k c a p v h = ground (arith, has-append a (v (resting_queue k c)) (task_node c ∷ []))

idle_back :
    (k : Kernel) (v : ℕ → List ℕ)
    → (k.tasks idle).state ≡ active
    → (k.tasks idle).priority ≡ null_priority
    → has (task_node idle) (back_lists k idle v idle_queue) ≡ true
idle_back k v e f =
    rw (e, f) (ground (arith, has-append (task_node idle) (v idle_queue) (task_node idle ∷ [])))

module _ {v : ℕ → List ℕ} {k : Kernel} (l : IsLive v k) where
  idle_waits : has (task_node idle) (back_lists k l.c v idle_queue) ≡ true
  idle_waits = elim l.on [
    | inl (is, state) ↦
        subst (λ c. has (task_node idle) (back_lists k c v idle_queue) ≡ true) (sym is)
          (idle_back k v state l.bottom)
    | inr h ↦ back_lists-has k l.c (task_node idle) idle_queue v h
  ]

  after_turn :
      {timer : ℕ} {k' : Kernel} (s : Scheduled v k l.c timer k')
      → IsLive (update (back_lists k l.c v) (priority_queue 1 s.r) s.xs) k'
  after_turn {k' = k'} s = record {
    placed = s.placed;
    c = s.i;
    running = s.current;
    priorities = λ j.
        ground
          (arith, s.others j, s.same_priority, l.priorities j, l.priorities s.i, l.priorities l.c);
    bottom = ground (arith, s.others idle, s.same_priority, l.bottom);
    on = elim (Bool-cases (s.i == idle)) [
      | inl e ↦
          let is : s.i ≡ idle = ground arith in
          inl (is, subst (λ i. (k'.tasks i).state ≡ active) is s.state)
      | inr e ↦ inr (ground (arith, s.head, idle_waits))
    ];
  }

  -- The scheduler finds a task, and the kernel stays live.
  pub goes_on :
      (timer : ℕ)
      → (k' : Kernel) × (schedule_and_activate timer k ≡ some k') × (w : ℕ → List ℕ) × IsLive w k'
  goes_on timer =
      let (k', runs, s) =
        schedule_highest timer null_priority l.placed l.running (l.priorities l.c) (omega arith)
          (λ e. ground (arith, idle_waits)) in
      (k', runs, update (back_lists k l.c v) (priority_queue 1 s.r) s.xs, after_turn s)

  -- What a step must leave as it is.
  pub keep :
      {w : ℕ → List ℕ} {k' : Kernel}
      → IsPlaced w k'
      → k'.current_task ≡ k.current_task
      → ((j : ℕ) → (k'.tasks j).priority ≤ null_priority)
      → (k'.tasks idle).priority ≡ (k.tasks idle).priority
      → (l.c ≡ idle → k'.tasks idle ≡ k.tasks idle)
      → (has (task_node idle) (v idle_queue) ≡ true → has (task_node idle) (w idle_queue) ≡ true)
      → IsLive w k'
  keep placed current low same runs waits = record {
    placed = placed;
    c = l.c;
    running = current ∙ l.running;
    priorities = low;
    bottom = same ∙ l.bottom;
    on = elim l.on [
      | inl (is, state) ↦ inl (is, ap (λ (t : Task). t.state) (runs is) ∙ state)
      | inr h ↦ inr (waits h)
    ];
  }

pub same_kernel :
    {A : Type 0} {a b : A} {k k' : Kernel}
    → ◌≡◌ {A = Option (A × Kernel)} (some (a, k)) (some (b, k'))
    → k ≡ k'
same_kernel {k = k} e = ap (λ o. elim o [ none ↦ k | some p ↦ p.1 ]) e

-- The lists may be exchanged for any that the memory holds.
pub with_lists : {v w : ℕ → List ℕ} {k : Kernel} → IsLive v k → IsPlaced w k → IsLive w k
with_lists {k = k} l placed = subst (λ u. IsLive u k) (lists_unique l.placed.store placed.store) l
