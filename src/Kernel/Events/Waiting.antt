-- ===== src/Kernel/Events/Waiting.antt =====
-- UnblockTaskWaitingOnEvent: the walk over the queues of the tasks that wait for an event.
use rtk.Common.{
  ℕ, zero, suc, ◌+◌, ◌≤◌, ◌<◌, ◌≡◌, refl, Option, none, some, List, [], ◌∷◌, ◌++◌, arith,
  if◌then◌else◌, inl, inr, length, Option-cases,
}
use rtk.Common.Int.{ℤ, ◌==ℤ◌}
use rtk.Queue.{null}
use rtk.Queue.Counting.{store-length}
use rtk.Queue.Segment.{Dll}
use rtk.Kernel.State.{
  Kernel, Task, task_of_node, max_tasks, priority_queue, null_priority, highest_priority,
}
use rtk.Kernel.Tasks.Placement.{IsPlaced}
use rtk.Kernel.Events.{find_waiting, unblock_from, unblock_task_waiting_on_event, wake}

-- The first descriptor of the list that waits for the interrupt.
abbrev pub first_waiting : ℤ → (ℕ → Task) → List ℕ → Option ℕ
first_waiting intr t [] = none
first_waiting intr t (x ∷ xs) =
    if (t (task_of_node x)).awaiting_event_id ==ℤ intr
    then some (task_of_node x)
    else first_waiting intr t xs

find_waiting-list :
    (fuel : ℕ) (intr : ℤ) (k : Kernel) (before first last : ℕ) (xs : List ℕ)
    → Dll k.memory.node before first last xs
    → length xs < fuel
    → find_waiting fuel intr first k ≡ some (first_waiting intr k.tasks xs)
unfolding find_waiting
find_waiting-list zero intr k before first last xs d lt = absurd (omega arith)
find_waiting-list (suc fuel) intr k before first last [] d lt = rw d.0 refl
find_waiting-list (suc fuel) intr k before first last (x ∷ xs) d lt =
    let ih : find_waiting fuel intr (k.memory.node x).next k
        ≡ some (first_waiting intr k.tasks xs) =
      find_waiting-list fuel intr k x (k.memory.node x).next last xs d.4 (omega arith) in
    rw d.0 (ground arith)

first_waiting-append :
    (intr : ℤ) (t : ℕ → Task) (xs ys : List ℕ)
    → first_waiting intr t (xs ++ ys)
      ≡ elim (first_waiting intr t xs) [ none ↦ first_waiting intr t ys | some i ↦ some i ]
first_waiting-append intr t [] ys = refl
first_waiting-append intr t (x ∷ xs) ys = ground (arith, first_waiting-append intr t xs ys)

-- What the queues of the priorities from `p` on hold, in their order.
abbrev pub waiters_from : (rounds p : ℕ) → (ℕ → List ℕ) → List ℕ
waiters_from zero p v = []
waiters_from (suc rounds) p v = v (priority_queue 6 p) ++ waiters_from rounds (p + 1) v

module _ {v : ℕ → List ℕ} {k : Kernel} (w : IsPlaced v k) where
  walk :
      (intr : ℤ) (p : ℕ)
      → p < 5
      → find_waiting (max_tasks + 1) intr (k.memory.queue (priority_queue 6 p)).first k
        ≡ some (first_waiting intr k.tasks (v (priority_queue 6 p)))
  walk intr p lt =
      let q = priority_queue 6 p in
      let m = k.memory in
      let d = w.store.linked q in
      find_waiting-list (max_tasks + 1) intr k null (m.queue q).first (m.queue q).last (v q) d
        (omega (arith, store-length w.store q (λ a h. w.kinds q a (omega arith) h)))

  unblock_from-list :
      (rounds p : ℕ) (intr : ℤ)
      → rounds + p ≤ 5
      → unblock_from rounds intr p k ≡ elim (first_waiting intr k.tasks (waiters_from rounds p v)) [
        | none ↦ some k
        | some i ↦ wake i k
      ]
  unfolding unblock_from
  unblock_from-list zero p intr le = refl
  unblock_from-list (suc rounds) p intr le =
      let here = first_waiting intr k.tasks (v (priority_queue 6 p)) in
      let later = waiters_from rounds (p + 1) v in
      rw (walk intr p (omega arith)) (
        rw (first_waiting-append intr k.tasks (v (priority_queue 6 p)) later)
          (elim (Option-cases here) [
            | inl e ↦ rw e (unblock_from-list rounds (p + 1) intr (omega arith))
            | inr (i, e) ↦ rw e refl
          ]))

-- The tasks that wait for an event, in the order in which the kernel looks at them.
abbrev pub event_waiters : (ℕ → List ℕ) → List ℕ
event_waiters v = waiters_from (null_priority + 1) highest_priority v

pub unblock-eq :
    {v : ℕ → List ℕ} {k : Kernel} (intr : ℤ)
    → IsPlaced v k
    → unblock_task_waiting_on_event intr k
      ≡ elim (first_waiting intr k.tasks (event_waiters v)) [ none ↦ some k | some i ↦ wake i k ]
unfolding unblock_task_waiting_on_event
unblock-eq intr w = unblock_from-list w (null_priority + 1) highest_priority intr (omega arith)
