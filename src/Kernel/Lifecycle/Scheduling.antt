-- ===== src/Kernel/Lifecycle/Scheduling.antt =====
-- DequeuePriorityTaskQueue takes the first node of the highest priority.
use rtk.Common.{
  ℕ, zero, suc, ◌+◌, ◌*◌, ◌<◌, ◌≤◌, ◌%◌, ◌≡◌, ◌≢◌, ◌∙◌, subst, refl, ◌⊎◌, inl, inr, true, false,
  Bool, Option, none, some, List, [], ◌∷◌, ◌++◌, arith, has, has-append, has-erase_ne, has-erase,
  ◌==◌, if◌then◌else◌, Bool-cases, not, ◌||◌, ◌&&◌, ==-refl, ◌>>=◌,
}
pub mod Parking
pub mod Running
use rtk.Common.Int.{pos, pos_part}
use rtk.Queue.{Memory, update, null, enqueue_queue, dequeue_queue}
use rtk.Queue.Segment.{Dll, has-erase_self}
use rtk.Queue.Store.{IsStore}
use rtk.Queue.Laws.{dequeue_head}
use rtk.Kernel.State.{
  Kernel, Task, TaskState, free, active, ready, state_code, max_tasks, task_node,
  available_descriptors, is_queued_state, set_task, set_memory, same_state, priority_queue,
  task_of_node,
}
use rtk.Kernel.Tasks.{
  task_queue, dequeue_from, dequeue_priority_task_queue, enqueue_stateful_priority_task_queue,
}
use rtk.Kernel.Tasks.Placement.{IsPlaced, enqueue_own}
use rtk.Kernel.Lifecycle.{
  schedule_and_activate, put_back, get_next_scheduled_task, activate_current,
}

-- The first node of the first of the queues that holds one, from the priority `p` on.
pub data FirstOf (s : ℕ) (v : ℕ → List ℕ) (p rounds : ℕ) : Type 0 where
  found :
      (r x : ℕ) (xs : List ℕ)
      → p ≤ r
      → r < p + rounds
      → ((j : ℕ) → p ≤ j → j < r → v (priority_queue s j) ≡ [])
      → v (priority_queue s r) ≡ x ∷ xs
      → FirstOf s v p rounds

pub List-cases : (xs : List ℕ) → (xs ≡ []) ⊎ ((y : ℕ) × (ys : List ℕ) × (xs ≡ y ∷ ys))
List-cases [] = inl refl
List-cases (y ∷ ys) = inr (y, ys, refl)

pub head_ne_null :
    {bound : ℕ} {v : ℕ → List ℕ} (s r x : ℕ) (xs : List ℕ) (m : Memory)
    → IsStore bound v m
    → v (priority_queue s r) ≡ x ∷ xs
    → ((dequeue_queue (priority_queue s r) m).0 == null) ≡ false
head_ne_null s r x xs m st here =
    let q = priority_queue s r in
    let d : Dll m.node null (m.queue q).first (m.queue q).last (x ∷ xs) =
      rw here at (st.linked q) in
    rw ((dequeue_head q st).1 x xs here).0 (ground arith)

pub dequeue_from_first :
    {bound : ℕ} {v : ℕ → List ℕ} (rounds s p r x : ℕ) (xs : List ℕ) (m : Memory)
    → IsStore bound v m
    → p ≤ r
    → r < p + rounds
    → ((j : ℕ) → p ≤ j → j < r → v (priority_queue s j) ≡ [])
    → v (priority_queue s r) ≡ x ∷ xs
    → dequeue_from rounds s p m ≡ dequeue_queue (priority_queue s r) m
unfolding dequeue_from
dequeue_from_first zero s p r x xs m st lo hi none_before here = absurd (omega arith)
dequeue_from_first {v} (suc rounds) s p r x xs m st lo hi none_before here =
    elim (Bool-cases (p == r)) [
      | inl e ↦
          let same : p ≡ r = ground arith in
          let full : ((dequeue_queue (priority_queue s p) m).0 == null) ≡ false =
            rw same (head_ne_null s r x xs m st here) in
          rw (full, same)
      | inr e ↦
          let empty : dequeue_queue (priority_queue s p) m ≡ (null, m) =
            (dequeue_head (priority_queue s p) st).0 (none_before p (omega arith) (ground arith)) in
          let far : p + 1 ≤ r = ground arith in
          rw empty (
            dequeue_from_first rounds s (p + 1) r x xs m st far (omega arith)
              (λ j a b. none_before j (omega arith) b) here)
    ]

-- Where some queue holds a node, there is a first.
pub first_of :
    (s : ℕ) (v : ℕ → List ℕ) (rounds p r : ℕ)
    → p ≤ r
    → r < p + rounds
    → v (priority_queue s r) ≢ []
    → FirstOf s v p rounds
first_of s v zero p r lo hi full = absurd (omega arith)
first_of s v (suc rounds) p r lo hi full = elim (List-cases (v (priority_queue s p))) [
  | inl e ↦ widen e (first_of s v rounds (p + 1) r (later e) (omega arith) full)
  | inr (y, ys, e) ↦ found p y ys (omega arith) (omega arith) (λ j a b. absurd (omega arith)) e
]
  where
    later : v (priority_queue s p) ≡ [] → p + 1 ≤ r
    later e = elim (Bool-cases (p == r)) [
      | inl g ↦ absurd (full (subst (λ j. v (priority_queue s j) ≡ []) (ground arith) e))
      | inr g ↦ ground arith
    ]

    widen : v (priority_queue s p) ≡ [] → FirstOf s v (p + 1) rounds → FirstOf s v p (suc rounds)
    widen e (found j x xs a b before here) =
        found j x xs (omega arith) (omega arith)
          (λ i c d. elim (Bool-cases (p == i)) [
            | inl g ↦ subst (λ j. v (priority_queue s j) ≡ []) (ground arith) e
            | inr g ↦ before i (ground arith) d
          ])
          here
