-- ===== src/Kernel/Events/Destroying.antt =====
-- DestroyHandler on a task with its children, their children and so on.
use rtk.Common.{
  ℕ, zero, suc, ◌+◌, ◌*◌, ◌%◌, ◌<◌, ◌≡◌, ◌∙◌, ap, refl, subst, true, false, some, List, [], ◌∷◌,
  ◌++◌, arith, ◌==◌, Bool-cases, inl, inr, has, has-append, length, length-append, map,
}
use mathlib.Core.List.{append_assoc}
use rtk.Common.Int.{pos}
use rtk.Queue.Counting.{distinct, length_distinct, distinct-append}
use rtk.Queue.Laws.{dequeue_head}
use rtk.Kernel.State.{Kernel, task_node, sibling_node, children, max_tasks, available_descriptors}
use rtk.Kernel.Tasks.{task_queue}
use rtk.Kernel.Tasks.Placement.{IsPlaced}
use rtk.Kernel.Events.{destroy_children, destroy_handler}
use rtk.Kernel.Events.Family.{
  Family, nobody, member, order, destroyed_lists, order-small, destroyed_lists-free, members-queued,
}
use rtk.Kernel.Events.Freeing.{Destroyed, Destroyed-append, Destroyed-relinked}
use rtk.Kernel.Events.Broods.{
  unhooked, first-IsFamily, lists-eq, rest-IsBrood, destroy_children-next,
}
use rtk.Kernel.Events.Orphans.{IsFamily, IsBrood, orphan, orphan-IsBrood, destroy-Destroyed}

no_children :
    (fuel : ℕ) {v : ℕ → List ℕ} {k : Kernel} {c n : ℕ}
    → IsBrood v k c n nobody
    → destroy_children (suc fuel) (n % max_tasks) k ≡ some k
unfolding destroy_children
no_children fuel {n = n} h =
    rw ((dequeue_head (children (n % max_tasks)) h.placed.store).0 h.kids_queue) refl

-- The loop of DestroyHandler, with two rounds for each task and one more.
destroy_children-Destroyed :
    (f : Family) (fuel : ℕ) (v : ℕ → List ℕ) (k : Kernel) (c n : ℕ)
    → 2 * length (order f) < fuel
    → IsBrood v k c n f
    → (k' : Kernel) × (destroy_children fuel (n % max_tasks) k ≡ some k')
      × Destroyed k (order f) (destroyed_lists v f) k'
destroy_children-Destroyed f zero v k c n lt h = absurd (omega arith)
destroy_children-Destroyed nobody (suc fuel) v k c n lt h = (
  k,
  no_children fuel h,
  record {
    tasks = λ j. refl;
    current = refl;
    messages = refl;
    bytes = refl;
    counted = ground arith;
    effects = refl;
    placed = h.placed;
  },
)
destroy_children-Destroyed (member m kids rest) (suc zero) v k c n lt h =
    absurd (omega (arith, length-append {0} (order kids) ((m % max_tasks) ∷ order rest)))
destroy_children-Destroyed (member m kids rest) (suc (suc fuel)) v k c n lt h =
    let long = length-append {0} (order kids) ((m % max_tasks) ∷ order rest) in
    let family = first-IsFamily h in
    let (k1, runs1, d1) =
      destroy_children-Destroyed kids fuel _ (orphan family) c m (omega (arith, long))
        (orphan-IsBrood family) in
    let (k2, runs2, d2) = destroy-Destroyed family fuel k1 runs1 d1 in
    let d2' =
      subst (λ w. Destroyed (unhooked h) (order (member m kids nobody)) w k2) (lists-eq h) d2 in
    let (k3, runs3, d3) =
      destroy_children-Destroyed rest (suc fuel) (destroyed_lists v (member m kids nobody)) k2 c n
        (omega (arith, long)) (rest-IsBrood h k2 d2') in
    (
      k3,
      destroy_children-next h (suc fuel) ∙ rw runs2 runs3,
      Destroyed-relinked (unhooked h).memory (order (member m kids rest)) (
          subst (λ is. Destroyed (unhooked h) is (destroyed_lists v (member m kids rest)) k3)
            (append_assoc (order kids) ((m % max_tasks) ∷ []) (order rest))
            (Destroyed-append (order (member m kids nobody)) (order rest) d2' d3)),
    )

-- There are at most MAX_TASKS members, and so less than two rounds for each.
few :
    (n : ℕ) (kids : Family)
    → distinct (order kids) ≡ true
    → has (n % max_tasks) (order kids) ≡ false
    → 2 * length (order kids) < 2 * max_tasks + 1
few n kids d f =
    omega (
      arith,
      length_distinct 0 max_tasks (order kids) d (λ a h. (omega arith, order-small kids a h)),
    )

-- A descriptor with a queue is not among the free ones, nor is a node of siblings.
not_free :
    {v : ℕ → List ℕ} {k : Kernel} (s q : ℕ)
    → IsPlaced v k
    → s < max_tasks
    → task_queue (k.tasks s) ≡ some q
    → (has (task_node s) (v available_descriptors) ≡ false)
      × (has (sibling_node s) (v available_descriptors) ≡ false)
unfolding task_queue
not_free {v} s q w lt e = (
  ground (
    arith,
    w.own s available_descriptors,
    Bool-cases (has (task_node s) (v available_descriptors)),
  ),
  ground (
    arith,
    w.kinds available_descriptors (sibling_node s),
    Bool-cases (has (sibling_node s) (v available_descriptors)),
  ),
)

-- The free descriptors when a family is destroyed.
family-free :
    {v : ℕ → List ℕ} {k : Kernel} {c parent n : ℕ} {kids : Family}
    → IsFamily v k c parent n kids
    → destroyed_lists v (member n kids nobody) available_descriptors
      ≡ v available_descriptors ++ map task_node (order (member n kids nobody))
family-free {v} {k} {c} {parent} {n} {kids} h =
    destroyed_lists-free (member n kids nobody) v
      (distinct-append (order kids) ((n % max_tasks) ∷ []) h.unequal refl
        (λ a g. ground (arith, h.fresh, Bool-cases (a == n % max_tasks))))
      (λ s g. elim (Bool-cases (s == n % max_tasks)) [
        | inl e ↦
            let is : s ≡ n % max_tasks = ground arith in
            not_free s h.head.queue h.placed (omega arith)
              (ap (λ i. task_queue (k.tasks i)) is ∙ h.head.queued)
        | inr e ↦
            let (q, queued) =
              members-queued v k.tasks c n kids s h.members
                (ground (arith, has-append s (order kids) ((n % max_tasks) ∷ []))) in
            not_free s q h.placed (order-small (member n kids nobody) s g) queued
      ])

-- DestroyHandler of a task other than the current one, in a placed kernel, with its children, their
-- children and so on, none of which is the current task and whose tids have not run out: it returns
-- 0, within the rounds that the model gives it. A task's descriptor is freed after those of its
-- children, in the order in which they stand in its queue, and the free descriptors are those that were
-- free and then the freed ones in that order. Each leaves its siblings and its own queue; the event
-- that it waited for last, if any, is turned off; there is one task less for each. No other
-- descriptor, no message and no byte changes, and the kernel is placed.
pub destroy_family :
    {v : ℕ → List ℕ} {k : Kernel} {c parent n : ℕ} {kids : Family}
    → IsFamily v k c parent n kids
    → (k' : Kernel) × (destroy_handler (pos n) k ≡ some (pos 0, k'))
      × Destroyed k (order (member n kids nobody)) (destroyed_lists v (member n kids nobody)) k'
      × (destroyed_lists v (member n kids nobody) available_descriptors
          ≡ v available_descriptors ++ map task_node (order (member n kids nobody)))
unfolding destroy_handler
destroy_family {v} {k} {c} {n = n} {kids = kids} h =
    let (k1, runs, d) =
      destroy_children-Destroyed kids (2 * max_tasks + 1) _ (orphan h) c n
        (few n kids h.unequal h.fresh) (orphan-IsBrood h) in
    let (k', ends, all) = destroy-Destroyed h (2 * max_tasks + 1) k1 runs d in
    (k', ends, all, family-free h)
