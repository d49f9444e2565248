-- ===== src/Kernel/Events/Broods.antt =====
-- kernel/task.c, the loop of DestroyHandler: the first child of a task, and those after it.
use rtk.Common.{
  ℕ, suc, ◌%◌, ◌<◌, ◌≡◌, ◌∙◌, ap, refl, sym, subst, fun_ext, true, false, List, [], ◌∷◌, arith,
  ◌==◌, Bool-cases, inl, inr, has, has-append, erase_absent, ◌>>=◌,
}
use rtk.Common.Int.{pos}
use rtk.Queue.{null, dequeue_queue, update}
use rtk.Queue.Segment.{has-erase_self}
use rtk.Queue.Store.{IsStore}
use rtk.Queue.Counting.{distinct}
use rtk.Queue.Laws.{dequeue_head, without}
use rtk.Kernel.State.{Kernel, task_node, sibling_node, children, max_tasks, set_memory, Task}
use rtk.Kernel.Tasks.Placement.{IsPlaced, node_bound}
use rtk.Kernel.Events.{destroy, destroy_children, task_of_sibling}
use rtk.Kernel.Events.Family.{
  Family, nobody, member, order, siblings, freed, destroyed_lists, AreMembers, destroyed_lists-same,
  siblings-order, members-inside, members-frame, distinct-parts, order-small,
}
use rtk.Kernel.Events.Freeing.{Destroyed}
use rtk.Kernel.Events.Orphans.{IsFamily, IsBrood, orphaned-IsPlaced, other_sibling, not_sibling}

no_task_inside :
    (v : ℕ → List ℕ) (t : ℕ → Task) (c n : ℕ) (kids : Family) (i j : ℕ)
    → i < max_tasks
    → AreMembers v t c n kids
    → has j (order kids) ≡ true
    → has (task_node i) (v (children j)) ≡ false
no_task_inside v t c n kids i j lt h g = elim (Bool-cases (has (task_node i) (v (children j)))) [
  | inl e ↦
      let (s, is, small, later) = members-inside v t c n kids j (task_node i) h g e in
      absurd (omega arith)
  | inr e ↦ e
]

-- A queue of siblings holds no descriptor's node.
not_task : (f : Family) (s : ℕ) → s < max_tasks → has (task_node s) (siblings f) ≡ false
not_task f s lt = elim (Bool-cases (has (task_node s) (siblings f))) [
  | inl e ↦ let (r, is, small, later) = siblings-order f (task_node s) e in absurd (omega arith)
  | inr e ↦ e
]

-- The first child and those after it.
module _ {v : ℕ → List ℕ} {k : Kernel} {c parent n : ℕ} {kids rest : Family}
    (h : IsBrood v k c parent (member n kids rest)) where
  abbrev first : ℕ
  first = n % max_tasks

  abbrev pub queue : ℕ
  queue = children (parent % max_tasks)

  abbrev pub left : ℕ → List ℕ
  left = without (sibling_node first) v

  parts :
      (distinct (order kids) ≡ true)
      × (distinct (first ∷ order rest) ≡ true)
      × ((s : ℕ) → has s (order kids) ≡ true → has s (first ∷ order rest) ≡ false)
  parts = distinct-parts (order kids) (first ∷ order rest) h.unequal

  fresh_first : has first (order kids) ≡ false
  fresh_first = ground (arith, parts.2 first, Bool-cases (has first (order kids)))

  -- No descriptor of the first child's family is among the later ones.
  apart_rest : (s : ℕ) → has s (order (member n kids nobody)) ≡ true → has s (order rest) ≡ false
  apart_rest s g = ground (arith, has-append s (order kids) (first ∷ []), parts.1, parts.2 s)

  taken :
      ((dequeue_queue queue k.memory).0 ≡ sibling_node first)
      × IsStore node_bound (update v queue (siblings rest)) (dequeue_queue queue k.memory).1
  taken = (dequeue_head queue h.placed.store).1 (sibling_node first) (siblings rest) h.kids_queue

  left-eq : update v queue (siblings rest) ≡ left
  left-eq = fun_ext (λ p. elim (Bool-cases (p == queue)) [
    | inl e ↦ ground (arith, h.kids_queue)
    | inr e ↦ ground (
      arith,
      h.kids_queue,
      erase_absent (sibling_node first) (v p),
      Bool-cases (has (sibling_node first) (v p)),
      h.placed.store.apart p queue (sibling_node first),
    )
  ])

  abbrev pub unhooked : Kernel
  unhooked = set_memory (dequeue_queue queue k.memory).1 k

  unhooked-IsPlaced : IsPlaced left unhooked
  unhooked-IsPlaced =
      orphaned-IsPlaced first (dequeue_queue queue k.memory).1 h.placed (omega arith)
        (subst (λ w. IsStore node_bound w (dequeue_queue queue k.memory).1) left-eq taken.1)

  in_none : (p : ℕ) → has (sibling_node first) (left p) ≡ false
  in_none p =
      let m = k.memory in
      has-erase_self m.node null (m.queue p).first (m.queue p).last (sibling_node first) (v p)
        (h.placed.store.linked p)

  pub first-IsFamily : IsFamily left unhooked c parent n kids
  first-IsFamily = record {
    placed = unhooked-IsPlaced;
    running = h.running;
    head = h.members.0;
    child = λ q e. absurd (ground (arith, in_none q));
    kids_queue = rw (h.members.1) (
        erase_absent (sibling_node first) (siblings kids)
          (not_sibling kids first (omega arith) fresh_first));
    members =
        members-frame v left k.tasks k.tasks c n kids (λ j g. refl)
          (λ j g.
            erase_absent (sibling_node first) (v (children j))
              (other_sibling v k.tasks c n kids first j (omega arith) h.members.2 fresh_first g))
          h.members.2;
    unequal = parts.0;
    fresh = fresh_first;
  }

  -- The lists do not hold the first child in its queue already.
  pub lists-eq :
      destroyed_lists left (member n kids nobody) ≡ destroyed_lists v (member n kids nobody)
  lists-eq =
      ap (λ w. freed first (destroyed_lists w kids))
        (fun_ext (λ p. erase_absent (sibling_node first) (left p) (in_none p)))

  left_queue : left queue ≡ siblings rest
  left_queue = rw h.kids_queue (ground arith)

  later_queues :
      (j : ℕ)
      → has j (order rest) ≡ true
      → destroyed_lists v (member n kids nobody) (children j) ≡ v (children j)
  later_queues j g =
      let out = λ (s : ℕ) (e : has s (order rest) ≡ false) (lt : s < max_tasks).
        other_sibling v k.tasks c parent rest s j lt h.members.3 e g in
      let same : left (children j) ≡ v (children j) =
        erase_absent (sibling_node first) (v (children j))
          (out first (ground (arith, parts.1)) (omega arith)) in
      ap (λ w. w (children j)) (sym lists-eq)
      ∙ destroyed_lists-same (member n kids nobody) left (children j) (omega arith) (λ s f.
        let lt = order-small (member n kids nobody) s f in
        rw same
          (no_task_inside v k.tasks c parent rest s j lt h.members.3 g, out s (apart_rest s f) lt))
      ∙ same

  pub rest-IsBrood :
      (k1 : Kernel)
      → Destroyed unhooked
          (order (member n kids nobody))
          (destroyed_lists v (member n kids nobody))
          k1
      → IsBrood (destroyed_lists v (member n kids nobody)) k1 c parent rest
  rest-IsBrood k1 d = record {
    placed = d.placed;
    running = d.current ∙ h.running;
    kids_queue =
        ap (λ w. w queue) (sym lists-eq)
        ∙ destroyed_lists-same (member n kids nobody) left queue (omega arith) (λ s g.
          let lt = order-small (member n kids nobody) s g in
          rw left_queue (not_task rest s lt, not_sibling rest s lt (apart_rest s g)))
        ∙ left_queue;
    members =
        members-frame v (destroyed_lists v (member n kids nobody)) k.tasks k1.tasks c parent rest
          (λ j g.
            ground
              (arith, d.tasks j, apart_rest j, Bool-cases (has j (order (member n kids nobody)))))
          later_queues h.members.3;
    unequal = ground (arith, parts.1);
  }

  pub destroy_children-next :
      (fuel : ℕ)
      → destroy_children (suc fuel) (parent % max_tasks) k
        ≡ (destroy fuel (pos n) unhooked >>= λ r. destroy_children fuel (parent % max_tasks) r.1)
  unfolding destroy_children
  destroy_children-next fuel =
      let more : ((dequeue_queue queue k.memory).0 == null) ≡ false = ground (arith, taken.0) in
      let which : task_of_sibling (dequeue_queue queue k.memory).0 ≡ first =
        omega (arith, taken.0) in
      rw more (rw which (rw h.members.0.holds refl))
