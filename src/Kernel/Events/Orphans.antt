-- ===== src/Kernel/Events/Orphans.antt =====
-- kernel/task.c, DestroyHandler on one task, around its loop over the children.
use rtk.Common.{
  ℕ, suc, ◌%◌, ◌<◌, ◌≡◌, ◌∙◌, ap, refl, true, false, some, List, [], ◌∷◌, ◌++◌, arith, Bool-cases,
  inl, inr, has, has-erase, has-erase_ne, erase_absent,
}
use rtk.Common.Int.{pos, ==ℤ-refl}
use rtk.Queue.{Memory, remove_queue_node}
use rtk.Queue.Store.{IsStore}
use rtk.Queue.Counting.{distinct}
use rtk.Queue.Laws.{remove_own, without}
use rtk.Kernel.State.{Kernel, task_node, sibling_node, children, max_tasks, set_memory, Task}
use rtk.Kernel.Tasks.{is_valid_tid, task_queue}
use rtk.Kernel.Tasks.Alive.{is_valid_tid-pos}
use rtk.Kernel.Tasks.Placement.{IsPlaced, node_bound}
use rtk.Kernel.Events.{destroy, destroy_children}
use rtk.Kernel.Events.Family.{
  Family, nobody, member, order, siblings, destroyed_lists, IsMember, AreMembers, siblings-order,
  members-inside, members-frame,
}
use rtk.Kernel.Events.Freeing.{
  Destroyed, Destroyed-append, finish, finish-Destroyed, Destroyed-relinked,
}

-- The task with tid `n`, and the tasks that go with it: `kids` are its children, with theirs. It is
-- no child but of the task with tid `parent`, and no task is there twice.
pub record IsFamily (v : ℕ → List ℕ) (k : Kernel) (c parent n : ℕ) (kids : Family) : Type 0 where
  pub placed : IsPlaced v k
  pub running : k.current_task ≡ some c
  pub head : IsMember (k.tasks (n % max_tasks)) c parent n
  pub child :
      (q : ℕ) → has (sibling_node (n % max_tasks)) (v q) ≡ true → q ≡ children (parent % max_tasks)
  pub kids_queue : v (children (n % max_tasks)) ≡ siblings kids
  pub members : AreMembers v k.tasks c n kids
  pub unequal : distinct (order kids) ≡ true
  pub fresh : has (n % max_tasks) (order kids) ≡ false

-- The children of the task with tid `n`, with theirs.
pub record IsBrood (v : ℕ → List ℕ) (k : Kernel) (c n : ℕ) (kids : Family) : Type 0 where
  pub placed : IsPlaced v k
  pub running : k.current_task ≡ some c
  pub kids_queue : v (children (n % max_tasks)) ≡ siblings kids
  pub members : AreMembers v k.tasks c n kids
  pub unequal : distinct (order kids) ≡ true

-- A task leaves its siblings.
pub orphaned-IsPlaced :
    {v : ℕ → List ℕ} {k : Kernel} (i : ℕ) (m : Memory)
    → IsPlaced v k
    → i < max_tasks
    → IsStore node_bound (without (sibling_node i) v) m
    → IsPlaced (without (sibling_node i) v) (set_memory m k)
orphaned-IsPlaced {v} i m w lt s = record {
  store = s;
  own = λ j p lt g. ground (arith, has-erase_ne (sibling_node i) (task_node j) (v p), w.own j p lt);
  kinds = λ p a le g.
      ground (arith, has-erase (sibling_node i) a (v p), w.kinds p a, Bool-cases (has a (v p)));
  off = λ d p e. has-erase (sibling_node i) (task_node d) (v p) (w.off d p e);
  current_in = w.current_in;
  slots = w.slots;
}

-- The queue of children of a member holds no other task.
pub other_sibling :
    (v : ℕ → List ℕ) (t : ℕ → Task) (c n : ℕ) (kids : Family) (i j : ℕ)
    → i < max_tasks
    → AreMembers v t c n kids
    → has i (order kids) ≡ false
    → has j (order kids) ≡ true
    → has (sibling_node i) (v (children j)) ≡ false
other_sibling v t c n kids i j lt h out g =
    elim (Bool-cases (has (sibling_node i) (v (children j)))) [
      | inl e ↦
          let (s, is, small, later) = members-inside v t c n kids j (sibling_node i) h g e in
          let same : s ≡ i = omega arith in absurd (ground arith)
      | inr e ↦ e
    ]

pub not_sibling :
    (f : Family) (i : ℕ)
    → i < max_tasks
    → has i (order f) ≡ false
    → has (sibling_node i) (siblings f) ≡ false
not_sibling f i lt out = elim (Bool-cases (has (sibling_node i) (siblings f))) [
  | inl e ↦
      let (s, is, small, later) = siblings-order f (sibling_node i) e in
      let same : s ≡ i = omega arith in absurd (ground arith)
  | inr e ↦ e
]

module _ {v : ℕ → List ℕ} {k : Kernel} {c parent n : ℕ} {kids : Family}
    (h : IsFamily v k c parent n kids) where
  abbrev pub i : ℕ
  i = n % max_tasks

  -- The siblings' queue is left.
  abbrev pub orphan : Kernel
  orphan =
      set_memory (remove_queue_node (children (parent % max_tasks)) (sibling_node i) k.memory) k

  orphan-IsPlaced : IsPlaced (without (sibling_node i) v) orphan
  orphan-IsPlaced =
      orphaned-IsPlaced i
        (remove_queue_node (children (parent % max_tasks)) (sibling_node i) k.memory) h.placed
        (omega arith)
        (remove_own (children (parent % max_tasks)) (sibling_node i) h.placed.store (omega arith)
          (omega arith) h.child)

  pub orphan-IsBrood : IsBrood (without (sibling_node i) v) orphan c n kids
  orphan-IsBrood = record {
    placed = orphan-IsPlaced;
    running = h.running;
    kids_queue =
        rw h.kids_queue (
          erase_absent (sibling_node i) (siblings kids) (not_sibling kids i (omega arith) h.fresh));
    members =
        members-frame v (without (sibling_node i) v) k.tasks k.tasks c n kids (λ j g. refl)
          (λ j g.
            erase_absent (sibling_node i) (v (children j))
              (other_sibling v k.tasks c n kids i j (omega arith) h.members h.fresh g))
          h.members;
    unequal = h.unequal;
  }

  -- DestroyHandler is its loop over the children, then its end.
  destroy-finish :
      (fuel : ℕ) (k1 : Kernel)
      → destroy_children fuel i orphan ≡ some k1
      → destroy (suc fuel) (pos n) k ≡ finish (pos n) i k1
  unfolding destroy
  destroy-finish fuel k1 e =
      let valid : is_valid_tid (pos n) ≡ true = is_valid_tid-pos n (omega (arith, h.head.small)) in
      rw valid (rw h.head.holds (rw (==ℤ-refl (pos n)) (rw h.head.parent_tid (rw e refl))))

  -- A task goes after its children.
  pub destroy-Destroyed :
      (fuel : ℕ) (k1 : Kernel)
      → destroy_children fuel i orphan ≡ some k1
      → Destroyed orphan (order kids) (destroyed_lists (without (sibling_node i) v) kids) k1
      → (k' : Kernel) × (destroy (suc fuel) (pos n) k ≡ some (pos 0, k'))
        × Destroyed k (order (member n kids nobody)) (destroyed_lists v (member n kids nobody)) k'
  destroy-Destroyed fuel k1 e d =
      let same : k1.tasks i ≡ k.tasks i = ground (arith, d.tasks i, h.fresh) in
      let (k', runs, last) = finish-Destroyed (record {
        placed = d.placed;
        running = d.current ∙ h.running;
        other = h.head.other;
        task = record {
          index = refl;
          holds = ap (λ t. t.tid) same ∙ h.head.holds;
          queued = ap task_queue same ∙ h.head.queued;
        };
        small = h.head.small;
      }) in
      (
        k',
        destroy-finish fuel k1 e ∙ runs,
        Destroyed-relinked orphan.memory (order kids ++ i ∷ [])
            (Destroyed-append (order kids) (i ∷ []) d last),
      )
