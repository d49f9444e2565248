-- ===== src/Kernel/Lifecycle/Booting.antt =====
-- kernel/task.c, CreateTask right after InitTasks, with every descriptor free.
use rtk.Kernel.Lifecycle.Creating.{CanCreate}
use rtk.Common.{
  ℕ, suc, ◌≤◌, ◌<◌, ◌≡◌, ◌≢◌, ◌∙◌, ap, refl, subst, sym, true, false, List, [], ◌∷◌, arith, ◌==◌,
  if◌then◌else◌, Bool-cases, inl, inr, has,
}
use rtk.Queue.{null, Memory, update, dequeue_queue}
use rtk.Queue.Segment.{Dll, frame, last-mem}
use rtk.Queue.Store.{IsStore}
use rtk.Kernel.State.{
  Kernel, free, task_node, max_tasks, set_memory, available_descriptors, sibling_node,
}
use rtk.Kernel.Tasks.Placement.{IsPlaced, node_bound}
use rtk.Kernel.Lifecycle.Filling.{span, has-span, IsFilled}

-- The first node taken off, whatever its link back holds.
module _ (m : Memory) (q x y before last : ℕ) (ys : List ℕ)
    (d : Dll m.node before x last (x ∷ y ∷ ys)) (first : (m.queue q).first ≡ x)
    (end : (m.queue q).last ≡ last) where
  node-dequeue :
      (z : ℕ)
      → (dequeue_queue q m).1.node z ≡ (
          if z == x
          then record { next = null; prev = null }
          else if z == y
          then record { next = (m.node z).next; prev = null }
          else m.node z)
  unfolding dequeue_queue
  node-dequeue z = ground (arith, d, first, end)

  dequeued : (dequeue_queue q m).0 ≡ x
  unfolding dequeue_queue
  dequeued = ground (arith, d, first)

  last_differs : last ≢ x
  last_differs = ground (arith, d, last-mem m.node x (m.node x).next last y ys d.4)

  queue-dequeue :
      (r : ℕ)
      → (dequeue_queue q m).1.queue r
        ≡ (if r == q then record { first = y; last = last } else m.queue r)
  unfolding dequeue_queue
  queue-dequeue r = ground (arith, d, first, end, last_differs)

  rooted : Dll (dequeue_queue q m).1.node null y last (y ∷ ys)
  rooted = (
    refl,
    d.4.1,
    ground (arith, node-dequeue y, d.3),
    d.4.3,
    subst (λ f. Dll (dequeue_queue q m).1.node y f last ys) (ground (arith, node-dequeue y, d.3))
        (frame m.node (dequeue_queue q m).1.node y (m.node y).next last ys d.4.4
          (λ z h. ground (arith, node-dequeue z, d.3, d.4.3))),
  )

abbrev no_lists : ℕ → List ℕ
no_lists _ = []

-- The free descriptors but the first.
abbrev pub rest_free : ℕ → ℕ → List ℕ
rest_free c = update no_lists available_descriptors (span 2 (suc c))

module _ {k k' : Kernel} {stacks : ℕ} (c : ℕ) (f : IsFilled (suc (suc c)) k stacks k')
    (full : suc (suc c) ≡ max_tasks) where
  abbrev taken : Memory
  taken = (dequeue_queue available_descriptors k'.memory).1

  dll : Dll k'.memory.node max_tasks 1 (suc (suc c)) (1 ∷ 2 ∷ span 3 c)
  unfolding span
  dll = f.linked

  spanned : 2 ∷ span 3 c ≡ span 2 (suc c)
  unfolding span
  spanned = refl

  taken-IsStore : IsStore node_bound (rest_free c) taken
  taken-IsStore = record {
    linked = λ q. elim (Bool-cases (q == available_descriptors)) [
      | inl e ↦ rw e (here q e)
      | inr e ↦ rw e (there q e)
    ];
    apart = λ p q a g g'. ground arith;
    idle = λ a lt out. idle_at a lt (out available_descriptors);
  }
    where
      node_at :
          (z : ℕ)
          → taken.node z ≡ (
              if z == 1
              then record { next = null; prev = null }
              else if z == 2
              then record { next = (k'.memory.node z).next; prev = null }
              else k'.memory.node z)
      node_at =
          node-dequeue k'.memory available_descriptors 1 2 max_tasks (suc (suc c)) (span 3 c) dll
            f.front f.back

      queue_at :
          (r : ℕ)
          → taken.queue r ≡ (
              if r == available_descriptors
              then record { first = 2; last = suc (suc c) }
              else k'.memory.queue r)
      queue_at =
          queue-dequeue k'.memory available_descriptors 1 2 max_tasks (suc (suc c)) (span 3 c) dll
            f.front f.back

      here :
          (q : ℕ)
          → (q == available_descriptors) ≡ true
          → Dll taken.node null (taken.queue q).first (taken.queue q).last (span 2 (suc c))
      here q e =
          subst (λ h. Dll taken.node null h.first h.last (span 2 (suc c)))
            (sym (queue_at q ∙ rw e refl))
            (subst (λ xs. Dll taken.node null 2 (suc (suc c)) xs) spanned
              (rooted k'.memory available_descriptors 1 2 max_tasks (suc (suc c)) (span 3 c) dll
                f.front f.back))

      there :
          (q : ℕ)
          → (q == available_descriptors) ≡ false
          → Dll taken.node null (taken.queue q).first (taken.queue q).last []
      there q e =
          let h : taken.queue q ≡ record { first = null; last = null } =
            queue_at q ∙ rw e (f.others q (ground arith)) in
          (ap (λ h. h.first) h, ap (λ h. h.last) h)

      idle_at :
          (a : ℕ)
          → a < node_bound
          → has a (span 2 (suc c)) ≡ false
          → taken.node a ≡ record { next = null; prev = null }
      idle_at a lt out =
          ground (arith, node_at a, f.blank a, f.blank_null, has-span 2 (suc c) a, full)

  taken-IsPlaced : IsPlaced (rest_free c) (set_memory taken k')
  taken-IsPlaced = record {
    store = taken-IsStore;
    own = λ i q lt g. elim (Bool-cases (q == available_descriptors)) [
      | inl e ↦ inr (ground arith, is_free i lt)
      | inr e ↦ absurd (none_in i q e g)
    ];
    kinds = λ q a le g. within q a g;
    off = λ d q e. ground (arith, f.nobody);
    current_in = λ d e. ground (arith, f.nobody);
    slots = λ i n lt e. ground (arith, f.tasks i, full);
  }
    where
      is_free : (i : ℕ) → i < max_tasks → (k'.tasks i).state ≡ free
      is_free i lt = ground (arith, f.tasks i, full)

      none_in :
          (i q : ℕ)
          → (q == available_descriptors) ≡ false
          → has (task_node i) (rest_free c q) ≡ true
          → ⊥
      none_in i q e g = ground arith

      within : (q a : ℕ) → has a (rest_free c q) ≡ true → a ≤ max_tasks
      within q a g = ground (arith, has-span 2 (suc c) a, full)

  pub first-CanCreate : CanCreate (rest_free c) k' taken 0 0
  first-CanCreate = record {
    taken = λ j. (
      dequeued k'.memory available_descriptors 1 2 max_tasks (suc (suc c)) (span 3 c) dll f.front
          f.back j,
      taken,
    );
    placed = taken-IsPlaced;
    below = omega arith;
    out = λ p. ground (arith, has-span 2 (suc c) 1);
    childless = refl;
    lone = λ p. ground (arith, has-span 2 (suc c) (sibling_node 0), full);
    other = λ d e. ground (arith, f.nobody);
    next_tid = ground (arith, f.tasks 0);
    index = refl;
  }
