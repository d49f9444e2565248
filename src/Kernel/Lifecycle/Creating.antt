-- ===== src/Kernel/Lifecycle/Creating.antt =====
-- CreateTask: a free descriptor becomes a ready task.
use rtk.Queue.Laws.{dequeue_cons}
use rtk.Common.{
  ℕ, ◌+◌, ◌-◌, ◌%◌, ◌≤◌, ◌<◌, ◌≡◌, ◌≢◌, ◌∙◌, ap, refl, subst, sym, true, false, Option, none, some,
  List, [], ◌∷◌, ◌++◌, arith, ◌==◌, if◌then◌else◌, Bool-cases, ==-refl, inl, inr, has, has-append,
  fun_ext,
}
use rtk.Common.Int.{ℤ, pos, ◌+ℤ◌}
use rtk.Queue.{
  null, Memory, update, enqueue_queue, dequeue_queue, set_next, set_prev, set_first, set_last,
}
use rtk.Queue.Segment.{Dll}
use rtk.Queue.Store.{IsStore, enqueue-IsStore}
use rtk.Bytes.{store_word, word_of}
use rtk.Kernel.State.{
  Kernel, task_node, sibling_node, children, max_tasks, set_task, set_memory, priority_queue,
  null_priority, available_descriptors,
}
use rtk.Kernel.Tasks.{task_queue, enqueue_stateful_priority_task_queue}
use rtk.Kernel.Tasks.Placement.{IsPlaced, node_bound, enqueue_own}
use rtk.Kernel.Lifecycle.{create_task, fresh_task, link_task, stack_size_bytes}

-- DequeueQueue of the free descriptors gives the descriptor `i`, and leaves the memory `m`. Then
-- the queues hold `v`, in which the descriptor, its children and its sibling links do not occur; its next
-- tid is `n`.
pub record CanCreate (v : ℕ → List ℕ) (k : Kernel) (m : Memory) (i n : ℕ) : Type 0 where
  pub taken : dequeue_queue available_descriptors k.memory ≡ (task_node i, m)
  pub placed : IsPlaced v (set_memory m k)
  pub below : i < max_tasks
  pub out : (p : ℕ) → has (task_node i) (v p) ≡ false
  pub childless : v (children i) ≡ []
  pub lone : (p : ℕ) → has (sibling_node i) (v p) ≡ false
  pub other : (c : ℕ) → k.current_task ≡ some c → c ≢ i
  pub next_tid : (k.tasks i).tid +ℤ pos max_tasks ≡ pos n
  pub index : n % max_tasks ≡ i

-- The lists once the new task is a child of the current one, if there is one.
abbrev pub adopted : Option ℕ → ℕ → (ℕ → List ℕ) → ℕ → List ℕ
adopted none i v = v
adopted (some c) i v = update v (children c) (v (children c) ++ sibling_node i ∷ [])

-- And stands at the end of its ready queue.
abbrev pub created_lists : Kernel → (i priority : ℕ) → (ℕ → List ℕ) → ℕ → List ℕ
created_lists k i priority v =
    let w = adopted k.current_task i v in
    let q = priority_queue 1 priority in update w q (w q ++ task_node i ∷ [])

-- The memory with the new task's sibling links in the children of the current task.
abbrev adopt : Option ℕ → ℕ → Memory → Memory
adopt none i m = m
adopt (some c) i m = enqueue_queue (children c) (sibling_node i) m

module _ {v : ℕ → List ℕ} {k : Kernel} {m : Memory} {i n : ℕ} (h : CanCreate v k m i n) where
  node_idle :
      (a : ℕ)
      → a < node_bound
      → ((p : ℕ) → has a (v p) ≡ false)
      → m.node a ≡ record { next = null; prev = null }
  node_idle a lt out = h.placed.store.idle a lt out

  no_children : m.queue (children i) ≡ record { first = null; last = null }
  no_children =
      let d : Dll m.node null (m.queue (children i)).first (m.queue (children i)).last [] =
        rw h.childless at (h.placed.store.linked (children i)) in
      λ j. record { first = d.0 j; last = d.1 j }

  -- The writes before the adoption write what stands there.
  links_are_null :
      set_prev (sibling_node i) null (
        set_next (sibling_node i) null (
          set_last (children i) null (
            set_first
              (children i)
              null
              (set_prev (task_node i) null (set_next (task_node i) null m)))))
      ≡ m
  links_are_null = λ j. record { node = nodes j; queue = queues j }
    where
      nodes :
          (set_prev (sibling_node i) null (
            set_next (sibling_node i) null (
              set_last (children i) null (
                set_first
                  (children i)
                  null
                  (set_prev (task_node i) null (set_next (task_node i) null m)))))).node
          ≡ m.node
      nodes = fun_ext (λ z. ground (
        arith,
        h.below,
        node_idle (task_node i) (omega (arith, h.below)) h.out,
        node_idle (sibling_node i) (omega (arith, h.below)) h.lone,
      ))

      queues :
          (set_prev (sibling_node i) null (
            set_next (sibling_node i) null (
              set_last (children i) null (
                set_first
                  (children i)
                  null
                  (set_prev (task_node i) null (set_next (task_node i) null m)))))).queue
          ≡ m.queue
      queues = fun_ext (λ r. ground (arith, no_children))

  link_task-eq : link_task i k m ≡ adopt k.current_task i m
  unfolding link_task
  link_task-eq =
      elim k.current_task
        as (λ c.
          elim c as (λ _. Memory) [
            | none ↦ linked0
            | some c ↦ enqueue_queue (children c) (sibling_node i) linked0
          ]
          ≡ adopt c i m) [
            | none ↦ links_are_null
            | some c ↦ ap (enqueue_queue (children c) (sibling_node i)) links_are_null
          ]
    where
      linked0 : Memory
      linked0 = set_prev (sibling_node i) null (
          set_next (sibling_node i) null (
            set_last (children i) null (
              set_first (children i) null
                (set_prev (task_node i) null (set_next (task_node i) null m)))))

  adopt-IsStore : (c : Option ℕ) → IsStore node_bound (adopted c i v) (adopt c i m)
  adopt-IsStore none = h.placed.store
  adopt-IsStore (some c) =
      enqueue-IsStore h.placed.store (children c) (sibling_node i) (omega arith) h.lone

  has-adopted :
      (c : Option ℕ) (a p : ℕ) → a ≢ sibling_node i → has a (adopted c i v p) ≡ has a (v p)
  has-adopted none a p ne = refl
  has-adopted (some c) a p ne = ground (arith, has-append a (v (children c)) (sibling_node i ∷ []))

  adopted_below : (c : Option ℕ) (p : ℕ) → p ≤ available_descriptors → adopted c i v p ≡ v p
  adopted_below none p le = refl
  adopted_below (some c) p le = ground arith

  module _ (exit priority code : ℕ) where
    -- The kernel when the task is linked, before it is scheduled.
    abbrev pub linked : Kernel
    linked =
        record (set_task i (fresh_task i priority code k)
          (set_memory (adopt k.current_task i m) k)) {
            bytes =
                store_word ((k.tasks i).stack + stack_size_bytes - 4) (word_of (pos exit)) k.bytes;
          }

    linked-IsPlaced : IsPlaced (adopted k.current_task i v) linked
    linked-IsPlaced = record {
      store = adopt-IsStore k.current_task;
      own = λ j p lt g.
          let old : has (task_node j) (v p) ≡ true =
            sym (has-adopted k.current_task (task_node j) p (omega (arith, h.below))) ∙ g in
          elim (Bool-cases (j == i)) [
            | inl e ↦ ground (arith, h.out p)
            | inr e ↦ rw e (h.placed.own j p lt old)
          ];
      kinds = λ q a le g.
          h.placed.kinds q a le (sym (ap (has a) (adopted_below k.current_task q le)) ∙ g);
      off = λ c p e.
          has-adopted k.current_task (task_node c) p
            (omega (arith, h.placed.current_in c e, h.below))
          ∙ h.placed.off c p e;
      current_in = h.placed.current_in;
      slots = λ j t lt g. elim (Bool-cases (j == i)) [
        | inl e ↦ ground (arith, h.next_tid, h.index)
        | inr e ↦ h.placed.slots j t lt (rw e at g)
      ];
    }

    linked_alone : (p : ℕ) → has (task_node i) (adopted k.current_task i v p) ≡ false
    linked_alone p = has-adopted k.current_task (task_node i) p (omega (arith, h.below)) ∙ h.out p

    module _ (small : priority ≤ null_priority) where
      own_queue : task_queue (linked.tasks i) ≡ some (priority_queue 1 priority)
      unfolding task_queue
      own_queue = rw (==-refl i) (ground arith)

      scheduled :
          enqueue_stateful_priority_task_queue i linked
          ≡ some (
              set_memory
                (enqueue_queue (priority_queue 1 priority) (task_node i) linked.memory)
                linked)
      unfolding enqueue_stateful_priority_task_queue
      scheduled = rw own_queue refl

      created-eq :
          create_task exit priority code k
          ≡ some (
            pos n,
            record linked {
              memory = enqueue_queue (priority_queue 1 priority) (task_node i) linked.memory;
              num_tasks = k.num_tasks +ℤ pos 1;
            },
          )
      unfolding create_task
      created-eq =
          rw h.taken (rw (back, not_null) (rw link_task-eq (rw scheduled (rw h.next_tid refl))))
        where
          back : task_node i - 1 ≡ i
          back = omega arith

          not_null : (task_node i == null) ≡ false
          not_null = ground arith

-- The kernel after CreateTask, which made a task of the descriptor `i`.
pub record Created (v : ℕ → List ℕ) (k : Kernel) (i exit priority code : ℕ) (k' : Kernel)
    : Type 0 where
  pub tasks : (j : ℕ) → k'.tasks j ≡ (if j == i then fresh_task i priority code k else k.tasks j)
  pub current : k'.current_task ≡ k.current_task
  pub counted : k'.num_tasks ≡ k.num_tasks +ℤ pos 1
  pub messages : k'.messages ≡ k.messages
  pub bytes :
      k'.bytes ≡ store_word ((k.tasks i).stack + stack_size_bytes - 4) (word_of (pos exit)) k.bytes
  pub placed : IsPlaced (created_lists k i priority v) k'

-- CreateTask with a priority in range, where a descriptor is free: it returns the descriptor's next
-- tid, which is its old one and 1024. The descriptor, and no other, is set up; the task is ready, at
-- the end of the ready queue of its priority, and the last child of the current task, if there is one;
-- the address of Exit stands on its stack; there is one task more; and the kernel is placed.
pub create_task_lem :
    {v : ℕ → List ℕ} {k : Kernel} {m : Memory} {i n : ℕ} (exit priority code : ℕ)
    → CanCreate v k m i n
    → priority ≤ null_priority
    → (k' : Kernel) × (create_task exit priority code k ≡ some (pos n, k'))
      × Created v k i exit priority code k'
create_task_lem {v} {k} {m} {i} exit priority code h small = (
  record (linked h exit priority code) {
    memory =
        enqueue_queue (priority_queue 1 priority) (task_node i)
          (linked h exit priority code).memory;
    num_tasks = k.num_tasks +ℤ pos 1;
  },
  created-eq h exit priority code small,
  record {
    tasks = λ j. refl;
    current = refl;
    counted = refl;
    messages = refl;
    bytes = refl;
    placed = recount (
        enqueue_own (linked-IsPlaced h exit priority code) i (priority_queue 1 priority) h.below
          (linked_alone h exit priority code) (own_queue h exit priority code small) h.other);
  },
)
  where
    recount :
        {w : ℕ → List ℕ} {k : Kernel} {n : ℤ}
        → IsPlaced w k
        → IsPlaced w (record k { num_tasks = n })
    recount p = record {
      store = p.store;
      own = p.own;
      kinds = p.kinds;
      off = p.off;
      current_in = p.current_in;
      slots = p.slots;
    }

-- In a placed kernel whose first free descriptor is that of `i`.
pub record HasFree (v : ℕ → List ℕ) (k : Kernel) (i n : ℕ) (xs : List ℕ) : Type 0 where
  pub placed : IsPlaced v k
  pub below : i < max_tasks
  pub first_free : v available_descriptors ≡ task_node i ∷ xs
  pub childless : v (children i) ≡ []
  pub lone : (p : ℕ) → has (sibling_node i) (v p) ≡ false
  pub next_tid : (k.tasks i).tid +ℤ pos max_tasks ≡ pos n
  pub index : n % max_tasks ≡ i

module _ {v : ℕ → List ℕ} {k : Kernel} {i n : ℕ} {xs : List ℕ} (h : HasFree v k i n xs) where
  taken_off :
      ((dequeue_queue available_descriptors k.memory).0 ≡ task_node i)
      × IsStore node_bound
          (update v available_descriptors xs)
          (dequeue_queue available_descriptors k.memory).1
  taken_off = dequeue_cons available_descriptors (task_node i) xs h.placed.store h.first_free

  in_front : has (task_node i) (v available_descriptors) ≡ true
  in_front = rw h.first_free (ground arith)

  only_once : has (task_node i) xs ≡ false
  only_once =
      let q = k.memory.queue available_descriptors in
      let d : Dll k.memory.node null q.first q.last (task_node i ∷ xs) =
        rw h.first_free at (h.placed.store.linked available_descriptors) in
      d.3

  still_in : (a p : ℕ) → has a (update v available_descriptors xs p) ≡ true → has a (v p) ≡ true
  still_in a p g = elim (Bool-cases (p == available_descriptors)) [
    | inl e ↦
        let later : has a xs ≡ true = rw e at g in
        let same : available_descriptors ≡ p = ground arith in
        subst (λ q. has a (v q) ≡ true) same (rw h.first_free (ground arith))
    | inr e ↦ rw e at g
  ]

  not_in : (a p : ℕ) → has a (v p) ≡ false → has a (update v available_descriptors xs p) ≡ false
  not_in a p g =
      ground (arith, still_in a p, Bool-cases (has a (update v available_descriptors xs p)))

  -- The descriptor can be made a task.
  pub free-CanCreate :
      CanCreate
        (update v available_descriptors xs)
        k
        (dequeue_queue available_descriptors k.memory).1
        i
        n
  free-CanCreate = record {
    taken = λ j. (taken_off.0 j, (dequeue_queue available_descriptors k.memory).1);
    placed = record {
      store = taken_off.1;
      own = λ j p lt g. h.placed.own j p lt (still_in (task_node j) p g);
      kinds = λ q a le g. h.placed.kinds q a le (still_in a q g);
      off = λ c p e. not_in (task_node c) p (h.placed.off c p e);
      current_in = h.placed.current_in;
      slots = h.placed.slots;
    };
    below = h.below;
    out = λ p. elim (Bool-cases (p == available_descriptors)) [
      | inl e ↦ rw e only_once
      | inr e ↦ rw e (elsewhere p e)
    ];
    childless = rw (away (children i) (omega arith)) h.childless;
    lone = λ p. not_in (sibling_node i) p (h.lone p);
    other = λ c e. ground (arith, h.placed.off c available_descriptors e, in_front);
    next_tid = h.next_tid;
    index = h.index;
  }
    where
      away : (q : ℕ) → available_descriptors < q → (q == available_descriptors) ≡ false
      away q lt = ground arith

      elsewhere : (p : ℕ) → (p == available_descriptors) ≡ false → has (task_node i) (v p) ≡ false
      elsewhere p e = ground (
        arith,
        in_front,
        h.placed.store.apart p available_descriptors (task_node i),
        Bool-cases (has (task_node i) (v p)),
      )
