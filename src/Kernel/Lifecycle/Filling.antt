-- ===== src/Kernel/Lifecycle/Filling.antt =====
-- kernel/task.c, InitTasks: the task descriptors that are put in the queue of free ones.
use rtk.Common.{
  ℕ, zero, suc, ◌+◌, ◌-◌, ◌*◌, ◌≤◌, ◌<◌, ◌≡◌, ◌≢◌, ◌∙◌, ap, refl, subst, sym, false, none, List, [],
  ◌∷◌, ◌++◌, arith, ◌==◌, leb, ltb, ◌&&◌, if◌then◌else◌, has,
}
use rtk.Common.Int.{negsuc}
use rtk.Queue.{null, enqueue_queue}
use rtk.Queue.Segment.{Dll, append-Dll}
use rtk.Queue.Writes.{node-enqueue, queue-enqueue}
use rtk.Kernel.State.{Kernel, free, task_node, max_tasks, available_descriptors}
use rtk.Kernel.Lifecycle.{init_tasks_from, init_task, stack_size_bytes}

-- The nodes from `a` on, `n` of them.
unfoldable pub span : (a n : ℕ) → List ℕ
span a zero = []
span a (suc n) = a ∷ span (suc a) n

span-snoc : (a n : ℕ) → span a (n + 1) ≡ span a n ++ (a + n) ∷ []
unfolding span
span-snoc a zero =
    let one : 0 + 1 ≡ suc 0 = omega arith in
    let at : a ≡ a + 0 = omega arith in ap (span a) one ∙ ap (λ x. x ∷ []) at
span-snoc a (suc n) =
    let more : suc n + 1 ≡ suc (n + 1) = omega arith in
    let at : suc a + n ≡ a + suc n = omega arith in
    ap (span a) more
    ∙ ap (λ xs. a ∷ xs) (span-snoc (suc a) n ∙ ap (λ x. span (suc a) n ++ x ∷ []) at)

pub has-span : (a n x : ℕ) → has x (span a n) ≡ (leb a x && ltb x (a + n))
unfolding span
has-span a zero x = ground arith
has-span a (suc n) x = ground (arith, has-span (suc a) n x)

-- Static data when the kernel starts: priorities 0, no links, and no queue but `available_descriptors`, whose
-- header is initialised to the first and the last descriptor.
pub record IsStatic (k : Kernel) : Type 0 where
  pub nodes : (a : ℕ) → k.memory.node a ≡ record { next = null; prev = null }
  pub queues :
      (q : ℕ)
      → k.memory.queue q ≡ (
          if q == available_descriptors
          then record { first = task_node 0; last = task_node (max_tasks - 1) }
          else record { first = null; last = null })
  pub nobody : k.current_task ≡ none
  pub zeroed : (j : ℕ) → (k.tasks j).priority ≡ 0

-- InitTasks after `n` of its rounds, of which there was one at least: the nodes enqueued are linked,
-- but for the link back from the first, which goes to the last descriptor.
pub record IsFilled (n : ℕ) (k : Kernel) (stacks : ℕ) (k' : Kernel) : Type 0 where
  pub front : (k'.memory.queue available_descriptors).first ≡ 1
  pub back : (k'.memory.queue available_descriptors).last ≡ n
  pub linked : Dll k'.memory.node max_tasks 1 n (span 1 n)
  pub others :
      (q : ℕ) → q ≢ available_descriptors → k'.memory.queue q ≡ record { first = null; last = null }
  pub blank :
      (a : ℕ) → n < a → a ≢ max_tasks → k'.memory.node a ≡ record { next = null; prev = null }
  pub blank_null : k'.memory.node 0 ≡ record { next = null; prev = null }
  pub tasks :
      (j : ℕ)
      → k'.tasks j ≡ (
          if ltb j n
          then record (k.tasks j) {
            tid = negsuc (max_tasks - 1 - j);
            stack = stacks + j * stack_size_bytes;
            state = free;
          }
          else k.tasks j)
  pub nobody : k'.current_task ≡ none
  pub counted : k'.num_tasks ≡ k.num_tasks

first-IsFilled : (k : Kernel) (stacks : ℕ) → IsStatic k → IsFilled 1 k stacks (init_task stacks 0 k)
unfolding span
first-IsFilled k stacks s = record {
  front = ground (
    arith,
    queue-enqueue available_descriptors 1 k.memory available_descriptors,
    s.queues available_descriptors,
  );
  back = ground (arith, queue-enqueue available_descriptors 1 k.memory available_descriptors);
  linked =
      ground
        (arith, node-enqueue available_descriptors 1 k.memory 1, s.queues available_descriptors);
  others = λ q ne. ground (arith, queue-enqueue available_descriptors 1 k.memory q, s.queues q);
  blank = λ a lt ne. ground (
    arith,
    node-enqueue available_descriptors 1 k.memory a,
    s.queues available_descriptors,
    s.nodes a,
  );
  blank_null = ground (
    arith,
    node-enqueue available_descriptors 1 k.memory 0,
    s.queues available_descriptors,
    s.nodes 0,
  );
  tasks = λ j. ground arith;
  nobody = s.nobody;
  counted = refl;
}

next-IsFilled :
    (n : ℕ) (k k' : Kernel) (stacks : ℕ)
    → 0 < n
    → n < max_tasks
    → IsFilled n k stacks k'
    → IsFilled (n + 1) k stacks (init_task stacks n k')
next-IsFilled n k k' stacks some_in lt f = record {
  front =
      ground (
        arith,
        queue-enqueue available_descriptors (n + 1) k'.memory available_descriptors,
        f.front,
      );
  back =
      ground (arith, queue-enqueue available_descriptors (n + 1) k'.memory available_descriptors);
  linked = linked-next;
  others = λ q ne.
      ground (arith, queue-enqueue available_descriptors (n + 1) k'.memory q, f.others q ne);
  blank = λ a far ne.
      ground (arith, node-enqueue available_descriptors (n + 1) k'.memory a, f.back, f.blank a);
  blank_null =
      ground (arith, node-enqueue available_descriptors (n + 1) k'.memory 0, f.back, f.blank_null);
  tasks = λ j. ground (arith, f.tasks j);
  nobody = f.nobody;
  counted = f.counted;
}
  where
    one_more : 1 + n ≡ n + 1
    one_more = omega arith

    not_null : (1 == null) ≡ false
    not_null = refl

    appended :
        Dll
          (enqueue_queue available_descriptors (n + 1) k'.memory).node
          max_tasks
          (if 1 == null then n + 1 else 1)
          (n + 1)
          (span 1 n ++ (n + 1) ∷ [])
    appended =
        append-Dll k'.memory.node (enqueue_queue available_descriptors (n + 1) k'.memory).node
          max_tasks 1 n (n + 1) (span 1 n) f.linked (has-span 1 n (n + 1) ∙ ground arith)
          (omega arith)
          (ground (arith, node-enqueue available_descriptors (n + 1) k'.memory (n + 1), f.back))
          (λ x h.
            ground (
              arith,
              node-enqueue available_descriptors (n + 1) k'.memory x,
              f.back,
              has-span 1 n x,
            ))

    linked-next :
        Dll
          (enqueue_queue available_descriptors (n + 1) k'.memory).node
          max_tasks
          1
          (n + 1)
          (span 1 (n + 1))
    linked-next =
        subst
          (λ xs.
            Dll (enqueue_queue available_descriptors (n + 1) k'.memory).node max_tasks 1 (n + 1) xs)
          (sym (span-snoc 1 n ∙ ap (λ x. span 1 n ++ x ∷ []) one_more)) appended

rest-IsFilled :
    (rounds n : ℕ) (k k' : Kernel) (stacks : ℕ)
    → 0 < n
    → n + rounds ≤ max_tasks
    → IsFilled n k stacks k'
    → IsFilled (n + rounds) k stacks (init_tasks_from rounds stacks n k')
unfolding init_tasks_from
rest-IsFilled zero n k k' stacks some_in le f =
    let none_left : n ≡ n + 0 = omega arith in subst (λ n. IsFilled n k stacks k') none_left f
rest-IsFilled (suc rounds) n k k' stacks some_in le f =
    let one_done : n + 1 + rounds ≡ n + suc rounds = omega arith in
    subst (λ j. IsFilled j k stacks (init_tasks_from rounds stacks (n + 1) (init_task stacks n k')))
      one_done
      (rest-IsFilled rounds (n + 1) k (init_task stacks n k') stacks (omega arith) (omega arith)
        (next-IsFilled n k k' stacks some_in (omega arith) f))

pub all-IsFilled :
    (rounds : ℕ) (k : Kernel) (stacks : ℕ)
    → 1 + rounds ≤ max_tasks
    → IsStatic k
    → IsFilled (1 + rounds) k stacks (init_tasks_from (suc rounds) stacks 0 k)
unfolding init_tasks_from
all-IsFilled rounds k stacks le s =
    let one : 1 ≡ 0 + 1 = omega arith in
    subst
      (λ j. IsFilled (1 + rounds) k stacks (init_tasks_from rounds stacks j (init_task stacks 0 k)))
      one
      (rest-IsFilled rounds 1 k (init_task stacks 0 k) stacks (omega arith) le
        (first-IsFilled k stacks s))
