-- ===== src/Kernel/Events/Waking.antt =====
-- The task that an interrupt wakes.
use rtk.Common.{
  ℕ, zero, suc, ◌+◌, ◌^◌, ◌%◌, ◌≤◌, ◌<◌, ◌≡◌, ◌∙◌, ap, refl, sym, subst, true, false, Bool, Option,
  none, some, List, [], ◌∷◌, arith, ◌==◌, if◌then◌else◌, Bool-cases, inl, inr, has, has-append,
  Option-cases, ◌>>=◌,
}
use rtk.Common.Int.{ℤ, pos, negsuc, ◌==ℤ◌}
use rtk.Bytes.{store_word, word_of}
use rtk.Queue.{null}
use rtk.Queue.Segment.{null-not-mem}
use rtk.Bytes.{int_of_word}
use rtk.Kernel.State.{
  Kernel, Task, TaskState, ready, task_node, task_of_node, priority_queue, max_tasks,
  is_alive_state, Effect, clear_timer_interrupt,
}
use rtk.Kernel.Tasks.{
  long_max, set_task_state, task_queue, enqueue_stateful_priority_task_queue, requeue,
  remove_stateful_priority_task_queue_node,
}
use rtk.Kernel.Tasks.Alive.{Names, set_task_return_value-eq}
use rtk.Kernel.Tasks.Placement.{IsPlaced, moved}
use rtk.Kernel.Tasks.States.{
  changed, reach_requeue_at, IsTask, set_task_state_moves, task_at, task_set,
}
use rtk.Kernel.Communication.Deliver.{rebytes}
use rtk.Kernel.Events.{
  unblock_task_waiting_on_event, wake, effect, pic_timer01, handle_irq, acknowledge, int_of_word,
}
use rtk.Kernel.Events.Waiting.{first_waiting, waiters_from, event_waiters, unblock-eq}

enqueued-same :
    (i : ℕ) (k k' : Kernel)
    → enqueue_stateful_priority_task_queue i k ≡ some k'
    → (k'.effects ≡ k.effects) × (k'.num_tasks ≡ k.num_tasks)
unfolding enqueue_stateful_priority_task_queue
enqueued-same i k k' e = elim (Option-cases (task_queue (k.tasks i))) [
  | inl g ↦ absurd (ground arith)
  | inr (q, g) ↦ ground arith
]

requeue-same :
    (tid : ℤ) (i : ℕ) (to : TaskState) (k k' : Kernel)
    → requeue tid i to k ≡ some k'
    → (k'.effects ≡ k.effects) × (k'.num_tasks ≡ k.num_tasks)
unfolding requeue
requeue-same tid i to k k' e = ground (arith, enqueued-same i k k')

pub set_task_state-same :
    (n : ℕ) (to : TaskState) (k k' : Kernel)
    → set_task_state (pos n) to k ≡ some k'
    → (k'.effects ≡ k.effects) × (k'.num_tasks ≡ k.num_tasks)
unfolding set_task_state remove_stateful_priority_task_queue_node
set_task_state-same n to k k' e =
    let i = n % max_tasks in
    elim (Option-cases (task_queue (k.tasks i))) [
      | inl g ↦ ground arith
      | inr (q, g) ↦
          ground (arith, reach_requeue_at k n q to, requeue-same (pos n) i to (changed k i q to) k')
    ]

first_waiting-mem :
    (intr : ℤ) (t : ℕ → Task) (xs : List ℕ) (i : ℕ)
    → has null xs ≡ false
    → first_waiting intr t xs ≡ some i
    → has (task_node i) xs ≡ true
first_waiting-mem intr t [] i out e = absurd (ground arith)
first_waiting-mem intr t (x ∷ xs) i out e =
    elim (Bool-cases ((t (task_of_node x)).awaiting_event_id ==ℤ intr)) [
      | inl y ↦ ground arith
      | inr y ↦ ground (arith, first_waiting-mem intr t xs i)
    ]

waiters_from-mem :
    (rounds p a : ℕ) (v : ℕ → List ℕ)
    → has a (waiters_from rounds p v) ≡ true
    → (q : ℕ) × (has a (v (priority_queue 6 q)) ≡ true) × (p ≤ q) × (q < p + rounds)
waiters_from-mem zero p a v h = absurd (ground arith)
waiters_from-mem (suc rounds) p a v h = elim (Bool-cases (has a (v (priority_queue 6 p)))) [
  | inl e ↦ (p, e, omega arith, omega arith)
  | inr e ↦
      let (q, g, le, lt) =
        waiters_from-mem rounds (p + 1) a v
          (ground (arith, has-append a (v (priority_queue 6 p)) (waiters_from rounds (p + 1) v))) in
      (q, g, omega arith, omega arith)
]

-- The kernel once the task `i`, which waited for an event, was woken.
pub record Woken (v : ℕ → List ℕ) (k : Kernel) (i : ℕ) (k' : Kernel) : Type 0 where
  pub tasks :
      (j : ℕ) → k'.tasks j ≡ (if j == i then record (k.tasks i) { state = ready } else k.tasks j)
  pub current : k'.current_task ≡ k.current_task
  pub messages : k'.messages ≡ k.messages
  pub effects : k'.effects ≡ k.effects
  pub counted : k'.num_tasks ≡ k.num_tasks
  pub bytes : k'.bytes ≡ store_word (k.tasks i).sp (word_of (negsuc 2)) k.bytes
  pub placed : IsPlaced (moved (priority_queue 1 (k.tasks i).priority) (task_node i) v) k'

module _ {v : ℕ → List ℕ} {k : Kernel} {c i n q : ℕ} (w : IsPlaced v k)
    (e : k.current_task ≡ some c) (t : IsTask k n i q) (small : n ≤ long_max)
    (stands : has (task_node i) (v q) ≡ true) where
  not_current : (c == i) ≡ false
  not_current = ground (arith, w.off c q e)

  wake-steps :
      (k1 : Kernel)
      → set_task_state (pos n) ready k ≡ some k1
      → k1.tasks i ≡ record (k.tasks i) { state = ready }
      → wake i k
        ≡ some (record k1 { bytes = store_word (k.tasks i).sp (word_of (negsuc 2)) k1.bytes })
  unfolding wake
  wake-steps k1 e1 same = rw t.holds (
      rw e1 (
        rw (ap (λ (t : Task). t.tid) same ∙ t.holds) (
          set_task_return_value-eq names (negsuc 2) (ap (λ (t : Task). is_alive_state t.state) same)
          ∙ rw same refl)))
    where
      names : Names k1 n i
      names = record {
        index = t.index;
        small = small;
        holds = ap (λ (t : Task). t.tid) same ∙ t.holds;
      }

  pub wake-Woken : (k' : Kernel) × (wake i k ≡ some k') × Woken v k i k'
  wake-Woken =
      let s = set_task_state_moves ready w t e in
      let same : s.0.tasks i ≡ record (k.tasks i) { state = ready } =
        task_set k.tasks s.0.tasks i ready s.2 in
      let (still, count) = set_task_state-same n ready k s.0 s.1 in
      (
        record s.0 { bytes = store_word (k.tasks i).sp (word_of (negsuc 2)) s.0.bytes },
        wake-steps s.0 s.1 same,
        record {
          tasks = task_at k.tasks s.0.tasks i ready s.2;
          current = s.3 ∙ sym e;
          messages = s.5;
          effects = still;
          counted = count;
          bytes = rw s.4 refl;
          placed =
              rebytes (store_word (k.tasks i).sp (word_of (negsuc 2)) s.0.bytes)
                (rw not_current at s.6);
        },
      )

-- The tids of the tasks that wait are tids that the kernel hands out.
abbrev pub HasTids : (ℕ → List ℕ) → Kernel → Type 0
HasTids v k =
    (i : ℕ)
    → has (task_node i) (event_waiters v) ≡ true
    → (n : ℕ) × ((k.tasks i).tid ≡ pos n) × (n ≤ long_max)

-- The result of HandleIrq, `found` being the task that waits for the interrupt, if there is one, and
-- `k` the kernel with the interrupt acknowledged.
abbrev pub Handled :
    (ℕ → List ℕ) → Kernel → (found : Option ℕ) → (time : ℕ) → Option (ℕ × Kernel) → Type 0
Handled v k none time r = r ≡ some (time, k)
Handled v k (some i) time r = (k' : Kernel) × (r ≡ some (time, k')) × Woken v k i k'

module _ {v : ℕ → List ℕ} {k : Kernel} {c : ℕ} (w : IsPlaced v k) (e : k.current_task ≡ some c)
    (tids : HasTids v k) (intr : ℤ) where
  not_null : (rounds p : ℕ) → has null (waiters_from rounds p v) ≡ false
  not_null zero p = refl
  not_null (suc rounds) p =
      let q = k.memory.queue (priority_queue 6 p) in
      ground (
        arith,
        has-append null (v (priority_queue 6 p)) (waiters_from rounds (p + 1) v),
        not_null rounds (p + 1),
        null-not-mem k.memory.node null q.first q.last (v (priority_queue 6 p))
            (w.store.linked (priority_queue 6 p)),
      )

  Woken-first :
      (i : ℕ)
      → first_waiting intr k.tasks (event_waiters v) ≡ some i
      → (k' : Kernel) × (wake i k ≡ some k') × Woken v k i k'
  Woken-first i found =
      let mem : has (task_node i) (event_waiters v) ≡ true =
        first_waiting-mem intr k.tasks (event_waiters v) i (not_null 5 0) found in
      let (n, holds, small) = tids i mem in
      let (p, stands, le, lt) = waiters_from-mem 5 0 (task_node i) v mem in
      let below : task_node i ≤ max_tasks =
        w.kinds (priority_queue 6 p) (task_node i) (omega arith) stands in
      wake-Woken w e
        (record {
          index = w.slots i n (omega arith) holds;
          holds = holds;
          queued = elim (w.own i (priority_queue 6 p) (omega arith) stands) [
            | inl own ↦ own
            | inr (free_queue, free) ↦ absurd (omega arith)
          ];
        })
        small stands

  unblocked :
      (time : ℕ)
      → Handled v k
          (first_waiting intr k.tasks (event_waiters v))
          time
          (unblock_task_waiting_on_event intr k >>= λ k'. some (time, k'))
  unblocked time = elim (Option-cases (first_waiting intr k.tasks (event_waiters v))) [
    | inl none_waits ↦ rw (unblock-eq intr w) (rw none_waits refl)
    | inr (i, found) ↦
        let (k', runs, done) = Woken-first i found in
        rw (unblock-eq intr w) (rw found (k', rw runs refl, done))
  ]

-- Acknowledging an interrupt writes to the devices only.
pub acknowledge-eq :
    (intr : ℕ) (went_off : Bool) (k : Kernel)
    → acknowledge intr went_off k ≡ record k { effects = (acknowledge intr went_off k).effects }
unfolding acknowledge
acknowledge-eq intr went_off k = elim (Bool-cases (intr == pic_timer01)) [
  | inl e ↦
      rw e
        (elim went_off
          as (λ b.
            (if b then effect clear_timer_interrupt k else k)
            ≡ record k { effects = (if b then effect clear_timer_interrupt k else k).effects }) [
              | true ↦ refl
              | false ↦ refl
            ])
  | inr e ↦ rw e refl
]

pub IsPlaced-effects :
    {v : ℕ → List ℕ} {k : Kernel} (es : List Effect)
    → IsPlaced v k
    → IsPlaced v (record k { effects = es })
IsPlaced-effects es w = record {
  store = w.store;
  own = w.own;
  kinds = w.kinds;
  off = w.off;
  current_in = w.current_in;
  slots = w.slots;
}

-- HandleIrq of the interrupt code -(m + 1), in a placed kernel with a current task, where the tasks that
-- wait for events have tids that the kernel hands out. The interrupt `2 ^ (m + 1)` is acknowledged. If
-- no task waits for it, nothing else changes. Otherwise the first task that does, by priority and then by
-- the order in which they began to wait, is woken: it is ready, at the end of the ready queue of its
-- priority, and its AwaitEvent returns -3; no other descriptor and no message changes. The time
-- returned is 0 if the timer went off, and else what it shows.
pub handle_irq_lem :
    {v : ℕ → List ℕ} {k : Kernel} {c : ℕ} (m timer : ℕ) (went_off : Bool)
    → IsPlaced v k
    → k.current_task ≡ some c
    → HasTids v k
    → let intr = 2 ^ (m + 1) % 2 ^ 32 in
      Handled v
        (acknowledge intr went_off k)
        (first_waiting (int_of_word intr) k.tasks (event_waiters v))
        (if went_off then 0 else timer)
        (handle_irq (negsuc m) timer went_off k)
unfolding handle_irq
handle_irq_lem {v} {k} m timer went_off w e tids =
    let intr = 2 ^ (m + 1) % 2 ^ 32 in
    let time = if went_off then 0 else timer in
    subst
      (λ k0.
        Handled v k0 (first_waiting (int_of_word intr) k.tasks (event_waiters v)) time
          (unblock_task_waiting_on_event (int_of_word intr) k0 >>= λ k'. some (time, k')))
      (sym (acknowledge-eq intr went_off k))
      (unblocked (IsPlaced-effects (acknowledge intr went_off k).effects w) e tids
        (int_of_word intr) time)
