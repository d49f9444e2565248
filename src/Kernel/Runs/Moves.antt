-- ===== src/Kernel/Runs/Moves.antt =====
-- kernel/rtk.c, what the rounds of the kernel's loop do to the queues and to the running task.
use rtk.Common.{
  ℕ, ◌+◌, ◌%◌, ◌^◌, ◌≡◌, ◌≢◌, ◌≤◌, ◌∙◌, inl, inr, ap, refl, sym, subst, true, false, Bool, Option,
  none, some, List, [], ◌∷◌, arith, ◌==◌, if◌then◌else◌, Bool-cases, has, has-append, has-erase_ne,
  ◌||◌, not, ◌>>=◌, ltb, ◌/◌, ◌-◌,
}
use rtk.Common.Int.{ℤ, pos, negsuc, pos_part, ◌+ℤ◌}
use rtk.Queue.Laws.{without}
use rtk.Bytes.{int_of_word, Bytes, store_word, word_of}
use rtk.Kernel.State.{
  Kernel, Task, TaskState, event_blocked, zombie, available_descriptors, task_node, priority_queue,
  null_priority, low_priority, set_task, is_queued_state, state_code, enable_interrupt,
}
use rtk.Kernel.Tasks.{
  set_current_task_state, set_current_task_return_value, set_current_task_priority,
}
use rtk.Kernel.Tasks.Alive.{set_current_task_state-eq}
use rtk.Kernel.Tasks.Placement.{IsPlaced, moved, has-moved}
use rtk.Kernel.Tasks.States.{state_lists}
use rtk.Kernel.Lifecycle.{exit_task, save_task_state}
use rtk.Kernel.Lifecycle.Creating.{created_lists, adopted}
use rtk.Kernel.Events.{await_event_handler, handle_irq, acknowledge, effect}
use rtk.Kernel.Events.Waiting.{first_waiting, event_waiters}
use rtk.Kernel.Events.Waking.{Handled, handle_irq_lem, acknowledge-eq, IsPlaced-effects, HasTids}
use rtk.Kernel.Runs.{idle}
use rtk.Kernel.Runs.Live.{IsLive, keep, same_kernel}

pub state_lists-has :
    (p c i a q : ℕ) (to : TaskState) (v : ℕ → List ℕ)
    → a ≢ task_node i
    → has a (v q) ≡ true
    → has a (state_lists p c i to v q) ≡ true
state_lists-has p c i a q to v ne h = elim (Bool-cases ((c == i) || not (is_queued_state to))) [
  | inl e ↦ rw e (has-erase_ne (task_node i) a (v q) ne ∙ h)
  | inr e ↦
      rw e (has-moved (priority_queue (pos_part (state_code to)) p) (task_node i) a q v ne ∙ h)
]

moved_in : (q a : ℕ) (v : ℕ → List ℕ) → has a (moved q a v q) ≡ true
moved_in q a v = ground (arith, has-append a (without a v q) (a ∷ []))

-- The current task's descriptor may change in anything but its tid.
pub current-IsPlaced :
    {v : ℕ → List ℕ} {k : Kernel} {c : ℕ} (t : Task)
    → IsPlaced v k
    → k.current_task ≡ some c
    → t.tid ≡ (k.tasks c).tid
    → IsPlaced v (set_task c t k)
current-IsPlaced {v} {k} {c} t w e same = record {
  store = w.store;
  own = λ j p lt g. ground (arith, w.own j p lt g, w.off c p e);
  kinds = w.kinds;
  off = w.off;
  current_in = w.current_in;
  slots = λ j n lt g. ground (arith, w.slots j n lt);
}

-- AwaitEventHandler's two writes.
abbrev pub awaiting : ℤ → ℕ → Kernel → Kernel
awaiting intr c k = set_task c (record (k.tasks c) { awaiting_event_id = intr }) k

abbrev awaits : ℤ → ℕ → Kernel → Kernel
awaits intr c k =
    set_task c (record ((awaiting intr c k).tasks c) { state = event_blocked }) (awaiting intr c k)

pub await-eq :
    (intr : ℤ) (k : Kernel) (c : ℕ)
    → k.current_task ≡ some c
    → await_event_handler intr k ≡ some (pos 0, effect (enable_interrupt intr) (awaits intr c k))
unfolding await_event_handler
await-eq intr k c e =
    ap
      (λ o. o >>= λ d.
        (set_current_task_state event_blocked (awaiting intr d k) >>= λ k'.
        some (pos 0, effect (enable_interrupt intr) k')))
      e
    ∙ ap (λ o. o >>= λ k'. some (pos 0, effect (enable_interrupt intr) k'))
        (set_current_task_state-eq (awaiting intr c k) c event_blocked e)

pub exit-eq :
    (k : Kernel) (c : ℕ)
    → k.current_task ≡ some c
    → exit_task k
      ≡ some (
          set_task c
            (record (k.tasks c) { state = zombie })
            (record k { num_tasks = k.num_tasks +ℤ negsuc 0 }))
unfolding exit_task
exit-eq k c e =
    ap
      (λ o. o >>= λ d. some (
        set_task d (record (k.tasks d) { state = zombie })
          (record k { num_tasks = k.num_tasks +ℤ negsuc 0 })))
      e

-- NullProcess's descriptor is not free.
pub not_free :
    {v : ℕ → List ℕ} {k : Kernel} {i : ℕ} {xs : List ℕ}
    → IsLive v k
    → v available_descriptors ≡ task_node i ∷ xs
    → i ≢ idle
not_free {v} {k} {i} l e same =
    let listed : has (task_node idle) (v available_descriptors) ≡ true = rw e (ground arith) in
    elim l.on [
      | inl (is, state) ↦ ground (arith, l.placed.off l.c available_descriptors l.running)
      | inr h ↦ ground (
        arith,
        l.placed.store.apart available_descriptors (priority_queue 1 null_priority) (task_node idle)
            listed h,
      )
    ]

adopted_below :
    (c : Option ℕ) (i q : ℕ) (v : ℕ → List ℕ) → q ≤ available_descriptors → adopted c i v q ≡ v q
adopted_below none i q v le = refl
adopted_below (some c) i q v le = ground arith

pub created_lists-has :
    (k : Kernel) (i p a q : ℕ) (v : ℕ → List ℕ)
    → q ≤ available_descriptors
    → has a (v q) ≡ true
    → has a (created_lists k i p v q) ≡ true
created_lists-has k i p a q v low h =
    ground (arith, has-append a (v q) (task_node i ∷ []), adopted_below k.current_task i q v low)

-- After HandleIrq.
after_irq :
    {v : ℕ → List ℕ} {k k' : Kernel} {time' : ℕ} {r : Option (ℕ × Kernel)} (time : ℕ)
    (found : Option ℕ)
    → IsLive v k
    → Handled v k found time r
    → r ≡ some (time', k')
    → (w : ℕ → List ℕ) × IsLive w k'
after_irq {v} time none l same e = (v, subst (IsLive v) (same_kernel (sym same ∙ e)) l)
after_irq {v} {k} time (some i) l (k1, runs, woken) e =
    let w = moved (priority_queue 1 (k.tasks i).priority) (task_node i) v in
    (
      w,
      subst (IsLive w) (same_kernel (sym runs ∙ e)) (
          keep l woken.placed woken.current (λ j. ground (arith, woken.tasks j, l.priorities j))
            (ground (arith, woken.tasks idle)) still waits),
    )
  where
    still : l.c ≡ idle → k1.tasks idle ≡ k.tasks idle
    still is = elim (Bool-cases (i == idle)) [
      | inl same ↦
          let q = priority_queue 1 (k.tasks i).priority in
          let out = woken.placed.off l.c q (woken.current ∙ l.running) in
          let here : l.c ≡ i = ground arith in
          absurd (
            ground (
              arith,
              moved_in q (task_node i) v,
              subst (λ c. has (task_node c) (moved q (task_node i) v q) ≡ false) here out,
            ))
      | inr other ↦ ground (arith, woken.tasks idle)
    ]

    waits :
        has (task_node idle) (v (priority_queue 1 null_priority)) ≡ true
        → has (task_node idle) (
            moved
              (priority_queue 1 (k.tasks i).priority)
              (task_node i)
              v
              (priority_queue 1 null_priority))
          ≡ true
    waits h = elim (Bool-cases (i == idle)) [
      | inl same ↦
          let is : idle ≡ i = ground arith in
          subst
            (λ i.
              has (task_node idle) (
                moved (priority_queue 1 (k.tasks i).priority) (task_node i) v
                  (priority_queue 1 null_priority))
              ≡ true)
            is (rw l.bottom (moved_in (priority_queue 1 null_priority) (task_node idle) v))
      | inr other ↦
          has-moved (priority_queue 1 (k.tasks i).priority) (task_node i) (task_node idle)
            (priority_queue 1 null_priority) v (ground arith)
          ∙ h
    ]

-- HandleIrq.
pub irq-IsLive :
    {v : ℕ → List ℕ} {k k' : Kernel} {time' : ℕ} (m timer : ℕ) (went_off : Bool)
    → IsLive v k
    → HasTids v k
    → handle_irq (negsuc m) timer went_off k ≡ some (time', k')
    → (w : ℕ → List ℕ) × IsLive w k'
irq-IsLive {v} {k} m timer went_off l tids e =
    let intr = 2 ^ (m + 1) % 2 ^ 32 in
    after_irq (if went_off then 0 else timer)
      (first_waiting (int_of_word intr) k.tasks (event_waiters v))
      (subst (IsLive v) (sym (acknowledge-eq intr went_off k)) acknowledged)
      (handle_irq_lem m timer went_off l.placed l.running tids) e
  where
    acknowledged :
        IsLive v (record k { effects = (acknowledge (2 ^ (m + 1) % 2 ^ 32) went_off k).effects })
    acknowledged =
        keep l (IsPlaced-effects (acknowledge (2 ^ (m + 1) % 2 ^ 32) went_off k).effects l.placed)
          refl l.priorities refl (λ is. refl) (λ h. h)

-- A kernel with the same queues, the same current task, and the same tids and states.
module _ {v : ℕ → List ℕ} {k : Kernel} (l : IsLive v k) where
  -- The current task's descriptor changes in what the queues do not read.
  pub current-IsLive :
      (t : Task)
      → t.tid ≡ (k.tasks l.c).tid
      → t.state ≡ (k.tasks l.c).state
      → t.priority ≡ (k.tasks l.c).priority
      → IsLive v (set_task l.c t k)
  current-IsLive t tid state priority = record {
    placed = current-IsPlaced t l.placed l.running tid;
    c = l.c;
    running = l.running;
    priorities = λ j. ground (arith, l.priorities j, l.priorities l.c);
    bottom = ground (arith, l.bottom);
    on = elim l.on [ inl (is, active) ↦ inl (is, ground (arith, active)) | inr h ↦ inr h ];
  }

  pub bytes-IsLive : (m : Bytes) → IsLive v (record k { bytes = m })
  bytes-IsLive m = record {
    placed = record {
      store = l.placed.store;
      own = l.placed.own;
      kinds = l.placed.kinds;
      off = l.placed.off;
      current_in = l.placed.current_in;
      slots = l.placed.slots;
    };
    c = l.c;
    running = l.running;
    priorities = l.priorities;
    bottom = l.bottom;
    on = l.on;
  }

  -- A result that is there is what the call gives.
  given :
      {k1 k' : Kernel} {o : Option Kernel} → o ≡ some k1 → o ≡ some k' → IsLive v k1 → IsLive v k'
  given {k1} f g live =
      subst (IsLive v) (ap (λ o. elim o [ none ↦ k1 | some k ↦ k ]) (sym f ∙ g)) live

  pub save-IsLive :
      {k' : Kernel} (spsr sp pc timer : ℕ) (went_off : Bool)
      → save_task_state spsr sp pc timer went_off k ≡ some k'
      → IsLive v k'
  unfolding save_task_state
  save-IsLive spsr sp pc timer went_off e =
      let t = k.tasks l.c in
      let now = if went_off then 0 else timer in
      let saved : Task = record t {
        spsr = spsr;
        sp = sp;
        pc = pc;
        used_user_time =
            (t.used_user_time + (t.last_activate_at + 2 ^ 32 - now) % 2 ^ 32 / 100) % 2 ^ 32;
      } in
      given (rw l.running refl) e (current-IsLive saved refl refl refl)

  pub return_value-IsLive :
      {k' : Kernel} (ret : ℤ) → set_current_task_return_value ret k ≡ some k' → IsLive v k'
  unfolding set_current_task_return_value
  return_value-IsLive ret e =
      given (rw l.running refl) e (bytes-IsLive (store_word (k.tasks l.c).sp (word_of ret) k.bytes))

  pub own_priority-IsLive :
      {k' : Kernel} {c : ℕ} {r : ℤ} (to : ℕ)
      → k.current_task ≡ some c
      → c ≢ idle
      → set_current_task_priority to k ≡ (r, k')
      → IsLive v k'
  unfolding set_current_task_priority
  own_priority-IsLive {k'} {c} to running ne e = elim (Bool-cases (ltb low_priority to)) [
    | inl g ↦ subst (IsLive v) (ap (λ (p : ℤ × Kernel). p.1) (sym (refused g) ∙ e)) l
    | inr g ↦ subst (IsLive v) (ap (λ (p : ℤ × Kernel). p.1) (sym (taken g) ∙ e)) (
        keep l (current-IsPlaced (record (k.tasks c) { priority = to }) l.placed running refl) refl
          (λ j. ground (arith, l.priorities j)) (ground arith)
          (λ is. ground (arith, l.running, running)) (λ h. h))
  ]
    where
      set : ℕ → ℤ × Kernel
      set d =
          if ltb low_priority to
          then (negsuc 0, k)
          else (pos 0, set_task d (record (k.tasks d) { priority = to }) k)

      tested : set_current_task_priority to k ≡ set c
      tested = ap (λ o. elim o [ none ↦ (negsuc 0, k) | some d ↦ set d ]) running

      refused : ltb low_priority to ≡ true → set_current_task_priority to k ≡ (negsuc 0, k)
      refused g = tested ∙ rw g refl

      taken :
          ltb low_priority to ≡ false
          → set_current_task_priority to k
            ≡ (pos 0, set_task c (record (k.tasks c) { priority = to }) k)
      taken g = tested ∙ rw g refl
