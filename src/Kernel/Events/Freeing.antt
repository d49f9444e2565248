-- ===== src/Kernel/Events/Freeing.antt =====
-- The end of DestroyHandler, which frees one descriptor; and what is left of a kernel in which
-- several have been freed.
use rtk.Common.{
  ℕ, ◌-◌, ◌<◌, ◌≡◌, ◌≢◌, ◌∙◌, ap, refl, sym, true, false, some, List, [], ◌∷◌, ◌++◌, arith, ◌==◌,
  if◌then◌else◌, Bool-cases, inl, inr, has, has-append, ◌||◌, not, length, length-append, Option,
  ◌>>=◌,
}
use rtk.Common.Int.{ℤ, pos, negsuc, leb_ℤ, ltb_ℤ, ◌+ℤ◌}
use rtk.Queue.{null, Memory, update, enqueue_queue}
use rtk.Queue.Segment.{has-erase_self}
use rtk.Queue.Store.{enqueue-IsStore}
use rtk.Queue.Laws.{without}
use rtk.Kernel.State.{
  Kernel, Task, free, task_node, max_tasks, available_descriptors, set_task, set_memory, Effect,
  disable_interrupt, is_queued_state,
}
use rtk.Kernel.Tasks.{long_max, set_task_state}
use rtk.Kernel.Tasks.Placement.{IsPlaced}
use rtk.Kernel.Tasks.States.{IsTask, set_task_state_moves, task_at, task_set}
use rtk.Kernel.Events.{release, disable_awaited}
use rtk.Kernel.Events.Waking.{set_task_state-same}
use rtk.Kernel.Events.Family.{freed}

-- What is turned off when the descriptors are freed, in their order.
abbrev pub turned_off : List ℕ → (ℕ → Task) → List Effect → List Effect
turned_off [] t es = es
turned_off (i ∷ is) t es = turned_off is t (
    if leb_ℤ (pos 0) (t i).awaiting_event_id
    then disable_interrupt (t i).awaiting_event_id ∷ es
    else es)

-- The kernel when the descriptors `is` are freed: their queues hold `w`.
pub record Destroyed (k : Kernel) (is : List ℕ) (w : ℕ → List ℕ) (k' : Kernel) : Type 0 where
  pub tasks :
      (j : ℕ) → k'.tasks j ≡ (if has j is then record (k.tasks j) { state = free } else k.tasks j)
  pub current : k'.current_task ≡ k.current_task
  pub messages : k'.messages ≡ k.messages
  pub bytes : k'.bytes ≡ k.bytes
  pub counted : k.num_tasks ≡ k'.num_tasks +ℤ pos (length is)
  pub effects : k'.effects ≡ turned_off is k.tasks k.effects
  pub placed : IsPlaced w k'

turned_off-append :
    (is js : List ℕ) (t : ℕ → Task) (es : List Effect)
    → turned_off (is ++ js) t es ≡ turned_off js t (turned_off is t es)
turned_off-append [] js t es = refl
turned_off-append (i ∷ is) js t es = turned_off-append is js t _

turned_off-same :
    (is : List ℕ) (t u : ℕ → Task) (es : List Effect)
    → ((j : ℕ) → (u j).awaiting_event_id ≡ (t j).awaiting_event_id)
    → turned_off is u es ≡ turned_off is t es
turned_off-same [] t u es h = refl
turned_off-same (i ∷ is) t u es h = rw (h i) (turned_off-same is t u _ h)

-- One after the other.
pub Destroyed-append :
    {k k1 k2 : Kernel} {v w : ℕ → List ℕ} (is js : List ℕ)
    → Destroyed k is v k1
    → Destroyed k1 js w k2
    → Destroyed k (is ++ js) w k2
Destroyed-append {k} {k1} {k2} is js a b = record {
  tasks = λ j. ground (arith, a.tasks j, b.tasks j, has-append j is js);
  current = b.current ∙ a.current;
  messages = b.messages ∙ a.messages;
  bytes = b.bytes ∙ a.bytes;
  counted = ground (arith, a.counted, b.counted, length-append {0} is js);
  effects =
      b.effects
      ∙ turned_off-same js k.tasks k1.tasks k1.effects (λ j. ground (arith, a.tasks j))
      ∙ ap (turned_off js k.tasks) a.effects
      ∙ sym (turned_off-append is js k.tasks k.effects);
  placed = b.placed;
}

-- The links are not read.
pub Destroyed-relinked :
    {k k' : Kernel} {w : ℕ → List ℕ} (m : Memory) (is : List ℕ)
    → Destroyed (set_memory m k) is w k'
    → Destroyed k is w k'
Destroyed-relinked m is d = record {
  tasks = d.tasks;
  current = d.current;
  messages = d.messages;
  bytes = d.bytes;
  counted = d.counted;
  effects = d.effects;
  placed = d.placed;
}

-- A free descriptor that is in no queue goes to the end of the free ones.
enqueue_free :
    {v : ℕ → List ℕ} {k : Kernel} (w : IsPlaced v k) (i : ℕ)
    → i < max_tasks
    → ((p : ℕ) → has (task_node i) (v p) ≡ false)
    → (k.tasks i).state ≡ free
    → ((c : ℕ) → k.current_task ≡ some c → c ≢ i)
    → IsPlaced
        (update v available_descriptors (v available_descriptors ++ task_node i ∷ []))
        (set_memory (enqueue_queue available_descriptors (task_node i) k.memory) k)
enqueue_free {v} {k} w i lt out is_free other =
    let a = available_descriptors in
    record {
      store = enqueue-IsStore w.store a (task_node i) (omega arith) out;
      own = λ j p jlt h. elim (Bool-cases (j == i)) [
        | inl e ↦ ground (arith, has-append (task_node j) (v a) (task_node i ∷ []), out p)
        | inr e ↦ ground (arith, has-append (task_node j) (v a) (task_node i ∷ []), w.own j p jlt)
      ];
      off = λ c p e. ground (
        arith,
        has-append (task_node c) (v a) (task_node i ∷ []),
        w.off c p e,
        other c e,
        w.off c a e,
      );
      kinds = λ p b small h.
          ground (arith, has-append b (v a) (task_node i ∷ []), w.kinds p b small, w.kinds a b);
      current_in = w.current_in;
      slots = w.slots;
    }

pub IsPlaced-counts :
    {v : ℕ → List ℕ} {k : Kernel} (es : List Effect) (n : ℤ)
    → IsPlaced v k
    → IsPlaced v (record k { effects = es; num_tasks = n })
IsPlaced-counts es n w = record {
  store = w.store;
  own = w.own;
  kinds = w.kinds;
  off = w.off;
  current_in = w.current_in;
  slots = w.slots;
}

disable_awaited-eq :
    (i : ℕ) (k : Kernel)
    → disable_awaited i k ≡ record k { effects = turned_off (i ∷ []) k.tasks k.effects }
disable_awaited-eq i k = elim (Bool-cases (leb_ℤ (pos 0) (k.tasks i).awaiting_event_id)) [
  | inl e ↦ rw e refl
  | inr e ↦ rw e refl
]

-- The end of DestroyHandler, after its loop.
abbrev pub finish : ℤ → ℕ → Kernel → Option (ℤ × Kernel)
finish tid i k = do
  k2 ← release tid i k
  let k3 = disable_awaited i k2
  some (pos 0, record k3 { num_tasks = k3.num_tasks +ℤ negsuc 0 })

-- The task with tid `n`, which is not the current one, and whose tids have not run out.
pub record IsIdle (v : ℕ → List ℕ) (k : Kernel) (c n i q : ℕ) : Type 0 where
  pub placed : IsPlaced v k
  pub running : k.current_task ≡ some c
  pub other : c ≢ i
  pub task : IsTask k n i q
  pub small : n < long_max - max_tasks

module _ {v : ℕ → List ℕ} {k : Kernel} {c n i q : ℕ} (h : IsIdle v k c n i q) where
  gone : (p : ℕ) → has (task_node i) (without (task_node i) v p) ≡ false
  gone p =
      let m = k.memory in
      has-erase_self m.node null (m.queue p).first (m.queue p).last (task_node i) (v p)
        (h.placed.store.linked p)

  moved_out :
      (k2 : Kernel) × (set_task_state (pos n) free k ≡ some k2)
      × (k2.tasks ≡ (set_task i (record (k.tasks i) { state = free }) k).tasks)
      × (k2.current_task ≡ some c)
      × (k2.bytes ≡ k.bytes)
      × (k2.messages ≡ k.messages)
      × IsPlaced (without (task_node i) v) k2
  moved_out =
      let (k2, runs, tasks, current, bytes, messages, placed) =
        set_task_state_moves free h.placed h.task h.running in
      let no_queue : ((c == i) || not (is_queued_state free)) ≡ true = ground arith in
      (k2, runs, tasks, current, bytes, messages, rw no_queue at placed)

  abbrev last : Kernel → Kernel
  last k2 = set_memory (enqueue_queue available_descriptors (task_node i) k2.memory) k2

  released :
      (k2 : Kernel) → set_task_state (pos n) free k ≡ some k2 → release (pos n) i k ≡ some (last k2)
  unfolding release
  released k2 e =
      let more : ltb_ℤ (pos n) (pos (long_max - max_tasks)) ≡ true = ground (arith, h.small) in
      rw h.task.holds (rw more (rw e refl))

  -- The descriptor is freed, and there is one task less.
  pub finish-Destroyed :
      (k' : Kernel) × (finish (pos n) i k ≡ some (pos 0, k')) × Destroyed k (i ∷ []) (freed i v) k'
  finish-Destroyed =
      let (k2, runs, tasks, current, bytes, messages, placed) = moved_out in
      let (still, count) = set_task_state-same n free k k2 runs in
      let k3 = last k2 in
      let is_free : k2.tasks i ≡ record (k.tasks i) { state = free } =
        task_set k.tasks k2.tasks i free tasks in
      let es = turned_off (i ∷ []) k3.tasks k3.effects in
      (
        record k3 { effects = es; num_tasks = k3.num_tasks +ℤ negsuc 0 },
        ap
              (λ (o : Option Kernel). o >>= λ k2. some (
                pos 0,
                record (disable_awaited i k2) {
                  num_tasks = (disable_awaited i k2).num_tasks +ℤ negsuc 0;
                },
              ))
              (released k2 runs)
            ∙ ap (λ (k3 : Kernel). some (pos 0, record k3 { num_tasks = k3.num_tasks +ℤ negsuc 0 }))
                (disable_awaited-eq i k3),
        record {
          tasks = λ j. ground (arith, task_at k.tasks k2.tasks i free tasks j);
          current = current ∙ sym h.running;
          messages = messages;
          bytes = bytes;
          counted = rw count (ground arith);
          effects =
              ap
                (λ (e : ℤ).
                  if leb_ℤ (pos 0) e then disable_interrupt e ∷ k2.effects else k2.effects)
                (ap (λ (t : Task). t.awaiting_event_id) is_free)
              ∙ ap
                  (λ es.
                    if leb_ℤ (pos 0) (k.tasks i).awaiting_event_id
                    then disable_interrupt (k.tasks i).awaiting_event_id ∷ es
                    else es)
                  still;
          placed = IsPlaced-counts es (k3.num_tasks +ℤ negsuc 0) (
              enqueue_free placed i (omega (arith, h.task.index)) gone
                (ap (λ (t : Task). t.state) is_free)
                (λ d e. ground (arith, h.other, h.running, current)));
        },
      )
