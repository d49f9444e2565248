-- ===== src/Kernel/Runs/Steps.antt =====
-- kernel/rtk.c, the kernel's loop: the rounds one after another and the kernel they leave.
use rtk.Kernel.Communication.Errors.{nobody_there}
use rtk.Kernel.Communication.Fetching.{receive_fetches, rest_lists}
use rtk.Kernel.Communication.Posting.{posted_lists, has-posted, send_to_busy}
use rtk.Common.{ℕ, ◌≢◌, ◌∙◌, inl, inr, ap, refl, sym, subst, none, some, List, ◌∷◌, arith}
use rtk.Common.Int.{negsuc, ◌+ℤ◌}
use rtk.Queue.{update}
use rtk.Kernel.State.{
  Kernel, event_blocked, reply_blocked, ready, zombie, available_descriptors, task_node,
  enable_interrupt,
}
use rtk.Kernel.Tasks.States.{state_lists}
use rtk.Kernel.Lifecycle.Creating.{create_task_lem, free-CanCreate, created_lists}
use rtk.Kernel.Events.Destroying.{destroy_family}
use rtk.Kernel.Events.Freeing.{IsPlaced-counts}
use rtk.Kernel.Events.Family.{member, nobody, destroyed_lists, destroyed_lists-has}
use rtk.Kernel.Events.Waking.{IsPlaced-effects}
use rtk.Kernel.Communication.Receiving.{receive_waits}
use rtk.Kernel.Communication.Sending.{send_to_waiting}
use rtk.Kernel.Communication.Replying.{reply_wakes}
use rtk.Kernel.Runs.{
  Step, turn, receive, send, post, fetch, refused, reply, await, create, exit, destroy, interrupt,
  save, return_value, own_priority, other_priority, pass, report, Reach, start, step, idle,
}
use rtk.Kernel.Runs.Live.{IsLive, goes_on, keep, same_kernel, with_lists}
use rtk.Kernel.Lifecycle.{nop}
use rtk.Kernel.Tasks.Priorities.{set_task_priority_fails}
use rtk.Kernel.Stats.Laws.{tasks_stats_handler_lem}
use rtk.Kernel.Runs.Moves.{
  save-IsLive, return_value-IsLive, own_priority-IsLive, state_lists-has, current-IsPlaced,
  awaiting, await-eq, exit-eq, not_free, created_lists-has, irq-IsLive,
}

-- Every step leaves the kernel live.
pub Step-IsLive :
    {v : ℕ → List ℕ} {k k' : Kernel} → IsLive v k → Step k k' → (w : ℕ → List ℕ) × IsLive w k'
unfolding nop
Step-IsLive l (turn timer e) =
    let (k1, runs, w, live) = goes_on l timer in
    (w, subst (IsLive w) (ap (λ o. elim o [ none ↦ k1 | some k ↦ k ]) (sym runs ∙ e)) live)
Step-IsLive l (receive {k = k} {v = v} {c = c} junk stale tid msg msglen h ne e) =
    let (k1, runs, r) = receive_waits junk stale tid msg msglen h in
    let l' = with_lists l h.placed in
    (
      v,
      subst (IsLive v) (same_kernel (sym runs ∙ e)) (
          keep l' r.placed (r.current ∙ sym h.running)
            (λ j. ground (arith, r.tasks j, l'.priorities j)) (ground (arith, r.tasks idle))
            (λ is. ground (arith, l'.running, h.running)) (λ g. g)),
    )
Step-IsLive l (send {k = k} {v = v} {c = c} {i = i} junk msg ml buffer rlen h ne far e) =
    let (k1, runs, r) = send_to_waiting junk msg ml buffer rlen h in
    let l' = with_lists l h.placed in
    let blocked = state_lists (k.tasks c).priority c c reply_blocked v in
    let w = state_lists (k.tasks i).priority c i ready blocked in
    (
      w,
      subst (IsLive w) (same_kernel (sym runs ∙ e)) (
          keep l' r.placed (r.current ∙ sym h.running)
            (λ j. ground (arith, r.tasks j, l'.priorities j)) (ground (arith, r.tasks idle))
            (λ is. ground (arith, l'.running, h.running))
            (λ g.
              state_lists-has (k.tasks i).priority c i (task_node idle) 9 ready blocked
                (ground arith)
                (state_lists-has (k.tasks c).priority c c (task_node idle) 9 reply_blocked v
                  (ground arith) g))),
    )
Step-IsLive l (post {k = k} {v = v} {c = c} {i = i} junk msg ml buffer rlen h ne e) =
    let (k1, runs, r) = send_to_busy junk msg ml buffer rlen h in
    let l' = with_lists l h.placed in
    (
      posted_lists c i v,
      subst (IsLive (posted_lists c i v)) (same_kernel (sym runs ∙ e)) (
          keep l' r.placed r.current (λ j. ground (arith, r.tasks j, l'.priorities j))
            (ground (arith, r.tasks idle)) (λ is. ground (arith, l'.running, h.running))
            (λ g. has-posted c i (task_node idle) 9 v (omega arith) ∙ g)),
    )
Step-IsLive l
      (fetch {k = k} {v = v} {c = c} {x = x} {xs = xs} junk stale tid msg msglen h ne far e) =
    let (k1, runs, r) = receive_fetches junk stale tid msg msglen h in
    let l' = with_lists l h.mail.placed in
    let rest = rest_lists h.mail tid msg msglen in
    let blocked = state_lists (k.tasks x).priority c x reply_blocked rest in
    let w = state_lists (k.tasks c).priority c c ready blocked in
    (
      w,
      subst (IsLive w) (same_kernel (sym runs ∙ e)) (
          keep l' r.placed (r.current ∙ sym h.mail.running)
            (λ j. ground (arith, r.tasks j, l'.priorities j)) (ground (arith, r.tasks idle))
            (λ is. ground (arith, l'.running, h.mail.running))
            (λ g.
              state_lists-has (k.tasks c).priority c c (task_node idle) 9 ready blocked
                (ground arith)
                (state_lists-has (k.tasks x).priority c x (task_node idle) 9 reply_blocked rest
                  (ground arith) (ground arith)))),
    )
Step-IsLive {v} l (refused {k = k} {n = n} junk msg ml buffer rlen small dead e) =
    let (sent, replied) = nobody_there junk msg ml buffer rlen k n small dead in
    (
      v,
      subst (IsLive v)
          (elim e [ inl f ↦ same_kernel (sym sent ∙ f) | inr f ↦ same_kernel (sym replied ∙ f) ]) l,
    )
Step-IsLive {v} l (reply {k = k} {i = i} from len h ne e) =
    let (k1, runs, r) = reply_wakes from len l.placed l.running h in
    let w = state_lists (k.tasks i).priority l.c i ready v in
    (
      w,
      subst (IsLive w) (same_kernel (sym runs ∙ e)) (
          keep l r.placed (r.current ∙ sym l.running)
            (λ j. ground (arith, r.tasks j, l.priorities j)) (ground (arith, r.tasks idle))
            (λ is. ground (arith, r.tasks idle))
            (λ g.
              state_lists-has (k.tasks i).priority l.c i (task_node idle) 9 ready v (ground arith)
                g)),
    )
Step-IsLive {v} l (await {k = k} {c = c} intr running ne e) =
    let first =
      current-IsPlaced (record (k.tasks c) { awaiting_event_id = intr }) l.placed running refl in
    let second =
      current-IsPlaced (record ((awaiting intr c k).tasks c) { state = event_blocked }) first
        running refl in
    (
      v,
      subst (IsLive v) (same_kernel (sym (await-eq intr k c running) ∙ e)) (
          keep l (IsPlaced-effects (enable_interrupt intr ∷ k.effects) second) refl
            (λ j. ground (arith, l.priorities j)) (ground arith)
            (λ is. ground (arith, l.running, running)) (λ g. g)),
    )
Step-IsLive l (create {k = k} {v = v} {i = i} {xs = xs} from priority code h low e) =
    let (k1, runs, r) = create_task_lem from priority code (free-CanCreate h) low in
    let l' = with_lists l h.placed in
    let far : i ≢ idle = not_free l' h.first_free in
    let w = created_lists k i priority (update v available_descriptors xs) in
    (
      w,
      subst (IsLive w) (same_kernel (sym runs ∙ e)) (
          keep l' r.placed r.current (λ j. ground (arith, r.tasks j, l'.priorities j))
            (ground (arith, r.tasks idle)) (λ is. ground (arith, r.tasks idle))
            (λ g.
              created_lists-has k i priority (task_node idle) 9 (update v available_descriptors xs)
                (omega arith) g)),
    )
Step-IsLive {v} l (exit {k = k} {c = c} running ne e) = (
  v,
  subst (IsLive v) (ap (λ o. elim o [ none ↦ k | some k ↦ k ]) (sym (exit-eq k c running) ∙ e)) (
      keep l
        (IsPlaced-counts k.effects (k.num_tasks +ℤ negsuc 0)
          (current-IsPlaced (record (k.tasks c) { state = zombie }) l.placed running refl))
        refl (λ j. ground (arith, l.priorities j)) (ground arith)
        (λ is. ground (arith, l.running, running)) (λ g. g)),
)
Step-IsLive l (destroy {k = k} {v = v} {n = n} {kids = kids} h ne e) =
    let (k1, runs, r, free_queue) = destroy_family h in
    let l' = with_lists l h.placed in
    let w = destroyed_lists v (member n kids nobody) in
    (
      w,
      subst (IsLive w) (same_kernel (sym runs ∙ e)) (
          keep l' r.placed r.current (λ j. ground (arith, r.tasks j, l'.priorities j))
            (ground (arith, r.tasks idle, ne)) (λ is. ground (arith, r.tasks idle, ne))
            (λ g.
              destroyed_lists-has (member n kids nobody) v 9 (task_node idle) (omega arith)
                (λ s f. (ground arith, ground arith))
              ∙ g)),
    )
Step-IsLive l (interrupt m timer went_off placed tids e) =
    irq-IsLive m timer went_off (with_lists l placed) tids e
Step-IsLive {v} l (save spsr sp pc timer went_off e) =
    (v, save-IsLive l spsr sp pc timer went_off e)
Step-IsLive {v} l (return_value ret e) = (v, return_value-IsLive l ret e)
Step-IsLive {v} l (own_priority to running ne e) = (v, own_priority-IsLive l to running ne e)
Step-IsLive {v} l (other_priority {k = k} tid to e) =
    (v, subst (IsLive v) (same_kernel (sym (set_task_priority_fails tid to k) ∙ e)) l)
Step-IsLive {v} l (pass e) = (v, subst (IsLive v) e l)
Step-IsLive {v} l (report placed running own e) =
    (v, subst (IsLive v) (same_kernel (sym (tasks_stats_handler_lem placed running own).0 ∙ e)) l)

pub Reach-IsLive :
    {v : ℕ → List ℕ} {k k' : Kernel} → IsLive v k → Reach k k' → (w : ℕ → List ℕ) × IsLive w k'
Reach-IsLive {v} l start = (v, l)
Reach-IsLive l (step before s) = let (w, here) = Reach-IsLive l before in Step-IsLive here s
