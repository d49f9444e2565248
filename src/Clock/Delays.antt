-- ===== src/Clock/Delays.antt =====
-- usr/clockserver.c, the list of delays of ClockServer and an unordered list that stands for it.
use rtk.Common.{
  ◌+◌, ◌≡◌, refl, sym, ap, ◌∙◌, true, List, [], ◌∷◌, ◌++◌, ◌&&◌, arith, if◌then◌else◌, Bool-cases,
  inl, inr, ◌<◌, false, some,
}
use rtk.Common.Int.{ℤ, pos, ◌+ℤ◌, leb_ℤ, ◌==ℤ◌, is_int}
use rtk.Clock.{
  TaskSortedListNode, sorted_list_insert, ClockRequest, cs_time, cs_delay, cs_delay_until, cs_tick,
  other, ClockReply, wake, time_is, ClockServer, clock_request, expire, clock_server, is_linked,
  in_nodes, delay_node,
}
use rtk.Clock.Laws.{
  are_sorted, is_sorted, count_woken, count_due, count_due-insert, none_due, tail-is_sorted,
  insert-is_sorted, expire_lem,
}

-- The delays that end, and those that do not.
unfoldable pub end_due : ℤ → List TaskSortedListNode → List ClockReply × List TaskSortedListNode
end_due now [] = ([], [])
end_due now (n ∷ ns) =
    let rest = end_due now ns in
    if leb_ℤ n.priority now then (wake n.tid ∷ rest.0, rest.1) else (rest.0, n ∷ rest.1)

pub record Delays : Type 0 where
  pub now : ℤ
  pub pending : List TaskSortedListNode

abbrev pub delays_request : ℤ → ClockRequest → Delays → List ClockReply × Delays
delays_request t cs_time d = (time_is t d.now ∷ [], d)
delays_request t (cs_delay ticks) d =
    ([], record d { pending = record { priority = ticks +ℤ d.now; tid = t } ∷ d.pending })
delays_request t (cs_delay_until time) d =
    ([], record d { pending = record { priority = time; tid = t } ∷ d.pending })
delays_request t cs_tick d = (wake t ∷ [], record d { now = d.now +ℤ pos 1 })
delays_request t other d = ([], d)

abbrev pub delays_step : ℤ → ClockRequest → Delays → List ClockReply × Delays
delays_step t req d =
    let asked = delays_request t req d in
    let ended = end_due asked.1.now asked.1.pending in
    (asked.0 ++ ended.0, record asked.1 { pending = ended.1 })

-- The same delays, in whatever order: as many of each task are due at each time.
abbrev pub SameDelays : List TaskSortedListNode → List TaskSortedListNode → Type 0
SameDelays ns ms = (now t : ℤ) → count_due now t ns ≡ count_due now t ms

-- The queue is in order and holds the delays.
pub record Keeps (s : ClockServer) (d : Delays) : Type 0 where
  pub time : s.num_ticks ≡ d.now
  pub sorted : is_sorted s.delayed_queue ≡ true
  pub same : SameDelays s.delayed_queue d.pending

-- The earlier of two times, by the test that the loop makes.
abbrev earlier : ℤ → ℤ → ℤ
earlier a b = if leb_ℤ a b then a else b

end_due-woken :
    (now t : ℤ) (ns : List TaskSortedListNode)
    → count_woken t (end_due now ns).0 ≡ count_due now t ns
unfolding end_due count_woken count_due
end_due-woken now t [] = refl
end_due-woken now t (n ∷ ns) = ground (arith, end_due-woken now t ns)

end_due-left :
    (now at t : ℤ) (ns : List TaskSortedListNode)
    → count_due at t (end_due now ns).1 + count_due (earlier at now) t ns ≡ count_due at t ns
unfolding end_due count_due
end_due-left now at t [] = refl
end_due-left now at t (n ∷ ns) = ground (arith, end_due-left now at t ns)

expire-left :
    (now at t : ℤ) (ns : List TaskSortedListNode)
    → is_sorted ns ≡ true
    → count_due at t (expire now ns).1 + count_due (earlier at now) t ns ≡ count_due at t ns
unfolding expire count_due are_sorted is_sorted
expire-left now at t [] h = refl
expire-left now at t (n ∷ ns) h = elim (Bool-cases (leb_ℤ n.priority now)) [
  | inl e ↦ rw e (ground (arith, expire-left now at t ns (tail-is_sorted n.priority ns h)))
  | inr e ↦
      let none_at = none_due (earlier at now) t n.priority ns (ground arith) h in
      rw e (ground (arith, none_at.0))
]

-- What the loop leaves is what stays of the delays.
expire-same :
    (now : ℤ) (ns ms : List TaskSortedListNode)
    → is_sorted ns ≡ true
    → SameDelays ns ms
    → SameDelays (expire now ns).1 (end_due now ms).1
expire-same now ns ms h same at t =
    omega (
      arith,
      expire-left now at t ns h,
      end_due-left now at t ms,
      same at t,
      same (earlier at now) t,
    )

count_woken-append :
    (t : ℤ) (rs ss : List ClockReply)
    → count_woken t (rs ++ ss) ≡ count_woken t rs + count_woken t ss
unfolding count_woken
count_woken-append t [] ss = omega arith
count_woken-append t (wake u ∷ rs) ss = omega (arith, count_woken-append t rs ss)
count_woken-append t (time_is u time ∷ rs) ss = count_woken-append t rs ss

-- Who is told the time, and which.
unfoldable pub times : List ClockReply → List (ℤ × ℤ)
times [] = []
times (wake u ∷ rs) = times rs
times (time_is u time ∷ rs) = (u, time) ∷ times rs

times-append : (rs ss : List ClockReply) → times (rs ++ ss) ≡ times rs ++ times ss
unfolding times
times-append [] ss = refl
times-append (wake u ∷ rs) ss = times-append rs ss
times-append (time_is u time ∷ rs) ss = ap (λ ts. (u, time) ∷ ts) (times-append rs ss)

times-expire : (now : ℤ) (ns : List TaskSortedListNode) → times (expire now ns).0 ≡ []
unfolding times expire
times-expire now [] = refl
times-expire now (n ∷ ns) = ground (arith, times-expire now ns)

times-end_due : (now : ℤ) (ns : List TaskSortedListNode) → times (end_due now ns).0 ≡ []
unfolding times end_due
times-end_due now [] = refl
times-end_due now (n ∷ ns) = ground (arith, times-end_due now ns)

insert-SameDelays :
    (t : ℤ) {a b : ℤ} (ns ms : List TaskSortedListNode)
    → a ≡ b
    → SameDelays ns ms
    → SameDelays
        (sorted_list_insert (record { priority = a; tid = t }) ns)
        (record { priority = b; tid = t } ∷ ms)
unfolding count_due
insert-SameDelays t {a} {b} ns ms e same now u =
    count_due-insert now u (record { priority = a; tid = t }) ns
    ∙ ap (λ (c : ℤ). (if leb_ℤ c now && (t ==ℤ u) then 1 else 0) + count_due now u ns) e
    ∙ ap (λ n. (if leb_ℤ b now && (t ==ℤ u) then 1 else 0) + n) (same now u)

-- A request that the server can act on: a task that asks for a delay has a tid for which there is a node, and no
-- pending delay, and the time that is computed fits an int.
abbrev pub MayAsk : ℤ → ClockRequest → Delays → Type 0
MayAsk t (cs_delay ticks) d =
    (in_nodes t ≡ true) × (is_linked t d.pending ≡ false) × (is_int (ticks +ℤ d.now) ≡ true)
MayAsk t (cs_delay_until time) d = (in_nodes t ≡ true) × (is_linked t d.pending ≡ false)
MayAsk t cs_time d = Unit {0}
MayAsk t cs_tick d = is_int (d.now +ℤ pos 1) ≡ true
MayAsk t other d = Unit {0}

-- A task with a pending delay has one that is due at some time, and the other way round.
linked-due :
    (t : ℤ) (ns : List TaskSortedListNode)
    → is_linked t ns ≡ true
    → (now : ℤ) × (0 < count_due now t ns)
unfolding is_linked count_due
linked-due t [] h = absurd (ground arith)
linked-due t (n ∷ ns) h = elim (Bool-cases (n.tid ==ℤ t)) [
  | inl e ↦ (n.priority, ground arith)
  | inr e ↦ let (now, some_due) = linked-due t ns (ground arith) in (now, ground arith)
]

due-linked :
    (now t : ℤ) (ns : List TaskSortedListNode) → 0 < count_due now t ns → is_linked t ns ≡ true
unfolding is_linked count_due
due-linked now t [] h = absurd (omega arith)
due-linked now t (n ∷ ns) h = ground (arith, due-linked now t ns)

not_linked :
    (t : ℤ) (ns ms : List TaskSortedListNode)
    → SameDelays ns ms
    → is_linked t ms ≡ false
    → is_linked t ns ≡ false
not_linked t ns ms same out = elim (Bool-cases (is_linked t ns)) [
  | inl e ↦
      let (now, some_due) = linked-due t ns e in
      absurd (ground (arith, due-linked now t ms (omega (arith, same now t))))
  | inr e ↦ e
]

-- A delay goes into the queue.
delay_node-Keeps :
    (t : ℤ) {a : ℤ} (b : ℤ) {s : ClockServer} {d : Delays}
    → Keeps s d
    → a ≡ b
    → in_nodes t ≡ true
    → is_linked t d.pending ≡ false
    → (q : List TaskSortedListNode) × (delay_node t a s.delayed_queue ≡ some q)
      × Keeps
          (record s { delayed_queue = q })
          (record d { pending = record { priority = b; tid = t } ∷ d.pending })
unfolding delay_node
delay_node-Keeps t {a} b {s} {d} h e inside out = (
  sorted_list_insert (record { priority = a; tid = t }) s.delayed_queue,
  rw (inside, not_linked t s.delayed_queue d.pending h.same out) refl,
  record {
    time = h.time;
    sorted = insert-is_sorted (record { priority = a; tid = t }) s.delayed_queue h.sorted;
    same = insert-SameDelays t s.delayed_queue d.pending e h.same;
  },
)

-- The `switch` on a request.
request-Keeps :
    (t : ℤ) (req : ClockRequest) {s : ClockServer} {d : Delays}
    → Keeps s d
    → MayAsk t req d
    → (a : ClockServer) × (clock_request t req s ≡ some ((delays_request t req d).0, a))
      × Keeps a (delays_request t req d).1
unfolding clock_request
request-Keeps t cs_time {s} h may = (s, ap (λ time. some (time_is t time ∷ [], s)) h.time, h)
request-Keeps t (cs_delay ticks) {s} {d} h (inside, out, fits) =
    let same : ticks +ℤ s.num_ticks ≡ ticks +ℤ d.now = ap (λ n. ticks +ℤ n) h.time in
    let (q, linked, k) = delay_node-Keeps t (ticks +ℤ d.now) h same inside out in
    let test : is_int (ticks +ℤ s.num_ticks) ≡ true = ap is_int same ∙ fits in
    (record s { delayed_queue = q }, rw test (rw linked refl), k)
request-Keeps t (cs_delay_until time) {s} {d} h (inside, out) =
    let (q, linked, k) = delay_node-Keeps t time h refl inside out in
    (record s { delayed_queue = q }, rw linked refl, k)
request-Keeps t cs_tick {s} {d} h fits =
    let same : s.num_ticks +ℤ pos 1 ≡ d.now +ℤ pos 1 = ap (λ n. n +ℤ pos 1) h.time in
    let test : is_int (s.num_ticks +ℤ pos 1) ≡ true = ap is_int same ∙ fits in
    (
      record s { num_ticks = s.num_ticks +ℤ pos 1 },
      rw test refl,
      record { time = same; sorted = h.sorted; same = h.same },
    )
request-Keeps t other {s} h may = (s, refl, h)

-- The same tasks are woken as often, and the same tasks are told the same times.
pub record SameReplies (rs ss : List ClockReply) : Type 0 where
  pub woken : (t : ℤ) → count_woken t rs ≡ count_woken t ss
  pub told : times rs ≡ times ss

pub step-Keeps :
    (t : ℤ) (req : ClockRequest) {s : ClockServer} {d : Delays}
    → Keeps s d
    → MayAsk t req d
    → (out : List ClockReply × ClockServer) × (clock_server t req s ≡ some out)
      × SameReplies out.0 (delays_step t req d).0
      × Keeps out.1 (delays_step t req d).1
unfolding clock_server
step-Keeps t req {s} {d} h may =
    let (a, answer, k) = request-Keeps t req h may in
    let b = delays_request t req d in
    let woken = expire a.num_ticks a.delayed_queue in
    let ended = end_due b.1.now b.1.pending in
    (
      (b.0 ++ woken.0, record a { delayed_queue = woken.1 }),
      rw answer refl,
      record {
        woken = λ u.
            count_woken-append u b.0 woken.0
            ∙ ap (λ n. count_woken u b.0 + n)
                ((expire_lem a.num_ticks u a.delayed_queue k.sorted).0
                  ∙ k.same a.num_ticks u
                  ∙ ap (λ now. count_due now u b.1.pending) k.time
                  ∙ sym (end_due-woken b.1.now u b.1.pending))
            ∙ sym (count_woken-append u b.0 ended.0);
        told =
            times-append b.0 woken.0
            ∙ ap (λ ts. times b.0 ++ ts)
                (times-expire a.num_ticks a.delayed_queue ∙ sym (times-end_due b.1.now b.1.pending))
            ∙ sym (times-append b.0 ended.0);
      },
      record {
        time = k.time;
        sorted = (expire_lem a.num_ticks t a.delayed_queue k.sorted).2;
        same = λ at u.
            expire-same a.num_ticks a.delayed_queue b.1.pending k.sorted k.same at u
            ∙ ap (λ now. count_due at u (end_due now b.1.pending).1) k.time;
      },
    )
