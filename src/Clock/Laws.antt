-- ===== src/Clock/Laws.antt =====
-- The order of the delayed tasks, and the loop of usr/clockserver.c that wakes them.
use rtk.Common.{
  ℕ, ◌+◌, ◌≡◌, refl, true, false, Bool, List, [], ◌∷◌, ◌&&◌, arith, if◌then◌else◌, Bool-cases, inl,
  inr,
}
use rtk.Common.Int.{ℤ, ltb_ℤ, leb_ℤ, ◌==ℤ◌}
use rtk.Clock.{TaskSortedListNode, sorted_list_insert, ClockReply, wake, time_is, expire}

-- Every node's time is at least `low`, and they stand in order.
unfoldable pub are_sorted : ℤ → List TaskSortedListNode → Bool
are_sorted low [] = true
are_sorted low (n ∷ ns) = if leb_ℤ low n.priority then are_sorted n.priority ns else false

-- In order, from whatever time on.
unfoldable pub is_sorted : List TaskSortedListNode → Bool
unfolding are_sorted
is_sorted [] = true
is_sorted (n ∷ ns) = are_sorted n.priority ns

-- Every time is later than `now`.
unfoldable pub all_later : ℤ → List TaskSortedListNode → Bool
all_later now [] = true
all_later now (n ∷ ns) = if ltb_ℤ now n.priority then all_later now ns else false

-- How often a task waits in the queue.
unfoldable pub count_waiting : ℤ → List TaskSortedListNode → ℕ
count_waiting t [] = 0
count_waiting t (n ∷ ns) = (if n.tid ==ℤ t then 1 else 0) + count_waiting t ns

-- How often a task is woken in a round.
unfoldable pub count_woken : ℤ → List ClockReply → ℕ
count_woken t [] = 0
count_woken t (wake u ∷ rs) = (if u ==ℤ t then 1 else 0) + count_woken t rs
count_woken t (time_is u time ∷ rs) = count_woken t rs

insert-are_sorted :
    (low : ℤ) (node : TaskSortedListNode) (ns : List TaskSortedListNode)
    → leb_ℤ low node.priority ≡ true
    → are_sorted low ns ≡ true
    → are_sorted low (sorted_list_insert node ns) ≡ true
unfolding are_sorted sorted_list_insert
insert-are_sorted low node [] le h = ground arith
insert-are_sorted low node (at ∷ []) le h = ground arith
insert-are_sorted low node (at ∷ next ∷ rest) le h =
    ground (arith, insert-are_sorted at.priority node (next ∷ rest))

-- SortedListInsert keeps the list in order.
pub insert-is_sorted :
    (node : TaskSortedListNode) (ns : List TaskSortedListNode)
    → is_sorted ns ≡ true
    → is_sorted (sorted_list_insert node ns) ≡ true
unfolding is_sorted are_sorted sorted_list_insert
insert-is_sorted node [] h = refl
insert-is_sorted node (at ∷ []) h = ground arith
insert-is_sorted node (at ∷ next ∷ rest) h =
    ground (arith, insert-are_sorted at.priority node (next ∷ rest))

-- How many of a task's nodes are due.
unfoldable pub count_due : (now t : ℤ) → List TaskSortedListNode → ℕ
count_due now t [] = 0
count_due now t (n ∷ ns) =
    (if leb_ℤ n.priority now && (n.tid ==ℤ t) then 1 else 0) + count_due now t ns

pub none_due :
    (now t low : ℤ) (ns : List TaskSortedListNode)
    → leb_ℤ low now ≡ false
    → are_sorted low ns ≡ true
    → (count_due now t ns ≡ 0) × (all_later now ns ≡ true)
unfolding count_due are_sorted all_later
none_due now t low [] late h = (refl, refl)
none_due now t low (n ∷ ns) late h =
    let later : leb_ℤ n.priority now ≡ false = ground arith in
    let rest = none_due now t n.priority ns later (ground arith) in
    (ground (arith, rest.0), ground (arith, rest.1))

pub tail-is_sorted :
    (low : ℤ) (ns : List TaskSortedListNode) → are_sorted low ns ≡ true → is_sorted ns ≡ true
unfolding are_sorted is_sorted
tail-is_sorted low [] h = refl
tail-is_sorted low (n ∷ ns) h = ground arith

-- The loop that wakes tasks, on a queue in order: each task is woken as often as it waits for a time
-- that has come; what stays is in order, and waits for a later time.
pub expire_lem :
    (now t : ℤ) (ns : List TaskSortedListNode)
    → is_sorted ns ≡ true
    → (count_woken t (expire now ns).0 ≡ count_due now t ns)
      × (count_woken t (expire now ns).0 + count_waiting t (expire now ns).1 ≡ count_waiting t ns)
      × (is_sorted (expire now ns).1 ≡ true)
      × (all_later now (expire now ns).1 ≡ true)
unfolding expire count_woken count_due count_waiting is_sorted all_later
expire_lem now t [] h = (refl, refl, refl, refl)
expire_lem now t (n ∷ ns) h = elim (Bool-cases (leb_ℤ n.priority now)) [
  | inl e ↦
      let r = expire_lem now t ns (tail-is_sorted n.priority ns h) in
      (rw e (ground (arith, r.0)), rw e (ground (arith, r.1)), rw e r.2, rw e r.3)
  | inr e ↦
      let r = none_due now t n.priority ns e h in
      (rw e (ground (arith, r.0)), rw e (ground arith), rw e h, rw e (ground (arith, r.1)))
]

pub count_due-insert :
    (now t : ℤ) (node : TaskSortedListNode) (ns : List TaskSortedListNode)
    → count_due now t (sorted_list_insert node ns) ≡ count_due now t (node ∷ ns)
unfolding count_due sorted_list_insert
count_due-insert now t node [] = refl
count_due-insert now t node (at ∷ []) = ground arith
count_due-insert now t node (at ∷ next ∷ rest) =
    ground (arith, count_due-insert now t node (next ∷ rest))
