-- ===== src/Clock.antt =====
-- lib/sortedlist.c, lib/sortedlist.h, and the loop of usr/clockserver.c. A list linked by `next` is
-- the list of its nodes; the server's node of a task is known by the task's tid.
pub mod Laws
pub mod Delays
pub mod Service
mod Tests
use rtk.Kernel.State.{max_tasks}
use rtk.Common.{
  ℕ, ◌&&◌, ◌||◌, not, true, false, Option, some, none, List, [], ◌∷◌, ◌++◌, Bool, if◌then◌else◌,
  ◌>>=◌,
}
use rtk.Common.Int.{ℤ, pos, ◌+ℤ◌, ltb_ℤ, leb_ℤ, ◌==ℤ◌, to_int}

-- `struct task_sorted_list_node` without its link
pub record TaskSortedListNode : Type 0 where
  pub priority : ℤ
  pub tid : ℤ

unfoldable pub sorted_list_insert :
    TaskSortedListNode → List TaskSortedListNode → List TaskSortedListNode
sorted_list_insert node [] = node ∷ []
sorted_list_insert node (at ∷ []) =
    if ltb_ℤ node.priority at.priority then node ∷ at ∷ [] else at ∷ node ∷ []
sorted_list_insert node (at ∷ next ∷ rest) =
    if ltb_ℤ node.priority at.priority
    then node ∷ at ∷ next ∷ rest
    else at ∷ sorted_list_insert node (next ∷ rest)

-- `enum ClockRequestType`, with `data`; `other` is what the `default` case gets.
pub data ClockRequest : Type 0 where
  cs_time : ClockRequest
  cs_delay cs_delay_until : ℤ → ClockRequest
  cs_tick : ClockRequest
  other : ClockRequest

-- A reply without contents, or with the time.
pub data ClockReply : Type 0 where
  wake : (tid : ℤ) → ClockReply
  time_is : (tid time : ℤ) → ClockReply

pub record ClockServer : Type 0 where
  pub num_ticks : ℤ
  pub delayed_queue : List TaskSortedListNode

-- `nodes[tid]` is in the list.
unfoldable pub is_linked : (tid : ℤ) → List TaskSortedListNode → Bool
is_linked tid [] = false
is_linked tid (n ∷ ns) = n.tid ==ℤ tid || is_linked tid ns

abbrev pub in_nodes : ℤ → Bool
in_nodes tid = leb_ℤ (pos 0) tid && ltb_ℤ tid (pos max_tasks)

-- `nodes[sender_tid]` is written and linked. There is no result where the index is outside the array, or the node
-- is in the list already, which would be linked in a ring.
unfoldable pub delay_node :
    (sender_tid priority : ℤ) → List TaskSortedListNode → Option (List TaskSortedListNode)
delay_node sender_tid priority queue =
    if in_nodes sender_tid && not (is_linked sender_tid queue)
    then some (sorted_list_insert (record { priority = priority; tid = sender_tid }) queue)
    else none

-- The `switch`, with the replies that it makes. A sum that overflows an int is no result.
unfoldable pub clock_request :
    ℤ → ClockRequest → ClockServer → Option (List ClockReply × ClockServer)
clock_request sender_tid cs_time s = some (time_is sender_tid s.num_ticks ∷ [], s)
clock_request sender_tid (cs_delay ticks) s = do
  time ← to_int (ticks +ℤ s.num_ticks)
  queue ← delay_node sender_tid time s.delayed_queue
  some ([], record s { delayed_queue = queue })
clock_request sender_tid (cs_delay_until time) s = do
  queue ← delay_node sender_tid time s.delayed_queue
  some ([], record s { delayed_queue = queue })
clock_request sender_tid cs_tick s = do
  num_ticks ← to_int (s.num_ticks +ℤ pos 1)
  some (wake sender_tid ∷ [], record s { num_ticks = num_ticks })
clock_request sender_tid other s = some ([], s)

-- The loop that answers the tasks whose time has come, and the queue that it leaves.
unfoldable pub expire :
    (num_ticks : ℤ) → List TaskSortedListNode → List ClockReply × List TaskSortedListNode
expire num_ticks [] = ([], [])
expire num_ticks (head ∷ rest) =
    let after = expire num_ticks rest in
    if leb_ℤ head.priority num_ticks then (wake head.tid ∷ after.0, after.1) else ([], head ∷ rest)

-- One round of the loop of ClockServer.
unfoldable pub clock_server :
    ℤ → ClockRequest → ClockServer → Option (List ClockReply × ClockServer)
clock_server sender_tid req s = do
  (answers, s1) ← clock_request sender_tid req s
  let woken = expire s1.num_ticks s1.delayed_queue
  some (answers ++ woken.0, record s1 { delayed_queue = woken.1 })
