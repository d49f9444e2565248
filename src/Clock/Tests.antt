-- ===== src/Clock/Tests.antt =====
-- The theorems about the clock server at small queues.
use rtk.Common.{◌≡◌, refl, true, List, [], ◌∷◌, Option, some, none}
use rtk.Common.Int.{pos, ℤ}
use rtk.Clock.{
  TaskSortedListNode, ClockServer, ClockRequest, cs_delay, cs_tick, ClockReply, wake, clock_server,
  is_linked, delay_node, clock_request, sorted_list_insert, expire,
}
use rtk.Clock.Laws.{are_sorted, is_sorted}
use rtk.Clock.Delays.{Delays, Keeps}
use rtk.Clock.Service.{SameRounds, clock_rounds, delays_rounds, clock_rounds_lem}

-- Two tasks wait, for the times 3 and 5.
abbrev waiting : List TaskSortedListNode
waiting = record { priority = pos 3; tid = pos 1 } ∷ record { priority = pos 5; tid = pos 2 } ∷ []

abbrev at_two : ClockServer
at_two = record { num_ticks = pos 2; delayed_queue = waiting }

waiting-is_sorted : is_sorted waiting ≡ true
unfolding is_sorted are_sorted
waiting-is_sorted = refl

at_two-Keeps : Keeps at_two (record { now = pos 2; pending = waiting })
at_two-Keeps = record { time = refl; sorted = waiting-is_sorted; same = λ now t. refl }

-- Task 7 asks for two more ticks, and the clock ticks twice.
abbrev requests : List (ℤ × ClockRequest)
requests = (pos 7, cs_delay (pos 2)) ∷ (pos 9, cs_tick) ∷ (pos 9, cs_tick) ∷ []

abbrev delays : Delays
delays = record { now = pos 2; pending = waiting }

clock_rounds_lem_example :
    (out : List (List ClockReply) × ClockServer) × (clock_rounds requests at_two ≡ some out)
    × SameRounds out.0 (delays_rounds requests delays).0
    × Keeps out.1 (delays_rounds requests delays).1
unfolding is_linked
clock_rounds_lem_example =
    clock_rounds_lem requests at_two delays at_two-Keeps ((refl, refl, refl), (refl, (refl, tt)))

abbrev replies : Option (List (List ClockReply) × ClockServer) → List (List ClockReply)
replies none = []
replies (some out) = out.0

three_then_seven :
    replies (clock_rounds requests at_two)
    ≡ [] ∷ (wake (pos 9) ∷ wake (pos 1) ∷ []) ∷ (wake (pos 9) ∷ wake (pos 7) ∷ []) ∷ []
unfolding clock_rounds clock_server clock_request delay_node sorted_list_insert expire is_linked
three_then_seven = refl
