-- ===== src/Clock/Service.antt =====
-- What the server of usr/clockserver.c is to its clients: delays in the order in which they were asked for, of
-- which each ends at the first round in which its time has come.
use rtk.Common.{◌≡◌, refl, List, [], ◌∷◌, Option, some, ◌>>=◌}
use rtk.Common.Int.{ℤ}
use rtk.Clock.{ClockRequest, ClockReply, ClockServer, clock_server}
use rtk.Clock.Delays.{MayAsk, Delays, delays_step, Keeps, SameReplies, step-Keeps}

-- The server's loop over the requests that come: the replies of each round.
unfoldable pub clock_rounds :
    List (ℤ × ClockRequest) → ClockServer → Option (List (List ClockReply) × ClockServer)
clock_rounds [] s = some ([], s)
clock_rounds ((t, req) ∷ rs) s = do
  (now, s1) ← clock_server t req s
  (later, s2) ← clock_rounds rs s1
  some (now ∷ later, s2)

unfoldable pub delays_rounds : List (ℤ × ClockRequest) → Delays → List (List ClockReply) × Delays
delays_rounds [] d = ([], d)
delays_rounds ((t, req) ∷ rs) d =
    let now = delays_step t req d in
    let later = delays_rounds rs now.1 in (now.0 ∷ later.0, later.1)

-- Round for round.
unfoldable pub SameRounds : List (List ClockReply) → List (List ClockReply) → Type 0
SameRounds [] [] = Unit
SameRounds [] (ss ∷ sss) = ⊥
SameRounds (rs ∷ rss) [] = ⊥
SameRounds (rs ∷ rss) (ss ∷ sss) = SameReplies rs ss × SameRounds rss sss

-- Every request may be made when it is.
abbrev pub AllMayAsk : List (ℤ × ClockRequest) → Delays → Type 0
AllMayAsk [] d = Unit {0}
AllMayAsk ((t, req) ∷ rs) d = MayAsk t req d × AllMayAsk rs (delays_step t req d).1

-- The clock server, from any state whose queue is in order, on requests in which a task that asks for a delay has a tid
-- below the number of nodes and no pending delay, and in which no time that is computed, a tick's or a delay's, goes
-- out of the range of int: it never goes outside its array, and in every round it
-- wakes each task as often, and tells the same tasks the same times, as a server that keeps the
-- delays in the order in which they were asked for and ends in each round every one whose time is not after the
-- clock's, and no other; so a delay until a time ends when the clock shows that time. At the end its clock and the
-- delays that it holds are those of that server,
-- and its queue is in order.
pub clock_rounds_lem :
    (rs : List (ℤ × ClockRequest)) (s : ClockServer) (d : Delays)
    → Keeps s d
    → AllMayAsk rs d
    → (out : List (List ClockReply) × ClockServer) × (clock_rounds rs s ≡ some out)
      × SameRounds out.0 (delays_rounds rs d).0
      × Keeps out.1 (delays_rounds rs d).1
unfolding clock_rounds delays_rounds SameRounds
clock_rounds_lem [] s d h may = (([], s), refl, tt, h)
clock_rounds_lem ((t, req) ∷ rs) s d h may =
    let (now, run, same, k) = step-Keeps t req h may.0 in
    let (later, runs, rounds, end) = clock_rounds_lem rs now.1 (delays_step t req d).1 k may.1 in
    ((now.0 ∷ later.0, later.1), rw run (rw runs refl), (same, rounds), end)
