-- ===== src/Semaphore/Tests.antt =====
-- The theorems about the semaphore server at a server for one semaphore, with its queue at address 5.
use rtk.Common.{ℕ, ◌≡◌, refl, List, [], ◌∷◌, ◌==◌, if◌then◌else◌}
use rtk.Common.Int.{pos, negsuc}
use rtk.Queue.{null, Memory, update, enqueue_queue}
use rtk.Semaphore.{SemaphoreServer, SemReq, sem_v, sem_p}
use rtk.Semaphore.Service.{ended_waits, Semaphore, sem_rounds}

abbrev blank : Memory
blank = record {
  node = λ _. record { next = null; prev = null };
  queue = λ _. record { first = null; last = null };
}

abbrev no_lists : ℕ → List ℕ
no_lists _ = []

-- Task 3 waits.
abbrev held : SemaphoreServer
held = record {
  memory = enqueue_queue 5 4 blank;
  counter = λ p. if p == 5 then negsuc 0 else pos 0;
  tids = λ i. if i == 3 then 3 else 0;
}

abbrev one_list : ℕ → List ℕ
one_list = update no_lists 5 (4 ∷ [])

-- One semaphore, for which task 3 waits.
abbrev line_of_3 : ℕ → Semaphore
line_of_3 s = record { units = 0; line = if s == 5 then 3 ∷ [] else [] }

-- Task 8 wants a unit too; then tasks 9, 10 and 11 give one each, and task 12 finds a unit.
abbrev requests : List (ℕ × SemReq)
requests = (8, sem_v 5) ∷ (9, sem_p 5) ∷ (10, sem_p 5) ∷ (11, sem_p 5) ∷ (12, sem_v 5) ∷ []

three_and_eight : ended_waits (sem_rounds requests line_of_3).0 ≡ 3 ∷ 8 ∷ []
unfolding sem_rounds ended_waits
three_and_eight = refl
