-- ===== src/Semaphore/Service.antt =====
-- What the server of usr/semaphore.c is to its clients: semaphores with units, for which tasks wait in line. A task
-- may go on with a unit, or once it has given one; the server does not tell all of them so.
use rtk.Common.{
  ℕ, ◌+◌, ◌-◌, ◌<◌, ◌≡◌, ◌⊎◌, false, Option, some, List, [], ◌∷◌, ◌++◌, map, ◌==◌, if◌then◌else◌,
  has, length, ◌>>=◌,
}
use rtk.Common.Int.{ℤ, sub_ℕ}
use rtk.Kernel.State.{max_tasks}
use rtk.Semaphore.{SemaphoreServer, SemReq, sem_node, sem_v, sem_p, other, semaphore_server}
use rtk.Semaphore.Laws.{IsSemaphore}

-- The units that are free, and the tids of the tasks in line.
pub record Semaphore : Type 0 where
  pub units : ℕ
  pub line : List ℕ

-- The first in line gets a unit, or it is free.
abbrev pub give : List ℕ → Semaphore → List ℕ × Semaphore
give [] x = ([], record x { units = x.units + 1 })
give (t ∷ ts) x = (t ∷ [], record x { line = ts })

-- A task takes a unit, or goes to the end of the line.
abbrev pub take : ℕ → Semaphore → Semaphore
take t x =
    if x.units == 0 then record x { line = x.line ++ t ∷ [] } else record x { units = x.units - 1 }

abbrev pub replace : ℕ → Semaphore → (ℕ → Semaphore) → ℕ → Semaphore
replace s x a p = if p == s then x else a p

-- A task may go on: it got a unit after a wait in line, or its request is done at once.
pub data Passed : Type 0 where
  waited at_once : (tid : ℕ) → Passed

abbrev pub finds_unit : ℕ → Semaphore → List Passed
finds_unit t x = if x.units == 0 then [] else at_once t ∷ []

-- A request: who may go on, and the semaphores afterwards.
abbrev pub sem_step : ℕ → SemReq → (ℕ → Semaphore) → List Passed × (ℕ → Semaphore)
sem_step t (sem_v s) a = (finds_unit t (a s), replace s (take t (a s)) a)
sem_step t (sem_p s) a =
    let given = give (a s).line (a s) in (map waited given.0 ++ at_once t ∷ [], replace s given.1 a)
sem_step t other a = ([], a)

-- The tasks that got a unit after a wait.
unfoldable pub ended_waits : List Passed → List ℕ
ended_waits [] = []
ended_waits (waited t ∷ ps) = t ∷ ended_waits ps
ended_waits (at_once t ∷ ps) = ended_waits ps

-- A queue and a counter for a semaphore: the queue holds the tasks in line, and the counter is the
-- number of units, or below 0 by the number of tasks in line.
pub record Matches (q : List ℕ) (n : ℤ) (x : Semaphore) : Type 0 where
  pub queue : q ≡ map sem_node x.line
  pub counter : n ≡ sub_ℕ x.units (length x.line)
  pub exclusive : (x.units ≡ 0) ⊎ (x.line ≡ [])

-- The server's state stands for the semaphores.
pub record Stands (w : SemaphoreServer) (a : ℕ → Semaphore) : Type 0 where
  pub v : ℕ → List ℕ
  pub valid : IsSemaphore v w
  pub matches : (s : ℕ) → Matches (v s) (w.counter s) (a s)

-- A task that waits for a semaphore makes no request.
abbrev pub IsFree : ℕ → (ℕ → Semaphore) → Type 0
IsFree t a = (t < max_tasks) × ((s : ℕ) → has t (a s).line ≡ false)

-- The server's loop over the requests that come, each from a task with a tid.
unfoldable pub semaphore_rounds :
    List (ℕ × SemReq) → SemaphoreServer → Option (List ℕ × SemaphoreServer)
semaphore_rounds [] w = some ([], w)
semaphore_rounds ((t, req) ∷ rs) w = do
  (now, w1) ← semaphore_server t req w
  (later, w2) ← semaphore_rounds rs w1
  some (now ++ later, w2)

unfoldable pub sem_rounds : List (ℕ × SemReq) → (ℕ → Semaphore) → List Passed × (ℕ → Semaphore)
sem_rounds [] a = ([], a)
sem_rounds ((t, req) ∷ rs) a =
    let now = sem_step t req a in let later = sem_rounds rs now.1 in (now.0 ++ later.0, later.1)

-- No request comes from a task that waits in line at that time.
abbrev pub MayAsk : List (ℕ × SemReq) → (ℕ → Semaphore) → Type 0
MayAsk [] a = Unit {0}
MayAsk ((t, req) ∷ rs) a = IsFree t a × MayAsk rs (sem_step t req a).1
