-- ===== src/Kernel/Tasks/Alive.antt =====
-- Tids that name a task, as the checks of kernel/task.c see them.
use rtk.Common.{
  ℕ, ◌%◌, ◌≤◌, ◌≡◌, true, false, some, arith, subst, ap, ◌⊎◌, inl, inr, ◌≢◌, Bool-cases, ◌>>=◌,
}
use rtk.Common.Int.{ℤ, pos, negsuc, ◌==ℤ◌, ==ℤ-refl, ==ℤ→eq}
use rtk.Bytes.{store_word, word_of}
use rtk.Kernel.State.{Kernel, TaskState, free, max_tasks, is_alive_state, set_task}
use rtk.Kernel.Tasks.{
  get_task_state, is_task_alive, is_valid_tid, long_max, set_task_return_value, get_current_tid,
  set_current_task_state,
}

-- The tid `n` belongs to the descriptor `i`, and is one that the kernel hands out.
pub record Names (k : Kernel) (n i : ℕ) : Type 0 where
  pub index : n % max_tasks ≡ i
  pub small : n ≤ long_max
  pub holds : (k.tasks i).tid ≡ pos n

pub is_valid_tid-pos : (n : ℕ) → n ≤ long_max → is_valid_tid (pos n) ≡ true
unfolding is_valid_tid
is_valid_tid-pos n h = ground arith

pub is_valid_tid-negsuc : (n : ℕ) → is_valid_tid (negsuc n) ≡ false
unfolding is_valid_tid
is_valid_tid-negsuc n = ground arith

get_task_state_at :
    (k : Kernel) (n : ℕ)
    → ((k.tasks (n % max_tasks)).tid ==ℤ pos n) ≡ true
    → get_task_state (pos n) k ≡ some (k.tasks (n % max_tasks)).state
unfolding get_task_state
get_task_state_at k n h = rw h

module _ {k : Kernel} {n i : ℕ} (t : Names k n i) where
  pub get_task_state-eq : get_task_state (pos n) k ≡ some (k.tasks i).state
  get_task_state-eq =
      subst (λ j. get_task_state (pos n) k ≡ some (k.tasks j).state) t.index
        (get_task_state_at k n (rw (t.index, t.holds) (==ℤ-refl (pos n))))

  pub is_task_alive-eq : is_task_alive (pos n) k ≡ some (is_alive_state (k.tasks i).state)
  unfolding is_task_alive
  is_task_alive-eq = rw (is_valid_tid-pos n t.small, get_task_state-eq)

  pub set_task_return_value-eq :
      (ret : ℤ)
      → is_alive_state (k.tasks i).state ≡ true
      → set_task_return_value (pos n) ret k
        ≡ some (record k { bytes = store_word (k.tasks i).sp (word_of ret) k.bytes })
  unfolding set_task_return_value
  set_task_return_value-eq ret alive = rw (is_task_alive-eq) (rw alive (rw t.index))

pub get_current_tid-eq :
    (k : Kernel) (c a : ℕ)
    → k.current_task ≡ some c
    → (k.tasks c).tid ≡ pos a
    → get_current_tid k ≡ pos a
unfolding get_current_tid
get_current_tid-eq k c a e h = rw (e, get_current_tid) h

pub set_current_task_state-eq :
    (k : Kernel) (c : ℕ) (to : TaskState)
    → k.current_task ≡ some c
    → set_current_task_state to k ≡ some (set_task c (record (k.tasks c) { state = to }) k)
unfolding set_current_task_state
set_current_task_state-eq k c to e =
    ap (λ o. o >>= λ i. some (set_task i (record (k.tasks i) { state = to }) k)) e

get_task_state_of_other :
    (k : Kernel) (n : ℕ)
    → ((k.tasks (n % max_tasks)).tid ==ℤ pos n) ≡ false
    → get_task_state (pos n) k ≡ some free
unfolding get_task_state
get_task_state_of_other k n h = rw h

-- A tid names nobody if its descriptor has another tid by now, or a state that is not alive.
pub is_task_alive-false :
    (k : Kernel) (n : ℕ)
    → n ≤ long_max
    → ((k.tasks (n % max_tasks)).tid ≢ pos n)
      ⊎ (is_alive_state (k.tasks (n % max_tasks)).state ≡ false)
    → is_task_alive (pos n) k ≡ some false
unfolding is_task_alive
is_task_alive-false k n small dead = elim (Bool-cases ((k.tasks (n % max_tasks)).tid ==ℤ pos n)) [
  | inl e ↦
      rw (is_valid_tid-pos n small, get_task_state_at k n e)
        (ground (arith, ==ℤ→eq (k.tasks (n % max_tasks)).tid (pos n)))
  | inr e ↦ rw (is_valid_tid-pos n small, get_task_state_of_other k n e)
]
