-- ===== src/Kernel/Tasks/Priorities.antt =====
-- Why no priority is ever set.
use rtk.Common.{◌≡◌, refl, false, some, arith}
use rtk.Common.Int.{ℤ, negsuc}
use rtk.Kernel.State.{Kernel}
use rtk.Kernel.Tasks.{is_valid_priority, set_task_priority}

none_is_valid : (p : ℤ) → is_valid_priority p ≡ false
unfolding is_valid_priority
none_is_valid p = ground arith

-- SetTaskPriority returns ERR_SET_PRIORITY_INVALID_PRIORITY for every tid and every priority, and
-- changes nothing: IsValidPriority asks for a priority of at least 3 and at most 0.
pub set_task_priority_fails :
    (tid to : ℤ) (k : Kernel) → set_task_priority tid to k ≡ some (negsuc 0, k)
unfolding set_task_priority
set_task_priority_fails tid to k = rw (none_is_valid to) refl
