-- ===== src/Kernel/Launch/Tests.antt =====
-- The start of the kernel, with the functions at chosen addresses.
use rtk.Common.{◌-◌, ◌≡◌, refl, none, some, [], ◌==◌, if◌then◌else◌, ◌>>=◌, arith}
use rtk.Common.Int.{pos}
use rtk.Queue.{null}
use rtk.Kernel.State.{
  Kernel, initial_task, task_node, max_tasks, low_priority, available_descriptors,
}
use rtk.Kernel.Lifecycle.{init_tasks, create_task, schedule_and_activate}
use rtk.Kernel.Lifecycle.Creating.{Created, create_task_lem}
use rtk.Kernel.Lifecycle.Filling.{IsStatic}
use rtk.Kernel.Lifecycle.Booting.{rest_free, first-CanCreate}
use rtk.Kernel.Launch.{rtk_launch, Launched, rtk_launch_lem, first_round_fails, filled}

abbrev static : Kernel
static = record {
  num_tasks = pos 0;
  tasks = λ j. initial_task;
  current_task = none;
  memory = record {
    node = λ a. record { next = null; prev = null };
    queue = λ q.
        if q == available_descriptors
        then record { first = task_node 0; last = task_node (max_tasks - 1) }
        else record { first = null; last = null };
  };
  messages = λ j. record {
    from_tid = pos 0;
    to_tid = pos 0;
    put_tid = 0;
    msg_buffer = 0;
    msg_buffer_size = pos 0;
    reply_buffer = 0;
    reply_buffer_size = pos 0;
    receive_buffer = 0;
    receive_buffer_size = pos 0;
  };
  bytes = λ a. 0;
  effects = [];
}

static-IsStatic : IsStatic static
static-IsStatic = record {
  nodes = λ a. refl;
  queues = λ q. refl;
  nobody = refl;
  zeroed = λ j. refl;
}

rtk_launch_lem_example :
    (k' : Kernel) × (rtk_launch 500 600 700 65536 static ≡ some k')
    × Launched static 600 700 65536 k'
rtk_launch_lem_example = rtk_launch_lem 500 600 700 65536 static static-IsStatic

first_round_fails_example : (rtk_launch 500 600 700 65536 static >>= schedule_and_activate 9) ≡ none
first_round_fails_example = first_round_fails 500 600 700 65536 9 static static-IsStatic

create_task_lem_example :
    (k' : Kernel) × (create_task 500 low_priority 700 (init_tasks 65536 static) ≡ some (pos 0, k'))
    × Created (rest_free 1022) (init_tasks 65536 static) 0 500 low_priority 700 k'
create_task_lem_example =
    create_task_lem 500 low_priority 700 (first-CanCreate 1022 (filled 65536 static-IsStatic) refl)
      (omega arith)

launched_kernel : Kernel
launched_kernel = (rtk_launch_lem 500 600 700 65536 static static-IsStatic).0
