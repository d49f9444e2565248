-- ===== src/Kernel/Launch/Start.antt =====
-- A kernel of kernel/rtk.c after the start in which Init runs and NullProcess is ready.
use rtk.Common.{ℕ, refl, inr, List, [], arith}
use rtk.Queue.{update, dequeue_queue}
use rtk.Kernel.State.{Kernel, priority_queue, low_priority}
use rtk.Kernel.Lifecycle.Creating.{HasFree}
use rtk.Kernel.Lifecycle.Filling.{span, has-span}
use rtk.Kernel.Lifecycle.Scheduling.Running.{running, running-IsPlaced}
use rtk.Kernel.Launch.{Launched, launched_lists}
use rtk.Kernel.Runs.Live.{IsLive}

abbrev pub init_running : ℕ → Kernel → Kernel
init_running timer k = running timer (dequeue_queue (priority_queue 1 low_priority) k.memory).1 1 k

abbrev pub init_lists : ℕ → List ℕ
init_lists = update launched_lists (priority_queue 1 low_priority) []

module _ {k k' : Kernel} {null_process init stacks : ℕ} (timer : ℕ)
    (l : Launched k null_process init stacks k') where
  pub init_running-IsLive : IsLive init_lists (init_running timer k')
  init_running-IsLive = record {
    placed = running-IsPlaced l.placed low_priority 1 [] refl timer (omega arith);
    c = 1;
    running = refl;
    priorities = λ j. ground (arith, l.priorities j);
    bottom = l.null_task.priority;
    on = inr refl;
  }

  -- The third descriptor is the first free one.
  pub init_running-HasFree : HasFree init_lists (init_running timer k') 2 2 (span 4 1021)
  unfolding span
  init_running-HasFree = record {
    placed = init_running-IsLive.placed;
    below = omega arith;
    first_free = refl;
    childless = refl;
    lone = λ p. ground (arith, has-span 3 1022 1027);
    next_tid = ground (arith, l.rest 2);
    index = refl;
  }
