-- ===== src/Random/Tests.antt =====
-- The theorem about random numbers at a die.
use rtk.Common.{◌≤◌, ◌≡◌, arith}
use rtk.Common.Int.{pos}
use rtk.Random.{Generator, rand_range}
use rtk.Random.Laws.{rand_range_bounds}

abbrev initial : Generator
initial = record { seed = 362436069; rand_errno = pos 0 }

rand_range_bounds_example :
    (1 ≤ (rand_range 1 6 initial).0)
    × ((rand_range 1 6 initial).0 ≤ 6)
    × ((rand_range 1 6 initial).1.rand_errno ≡ pos 0)
rand_range_bounds_example = rand_range_bounds 1 6 initial (omega arith) (omega arith) (omega arith)
