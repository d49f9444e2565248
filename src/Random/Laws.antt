-- ===== src/Random/Laws.antt =====
-- The bounds of what is drawn.
use rtk.Common.{ℕ, ◌+◌, ◌-◌, ◌%◌, ◌^◌, ◌<◌, ◌≤◌, ◌≡◌, ◌≢◌, refl, false, arith, ltb, ◌==◌}
use rtk.Common.Int.{pos}
use rtk.Random.{Generator, rand, rand_max, rand_range}
use native.Mathlib.Nat.{mod-lt}

rand_max-le :
    (max : ℕ) (g : Generator)
    → max ≢ 2 ^ 32 - 1
    → ((rand_max max g).0 ≤ max) × ((rand_max max g).1.rand_errno ≡ pos 0)
unfolding rand_max rand
rand_max-le max g ne = (rw test (small (rand g).0), rw test refl)
  where
    test : (max == 2 ^ 32 - 1) ≡ false
    test = ground arith

    small : (r : ℕ) → r % (max + 1) ≤ max
    small r = omega (arith, mod-lt r {m = max + 1} (omega arith))

-- RandRange of bounds in order that are not the whole range of 32 bits: the number is between the
-- bounds, both included, and no error is noted.
pub rand_range_bounds :
    (min max : ℕ) (g : Generator)
    → min ≤ max
    → max < 2 ^ 32
    → max - min ≢ 2 ^ 32 - 1
    → (min ≤ (rand_range min max g).0)
      × ((rand_range min max g).0 ≤ max)
      × ((rand_range min max g).1.rand_errno ≡ pos 0)
unfolding rand_range
rand_range_bounds min max g le small ne =
    (rw test (ground (arith, drawn.0)), rw test (ground (arith, drawn.0)), rw test drawn.1)
  where
    test : ltb max min ≡ false
    test = ground arith

    drawn :
        ((rand_max (max - min) g).0 ≤ max - min) × ((rand_max (max - min) g).1.rand_errno ≡ pos 0)
    drawn = rand_max-le (max - min) g ne
