-- ===== src/Random.antt =====
-- lib/random.c, with its static variables as a record.
pub mod Laws
mod Tests
use rtk.Common.{ℕ, ◌+◌, ◌-◌, ◌*◌, ◌/◌, ◌%◌, ◌^◌, ltb, ◌==◌, if◌then◌else◌}
use rtk.Common.Int.{ℤ, pos, negsuc}

pub record Generator : Type 0 where
  pub seed : ℕ
  pub rand_errno : ℤ

-- Seed looks at the old seed.
unfoldable pub set_seed : ℕ → Generator → Generator
set_seed s g = if g.seed == 0 then record g { rand_errno = negsuc 0 } else record g { seed = s }

-- Rand: `seed_ & 65535` and `seed_ >> 16` on 32 bits.
unfoldable pub rand : Generator → ℕ × Generator
rand g =
    let next = (36969 * (g.seed % 2 ^ 16) + g.seed / 2 ^ 16) % 2 ^ 32 in
    (next, record { seed = next; rand_errno = pos 0 })

unfoldable pub rand_max : ℕ → Generator → ℕ × Generator
rand_max max g =
    let drawn = rand g in
    if max == 2 ^ 32 - 1
    then (0, record g { rand_errno = negsuc 0 })
    else (drawn.0 % (max + 1), drawn.1)

unfoldable pub rand_range : ℕ → ℕ → Generator → ℕ × Generator
rand_range min max g =
    let drawn = rand_max (max - min) g in
    if ltb max min
    then (0, record g { rand_errno = negsuc 0 })
    else ((drawn.0 + min) % 2 ^ 32, drawn.1)
