-- ===== src/Commands.antt =====
-- usr/echoserver.c, usr/whoisserver.c, usr/randserver.c: one round of each command's loop, from the message that
-- was received to what is printed and the status that is replied.
pub mod Laws
mod Tests
use rtk.Common.{ℕ, ◌+◌, Option, none, some, Bool, ◌==◌, ◌&&◌, not, if◌then◌else◌, ◌>>=◌}
use rtk.Common.Int.{ℤ, pos, negsuc, leb_ℤ, ◌==ℤ◌}
use rtk.Queue.{null}
use rtk.Bytes.{Bytes, word_of, int_of_word}
use rtk.Strings.{strcspn, strtok, atoi_from}
use rtk.Random.{Generator, rand, rand_max, rand_range}

-- A text is given by its address.
pub data Printed : Type 0 where
  print_text : ℕ → Printed
  print_number : ℤ → Printed
  print_nothing : Printed

-- `space` is where the string literal " " stands.
unfoldable pub echo_server : (fuel buf space : ℕ) → Bytes → Option (Printed × ℤ)
echo_server fuel buf space m = do
  len ← strcspn fuel buf space m
  some (print_text (buf + (len + 1)), pos 0)

-- `who_is` is WhoIs of a name at an address; `prev` is the static variable of strtok.
unfoldable pub whois_server :
    (who_is : ℕ → Bytes → ℤ) (fuel buf space prev : ℕ) → Bytes → Option (Printed × ℤ)
whois_server who_is fuel buf space prev m = do
  (command, prev1, m1) ← strtok fuel buf space prev m
  (name, prev2, m2) ← strtok fuel null space prev1 m1
  let tid = who_is name m2
  some (if leb_ℤ (pos 0) tid then (print_number tid, pos 0) else (print_nothing, tid))

-- The number, by which of the two arguments are there.
unfoldable pub draw : (fuel first last : ℕ) → Bytes → Generator → Option (ℕ × Generator)
draw fuel first last m g =
    let range = do
      low ← atoi_from fuel first (pos 0) m
      high ← atoi_from fuel last (pos 0) m
      some (rand_range (word_of low) (word_of high) g)
    in let below = do high ← atoi_from fuel first (pos 0) m; some (rand_max (word_of high) g)
      in if not (first == null) && not (last == null)
        then range
        else (if not (first == null) then below else some (rand g))

unfoldable pub rand_server :
    (fuel buf space prev : ℕ) → Bytes → Generator → Option (Printed × ℤ × Generator)
rand_server fuel buf space prev m g = do
  (command, prev1, m1) ← strtok fuel buf space prev m
  (first, prev2, m2) ← strtok fuel null space prev1 m1
  (last, prev3, m3) ←
      if not (first == null) then strtok fuel null space prev2 m2 else some (null, prev2, m2)
  (number, g') ← draw fuel first last m3 g
  some (
    if g'.rand_errno ==ℤ pos 0 then print_number (int_of_word number) else print_nothing,
    g'.rand_errno,
    g',
  )
