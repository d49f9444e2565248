-- ===== src/Commands/Laws.antt =====
-- What the commands do with their arguments, and without.
use rtk.Common.{
  ℕ, ◌+◌, ◌-◌, ◌<◌, ◌≡◌, ◌≢◌, ◌∙◌, ap, refl, Option, none, some, arith, if◌then◌else◌, ◌>>=◌,
}
use rtk.Common.Int.{ℤ, pos, leb_ℤ}
use rtk.Queue.{null}
use rtk.Bytes.{Bytes}
use rtk.Strings.{strlen, strtok}
use rtk.Strings.Laws.{IsString, strlen_lem}
use rtk.Strings.Tokens.{IsDelim, FirstAt, strtok_lem, strtok-null, second_token, token}
use rtk.Random.{Generator}
use rtk.Commands.{Printed, print_number, print_nothing, whois_server, rand_server}

bind_assoc :
    {A B C : Type 0} (o : Option A) (f : A → Option B) (g : B → Option C)
    → (o >>= λ a. f a >>= g) ≡ ((o >>= f) >>= g)
bind_assoc none f g = refl
bind_assoc (some a) f g = refl

-- What `whois` answers, once it has the name.
abbrev looked_up : (ℕ → Bytes → ℤ) → ℕ × ℕ × Bytes → Option (Printed × ℤ)
looked_up who_is (name, prev, m) =
    let tid = who_is name m in
    some (if leb_ℤ (pos 0) tid then (print_number tid, pos 0) else (print_nothing, tid))

-- The command `whois` with an argument: a message whose first space comes after `k` bytes, and whose next, if
-- there is one, `j` bytes later. It asks for the string that stands behind the first space, `j` bytes long, in a
-- memory that is the message's but at the two ends of words: the name is the message's second word, byte for byte.
-- A tid is printed and 0 replied, and an error is replied.
pub whois_server_lem :
    (who_is : ℕ → Bytes → ℤ) (fuel buf space prev n k j : ℕ) (m : Bytes)
    → buf ≢ null
    → IsDelim space 32 buf n m
    → IsString buf n m
    → 1 < fuel
    → n < fuel
    → k < n
    → FirstAt buf n 32 k m
    → FirstAt (buf + k + 1) (n - k - 1) 32 j m
    → (m' : Bytes) × IsString (buf + k + 1) j m'
      × ((a : ℕ) → a ≢ buf + k → a ≢ buf + k + 1 + j → m' a ≡ m a)
      × (whois_server who_is fuel buf space prev m
          ≡ some (
              if leb_ℤ (pos 0) (who_is (buf + k + 1) m')
              then (print_number (who_is (buf + k + 1) m'), pos 0)
              else (print_nothing, who_is (buf + k + 1) m')))
unfolding whois_server
whois_server_lem who_is fuel buf space prev n k j m ne d s one lt in_it f g =
    let (prev', m', runs, name, command, kept) =
      second_token fuel buf space prev n 32 k j m ne d s one lt in_it f g in
    (
      m',
      name,
      kept,
      bind_assoc (strtok fuel buf space prev m)
            (λ (first, prev1, m1). strtok fuel null space prev1 m1) (looked_up who_is)
          ∙ ap (λ o. o >>= looked_up who_is) runs,
    )

-- The commands `whois` and `rand` without an argument: for a message without a space the first strtok returns, and
-- leaves a null pointer for the next; strlen of the second strtok returns too, so that it goes on to read through
-- that pointer, and neither command has a result.
pub no_argument_fails :
    (who_is : ℕ → Bytes → ℤ) (fuel buf space prev n : ℕ) (m : Bytes) (g : Generator)
    → buf ≢ null
    → IsDelim space 32 buf n m
    → IsString buf n m
    → 1 < fuel
    → n < fuel
    → FirstAt buf n 32 n m
    → (strtok fuel buf space prev m ≡ some (buf, null, m))
      × (strlen fuel space m ≡ some 2)
      × (whois_server who_is fuel buf space prev m ≡ none)
      × (rand_server fuel buf space prev m g ≡ none)
unfolding whois_server rand_server
no_argument_fails who_is fuel buf space prev n m g ne d s one lt f =
    (first, size, rw first (rw second refl), rw first (rw second refl))
  where
    whole : token buf n n m ≡ (buf, null, m)
    whole = ground arith

    first : strtok fuel buf space prev m ≡ some (buf, null, m)
    first = strtok_lem fuel buf space prev n 32 n m ne d s one lt f ∙ ap some whole

    size : strlen fuel space m ≡ some 2
    size = strlen_lem fuel space 1 m d.string one

    second : strtok fuel null space null m ≡ none
    second = strtok-null fuel space 2 m size
