-- ===== src/Commands/Tests.antt =====
-- The commands `whois x` and `rand`, at address 40, and a space at 60.
use rtk.Common.{ℕ, ◌≡◌, ◌≢◌, refl, none, some, arith, inr, ◌==◌, if◌then◌else◌}
use rtk.Common.Int.{ℤ, pos}
use rtk.Queue.{null}
use rtk.Bytes.{Bytes}
use rtk.Strings.{strtok, strlen}
use rtk.Strings.Laws.{IsString}
use rtk.Random.{Generator}
use rtk.Commands.{print_number, whois_server, rand_server}
use rtk.Commands.Laws.{whois_server_lem, no_argument_fails}

-- "w x"
abbrev command : Bytes
command a =
    if a == 40
    then 119
    else (if a == 41 then 32 else (if a == 42 then 120 else (if a == 60 then 32 else 0)))

-- "r"
abbrev bare : Bytes
bare a = if a == 40 then 114 else (if a == 60 then 32 else 0)

abbrev found : ℕ → Bytes → ℤ
found name m = pos 5

whois_server_lem_example :
    (m' : Bytes) × IsString 42 1 m'
    × ((a : ℕ) → a ≢ 41 → a ≢ 43 → m' a ≡ command a)
    × (whois_server found 9 40 60 null command ≡ some (print_number (pos 5), pos 0))
whois_server_lem_example =
    whois_server_lem found 9 40 60 null 3 1 1 command (omega arith)
      (record {
        string = record { ends = refl; goes = λ i lt. ground arith };
        char = refl;
        apart = inr (omega arith);
      })
      (record { ends = refl; goes = λ i lt. ground arith }) (omega arith) (omega arith)
      (omega arith)
      (record { within = omega arith; before = λ i lt. ground arith; here = λ lt. refl })
      (record { within = omega arith; before = λ i lt. ground arith; here = λ lt. ground arith })

abbrev seeded : Generator
seeded = record { seed = 362436069; rand_errno = pos 0 }

no_argument_fails_example :
    (strtok 9 40 60 null bare ≡ some (40, null, bare))
    × (strlen 9 60 bare ≡ some 2)
    × (whois_server found 9 40 60 null bare ≡ none)
    × (rand_server 9 40 60 null bare seeded ≡ none)
no_argument_fails_example =
    no_argument_fails found 9 40 60 null 1 bare seeded (omega arith)
      (record {
        string = record { ends = refl; goes = λ i lt. ground arith };
        char = refl;
        apart = inr (omega arith);
      })
      (record { ends = refl; goes = λ i lt. ground arith }) (omega arith) (omega arith)
      (record { within = omega arith; before = λ i lt. ground arith; here = λ lt. ground arith })
