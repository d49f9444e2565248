-- ===== src/Strings/Tests.antt =====
-- The theorems about strings at "ab" at address 10, "ac" at 20, "42" at 30, "g x" at 40, and a space at 60.
use rtk.Common.{◌≡◌, refl, some, arith, ◌==◌, if◌then◌else◌}
use rtk.Common.Int.{pos}
use rtk.Bytes.{Bytes}
use rtk.Strings.{strlen, atoi_from}
use rtk.Strings.Atoi.{atoi-decimal}
use rtk.Strings.Laws.{IsString, strlen_lem}

abbrev texts : Bytes
texts a =
    if a == 10
    then 97
    else (if a == 11 then 98 else (if a == 20 then 97 else (if a == 21 then 99 else 0)))

first-IsString : IsString 10 2 texts
first-IsString = record { ends = refl; goes = λ i lt. ground arith }

strlen_lem_example : strlen 5 10 texts ≡ some 3
strlen_lem_example = strlen_lem 5 10 2 texts first-IsString (omega arith)

abbrev command : Bytes
command a =
    if a == 30
    then 52
    else (if a == 31
        then 50
        else (if a == 40
            then 103
            else (if a == 41 then 32 else (if a == 42 then 120 else (if a == 60 then 32 else 0)))))

atoi-decimal_example : atoi_from 3 30 (pos 0) command ≡ some (pos 42)
atoi-decimal_example =
    atoi-decimal 3 30 42 command (omega arith) (omega arith, refl, (omega arith, refl, refl))
      (omega arith)

command-IsString : IsString 40 3 command
command-IsString = record { ends = refl; goes = λ i lt. ground arith }
