-- ===== src/Names/Tests.antt =====
-- The theorems about the name table at an empty table.
use rtk.Common.{◌≡◌, refl, none, some, [], ◌∷◌, arith, ℕ, ◌+◌, ◌≤◌, inr, ◌==◌, if◌then◌else◌}
use rtk.Bytes.{Bytes}
use rtk.Strings.Laws.{IsString}
use rtk.Names.Clients.{who_is_name, register_as_name, name_in_request}
use rtk.Common.Int.{pos}
use rtk.Names.{
  HashTable, hash_table_insert, hash_table_get, djb2, hash, name_server, who_is, register_as,
  who_is_reply, register_as_reply,
}
use rtk.Names.Laws.{
  written, written-IsDirect, IsDirect, get-direct, collision_evicts, register_then_who_is,
}

abbrev empty : HashTable
empty = record { nodes = λ i. record { key = 0; value = pos 0 }; num_elements = 0 }

empty-IsDirect : IsDirect empty
empty-IsDirect = record { at_bucket = λ i lt ne. absurd (ne refl) }

-- The hash of "rps".
hash_run : hash (114 ∷ 112 ∷ 115 ∷ []) ≡ 193504954
unfolding hash djb2
hash_run = refl

-- The key 5 is there, with the data 3.
abbrev with_5 : HashTable
with_5 = written 5 (pos 3) empty

get-direct_example : hash_table_get 5 with_5 ≡ some (some (pos 3))
get-direct_example =
    get-direct 5 with_5 (written-IsDirect 5 (pos 3) empty empty-IsDirect) (omega arith)
      (omega arith)

collision_evicts_example :
    (t1 t2 : HashTable) × (hash_table_insert 5 (pos 3) empty ≡ some (pos 0, t1))
    × (hash_table_get 5 t1 ≡ some (some (pos 3)))
    × (hash_table_insert 133 (pos 7) t1 ≡ some (pos 0, t2))
    × (hash_table_get 5 t2 ≡ some none)
collision_evicts_example =
    collision_evicts 5 133 (pos 3) (pos 7) empty 1 empty-IsDirect (omega arith) (omega arith) refl
      (omega arith) (omega arith) (omega arith) refl

register_then_who_is_example :
    (t' : HashTable) × (name_server (pos 0) (pos 4) (register_as (114 ∷ [])) empty
      ≡ some (some (register_as_reply (pos 0)), t'))
    × (name_server (pos 0) (pos 5) (who_is (114 ∷ [])) t'
        ≡ some (some (who_is_reply (pos 0) (pos 4)), t'))
register_then_who_is_example =
    register_then_who_is (pos 0) (pos 0) (pos 4) (pos 5) (114 ∷ []) empty 0 (omega arith) refl

-- "ab" at address 10.
abbrev text : Bytes
text a = if a == 10 then 97 else (if a == 11 then 98 else 0)

name_in_request_example :
    IsString 500 2 (who_is_name 500 10 text)
    × ((i : ℕ) → i ≤ 2 → who_is_name 500 10 text (500 + i) ≡ text (10 + i))
    × ((a : ℕ) → register_as_name 500 10 text a ≡ who_is_name 500 10 text a)
name_in_request_example =
    name_in_request 500 10 2 text (record { ends = refl; goes = λ i lt. ground arith })
      (inr (omega arith)) (omega arith)
