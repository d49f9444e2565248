-- ===== src/Names/Laws.antt =====
-- What the name table remembers, and what it forgets.
use rtk.Common.{
  ℕ, zero, suc, ◌+◌, ◌%◌, ◌<◌, ◌≤◌, ◌≡◌, ◌≢◌, refl, Option, none, some, true, false, List, arith,
  ltb, leb, ◌==◌, ◌∙◌, subst, ap, if◌then◌else◌, ==-refl, Option-cases, Bool-cases, inl, inr,
}
use rtk.Common.Int.{ℤ, pos}
use rtk.Queue.{update}
use rtk.Names.{
  HashTable, ht_size, ht_neighbourhood_size, bucket_of, probe, hash_table_insert, get_from,
  hash_table_get, hash, name_server, who_is, register_as, who_is_reply, register_as_reply,
}

-- Every key stands in the node of its own bucket.
pub record IsDirect (t : HashTable) : Type 0 where
  pub at_bucket : (i : ℕ) → i < ht_size → (t.nodes i).key ≢ 0 → bucket_of (t.nodes i).key ≡ i

-- The table with the bucket's node written.
abbrev pub written : ℕ → ℤ → HashTable → HashTable
written key value t = record {
  nodes = update t.nodes (bucket_of key) (record { key = key; value = value });
  num_elements = t.num_elements + 1;
}

-- One of the nodes that the loop reaches in the neighbourhood is free: it stops there.
probe_stops :
    (rounds i j bucket : ℕ) (t : HashTable)
    → i ≤ j
    → j < i + rounds
    → j < ht_neighbourhood_size
    → (t.nodes ((j + bucket) % ht_size)).key ≡ 0
    → (index : ℕ) × (probe rounds i bucket t ≡ some (some index))
unfolding probe
probe_stops zero i j bucket t lo hi close free = absurd (omega arith)
probe_stops (suc rounds) i j bucket t lo hi close free =
    elim (Bool-cases ((t.nodes ((i + bucket) % ht_size)).key == 0)) [
      | inl e ↦
          let inside : ltb i ht_neighbourhood_size ≡ true = ground arith in
          ((i + bucket) % ht_size, rw (e, inside))
      | inr e ↦ elim (Bool-cases (i == j)) [
        | inl g ↦
            let same : i ≡ j = ground arith in
            let taken : (t.nodes ((j + bucket) % ht_size)).key ≢ 0 =
              (let at_j : ((t.nodes ((j + bucket) % ht_size)).key == 0) ≡ false = rw same at e in
                ground arith) in
            absurd (taken free)
        | inr g ↦
            let later =
              probe_stops rounds (i + 1) j bucket t (ground arith) (omega arith) close free in
            (later.0, rw e later.1)
      ]
    ]

-- HashTableInsert succeeds where one of the 16 nodes from the key's bucket on is free, and then
-- the node of the bucket itself holds the key and its data.
pub insert_writes :
    (key : ℕ) (value : ℤ) (t : HashTable) (j : ℕ)
    → j < ht_neighbourhood_size
    → (t.nodes ((j + bucket_of key) % ht_size)).key ≡ 0
    → hash_table_insert key value t ≡ some (pos 0, written key value t)
unfolding hash_table_insert
insert_writes key value t j close free =
    let stop = probe_stops ht_size 0 j (bucket_of key) t (omega arith) (omega arith) close free in
    rw stop.1

get_first :
    (key : ℕ) (t : HashTable)
    → (t.nodes (bucket_of key)).key ≡ key
    → hash_table_get key t ≡ some (some (t.nodes (bucket_of key)).value)
unfolding hash_table_get get_from
get_first key t e =
    let low : leb ht_size (key % 128 + 0) ≡ false = ground arith in
    let here : key % 128 + 0 ≡ key % 128 = omega arith in
    let found : ((t.nodes (key % 128 + 0)).key == key) ≡ true = rw (here, e) (==-refl key) in
    rw (low, found, here)

-- No key of another bucket's node is the one looked for.
get_none :
    (rounds i key : ℕ) (t : HashTable)
    → IsDirect t
    → key ≢ 0
    → bucket_of key + i + rounds ≤ ht_size
    → (i ≡ 0 → (t.nodes (bucket_of key)).key ≢ key)
    → get_from rounds i key t ≡ some none
unfolding get_from
get_none zero i key t d ne room first = refl
get_none (suc rounds) i key t d ne room first =
    let later = get_none rounds (i + 1) key t d ne (omega arith) (λ e. absurd (omega arith)) in
    let low : leb ht_size (key % 128 + i) ≡ false = ground arith in
    elim (Bool-cases ((t.nodes (key % 128 + i)).key == key)) [
      | inl e ↦
          let same : (t.nodes (key % 128 + i)).key ≡ key = ground arith in
          let home : bucket_of (t.nodes (key % 128 + i)).key ≡ key % 128 + i =
            d.at_bucket (key % 128 + i) (omega arith) (ground arith) in
          let at : key % 128 ≡ key % 128 + i = rw same at home in
          let start : i ≡ 0 = omega arith in
          let flat : key % 128 + i ≡ key % 128 = omega arith in
          absurd (first start (rw flat at same))
      | inr e ↦ rw (low, e) later
    ]

-- HashTableGet on a table whose keys stand in their own buckets, for a key that is not 0 and whose
-- bucket is at most 112: it reads inside the table, and finds the data of the bucket's node if that
-- holds the key, and else nothing.
pub get-direct :
    (key : ℕ) (t : HashTable)
    → IsDirect t
    → key ≢ 0
    → bucket_of key ≤ 112
    → hash_table_get key t
      ≡ some (
          if (t.nodes (bucket_of key)).key == key
          then some (t.nodes (bucket_of key)).value
          else none)
unfolding hash_table_get
get-direct key t d ne low = elim (Bool-cases ((t.nodes (bucket_of key)).key == key)) [
  | inl e ↦ rw e (get_first key t (ground arith))
  | inr e ↦ rw e (get_none 16 0 key t d ne (omega arith) (λ g. ground arith))
]

pub written-IsDirect :
    (key : ℕ) (value : ℤ) (t : HashTable) → IsDirect t → IsDirect (written key value t)
written-IsDirect key value t d = record { at_bucket = λ i lt ne. ground (arith, d.at_bucket i lt) }

-- The table of a result, `t` where there is none.
table_of : HashTable → Option (ℤ × HashTable) → HashTable
table_of t none = t
table_of t (some r) = r.1

table-insert :
    (key : ℕ) (value : ℤ) (t : HashTable)
    → IsDirect t
    → IsDirect (table_of t (hash_table_insert key value t))
unfolding hash_table_insert table_of
table-insert key value t d = elim (Option-cases (probe ht_size 0 (bucket_of key) t)) [
  | inl e ↦ rw e d
  | inr (o, e) ↦ elim (Option-cases o) [
    | inl g ↦ rw (e, g) d
    | inr (x, g) ↦ rw (e, g) (written-IsDirect key value t d)
  ]
]

-- HashTableInsert keeps every key in the node of its own bucket, whether it succeeds or not.
pub insert-IsDirect :
    (key : ℕ) (value status : ℤ) (t t' : HashTable)
    → IsDirect t
    → hash_table_insert key value t ≡ some (status, t')
    → IsDirect t'
unfolding table_of
insert-IsDirect key value status t t' d run =
    subst IsDirect (ap (table_of t) run) (table-insert key value t d)

-- Two keys of one bucket of at most 112, on a table whose keys stand in their own buckets, where one of the 15 nodes
-- behind the bucket's is free: HashTableInsert of the first succeeds, and HashTableGet finds its data; then
-- HashTableInsert of the second succeeds, and HashTableGet does not find the first any more.
pub collision_evicts :
    (key key' : ℕ) (value value' : ℤ) (t : HashTable) (j : ℕ)
    → IsDirect t
    → key ≢ 0
    → key' ≢ key
    → bucket_of key' ≡ bucket_of key
    → bucket_of key ≤ 112
    → 0 < j
    → j < ht_neighbourhood_size
    → (t.nodes ((j + bucket_of key) % ht_size)).key ≡ 0
    → (t1 t2 : HashTable) × (hash_table_insert key value t ≡ some (pos 0, t1))
      × (hash_table_get key t1 ≡ some (some value))
      × (hash_table_insert key' value' t1 ≡ some (pos 0, t2))
      × (hash_table_get key t2 ≡ some none)
collision_evicts key key' value value' t j d ne differ same low behind close free = (
  t1,
  t2,
  insert_writes key value t j close free,
  get_first key t1 here ∙ ap (λ n. some (some n)) found,
  insert_writes key' value' t1 j close (rw same still_free),
  get-direct key t2 (written-IsDirect key' value' t1 (written-IsDirect key value t d)) ne low
      ∙ ap some gone,
)
  where
    t1 : HashTable
    t1 = written key value t

    t2 : HashTable
    t2 = written key' value' t1

    here : (t1.nodes (bucket_of key)).key ≡ key
    here = ground arith

    found : (t1.nodes (bucket_of key)).value ≡ value
    found = ground arith

    still_free : (t1.nodes ((j + bucket_of key) % ht_size)).key ≡ 0
    still_free = ground (arith, free)

    gone :
        (if (t2.nodes (bucket_of key)).key == key
          then some (t2.nodes (bucket_of key)).value
          else none)
        ≡ none
    gone = ground arith

-- RegisterAs and then WhoIs of the same name, where one of the 16 nodes from its bucket on is free:
-- the first is answered with success, the second with the tid that registered.
pub register_then_who_is :
    (junk junk' tid asker : ℤ) (name : List ℕ) (t : HashTable) (j : ℕ)
    → j < ht_neighbourhood_size
    → (t.nodes ((j + bucket_of (hash name)) % ht_size)).key ≡ 0
    → (t' : HashTable) × (name_server junk tid (register_as name) t
        ≡ some (some (register_as_reply (pos 0)), t'))
      × (name_server junk' asker (who_is name) t' ≡ some (some (who_is_reply (pos 0) tid), t'))
unfolding name_server
register_then_who_is junk junk' tid asker name t j close free = (
  written (hash name) tid t,
  rw (insert_writes (hash name) tid t j close free),
  rw (get_first (hash name) (written (hash name) tid t) (rw (==-refl (bucket_of (hash name)))))
      (rw (==-refl (bucket_of (hash name)))),
)
