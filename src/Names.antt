-- ===== src/Names.antt =====
-- lib/hashtable.c, lib/hashtable.h, lib/hash.c, and the loop of usr/nameserver.c: the table from
-- hashes of names to tids. The result `none` is a read past the end of `nodes`.
pub mod Clients
pub mod Laws
mod Tests
use rtk.Common.{
  ℕ, zero, suc, ◌+◌, ◌*◌, ◌%◌, ◌^◌, Option, none, some, Bool, true, false, List, [], ◌∷◌, ltb, leb,
  ◌==◌, ◌&&◌, if◌then◌else◌, ◌>>=◌,
}
use rtk.Common.Int.{ℤ, pos, negsuc}
use rtk.Queue.{update}

abbrev pub ht_size : ℕ
ht_size = 128

abbrev pub ht_neighbourhood_size : ℕ
ht_neighbourhood_size = 16

-- `struct HashTableNode`; a key of 0, the sentinel, marks a free node.
pub record HashTableNode : Type 0 where
  pub key : ℕ
  pub value : ℤ

pub record HashTable : Type 0 where
  pub nodes : ℕ → HashTableNode
  pub num_elements : ℕ

-- HashTableInitialize, on what the table's memory held before.
unfoldable pub hash_table_initialize : HashTable → HashTable
hash_table_initialize t = record {
  nodes = λ i. if ltb i ht_size then record { key = 0; value = (t.nodes i).value } else t.nodes i;
  num_elements = 0;
}

-- H
abbrev pub bucket_of : ℕ → ℕ
bucket_of k = k % ht_size

-- The inner loop of HashTableInsert, from `j` on: may the free node `index` be used?
unfoldable pub near : (rounds j index : ℕ) → HashTable → Option Bool
near zero j index t = some false
near (suc rounds) j index t =
    let y = index + j % ht_size in
    let y_hash = bucket_of (t.nodes y).key in
    let rest = near rounds (j + 1) index t in
    if leb ht_size y
    then none
    else (if leb y_hash index && ltb index ((y_hash + ht_neighbourhood_size) % ht_size)
        then some true
        else rest)

-- The outer loop, from `i` on: the free node that it stops at, if there is one.
unfoldable pub probe : (rounds i bucket : ℕ) → HashTable → Option (Option ℕ)
probe zero i bucket t = some none
probe (suc rounds) i bucket t =
    let index = (i + bucket) % ht_size in
    let rest = probe rounds (i + 1) bucket t in
    if (t.nodes index).key == 0
    then (if ltb i ht_neighbourhood_size
        then some (some index)
        else near ht_neighbourhood_size 0 index t >>= λ found.
            if found then some (some index) else rest)
    else rest

-- The node that the loop has found is not the one that is written: that is the bucket's.
unfoldable pub hash_table_insert : (key : ℕ) (value : ℤ) → HashTable → Option (ℤ × HashTable)
hash_table_insert key value t = probe ht_size 0 (bucket_of key) t >>= λ insert_at. elim insert_at [
  | none ↦ some (negsuc 0, t)
  | some _ ↦ some (
    pos 0,
    record {
      nodes = update t.nodes (bucket_of key) (record { key = key; value = value });
      num_elements = t.num_elements + 1;
    },
  )
]

-- The loop of HashTableGet, from `i` on.
unfoldable pub get_from : (rounds i key : ℕ) → HashTable → Option (Option ℤ)
get_from zero i key t = some none
get_from (suc rounds) i key t =
    let at = bucket_of key + i in
    let rest = get_from rounds (i + 1) key t in
    if leb ht_size at
    then none
    else (if (t.nodes at).key == key then some (some (t.nodes at).value) else rest)

-- HashTableGet: what it stores in `*data`, or HT_GET_FAILED.
unfoldable pub hash_table_get : ℕ → HashTable → Option (Option ℤ)
hash_table_get key t = get_from ht_neighbourhood_size 0 key t

-- djb2 on the bytes before the terminator, in 32-bit unsigned arithmetic.
unfoldable pub djb2 : List ℕ → (hash : ℕ) → ℕ
djb2 [] hash = hash
djb2 (c ∷ cs) hash = djb2 cs ((hash * 2 ^ 5 % 2 ^ 32 + hash + c) % 2 ^ 32)

unfoldable pub hash : List ℕ → ℕ
hash str = djb2 str 5381

pub data NameServerRequest : Type 0 where
  who_is : List ℕ → NameServerRequest
  register_as : List ℕ → NameServerRequest
  unknown : NameServerRequest

-- What is sent back to the requester.
pub data NameServerReply : Type 0 where
  who_is_reply : (status whois_tid : ℤ) → NameServerReply
  register_as_reply : (status : ℤ) → NameServerReply

-- One round of the loop of NameServer. `junk` is what stood in `whois_tid`, which a failed lookup
-- sends back.
unfoldable pub name_server :
    (junk tid : ℤ) → NameServerRequest → HashTable → Option (Option NameServerReply × HashTable)
name_server junk tid (who_is name) t = hash_table_get (hash name) t >>= λ found. elim found [
  | none ↦ some (some (who_is_reply (negsuc 0) junk), t)
  | some whois_tid ↦ some (some (who_is_reply (pos 0) whois_tid), t)
]
name_server junk tid (register_as name) t =
    hash_table_insert (hash name) tid t >>= λ done. some (some (register_as_reply done.0), done.1)
name_server junk tid unknown t = some (none, t)
