-- ===== src/Names/Clients.antt =====
-- RegisterAs and WhoIs of usr/nameserver.c: the name in the request, and what is made of the answer. The request's
-- name stands in byte memory from `request` on.
use rtk.Common.{
  ℕ, ◌+◌, ◌-◌, ◌<◌, ◌≤◌, ◌≡◌, ◌⊎◌, ◌∙◌, inl, inr, Bool-cases, sym, refl, arith, ltb, leb, ◌==◌,
  ◌&&◌, if◌then◌else◌,
}
use rtk.Common.Int.{ℤ, pos, negsuc, ltb_ℤ, ◌==ℤ◌}
use rtk.Queue.{update}
use rtk.Bytes.{Bytes}
use rtk.Strings.{strnlen, strncpy}
use rtk.Strings.Laws.{IsString, strnlen_lem, strncpy_lem}

abbrev pub ns_name_buffer_size : ℕ
ns_name_buffer_size = 128

-- The request of WhoIs.
unfoldable pub who_is_name : (request name : ℕ) → Bytes → Bytes
who_is_name request name m = strncpy request name (strnlen name (ns_name_buffer_size - 1) m) m

-- The request of RegisterAs.
unfoldable pub register_as_name : (request name : ℕ) → Bytes → Bytes
register_as_name request name m =
    let name_length = strnlen name (ns_name_buffer_size - 1) m in
    update (strncpy request name name_length m) (request + name_length) 0

-- `err` is what Send returns. ERR_INVALID_NAMESERVER_TID is -1, ERR_LOOKUP_FAILED is -2.
unfoldable pub who_is_result : (err status whois_tid : ℤ) → ℤ
who_is_result err status whois_tid =
    if ltb_ℤ (pos 0) err then (if status ==ℤ pos 0 then whois_tid else negsuc 1) else negsuc 0

unfoldable pub register_as_result : (err status : ℤ) → ℤ
register_as_result err status =
    if ltb_ℤ (pos 0) err then (if status ==ℤ pos 0 then pos 0 else negsuc 1) else negsuc 0

who_is-copy :
    (request name : ℕ) (m : Bytes) (a : ℕ)
    → strncpy request name (strnlen name (ns_name_buffer_size - 1) m) m a
      ≡ who_is_name request name m a
unfolding who_is_name
who_is-copy request name m a = refl

module _ (request name n : ℕ) (m : Bytes) (s : IsString name n m)
    (apart : (request ≤ name) ⊎ (name + ns_name_buffer_size ≤ request)) where
  abbrev copied_bytes : ℕ
  copied_bytes = if ltb n (ns_name_buffer_size - 1) then n + 1 else ns_name_buffer_size

  measured : strnlen name (ns_name_buffer_size - 1) m ≡ copied_bytes
  measured = strnlen_lem name (ns_name_buffer_size - 1) n m s ∙ ground arith

  who_is-at :
      (a : ℕ)
      → who_is_name request name m a ≡ (
          if a == request + copied_bytes
          then 0
          else (if leb request a && ltb a (request + copied_bytes)
              then m (name + (a - request))
              else m a))
  unfolding who_is_name
  who_is-at a = rw measured (strncpy_lem request name copied_bytes m a (ground arith))

  register_as-same : (a : ℕ) → register_as_name request name m a ≡ who_is_name request name m a
  unfolding register_as_name
  register_as-same a = elim (Bool-cases (a == request + strnlen name (ns_name_buffer_size - 1) m)) [
    | inl e ↦ ground (arith, who_is-at a, measured)
    | inr e ↦ rw e (who_is-copy request name m a)
  ]

-- The name in the requests of WhoIs and of RegisterAs, for a name of less than 127 bytes, where the array of the
-- request starts before the name or does not overlap it: it is there whole, with its terminator, and
-- both requests are the same.
pub name_in_request :
    (request name n : ℕ) (m : Bytes)
    → IsString name n m
    → (request ≤ name) ⊎ (name + ns_name_buffer_size ≤ request)
    → n < ns_name_buffer_size - 1
    → IsString request n (who_is_name request name m)
      × ((i : ℕ) → i ≤ n → who_is_name request name m (request + i) ≡ m (name + i))
      × ((a : ℕ) → register_as_name request name m a ≡ who_is_name request name m a)
name_in_request request name n m s apart short = (
  record {
    ends = sent n (omega arith) ∙ s.ends;
    goes = λ i lt e. s.goes i lt (sym (sent i (omega arith)) ∙ e);
  },
  sent,
  register_as-same request name n m s apart,
)
  where
    sent : (i : ℕ) → i ≤ n → who_is_name request name m (request + i) ≡ m (name + i)
    sent i le = ground (arith, who_is-at request name n m s apart (request + i))

-- For a longer name a 0 is written to the byte behind the array of 128.
pub long_name :
    (request name n : ℕ) (m : Bytes)
    → IsString name n m
    → (request ≤ name) ⊎ (name + ns_name_buffer_size ≤ request)
    → ns_name_buffer_size - 1 ≤ n
    → who_is_name request name m (request + ns_name_buffer_size) ≡ 0
long_name request name n m s apart long =
    ground (arith, who_is-at request name n m s apart (request + ns_name_buffer_size))
