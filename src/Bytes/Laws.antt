-- ===== src/Bytes/Laws.antt =====
-- What the copies of lib/string.c leave at each address.
use rtk.Common.{ℕ, zero, suc, ◌+◌, ◌-◌, ◌≤◌, ◌≡◌, ◌⊎◌, arith, ltb, leb, ◌&&◌, if◌then◌else◌}
use rtk.Queue.{update}
use rtk.Bytes.{Bytes, memcpy, copy_down, memmove}

-- memcpy, with a destination that starts at or before the source or past its end, leaves at each
-- address of the destination what stood at the matching address of the source, and nothing else
-- changes.
pub memcpy_lem :
    (dest src num : ℕ) (m : Bytes) (a : ℕ)
    → (dest ≤ src) ⊎ (src + num ≤ dest)
    → memcpy dest src num m a
      ≡ (if leb dest a && ltb a (dest + num) then m (src + (a - dest)) else m a)
unfolding memcpy
memcpy_lem dest src zero m a apart = ground arith
memcpy_lem dest src (suc num) m a apart =
    ground (arith, memcpy_lem (dest + 1) (src + 1) num (update m dest (m src)) a)

copy_down_lem :
    (dest src n : ℕ) (m : Bytes) (a : ℕ)
    → src ≤ dest
    → copy_down dest src n m a
      ≡ (if leb dest a && ltb a (dest + n) then m (src + (a - dest)) else m a)
unfolding copy_down
copy_down_lem dest src zero m a below = ground arith
copy_down_lem dest src (suc n) m a below =
    ground (arith, copy_down_lem dest src n (update m (dest + n) (m (src + n))) a)

-- memmove leaves the source's bytes at the destination however the two overlap, and changes nothing
-- else.
pub memmove_lem :
    (dest src n : ℕ) (m : Bytes) (a : ℕ)
    → memmove dest src n m a
      ≡ (if leb dest a && ltb a (dest + n) then m (src + (a - dest)) else m a)
unfolding memmove
memmove_lem dest src n m a = ground (arith, copy_down_lem dest src n m a, memcpy_lem dest src n m a)
