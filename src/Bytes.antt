-- ===== src/Bytes.antt =====
-- Byte memory, and the functions of lib/string.c that copy within it.
pub mod Laws
mod Tests
use rtk.Common.{ℕ, zero, suc, ◌+◌, ◌-◌, ◌/◌, ◌%◌, ◌^◌, ltb, ◌==◌, ◌&&◌, if◌then◌else◌}
use rtk.Common.Int.{ℤ, pos, negsuc}
use rtk.Queue.{update}

-- What stands at each address.
abbrev pub Bytes : Type 0
Bytes = ℕ → ℕ

unfoldable pub memcpy : (dest src num : ℕ) → Bytes → Bytes
memcpy dest src zero m = m
memcpy dest src (suc num) m = memcpy (dest + 1) (src + 1) num (update m dest (m src))

-- The loop of `memmove` that runs down: both pointers stand `n` past the start.
copy_down : (dest src n : ℕ) → Bytes → Bytes
copy_down dest src zero m = m
copy_down dest src (suc n) m = copy_down dest src n (update m (dest + n) (m (src + n)))

unfoldable pub memmove : (dest src n : ℕ) → Bytes → Bytes
unfolding memcpy copy_down
memmove dest src n m =
    if dest == src
    then m
    else if ltb src dest && ltb dest (src + n)
    then copy_down dest src n m
    else memcpy dest src n m

-- The bit pattern of a 32-bit integer.
abbrev pub word_of : ℤ → ℕ
word_of (pos n) = n % 2 ^ 32
word_of (negsuc n) = 2 ^ 32 - 1 - n % 2 ^ 32

-- The integer that a 32-bit pattern stands for.
abbrev pub int_of_word : ℕ → ℤ
int_of_word w = if ltb w (2 ^ 31) then pos w else negsuc (2 ^ 32 - 1 - w)

-- A 32-bit store, low byte first.
unfoldable pub store_word : ℕ → ℕ → Bytes → Bytes
store_word p w m =
    update
      (update (update (update m p (w % 256)) (p + 1) (w / 256 % 256)) (p + 2) (w / 65536 % 256))
      (p + 3) (w / 16777216 % 256)
