-- ===== src/Strings.antt =====
-- The functions on strings of lib/string.c, and atoi of lib/stdlib.c. A string is an
-- address in byte memory. A loop without bound has fuel, and the result `none` without it.
pub mod Atoi
pub mod Laws
pub mod Tokens
mod Tests
use rtk.Common.{
  ℕ, zero, suc, ◌+◌, ◌-◌, ◌*◌, ◌^◌, ◌%◌, Option, none, some, Bool, true, false, ◌==◌, not, ◌&&◌,
  if◌then◌else◌, ◌>>=◌,
}
use rtk.Common.Int.{ℤ, pos, negsuc, sub_ℕ, ◌+ℤ◌, ◌==ℤ◌, to_int}
use rtk.Queue.{null, update}
use rtk.Bytes.{Bytes}

-- `while ( str[ret++] );`
unfoldable pub strlen_from : (fuel str ret : ℕ) → Bytes → Option ℕ
strlen_from zero str ret m = none
strlen_from (suc fuel) str ret m =
    let rest = strlen_from fuel str (ret + 1) m in
    if m (str + ret) == 0 then some (ret + 1) else rest

unfoldable pub strlen : (fuel str : ℕ) → Bytes → Option ℕ
strlen fuel str m = strlen_from fuel str 0 m

-- `while ( str[ret++] && num-- );`
unfoldable pub strnlen_from : (num str ret : ℕ) → Bytes → ℕ
strnlen_from zero str ret m = ret + 1
strnlen_from (suc num) str ret m =
    let rest = strnlen_from num str (ret + 1) m in if m (str + ret) == 0 then ret + 1 else rest

unfoldable pub strnlen : (str num : ℕ) → Bytes → ℕ
strnlen str num m = strnlen_from num str 0 m

-- `while (( *dst++ = *src++ ));`
unfoldable pub strcpy : (fuel dest src : ℕ) → Bytes → Option Bytes
strcpy zero dest src m = none
strcpy (suc fuel) dest src m =
    let m' = update m dest (m src) in
    let rest = strcpy fuel (dest + 1) (src + 1) m' in if m' dest == 0 then some m' else rest

-- The loop stops when `n` is 0, and leaves it as the largest `size_t`: the terminator is always written, one past
-- the `n` bytes.
unfoldable pub strncpy : (dest src n : ℕ) → Bytes → Bytes
strncpy dest src zero m = update m dest 0
strncpy dest src (suc n) m = strncpy (dest + 1) (src + 1) n (update m dest (m src))

unfoldable pub strcmp : (fuel s t : ℕ) → Bytes → Option ℤ
strcmp zero s t m = none
strcmp (suc fuel) s t m =
    let rest = strcmp fuel (s + 1) (t + 1) m in
    if not (m s == 0) && (m s == m t) then rest else some (sub_ℕ (m s) (m t))

unfoldable pub strncmp : (s t n : ℕ) → Bytes → ℤ
strncmp s t zero m = pos 0
strncmp s t (suc n) m =
    let rest = strncmp (s + 1) (t + 1) n m in if m s == m t then rest else sub_ℕ (m s) (m t)

-- The inner loop of strcspn: is the byte among the `n` at `str2`?
unfoldable pub is_among : (byte n str2 : ℕ) → Bytes → Bool
is_among byte zero str2 m = false
is_among byte (suc n) str2 m =
    let rest = is_among byte n (str2 + 1) m in if byte == m str2 then true else rest

unfoldable pub strcspn_from : (fuel str1 i str2 str2_len : ℕ) → Bytes → Option ℕ
strcspn_from zero str1 i str2 str2_len m = none
strcspn_from (suc fuel) str1 i str2 str2_len m =
    let rest = strcspn_from fuel str1 (i + 1) str2 str2_len m in
    if m (str1 + i) == 0
    then some i
    else (if is_among (m (str1 + i)) str2_len str2 m then some i else rest)

unfoldable pub strcspn : (fuel str1 str2 : ℕ) → Bytes → Option ℕ
strcspn fuel str1 str2 m = do
  str2_len ← strlen fuel str2 m
  strcspn_from fuel str1 0 str2 str2_len m

-- `k << n`, by the factor `2 ^ n`.
abbrev pub scaled : ℕ → ℤ → ℤ
scaled factor (pos n) = pos (factor * n)
scaled factor (negsuc n) = negsuc (factor * n + factor - 1)

-- One round of atoi: `( k << 3 ) + ( k << 1 ) + *p - '0'` from left to right, where no shift and no sum overflows.
unfoldable pub next_number : (k : ℤ) (byte : ℕ) → Option ℤ
next_number k byte = do
  eight ← to_int (scaled 8 k)
  two ← to_int (scaled 2 k)
  ten ← to_int (eight +ℤ two)
  sum ← to_int (ten +ℤ pos byte)
  to_int (sum +ℤ negsuc 47)

-- atoi, from `k` on; a byte is read as an unsigned character. An overflow of int is no result.
unfoldable pub atoi_from : (fuel p : ℕ) → (k : ℤ) → Bytes → Option ℤ
atoi_from zero p k m = none
atoi_from (suc fuel) p k m =
    let rest = next_number k (m p) >>= λ k'. atoi_from fuel (p + 1) k' m in
    if m p == 0 then some k else rest

-- The loop of strtok, from `str` on, where `n` bytes of the delimiter are compared. The result is the
-- token, what `prev` holds from then on, and the memory.
unfoldable pub strtok_from : (fuel str start delim n : ℕ) → Bytes → Option (ℕ × ℕ × Bytes)
strtok_from zero str start delim n m = none
strtok_from (suc fuel) str start delim n m =
    let rest = strtok_from fuel (str + 1) start delim n m in
    if m str == 0
    then some (start, null, m)
    else (if strncmp delim str n m ==ℤ pos 0 then some (start, str + 1, update m str 0) else rest)

-- `prev` is the static variable. With both pointers null the source reads through one.
unfoldable pub strtok : (fuel str delim prev : ℕ) → Bytes → Option (ℕ × ℕ × Bytes)
strtok fuel str delim prev m = do
  delim_len ← strlen fuel delim m
  let str' = if str == null then prev else str
  if str' == null then none else strtok_from fuel str' str' delim (delim_len - 1) m

-- `n` rounds of the loop of memchr.
unfoldable pub memchr_from : (n cptr value : ℕ) → Bytes → ℕ
memchr_from zero cptr value m = null
memchr_from (suc n) cptr value m =
    let rest = memchr_from n (cptr + 1) value m in if m cptr == value then cptr else rest

-- `--num` comes before the test, so one byte less than `num` is looked at.
unfoldable pub memchr : (ptr value num : ℕ) → Bytes → ℕ
memchr ptr value num m = memchr_from ((num + 2 ^ 32 - 1) % 2 ^ 32) ptr value m

unfoldable pub strchr : (fuel str value : ℕ) → Bytes → Option ℕ
strchr fuel str value m = do len ← strlen fuel str m; some (memchr str value len m)
