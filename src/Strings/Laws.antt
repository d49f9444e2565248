-- ===== src/Strings/Laws.antt =====
-- What the string functions compute, with the fuel that they need.
use rtk.Common.{
  ℕ, zero, suc, ◌+◌, ◌-◌, ◌<◌, ◌≤◌, ◌≡◌, ◌≢◌, ◌∙◌, true, false, some, arith, ltb, leb, ◌==◌, ◌&&◌,
  if◌then◌else◌, Bool-cases, inl, inr, ◌⊎◌,
}
use rtk.Common.Int.{sub_ℕ}
use rtk.Queue.{update}
use rtk.Bytes.{Bytes}
use rtk.Strings.{strlen_from, strlen, strnlen_from, strnlen, strncpy, strcmp}

-- The terminator of the string at `str` is `n` bytes on.
pub record IsString (str n : ℕ) (m : Bytes) : Type 0 where
  pub ends : m (str + n) ≡ 0
  pub goes : (i : ℕ) → i < n → m (str + i) ≢ 0

strlen_from_lem :
    (fuel str ret n : ℕ) (m : Bytes)
    → IsString str n m
    → ret ≤ n
    → n - ret < fuel
    → strlen_from fuel str ret m ≡ some (n + 1)
unfolding strlen_from
strlen_from_lem zero str ret n m s le enough = absurd (omega arith)
strlen_from_lem (suc fuel) str ret n m s le enough = elim (Bool-cases (ret == n)) [
  | inl e ↦
      let same : ret ≡ n = ground arith in
      let stop : (m (str + ret) == 0) ≡ true = rw same (ground (arith, s.ends)) in rw (stop, same)
  | inr e ↦
      let on : (m (str + ret) == 0) ≡ false = ground (arith, s.goes ret) in
      rw on (strlen_from_lem fuel str (ret + 1) n m s (ground arith) (ground arith))
]

-- strlen of a string with `n` bytes before its terminator gives `n + 1`, on any fuel above `n`.
pub strlen_lem :
    (fuel str n : ℕ) (m : Bytes) → IsString str n m → n < fuel → strlen fuel str m ≡ some (n + 1)
unfolding strlen
strlen_lem fuel str n m s enough = strlen_from_lem fuel str 0 n m s (omega arith) (omega arith)

strnlen_from_lem :
    (num str ret n : ℕ) (m : Bytes)
    → IsString str n m
    → ret ≤ n
    → strnlen_from num str ret m ≡ (if ltb n (ret + num) then n + 1 else ret + num + 1)
unfolding strnlen_from
strnlen_from_lem zero str ret n m s le = ground arith
strnlen_from_lem (suc num) str ret n m s le = elim (Bool-cases (ret == n)) [
  | inl e ↦
      let same : ret ≡ n = ground arith in
      let stop : (m (str + ret) == 0) ≡ true = rw same (ground (arith, s.ends)) in
      rw (stop, same) (ground arith)
  | inr e ↦
      let on : (m (str + ret) == 0) ≡ false = ground (arith, s.goes ret) in
      rw on (strnlen_from_lem num str (ret + 1) n m s (ground arith) ∙ ground arith)
]

-- strnlen of a string with `n` bytes before its terminator gives the lesser of `n` and the bound,
-- plus one.
pub strnlen_lem :
    (str num n : ℕ) (m : Bytes)
    → IsString str n m
    → strnlen str num m ≡ (if ltb n num then n + 1 else num + 1)
unfolding strnlen
strnlen_lem str num n m s = strnlen_from_lem num str 0 n m s (omega arith) ∙ ground arith

-- strncpy, with a destination that starts at or before the source or past its end: the `n` bytes of
-- the source stand at the destination, whatever terminators are among them, the byte after them is
-- 0, and nothing else changes.
pub strncpy_lem :
    (dest src n : ℕ) (m : Bytes) (a : ℕ)
    → (dest ≤ src) ⊎ (src + n ≤ dest)
    → strncpy dest src n m a ≡ (
        if a == dest + n
        then 0
        else (if leb dest a && ltb a (dest + n) then m (src + (a - dest)) else m a))
unfolding strncpy
strncpy_lem dest src zero m a apart = ground arith
strncpy_lem dest src (suc n) m a apart =
    ground (arith, strncpy_lem (dest + 1) (src + 1) n (update m dest (m src)) a)

-- strcmp of two strings that agree on `k` bytes, none of them the terminator, and differ or both end on the next:
-- it gives the difference of those two bytes, on any fuel above `k`.
pub strcmp_lem :
    (fuel s t k : ℕ) (m : Bytes)
    → ((i : ℕ) → i < k → (m (s + i) ≢ 0) × (m (s + i) ≡ m (t + i)))
    → (m (s + k) ≢ m (t + k)) ⊎ (m (s + k) ≡ 0)
    → k < fuel
    → strcmp fuel s t m ≡ some (sub_ℕ (m (s + k)) (m (t + k)))
unfolding strcmp
strcmp_lem zero s t k m agree stop enough = absurd (omega arith)
strcmp_lem (suc fuel) s t zero m agree stop enough =
    let at_s : s + 0 ≡ s = omega arith in
    let at_t : t + 0 ≡ t = omega arith in
    let here : (m s ≢ m t) ⊎ (m s ≡ 0) = rw (at_s, at_t) at stop in rw (at_s, at_t) (ground arith)
strcmp_lem (suc fuel) s t (suc k) m agree stop enough =
    rw (not_end, same)
      (rw (shift s k, shift t k) at
        (strcmp_lem fuel (s + 1) (t + 1) k m
          (λ i lt. rw (shift s i, shift t i) (agree (suc i) (omega arith)))
          (rw (shift s k, shift t k) stop) (omega arith)))
  where
    shift : (p i : ℕ) → p + 1 + i ≡ p + suc i
    shift p i = omega arith

    at_s : s + 0 ≡ s
    at_s = omega arith

    at_t : t + 0 ≡ t
    at_t = omega arith

    first : (m s ≢ 0) × (m s ≡ m t)
    first = rw (at_s, at_t) at (agree 0 (omega arith))

    not_end : (m s == 0) ≡ false
    not_end = ground (arith, first.0)

    same : (m s == m t) ≡ true
    same = ground (arith, first.1)
