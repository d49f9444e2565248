-- ===== src/Strings/Atoi.antt =====
-- atoi on decimal numbers.
use rtk.Common.{
  ℕ, zero, suc, ◌+◌, ◌*◌, ◌/◌, ◌%◌, ◌^◌, ◌<◌, ◌≤◌, true, ◌≡◌, ◌∙◌, ap, refl, false, some, List, [],
  ◌∷◌, ◌++◌, arith, ltb, ◌==◌, if◌then◌else◌, length, Bool-cases, inl, inr,
}
use rtk.Common.Int.{pos}
use rtk.Bytes.{Bytes}
use rtk.Strings.{atoi_from, next_number}

-- The digits, each below 10, stand at `p` as characters, with a terminator behind them.
abbrev pub Spells : Bytes → (p : ℕ) → List ℕ → Type 0
Spells m p [] = m p ≡ 0
Spells m p (d ∷ ds) = (d < 10) × (m p ≡ 48 + d) × Spells m (p + 1) ds

-- The number that the digits spell, behind those that spell `k`.
abbrev value : (k : ℕ) → List ℕ → ℕ
value k [] = k
value k (d ∷ ds) = value (10 * k + d) ds

-- The decimal digits of a number, the highest first.
abbrev pub decimal : (fuel n : ℕ) → List ℕ
decimal zero n = []
decimal (suc fuel) n = if ltb n 10 then n ∷ [] else decimal fuel (n / 10) ++ n % 10 ∷ []

value-snoc : (k d : ℕ) (ds : List ℕ) → value k (ds ++ d ∷ []) ≡ 10 * value k ds + d
value-snoc k d [] = refl
value-snoc k d (e ∷ ds) = value-snoc (10 * k + e) d ds

value-decimal : (fuel n : ℕ) → n < fuel → value 0 (decimal fuel n) ≡ n
value-decimal zero n lt = absurd (omega arith)
value-decimal (suc fuel) n lt = elim (Bool-cases (ltb n 10)) [
  | inl e ↦ rw e (omega arith)
  | inr e ↦
      let ih : value 0 (decimal fuel (n / 10)) ≡ n / 10 =
        value-decimal fuel (n / 10) (ground arith) in
      rw e (value-snoc 0 (n % 10) (decimal fuel (n / 10)) ∙ omega arith)
]

value-ge : (k : ℕ) (ds : List ℕ) → k ≤ value k ds
value-ge k [] = omega arith
value-ge k (d ∷ ds) = omega (arith, value-ge (10 * k + d) ds)

next_digit :
    (k d : ℕ) → 10 * k + d + 48 < 2 ^ 31 → next_number (pos k) (48 + d) ≡ some (pos (10 * k + d))
unfolding next_number
next_digit k d lt =
    let eight : ltb (8 * k) (2 ^ 31) ≡ true = ground arith in
    let two : ltb (2 * k) (2 ^ 31) ≡ true = ground arith in
    let ten : ltb (8 * k + 2 * k + 0) (2 ^ 31) ≡ true = ground arith in ground arith

atoi_from-value :
    (fuel p k : ℕ) (ds : List ℕ) (m : Bytes)
    → Spells m p ds
    → length ds < fuel
    → value k ds + 48 < 2 ^ 31
    → atoi_from fuel p (pos k) m ≡ some (pos (value k ds))
unfolding atoi_from
atoi_from-value zero p k ds m s lt small = absurd (omega arith)
atoi_from-value (suc fuel) p k [] m s lt small = rw s refl
atoi_from-value (suc fuel) p k (d ∷ ds) m s lt small =
    let ih : atoi_from fuel (p + 1) (pos (10 * k + d)) m ≡ some (pos (value (10 * k + d) ds)) =
      atoi_from-value fuel (p + 1) (10 * k + d) ds m s.2 (omega arith) small in
    let below : 10 * k + d + 48 < 2 ^ 31 = omega (arith, small, value-ge (10 * k + d) ds) in
    let goes : ((48 + d) == 0) ≡ false = ground arith in
    rw s.1 (rw goes (rw (next_digit k d below) ih))

-- atoi reads back a number below 2^31 - 48 that stands in the memory in decimal, with a terminator behind it, on
-- fuel above the number of its digits: no shift or sum of its loop overflows.
pub atoi-decimal :
    (fuel p n : ℕ) (m : Bytes)
    → n + 48 < 2 ^ 31
    → Spells m p (decimal (n + 1) n)
    → length (decimal (n + 1) n) < fuel
    → atoi_from fuel p (pos 0) m ≡ some (pos n)
atoi-decimal fuel p n m small s lt =
    let same : value 0 (decimal (n + 1) n) ≡ n = value-decimal (n + 1) n (omega arith) in
    atoi_from-value fuel p 0 (decimal (n + 1) n) m s lt (omega (arith, same, small))
    ∙ ap (λ n. some (pos n)) same
