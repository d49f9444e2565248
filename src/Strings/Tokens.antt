-- ===== src/Strings/Tokens.antt =====
-- strtok, memchr and strchr.
use rtk.Common.{
  ℕ, zero, suc, ◌+◌, ◌-◌, ◌^◌, ◌%◌, ◌<◌, ◌≤◌, ◌≡◌, ◌≢◌, ◌∙◌, ap, refl, subst, true, false, none,
  some, arith, ltb, ◌==◌, ◌&&◌, if◌then◌else◌, Bool-cases, inl, inr, ◌⊎◌, ◌>>=◌,
}
use rtk.Common.Int.{pos, ◌==ℤ◌}
use rtk.Queue.{null, update}
use rtk.Bytes.{Bytes}
use rtk.Strings.{strlen, strncmp, strtok_from, strtok, memchr_from, memchr, strchr}
use rtk.Strings.Laws.{IsString, strlen_lem}

-- Of the `n` bytes at `str`, the first `k` differ from `c`, and the next, if it is one of them, does not.
pub record FirstAt (str n c k : ℕ) (m : Bytes) : Type 0 where
  pub within : k ≤ n
  pub before : (i : ℕ) → i < k → m (str + i) ≢ c
  pub here : k < n → m (str + k) ≡ c

memchr_from_lem :
    (n p c k : ℕ) (m : Bytes)
    → FirstAt p n c k m
    → memchr_from n p c m ≡ (if ltb k n then p + k else null)
unfolding memchr_from
memchr_from_lem zero p c k m f = ground (arith, f.within)
memchr_from_lem (suc n) p c zero m f =
    let at : p + 0 ≡ p = omega arith in
    let found : m p ≡ c = rw at at (f.here (omega arith)) in ground arith
memchr_from_lem (suc n) p c (suc k) m f =
    let shift : (i : ℕ) → p + 1 + i ≡ p + suc i = λ i. omega arith in
    let at : p + 0 ≡ p = omega arith in
    let differs : m p ≢ c = rw at at (f.before 0 (omega arith)) in
    let rest = memchr_from_lem n (p + 1) c k m (record {
      within = omega (arith, f.within);
      before = λ i lt. rw (shift i) (f.before (suc i) (omega arith));
      here = λ lt. rw (shift k) (f.here (omega arith));
    }) in
    ground arith

-- strchr, for a character whose first place in a string of `n` bytes is `k`: its address, or null if it is
-- not among them. The terminator is not looked at.
pub strchr_lem :
    (fuel str n c k : ℕ) (m : Bytes)
    → IsString str n m
    → n < fuel
    → n < 2 ^ 32
    → FirstAt str n c k m
    → strchr fuel str c m ≡ some (if ltb k n then str + k else null)
unfolding strchr memchr
strchr_lem fuel str n c k m s enough small f =
    let rounds : (n + 1 + 2 ^ 32 - 1) % 2 ^ 32 ≡ n = omega arith in
    rw (strlen_lem fuel str n m s enough) (rw rounds (rw (memchr_from_lem n str c k m f) refl))

-- A delimiter of one character, which is not among the bytes at `str`.
pub record IsDelim (delim c str n : ℕ) (m : Bytes) : Type 0 where
  pub string : IsString delim 1 m
  pub char : m delim ≡ c
  pub apart : (delim + 1 < str) ⊎ (str + n ≤ delim)

-- What strtok gives for a token of `k` bytes, of the `n` at `str`.
abbrev pub token : (str n k : ℕ) → Bytes → ℕ × ℕ × Bytes
token str n k m = if ltb k n then (str, str + k + 1, update m (str + k) 0) else (str, null, m)

compare_char :
    (delim c p : ℕ) (m : Bytes) → m delim ≡ c → (strncmp delim p 1 m ==ℤ pos 0) ≡ (m p == c)
unfolding strncmp
compare_char delim c p m e = ground arith

strtok_from_lem :
    (fuel p start delim n c k : ℕ) (m : Bytes)
    → m delim ≡ c
    → IsString p n m
    → n < fuel
    → FirstAt p n c k m
    → strtok_from fuel p start delim 1 m
      ≡ some (if ltb k n then (start, p + k + 1, update m (p + k) 0) else (start, null, m))
unfolding strtok_from
strtok_from_lem zero p start delim n c k m e s lt f = absurd (omega arith)
strtok_from_lem (suc fuel) p start delim zero c k m e s lt f =
    let at : p + 0 ≡ p = omega arith in let ends : m p ≡ 0 = rw at at s.ends in ground arith
strtok_from_lem (suc fuel) p start delim (suc n) c zero m e s lt f =
    let at : p + 0 ≡ p = omega arith in
    let goes : (m p == 0) ≡ false = ground (arith, rw at at (s.goes 0 (omega arith))) in
    let first : ltb 0 (suc n) ≡ true = ground arith in
    let found : (m p == c) ≡ true = ground (arith, rw at at (f.here (omega arith))) in
    rw goes (rw (compare_char delim c p m e) (rw found (rw at (rw first refl))))
strtok_from_lem (suc fuel) p start delim (suc n) c (suc k) m e s lt f =
    let at : p + 0 ≡ p = omega arith in
    let shift : (i : ℕ) → p + 1 + i ≡ p + suc i = λ i. omega arith in
    let goes : (m p == 0) ≡ false = ground (arith, rw at at (s.goes 0 (omega arith))) in
    let differs : (m p == c) ≡ false = ground (arith, rw at at (f.before 0 (omega arith))) in
    let rest =
      strtok_from_lem fuel (p + 1) start delim n c k m e
        (record {
          ends = rw (shift n) s.ends;
          goes = λ i lt. rw (shift i) (s.goes (suc i) (omega arith));
        })
        (omega arith)
        (record {
          within = omega (arith, f.within);
          before = λ i lt. rw (shift i) (f.before (suc i) (omega arith));
          here = λ lt. rw (shift k) (f.here (omega arith));
        }) in
    let same : ltb (suc k) (suc n) ≡ ltb k n = ground arith in
    rw goes (rw (compare_char delim c p m e) (rw differs (rest ∙ rw (shift k) (rw same refl))))

-- strtok, with a delimiter of one character: the token starts at `str`; if the character occurs in the string, its
-- first place becomes a terminator and the next call starts behind it, and else there is no next call
-- and the memory stays.
pub strtok_lem :
    (fuel str delim prev n c k : ℕ) (m : Bytes)
    → str ≢ null
    → IsDelim delim c str n m
    → IsString str n m
    → 1 < fuel
    → n < fuel
    → FirstAt str n c k m
    → strtok fuel str delim prev m ≡ some (token str n k m)
unfolding strtok
strtok_lem fuel str delim prev n c k m ne d s one lt f =
    let given : (str == null) ≡ false = ground arith in
    rw (strlen_lem fuel delim 1 m d.string one)
      (rw given (rw given (strtok_from_lem fuel str str delim n c k m d.char s lt f)))

strtok-next :
    (fuel delim prev n c k : ℕ) (m : Bytes)
    → prev ≢ null
    → IsDelim delim c prev n m
    → IsString prev n m
    → 1 < fuel
    → n < fuel
    → FirstAt prev n c k m
    → strtok fuel null delim prev m ≡ some (token prev n k m)
unfolding strtok
strtok-next fuel delim prev n c k m ne d s one lt f =
    let given : (prev == null) ≡ false = ground arith in
    rw (strlen_lem fuel delim 1 m d.string one)
      (rw given (strtok_from_lem fuel prev prev delim n c k m d.char s lt f))

-- strtok of a string in which the delimiter's one character first occurs after `k` bytes, then strtok of a
-- null pointer, where it next occurs `j` bytes on, or not at all: the second token starts behind the
-- first occurrence, and is `j` bytes long; the first is `k` bytes long. No byte but the two behind them changes.
pub second_token :
    (fuel str delim prev n c k j : ℕ) (m : Bytes)
    → str ≢ null
    → IsDelim delim c str n m
    → IsString str n m
    → 1 < fuel
    → n < fuel
    → k < n
    → FirstAt str n c k m
    → FirstAt (str + k + 1) (n - k - 1) c j m
    → (prev' : ℕ) × (m' : Bytes) × ((strtok fuel str delim prev m >>= λ (first, prev1, m1).
          strtok fuel null delim prev1 m1)
        ≡ some (str + k + 1, prev', m'))
      × IsString (str + k + 1) j m'
      × IsString str k m'
      × ((a : ℕ) → a ≢ str + k → a ≢ str + k + 1 + j → m' a ≡ m a)
second_token fuel str delim prev n c k j m ne d s one lt in_it f g =
    (later.1, later.2, runs, last_ends, first_ends, λ a p q. ground (arith, stored a))
  where
    m1 : Bytes
    m1 = update m (str + k) 0

    cut : token str n k m ≡ (str, str + k + 1, m1)
    cut = ground arith

    place : (i : ℕ) → str + k + 1 + i ≡ str + (k + 1 + i)
    place i = omega arith

    delim1 : IsDelim delim c (str + k + 1) (n - k - 1) m1
    delim1 = record {
      string = record {
        ends = ground (arith, d.apart, d.string.ends);
        goes = λ i lt. ground (arith, d.apart, d.string.goes i);
      };
      char = ground (arith, d.apart, d.char);
      apart = ground (arith, d.apart);
    }

    string1 : IsString (str + k + 1) (n - k - 1) m1
    string1 = record {
      ends =
          let end : str + k + 1 + (n - k - 1) ≡ str + n = omega arith in
          rw end (ground (arith, s.ends));
      goes = λ i lt. rw (place i) (ground (arith, s.goes (k + 1 + i)));
    }

    next : FirstAt (str + k + 1) (n - k - 1) c j m1
    next = record {
      within = g.within;
      before = λ i lt. ground (arith, g.before i);
      here = λ lt. ground (arith, g.here);
    }

    later : ℕ × ℕ × Bytes
    later = token (str + k + 1) (n - k - 1) j m1

    starts : later ≡ (str + k + 1, later.1, later.2)
    starts = ground arith

    runs :
        (strtok fuel str delim prev m >>= λ (first, prev1, m1). strtok fuel null delim prev1 m1)
        ≡ some (str + k + 1, later.1, later.2)
    runs = rw (strtok_lem fuel str delim prev n c k m ne d s one lt f ∙ ap some cut) (
        strtok-next fuel delim (str + k + 1) (n - k - 1) c j m1 (omega arith) delim1 string1 one
          (omega arith) next
        ∙ ap some starts)

    stored : (a : ℕ) → later.2 a ≡ (if ltb j (n - k - 1) && (a == str + k + 1 + j) then 0 else m1 a)
    stored a = ground arith

    last_ends : IsString (str + k + 1) j later.2
    last_ends = record {
      ends = elim (Bool-cases (ltb j (n - k - 1))) [
        | inl e ↦ ground (arith, stored (str + k + 1 + j))
        | inr e ↦
            let whole : n - k - 1 ≡ j = ground (arith, g.within) in
            let end : m1 (str + k + 1 + j) ≡ 0 =
              subst (λ i. m1 (str + k + 1 + i) ≡ 0) whole string1.ends in
            ground (arith, stored (str + k + 1 + j))
      ];
      goes = λ i le. ground (arith, stored (str + k + 1 + i), string1.goes i, g.within);
    }

    first_ends : IsString str k later.2
    first_ends = record {
      ends = ground (arith, stored (str + k));
      goes = λ i le. ground (arith, stored (str + i), s.goes i);
    }

-- A call of strtok behind the last token reads through a null pointer.
pub strtok-null :
    (fuel delim len : ℕ) (m : Bytes)
    → strlen fuel delim m ≡ some len
    → strtok fuel null delim null m ≡ none
unfolding strtok
strtok-null fuel delim len m e = rw e refl
