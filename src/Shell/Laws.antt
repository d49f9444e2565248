-- ===== src/Shell/Laws.antt =====
-- The line editor edits the line that it shows.
use rtk.Common.{
  ℕ, suc, ◌+◌, ◌-◌, ◌<◌, ◌≤◌, ◌≡◌, ◌∙◌, refl, ap, ap₂, true, false, List, ◌∷◌, arith, ltb, leb,
  ◌==◌, ◌&&◌, if◌then◌else◌, ==-refl,
}
use rtk.Queue.{update}
use rtk.Bytes.{Bytes}
use rtk.Bytes.Laws.{memmove_lem}
use rtk.Shell.{ShellConfig, Repl, Output, backspace, put_key, end_round}
use rtk.Shell.Edits.{Line, line_of, up, down, up-ext, down-ext}

-- The cursor is in the line, and the line with its terminator in the buffer.
pub record IsRepl (c : ShellConfig) (s : Repl) : Type 0 where
  pub cursor : s.buffer_pos ≤ s.length
  pub fits : s.length < c.command_buffer_size

-- The terminator of a line.
pub record IsEnded (c : ShellConfig) (s : Repl) : Type 0 where
  pub repl : IsRepl c s
  pub ended : s.bytes (c.buffer + s.length) ≡ 0

module _ (c : ShellConfig) (s : Repl) (h : IsRepl c s) where
  -- Writing the terminator does not change the line.
  pub line-end_round : (out : List Output) → line_of c (end_round c (out, s)).2 ≡ line_of c s
  unfolding end_round
  line-end_round out =
      ap₂ (λ l r. record { left = l; right = r })
        (down-ext (λ i. update s.bytes (c.buffer + s.length) 0 (c.buffer + i))
          (λ i. s.bytes (c.buffer + i)) s.buffer_pos (λ i lt. ground (arith, h.cursor)))
        (up-ext (λ i. update s.bytes (c.buffer + s.length) 0 (c.buffer + (s.buffer_pos + i)))
          (λ i. s.bytes (c.buffer + (s.buffer_pos + i))) (s.length - s.buffer_pos)
          (λ i lt. ground (arith, h.cursor)))

  pub end_round-IsEnded : (out : List Output) → IsEnded c (end_round c (out, s)).2
  unfolding end_round
  end_round-IsEnded out = record {
    repl = record { cursor = h.cursor; fits = h.fits };
    ended = rw (==-refl (c.buffer + s.length));
  }

  put_bytes :
      (ch a : ℕ)
      → (s.length == c.command_buffer_size - 1) ≡ false
      → (put_key c ch s).1.bytes a ≡ (
          if a == c.buffer + s.buffer_pos
          then ch
          else (if ltb (c.buffer + s.buffer_pos) a && leb a (c.buffer + s.length)
              then s.bytes (a - 1)
              else s.bytes a))
  unfolding put_key
  put_bytes ch a room = rw room (
      ground (
        arith,
        h.cursor,
        memmove_lem (c.buffer + s.buffer_pos + 1) (c.buffer + s.buffer_pos)
            (s.length - s.buffer_pos) s.bytes a,
      ))

  backspace_bytes :
      (a : ℕ)
      → ltb 0 s.buffer_pos ≡ true
      → (backspace c s).1.bytes a ≡ (
          if leb (c.buffer + s.buffer_pos - 1) a && ltb a (c.buffer + s.length - 1)
          then s.bytes (a + 1)
          else s.bytes a)
  unfolding backspace
  backspace_bytes a some_left = rw some_left (
      ground (
        arith,
        h.cursor,
        memmove_lem (c.buffer + s.buffer_pos - 1) (c.buffer + s.buffer_pos)
            (s.length - s.buffer_pos) s.bytes a,
      ))

  pub put_fields :
      (ch : ℕ)
      → (s.length == c.command_buffer_size - 1) ≡ false
      → ((put_key c ch s).1.buffer_pos ≡ suc s.buffer_pos)
        × ((put_key c ch s).1.length ≡ suc s.length)
  unfolding put_key
  put_fields ch room = rw room (omega arith, omega arith)

  pub backspace_fields :
      ltb 0 s.buffer_pos ≡ true
      → ((backspace c s).1.buffer_pos ≡ s.buffer_pos - 1)
        × ((backspace c s).1.length ≡ s.length - 1)
  unfolding backspace
  backspace_fields some_left = rw some_left (refl, refl)

-- The line of a buffer with its cursor and length.
abbrev pub line_at : (buffer : ℕ) → Bytes → (cursor length : ℕ) → Line
line_at b m p n = record {
  left = down (λ i. m (b + i)) p;
  right = up (λ i. m (b + (p + i))) (n - p);
}

pub line_of-eq :
    (c : ShellConfig) (s : Repl) (p n : ℕ)
    → s.buffer_pos ≡ p
    → s.length ≡ n
    → line_of c s ≡ line_at c.buffer s.bytes p n
line_of-eq c s p n e f = ap₂ (λ p n. line_at c.buffer s.bytes p n) e f

pub put_key-line :
    (c : ShellConfig) (s : Repl) (h : IsRepl c s) (ch : ℕ)
    → (s.length == c.command_buffer_size - 1) ≡ false
    → line_of c (put_key c ch s).1
      ≡ record { left = ch ∷ (line_of c s).left; right = (line_of c s).right }
put_key-line c s h ch room =
    let f = put_fields c s h ch room in
    line_of-eq c (put_key c ch s).1 (suc s.buffer_pos) (suc s.length) f.0 f.1
    ∙ ap₂ (λ l r. record { left = l; right = r })
        (ap₂ (λ x xs. x ∷ xs)
          (put_bytes c s h ch (c.buffer + s.buffer_pos) room
            ∙ rw (==-refl (c.buffer + s.buffer_pos)))
          (down-ext (λ i. (put_key c ch s).1.bytes (c.buffer + i)) (λ i. s.bytes (c.buffer + i))
            s.buffer_pos (λ i lt. put_bytes c s h ch (c.buffer + i) room ∙ ground arith)))
        (ap (up (λ i. (put_key c ch s).1.bytes (c.buffer + (suc s.buffer_pos + i)))) same_length
          ∙ up-ext (λ i. (put_key c ch s).1.bytes (c.buffer + (suc s.buffer_pos + i)))
              (λ i. s.bytes (c.buffer + (s.buffer_pos + i))) (s.length - s.buffer_pos)
              (λ i lt.
                put_bytes c s h ch (c.buffer + (suc s.buffer_pos + i)) room
                ∙ ground (arith, h.cursor)))
  where
    same_length : suc s.length - suc s.buffer_pos ≡ s.length - s.buffer_pos
    same_length = omega arith

pub backspace-line :
    (c : ShellConfig) (s : Repl) (h : IsRepl c s) (p : ℕ)
    → s.buffer_pos ≡ suc p
    → line_of c (backspace c s).1
      ≡ record { left = down (λ i. s.bytes (c.buffer + i)) p; right = (line_of c s).right }
backspace-line c s h p e =
    line_of-eq c (backspace c s).1 p (s.length - 1) (f.0 ∙ omega arith) f.1
    ∙ ap₂ (λ l r. record { left = l; right = r })
        (down-ext (λ i. (backspace c s).1.bytes (c.buffer + i)) (λ i. s.bytes (c.buffer + i)) p
          (λ i lt. backspace_bytes c s h (c.buffer + i) some_left ∙ ground arith))
        (ap (up (λ i. (backspace c s).1.bytes (c.buffer + (p + i)))) same_length
          ∙ up-ext (λ i. (backspace c s).1.bytes (c.buffer + (p + i)))
              (λ i. s.bytes (c.buffer + (s.buffer_pos + i))) (s.length - s.buffer_pos)
              (λ i lt. backspace_bytes c s h (c.buffer + (p + i)) some_left ∙ moved i lt))
  where
    some_left : ltb 0 s.buffer_pos ≡ true
    some_left = ground arith

    f :
        ((backspace c s).1.buffer_pos ≡ s.buffer_pos - 1)
        × ((backspace c s).1.length ≡ s.length - 1)
    f = backspace_fields c s h some_left

    same_length : s.length - 1 - p ≡ s.length - s.buffer_pos
    same_length = omega (arith, h.cursor)

    moved :
        (i : ℕ)
        → i < s.length - s.buffer_pos
        → (if leb (c.buffer + s.buffer_pos - 1) (c.buffer + (p + i))
              && ltb (c.buffer + (p + i)) (c.buffer + s.length - 1)
            then s.bytes (c.buffer + (p + i) + 1)
            else s.bytes (c.buffer + (p + i)))
          ≡ s.bytes (c.buffer + (s.buffer_pos + i))
    moved i lt = ground arith
