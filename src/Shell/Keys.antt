-- ===== src/Shell/Keys.antt =====
-- Each key of the line editor against the edit that it stands for.
use rtk.Common.{
  ℕ, zero, suc, ◌+◌, ◌-◌, ◌≡◌, ◌⊎◌, ◌∙◌, refl, sym, subst, ap, ap₂, true, false, some, List, ◌∷◌,
  arith, ltb, ◌==◌, ◌||◌, if◌then◌else◌, length, Bool-cases, inl, inr,
}
use rtk.Shell.{
  ShellConfig, Repl, Calls, Key, byte, escape, next_key, Output, arrow, backspace, put_key,
  end_round, repl_key,
}
use rtk.Shell.Edits.{
  Line, is_edit, edit, go_left, go_right, delete, line_of, up, down, up-ext, length-up, length-down,
}
use rtk.Shell.Laws.{
  IsRepl, IsEnded, line_of-eq, put_key-line, backspace-line, put_fields, backspace_fields,
  line-end_round, end_round-IsEnded,
}

ℕ-cases : (n : ℕ) → (n ≡ 0) ⊎ ((p : ℕ) × (n ≡ suc p))
ℕ-cases zero = inl refl
ℕ-cases (suc p) = inr (p, refl)

-- The body of the `switch` for a key that edits.
abbrev acted : ShellConfig → Key → Repl → List Output × Repl
acted c (escape dir) s = arrow dir s
acted c (byte ch) s = if ch == 127 then backspace c s else put_key c ch s

repl_key-acted :
    (calls : Calls) (c : ShellConfig) (fuel : ℕ) (k : Key) (s : Repl)
    → is_edit k ≡ true
    → repl_key calls c fuel k s ≡ some (end_round c (acted c k s))
unfolding repl_key
repl_key-acted calls c fuel (escape dir) s h = refl
repl_key-acted calls c fuel (byte ch) s h =
    let no_return : ((ch == 13) || (ch == 10)) ≡ false = ground arith in
    let no_feed : (ch == 12) ≡ false = ground arith in
    elim (Bool-cases (ch == 127)) [
      | inl e ↦ rw (no_return, no_feed, e) refl
      | inr e ↦ rw (no_return, no_feed, e) refl
    ]

-- A key turned the line into what the edit says, and the cursor is still in it.
record Follows (c : ShellConfig) (line : Line) (s : Repl) : Type 0 where
  shown : line_of c s ≡ line
  repl : IsRepl c s

backspace_idle : (c : ShellConfig) (s : Repl) → s.buffer_pos ≡ 0 → (backspace c s).1 ≡ s
unfolding backspace
backspace_idle c s e = let test : ltb 0 s.buffer_pos ≡ false = ground arith in rw test refl

put_key_full :
    (c : ShellConfig) (s : Repl) (ch : ℕ)
    → (s.length == c.command_buffer_size - 1) ≡ true
    → (put_key c ch s).1 ≡ s
unfolding put_key
put_key_full c s ch e = rw e refl

module _ (c : ShellConfig) (s : Repl) (h : IsRepl c s) where
  same-Follows : {s' : Repl} (line : Line) → s' ≡ s → line_of c s ≡ line → Follows c line s'
  same-Follows line e f = record { shown = ap (line_of c) e ∙ f; repl = subst (IsRepl c) (sym e) h }

  backspace-Follows : Follows c (delete (line_of c s).left (line_of c s).right) (backspace c s).1
  backspace-Follows = elim (ℕ-cases s.buffer_pos) [
    | inl e ↦ unmoved e
    | inr (p, e) ↦ record {
      shown =
          backspace-line c s h p e
          ∙ sym (ap (λ n. delete (down (λ i. s.bytes (c.buffer + i)) n) (line_of c s).right) e);
      repl = shorter p e;
    }
  ]
    where
      unmoved :
          s.buffer_pos ≡ 0
          → Follows c (delete (line_of c s).left (line_of c s).right) (backspace c s).1
      unmoved e =
          same-Follows (delete (line_of c s).left (line_of c s).right) (backspace_idle c s e) (
            ap
              (λ n. record {
                left = down (λ i. s.bytes (c.buffer + i)) n;
                right = (line_of c s).right;
              })
              e
            ∙ sym (ap (λ n. delete (down (λ i. s.bytes (c.buffer + i)) n) (line_of c s).right) e))

      shorter : (p : ℕ) → s.buffer_pos ≡ suc p → IsRepl c (backspace c s).1
      shorter p e =
          let f = backspace_fields c s h (ground arith) in
          record { cursor = omega (arith, f.0, f.1, h.cursor); fits = omega (arith, f.1, h.fits) }

  total : length (line_of c s).left + length (line_of c s).right ≡ s.length
  total = omega (
    arith,
    h.cursor,
    length-down (λ i. s.bytes (c.buffer + i)) s.buffer_pos,
    length-up (λ i. s.bytes (c.buffer + (s.buffer_pos + i))) (s.length - s.buffer_pos),
  )

  at_length :
      (ch : ℕ)
      → Follows c
          (if s.length == (c.command_buffer_size - 1)
            then line_of c s
            else record { left = ch ∷ (line_of c s).left; right = (line_of c s).right })
          (put_key c ch s).1
  at_length ch = elim (Bool-cases (s.length == c.command_buffer_size - 1)) [
    | inl e ↦ rw e (same-Follows (line_of c s) (put_key_full c s ch e) refl)
    | inr e ↦
        let f = put_fields c s h ch e in
        rw e (record {
          shown = put_key-line c s h ch e;
          repl = record {
            cursor = omega (arith, f.0, f.1, h.cursor);
            fits = ground (arith, f.1, h.fits);
          };
        })
  ]

  put_key-Follows :
      (ch : ℕ)
      → Follows c
          (if (length (line_of c s).left + length (line_of c s).right)
              == (c.command_buffer_size - 1)
            then line_of c s
            else record { left = ch ∷ (line_of c s).left; right = (line_of c s).right })
          (put_key c ch s).1
  put_key-Follows ch =
      subst
        (λ n.
          Follows c
            (if n == c.command_buffer_size - 1
              then line_of c s
              else record { left = ch ∷ (line_of c s).left; right = (line_of c s).right })
            (put_key c ch s).1)
        (sym total) (at_length ch)

  right_length : (p : ℕ) → s.length - s.buffer_pos ≡ suc p → s.length - suc s.buffer_pos ≡ p
  right_length p e = omega arith

  stay_right :
      s.length - s.buffer_pos ≡ 0 → Follows c (go_right (line_of c s).left (line_of c s).right) s
  stay_right z =
      let g = λ (i : ℕ). s.bytes (c.buffer + (s.buffer_pos + i)) in
      let l = (line_of c s).left in
      same-Follows (go_right l (line_of c s).right) refl
        (ap (λ n. record { left = l; right = up g n }) z ∙ sym (ap (λ n. go_right l (up g n)) z))

  stay_left : s.buffer_pos ≡ 0 → Follows c (go_left (line_of c s).left (line_of c s).right) s
  stay_left z =
      let f = λ (i : ℕ). s.bytes (c.buffer + i) in
      let r = (line_of c s).right in
      same-Follows (go_left (line_of c s).left r) refl
        (ap (λ n. record { left = down f n; right = r }) z ∙ sym (ap (λ n. go_left (down f n) r) z))

  step_right :
      (p : ℕ)
      → s.length - s.buffer_pos ≡ suc p
      → Follows c
          (go_right (line_of c s).left (line_of c s).right)
          (record s { buffer_pos = s.buffer_pos + 1 })
  step_right p z =
      let g = λ (i : ℕ). s.bytes (c.buffer + (s.buffer_pos + i)) in
      let l = (line_of c s).left in
      record {
        shown =
            line_of-eq c (record s { buffer_pos = s.buffer_pos + 1 }) (suc s.buffer_pos) s.length
              (omega arith) refl
            ∙ ap₂ (λ l r. record { left = l; right = r })
                (ap (λ x. x ∷ l) (ap (λ j. s.bytes (c.buffer + j)) first))
                (ap (up (λ i. s.bytes (c.buffer + (suc s.buffer_pos + i)))) (right_length p z)
                  ∙ up-ext (λ i. s.bytes (c.buffer + (suc s.buffer_pos + i))) (λ i. g (suc i)) p
                      (λ i lt. ground arith))
            ∙ sym (ap (λ n. go_right l (up g n)) z);
        repl = record { cursor = omega arith; fits = h.fits };
      }
    where
      first : s.buffer_pos ≡ s.buffer_pos + 0
      first = omega arith

  step_left :
      (p : ℕ)
      → s.buffer_pos ≡ suc p
      → Follows c
          (go_left (line_of c s).left (line_of c s).right)
          (record s { buffer_pos = s.buffer_pos - 1 })
  step_left p z =
      let f = λ (i : ℕ). s.bytes (c.buffer + i) in
      let r = (line_of c s).right in
      let g = λ (i : ℕ). s.bytes (c.buffer + (p + i)) in
      record {
        shown =
            line_of-eq c (record s { buffer_pos = s.buffer_pos - 1 }) p s.length (omega arith) refl
            ∙ ap (λ xs. record { left = down f p; right = xs })
                (ap (up g) more
                  ∙ ap₂ (λ x xs. x ∷ xs) (ap (λ j. s.bytes (c.buffer + j)) first)
                      (up-ext (λ i. g (suc i)) (λ i. s.bytes (c.buffer + (s.buffer_pos + i)))
                        (s.length - s.buffer_pos) (λ i lt. ground arith)))
            ∙ sym (ap (λ n. go_left (down f n) r) z);
        repl = record { cursor = omega (arith, h.cursor); fits = h.fits };
      }
    where
      more : s.length - p ≡ suc (s.length - s.buffer_pos)
      more = omega (arith, h.cursor)

      first : p + 0 ≡ p
      first = omega arith

  arrow-Follows :
      (dir : ℕ)
      → Follows c
          (if dir == b'C'
            then go_right (line_of c s).left (line_of c s).right
            else (if dir == b'D'
                then go_left (line_of c s).left (line_of c s).right
                else line_of c s))
          (arrow dir s).1
  unfolding arrow
  arrow-Follows dir = elim (Bool-cases (dir == b'C')) [
    | inl e ↦ rw e (elim (ℕ-cases (s.length - s.buffer_pos)) [
      | inl z ↦
          let test : ltb s.buffer_pos s.length ≡ false = ground arith in rw test (stay_right z)
      | inr (p, z) ↦
          let test : ltb s.buffer_pos s.length ≡ true = ground arith in rw test (step_right p z)
    ])
    | inr e ↦ rw e (elim (Bool-cases (dir == b'D')) [
      | inl f ↦ rw f (elim (ℕ-cases s.buffer_pos) [
        | inl z ↦ let test : ltb 0 s.buffer_pos ≡ false = ground arith in rw test (stay_left z)
        | inr (p, z) ↦
            let test : ltb 0 s.buffer_pos ≡ true = ground arith in rw test (step_left p z)
      ])
      | inr f ↦ rw f (same-Follows (line_of c s) refl refl)
    ])
  ]

  acted-Follows :
      (k : Key) → Follows c (edit (c.command_buffer_size - 1) k (line_of c s)) (acted c k s).1
  acted-Follows (escape dir) = arrow-Follows dir
  acted-Follows (byte ch) = elim (Bool-cases (ch == 127)) [
    | inl e ↦ rw e backspace-Follows
    | inr e ↦ rw e (put_key-Follows ch)
  ]

-- One key that edits, in a line that fits the buffer, the cursor in it: the editor goes on with the
-- next key, the line that it shows then is the line it showed after the edit that the key stands
-- for (a byte put in at the cursor unless the line is full, a byte taken out before the cursor, the cursor
-- moved over one byte, nothing at the ends of the line), the line still fits, the cursor is still
-- in it, and the line is terminated.
pub key_edits_line :
    (calls : Calls) (c : ShellConfig) (fuel : ℕ) (k : Key) (s : Repl)
    → IsRepl c s
    → is_edit k ≡ true
    → (out : List Output) × (s' : Repl) × (repl_key calls c fuel k s ≡ some (next_key, out, s'))
      × (line_of c s' ≡ edit (c.command_buffer_size - 1) k (line_of c s))
      × IsEnded c s'
unfolding end_round
key_edits_line calls c fuel k s h e =
    let a = acted c k s in
    let f = acted-Follows c s h k in
    (
      (end_round c a).1,
      (end_round c a).2,
      repl_key-acted calls c fuel k s e,
      line-end_round c a.1 f.repl a.0 ∙ f.shown,
      end_round-IsEnded c a.1 f.repl a.0,
    )
