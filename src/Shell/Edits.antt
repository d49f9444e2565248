-- ===== src/Shell/Edits.antt =====
-- A line with a cursor, as the two lists of bytes on its sides.
use rtk.Common.{
  ℕ, zero, suc, ◌+◌, ◌-◌, ◌<◌, ◌≡◌, refl, ap₂, Bool, true, List, [], ◌∷◌, arith, ◌==◌, not, ◌||◌,
  ◌&&◌, if◌then◌else◌, length,
}
use rtk.Shell.{ShellConfig, Repl, Key, byte, escape}

-- `left` begins with the byte before the cursor, `right` with the byte behind it.
pub record Line : Type 0 where
  pub left : List ℕ
  pub right : List ℕ

-- The keys that edit: return, line feed and form feed do not.
abbrev pub is_edit : Key → Bool
is_edit (escape dir) = true
is_edit (byte ch) = not ((ch == 13) || (ch == 10)) && not (ch == 12)

-- The cursor over one byte, and one byte less before the cursor; nothing at the ends of the line.
abbrev pub go_left : (left right : List ℕ) → Line
go_left [] r = record { left = []; right = r }
go_left (x ∷ l) r = record { left = l; right = x ∷ r }

abbrev pub go_right : (left right : List ℕ) → Line
go_right l [] = record { left = l; right = [] }
go_right l (x ∷ r) = record { left = x ∷ l; right = r }

abbrev pub delete : (left right : List ℕ) → Line
delete [] r = record { left = []; right = r }
delete (x ∷ l) r = record { left = l; right = r }

-- What a key does to a line of at most `room` bytes.
abbrev pub edit : (room : ℕ) → Key → Line → Line
edit room (escape dir) line =
    if dir == b'C'
    then go_right line.left line.right
    else (if dir == b'D' then go_left line.left line.right else line)
edit room (byte ch) line =
    if ch == 127
    then delete line.left line.right
    else (if (length line.left + length line.right) == room
        then line
        else record { left = ch ∷ line.left; right = line.right })

-- The values at 0, 1, ... below `n`, and the same the other way round.
abbrev pub up : (ℕ → ℕ) → ℕ → List ℕ
up f zero = []
up f (suc n) = f 0 ∷ up (λ i. f (suc i)) n

abbrev pub down : (ℕ → ℕ) → ℕ → List ℕ
down f zero = []
down f (suc n) = f n ∷ down f n

pub up-ext : (f g : ℕ → ℕ) (n : ℕ) → ((i : ℕ) → i < n → f i ≡ g i) → up f n ≡ up g n
up-ext f g zero h = refl
up-ext f g (suc n) h =
    ap₂ (λ x xs. x ∷ xs) (h 0 (omega arith))
      (up-ext (λ i. f (suc i)) (λ i. g (suc i)) n (λ i lt. h (suc i) (omega arith)))

pub down-ext : (f g : ℕ → ℕ) (n : ℕ) → ((i : ℕ) → i < n → f i ≡ g i) → down f n ≡ down g n
down-ext f g zero h = refl
down-ext f g (suc n) h =
    ap₂ (λ x xs. x ∷ xs) (h n (omega arith)) (down-ext f g n (λ i lt. h i (omega arith)))

pub length-up : (f : ℕ → ℕ) (n : ℕ) → length (up f n) ≡ n
length-up f zero = refl
length-up f (suc n) = omega (arith, length-up (λ i. f (suc i)) n)

pub length-down : (f : ℕ → ℕ) (n : ℕ) → length (down f n) ≡ n
length-down f zero = refl
length-down f (suc n) = omega (arith, length-down f n)

-- The line that the editor shows.
abbrev pub line_of : ShellConfig → Repl → Line
line_of c s = record {
  left = down (λ i. s.bytes (c.buffer + i)) s.buffer_pos;
  right = up (λ i. s.bytes (c.buffer + (s.buffer_pos + i))) (s.length - s.buffer_pos);
}
