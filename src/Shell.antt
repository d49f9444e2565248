-- ===== src/Shell.antt =====
-- usr/shell.c: the line editor of Repl, one key at a time, and Handle, which sends a line to the
-- task that is registered under its first word. The line stands in byte memory from `buffer` on.
pub mod Edits
pub mod Laws
pub mod Keys
pub mod Typing
mod Tests
use rtk.Common.{
  ℕ, suc, ◌+◌, ◌-◌, Option, none, some, Bool, true, false, List, [], ◌∷◌, ◌++◌, ltb, ◌==◌, ◌||◌,
  not, if◌then◌else◌, ◌>>=◌,
}
use rtk.Common.Int.{ℤ, pos, negsuc, ◌==ℤ◌}
use rtk.Queue.{update}
use rtk.Bytes.{Bytes, memmove}
use rtk.Strings.{strcmp, strncpy, strcspn}

-- `struct ShellConfig` without its prompt and channel, and where `buffer`, `command_buf` and the string
-- literals "exit" and " " stand.
pub record ShellConfig : Type 0 where
  pub command_buffer_size : ℕ
  pub buffer : ℕ
  pub command_buf : ℕ
  pub exit_text : ℕ
  pub space_text : ℕ

pub record Repl : Type 0 where
  pub bytes : Bytes
  pub buffer_pos : ℕ
  pub length : ℕ
  pub ret : ℤ

-- What goes to the terminal; a text is given by its address.
pub data Output : Type 0 where
  put_char : ℕ → Output
  print_status : ℤ → Output
  print_prompt : (ok : Bool) → Output
  print_text erase_before : (text : ℕ) → Output
  move_left : ℕ → Output
  move_upper_left clear_screen reset_colour hide_cursor show_cursor : Output
  say_exit say_no_name_server say_not_found say_disappeared say_internal_error : Output

-- A key: a byte that Getc reads, or, behind an escape byte and the byte after it, a direction.
pub data Key : Type 0 where
  byte : ℕ → Key
  escape : (dir : ℕ) → Key

unfoldable pub read_key : List ℕ → Option (Key × List ℕ)
read_key [] = none
read_key (ch ∷ []) = if ch == 27 then none else some (byte ch, [])
read_key (ch ∷ skipped ∷ []) = if ch == 27 then none else some (byte ch, skipped ∷ [])
read_key (ch ∷ skipped ∷ dir ∷ rest) =
    if ch == 27 then some (escape dir, rest) else some (byte ch, skipped ∷ dir ∷ rest)

-- Where the loop goes on: with the next key, at `prompt_loop`, or nowhere.
pub data Outcome : Type 0 where
  next_key prompt_loop exited : Outcome

-- The two arrows that move; the others do nothing.
unfoldable pub arrow : (dir : ℕ) → Repl → List Output × Repl
arrow dir s =
    if dir == b'C'
    then (if ltb s.buffer_pos s.length
        then (
          put_char 27 ∷ put_char b'[' ∷ put_char b'C' ∷ [],
          record s { buffer_pos = s.buffer_pos + 1 },
        )
        else ([], s))
    else (if dir == b'D'
        then (if ltb 0 s.buffer_pos
            then (
              put_char 27 ∷ put_char b'[' ∷ put_char b'D' ∷ [],
              record s { buffer_pos = s.buffer_pos - 1 },
            )
            else ([], s))
        else ([], s))

unfoldable pub backspace : ShellConfig → Repl → List Output × Repl
backspace c s =
    let at = c.buffer + s.buffer_pos in
    let moved =
      if s.buffer_pos == s.length
      then s.bytes
      else memmove (at - 1) at (s.length - s.buffer_pos) s.bytes in
    if ltb 0 s.buffer_pos
    then (
      erase_before at ∷ move_left (s.length - s.buffer_pos + 1) ∷ [],
      record s { bytes = moved; length = s.length - 1; buffer_pos = s.buffer_pos - 1 },
    )
    else ([], s)

-- The `default` case.
unfoldable pub put_key : ShellConfig → (ch : ℕ) → Repl → List Output × Repl
put_key c ch s =
    let at = c.buffer + s.buffer_pos in
    let inside = ltb s.buffer_pos s.length in
    let moved = if inside then memmove (at + 1) at (s.length - s.buffer_pos) s.bytes else s.bytes in
    let shown = if inside then print_text at ∷ move_left (s.length - s.buffer_pos) ∷ [] else [] in
    if s.length == c.command_buffer_size - 1 then ([], s) else (
      put_char ch ∷ shown,
      record s { bytes = update moved at ch; length = s.length + 1; buffer_pos = s.buffer_pos + 1 },
    )

-- The end of a round of the inner loop: the line is terminated.
unfoldable pub end_round : ShellConfig → List Output × Repl → Outcome × List Output × Repl
end_round c (out, s) = (
  next_key,
  out ++ (if s.buffer_pos == c.command_buffer_size - 1 then hide_cursor else show_cursor) ∷ [],
  record s { bytes = update s.bytes (c.buffer + s.length) 0 },
)

-- What the kernel answers: WhoIs of the name at an address, and Send of the line to a task, which returns
-- its result and what stands in `*ret` then.
pub record Calls : Type 0 where
  pub who_is : (name : ℕ) → Bytes → ℤ
  pub send : (tid : ℤ) → Bytes → (ret : ℤ) → ℤ × ℤ

-- The `switch` on the result of Send: the codes are ERR_SEND_IMPOSSIBLE_TID, ERR_SEND_NONEXISTENT_TASK
-- and ERR_SRR_INCOMPLETE.
unfoldable pub sent : ℤ × ℤ → List Output × Outcome
sent (err, ret) =
    if (err ==ℤ negsuc 0) || (err ==ℤ negsuc 1)
    then (say_disappeared ∷ [], prompt_loop)
    else (if err ==ℤ negsuc 2 then (say_internal_error ∷ [], exited) else ([], prompt_loop))

-- Handle, with the fuel of strcspn: ERR_INVALID_NAMESERVER_TID is -1, ERR_LOOKUP_FAILED is -2.
unfoldable pub handle :
    Calls → ShellConfig → (fuel : ℕ) → Repl → Option (Outcome × List Output × Repl)
handle calls c fuel s = do
  command_len ← strcspn fuel c.buffer c.space_text s.bytes
  let bytes' = strncpy c.command_buf c.buffer command_len s.bytes
  let handler_tid = calls.who_is c.command_buf bytes'
  let s' = record s { bytes = bytes'; ret = negsuc 0 }
  let reply = calls.send handler_tid bytes' (negsuc 0)
  some (
      if handler_tid ==ℤ negsuc 0
      then (prompt_loop, say_no_name_server ∷ [], s')
      else (if handler_tid ==ℤ negsuc 1
          then (prompt_loop, say_not_found ∷ [], s')
          else ((sent reply).1, (sent reply).0, record s' { ret = reply.1 })))

-- The return key. `fuel` is for the two loops over the line.
unfoldable pub return_key :
    Calls → ShellConfig → (fuel : ℕ) → Repl → Option (Outcome × List Output × Repl)
return_key calls c fuel s =
    let newline = put_char 13 ∷ put_char 10 ∷ [] in
    let empty = record s { ret = pos 0; buffer_pos = 0; length = 0 } in
    let run = do
      order ← strcmp fuel c.buffer c.exit_text s.bytes
      if order ==ℤ pos 0
          then some (exited, newline ++ say_exit ∷ [], empty)
          else do (outcome, out, s') ← handle calls c fuel empty; some (outcome, newline ++ out, s')
    in if s.length == 0 then some (prompt_loop, newline, empty) else run

-- One round of the inner loop.
unfoldable pub repl_key :
    Calls → ShellConfig → (fuel : ℕ) → Key → Repl → Option (Outcome × List Output × Repl)
repl_key calls c fuel (escape dir) s = some (end_round c (arrow dir s))
repl_key calls c fuel (byte ch) s =
    if (ch == 13) || (ch == 10)
    then return_key calls c fuel s
    else (if ch == 12
        then some (prompt_loop, move_upper_left ∷ clear_screen ∷ reset_colour ∷ [], s)
        else (if ch == 127
            then some (end_round c (backspace c s))
            else some (end_round c (put_key c ch s))))

-- What is printed at `prompt_loop`.
unfoldable pub prompt : Repl → List Output
prompt s =
    (if s.ret ==ℤ pos 0 then [] else print_status s.ret ∷ []) ++ print_prompt (s.ret ==ℤ pos 0) ∷ []

-- Repl on the keys that are typed, from within the inner loop: where it stands after the last.
unfoldable pub repl_keys :
    Calls → ShellConfig → (fuel : ℕ) → List Key → Repl → Option (Outcome × List Output × Repl)
repl_keys calls c fuel [] s = some (next_key, [], s)
repl_keys calls c fuel (k ∷ ks) s = do
  (outcome, out, s1) ← repl_key calls c fuel k s
  let rest = repl_keys calls c fuel ks s1
  elim outcome [
    | next_key ↦ rest >>= λ r. some (r.0, out ++ r.1, r.2)
    | prompt_loop ↦ rest >>= λ r. some (r.0, out ++ (prompt s1 ++ r.1), r.2)
    | exited ↦ some (exited, out, s1)
  ]
