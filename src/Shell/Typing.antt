-- ===== src/Shell/Typing.antt =====
-- A run of keys in the line editor.
use rtk.Common.{ℕ, ◌-◌, ◌≡◌, ◌∙◌, refl, ap, Bool, true, some, List, [], ◌∷◌, ◌++◌, ◌&&◌, arith}
use rtk.Shell.{ShellConfig, Repl, Calls, Key, next_key, Output, repl_key, repl_keys}
use rtk.Shell.Edits.{Line, is_edit, edit, line_of}
use rtk.Shell.Laws.{IsRepl}
use rtk.Shell.Keys.{key_edits_line}

abbrev pub all_edit : List Key → Bool
all_edit [] = true
all_edit (k ∷ ks) = is_edit k && all_edit ks

-- One edit after the other.
abbrev pub edits : (room : ℕ) → List Key → Line → Line
edits room [] line = line
edits room (k ∷ ks) line = edits room ks (edit room k line)

step_on :
    (calls : Calls) (c : ShellConfig) (fuel : ℕ) (k : Key) (ks : List Key) (s s1 s2 : Repl)
    (out out' : List Output)
    → repl_key calls c fuel k s ≡ some (next_key, out, s1)
    → repl_keys calls c fuel ks s1 ≡ some (next_key, out', s2)
    → repl_keys calls c fuel (k ∷ ks) s ≡ some (next_key, out ++ out', s2)
unfolding repl_keys
step_on calls c fuel k ks s s1 s2 out out' e f = rw (e, f) refl

-- A run of keys that edit, in a line that fits the buffer, the cursor in it: the editor waits for the next
-- key, and shows the line after those edits, one after the other, which fits the buffer with the cursor in it.
pub keys_edit_line :
    (calls : Calls) (c : ShellConfig) (fuel : ℕ) (ks : List Key) (s : Repl)
    → IsRepl c s
    → all_edit ks ≡ true
    → (out : List Output) × (s' : Repl) × (repl_keys calls c fuel ks s ≡ some (next_key, out, s'))
      × (line_of c s' ≡ edits (c.command_buffer_size - 1) ks (line_of c s))
      × IsRepl c s'
unfolding repl_keys
keys_edit_line calls c fuel [] s h e = ([], s, refl, refl, h)
keys_edit_line calls c fuel (k ∷ ks) s h e =
    let one = key_edits_line calls c fuel k s h (ground arith) in
    let rest = keys_edit_line calls c fuel ks one.1 one.4.repl (ground arith) in
    (
      one.0 ++ rest.0,
      rest.1,
      step_on calls c fuel k ks s one.1 rest.1 one.0 rest.0 one.2 rest.2,
      rest.3 ∙ ap (edits (c.command_buffer_size - 1) ks) one.3,
      rest.4,
    )
