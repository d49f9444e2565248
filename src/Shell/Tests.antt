-- ===== src/Shell/Tests.antt =====
-- The line editor at a buffer of eight bytes.
use rtk.Common.{◌≡◌, refl, some, List, [], ◌∷◌, arith}
use rtk.Common.Int.{pos, negsuc}
use rtk.Shell.{ShellConfig, Repl, Calls, Key, byte, escape, next_key, Output, repl_key, repl_keys}
use rtk.Shell.Edits.{edit, line_of}
use rtk.Shell.Laws.{IsRepl, IsEnded}
use rtk.Shell.Keys.{key_edits_line}
use rtk.Shell.Typing.{edits, keys_edit_line}

abbrev config : ShellConfig
config = record {
  command_buffer_size = 8;
  buffer = 100;
  command_buf = 200;
  exit_text = 300;
  space_text = 310;
}

abbrev empty : Repl
empty = record { bytes = λ a. 0; buffer_pos = 0; length = 0; ret = pos 0 }

abbrev nobody : Calls
nobody = record { who_is = λ name m. negsuc 1; send = λ tid m ret. (negsuc 0, ret) }

empty-IsRepl : IsRepl config empty
empty-IsRepl = record { cursor = omega arith; fits = omega arith }

-- "ac", back over the c, and b.
abbrev typed : List Key
typed = byte b'a' ∷ byte b'c' ∷ escape b'D' ∷ byte b'b' ∷ []

typed-edits :
    edits 7 typed (line_of config empty) ≡ record { left = b'b' ∷ b'a' ∷ []; right = b'c' ∷ [] }
typed-edits = refl

key_edits_line_example :
    (out : List Output) × (s' : Repl) × (repl_key nobody config 20 (byte b'a') empty
      ≡ some (next_key, out, s'))
    × (line_of config s' ≡ edit 7 (byte b'a') (line_of config empty))
    × IsEnded config s'
key_edits_line_example = key_edits_line nobody config 20 (byte b'a') empty empty-IsRepl refl

keys_edit_line_example :
    (out : List Output) × (s' : Repl) × (repl_keys nobody config 20 typed empty
      ≡ some (next_key, out, s'))
    × (line_of config s' ≡ edits 7 typed (line_of config empty))
    × IsRepl config s'
keys_edit_line_example = keys_edit_line nobody config 20 typed empty empty-IsRepl refl
