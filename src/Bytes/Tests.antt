-- ===== src/Bytes/Tests.antt =====
-- The theorems about the copies at small memories.
use rtk.Common.{◌≡◌}
use rtk.Bytes.{Bytes, memmove}
use rtk.Bytes.Laws.{memmove_lem}

-- Address `a` holds `a`.
abbrev ramp : Bytes
ramp a = a

memmove_lem_example : memmove 4 2 3 ramp 6 ≡ 4
memmove_lem_example = memmove_lem 4 2 3 ramp 6
