-- ===== src/JniHelper/Modes.antt =====
-- The open modes of `openFile` (jni_helper/JniHelper.cc) as a table, and the parser of the code
-- against it.
use my_stest.Base.{HasNoNul, ℤ, pos, negsuc, ◌≡◌, refl, [], ◌∷◌, Text, ◌==◌, if◌then◌else◌, arith}
use my_stest.World.Calls.{Env}
use my_stest.World.State.{State, ok}
use my_stest.JniHelper.OpenFile.{mode_flag}

-- What a mode asks for.
pub data Access : Type 0 where
  read_only write_truncate write_append write_plain read_write read_write_truncate : Access
  refused : Access

-- After `rw`: only a single `t` truncates.
abbrev read_write_access : Text → Access
read_write_access [] = read_write
read_write_access (e ∷ []) = if e == b't' then read_write_truncate else read_write
read_write_access (e ∷ f ∷ rest) = read_write

-- After `r`.
abbrev read_access : Text → Access
read_access [] = read_only
read_access (d ∷ rest) = if d == b'w' then read_write_access rest else refused

-- After `w`: `wa…` appends, `w` alone truncates, any other letter does neither.
abbrev write_access : Text → Access
write_access [] = write_truncate
write_access (d ∷ rest) = if d == b'a' then write_append else write_plain

unfoldable pub access : Text → Access
access [] = refused
access (c ∷ rest) =
    if c == b'r' then read_access rest else if c == b'w' then write_access rest else refused

-- The `open` flags by their numbers in fcntl.h.
unfoldable pub access_flag : Access → ℤ
access_flag read_only = pos 0
access_flag write_truncate = pos 0o1001
access_flag write_append = pos 0o2001
access_flag write_plain = pos 1
access_flag read_write = pos 2
access_flag read_write_truncate = pos 0o1002
access_flag refused = negsuc 0

-- The parser of the mode reads no byte past the string's NUL, and its flag is the one of the
-- table: `r`, `w`, `wa…`, `w…`, `rw…` and `rwt`, and -1 for every other mode.
pub mode_flag-access :
    (mode : Text) (env : Env) (s : State)
    → HasNoNul mode
    → mode_flag mode env s ≡ ok (access_flag (access mode)) s
unfolding mode_flag access access_flag
mode_flag-access [] env s h = refl
mode_flag-access (c ∷ []) env s h = ground arith
mode_flag-access (c ∷ d ∷ []) env s h = ground arith
mode_flag-access (c ∷ d ∷ e ∷ []) env s h = ground arith
mode_flag-access (c ∷ d ∷ e ∷ f ∷ rest) env s h = ground arith
