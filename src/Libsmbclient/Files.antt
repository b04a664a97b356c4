-- ===== src/Libsmbclient/Files.antt =====
-- The answers of the file and attribute functions that libsmbclient.h documents.
use Prim.Native.Nat.{bit_and}
use my_stest.Base.{List, ℕ, Bool, [], ◌∷◌, ◌&&◌, ◌==◌, ltb, ◌%◌, negsuc, pos, true}
use my_stest.World.Calls.{Reply}
use my_stest.World.Libc.{enoent, eacces, enodev}
use my_stest.Libsmbclient.Errors.{
  ebadf, enomem, eexist, enotdir, eisdir, einval, one_of, zero_or, handle_or, count_or,
}

-- `flags` is O_RDONLY, O_WRONLY or O_RDWR with any of O_CREAT, O_EXCL, O_TRUNC and O_APPEND.
unfoldable pub open_accepts : ℕ → Bool
open_accepts flags = ltb (flags % 4) 3 && bit_and flags 0o3303 == flags

abbrev pub open_errors : List ℕ
open_errors = enomem ∷ einval ∷ eexist ∷ eisdir ∷ eacces ∷ enodev ∷ enotdir ∷ enoent ∷ []

unfoldable pub open_allows : Reply → Bool
open_allows = handle_or open_errors

abbrev pub creat_errors : List ℕ
creat_errors = enomem ∷ einval ∷ eexist ∷ eisdir ∷ eacces ∷ enoent ∷ enodev ∷ []

unfoldable pub creat_allows : Reply → Bool
creat_allows = handle_or creat_errors

abbrev pub read_errors : List ℕ
read_errors = eisdir ∷ ebadf ∷ einval ∷ []

unfoldable pub read_allows : ℕ → Reply → Bool
read_allows bufsize = count_or bufsize read_errors

abbrev pub write_errors : List ℕ
write_errors = eisdir ∷ ebadf ∷ einval ∷ []

unfoldable pub write_allows : ℕ → Reply → Bool
write_allows bufsize = count_or bufsize write_errors

abbrev pub lseek_errors : List ℕ
lseek_errors = ebadf ∷ einval ∷ []

-- The offset, or `(off_t)-1`.
unfoldable pub lseek_allows : Reply → Bool
lseek_allows r = elim r.result [ pos n ↦ true | negsuc n ↦ n == 0 && one_of lseek_errors r.error ]

abbrev pub close_errors : List ℕ
close_errors = ebadf ∷ einval ∷ []

unfoldable pub close_allows : Reply → Bool
close_allows = zero_or close_errors

abbrev pub stat_errors : List ℕ
stat_errors = enoent ∷ einval ∷ eacces ∷ enomem ∷ enotdir ∷ []

unfoldable pub stat_allows : Reply → Bool
stat_allows = zero_or stat_errors

abbrev pub fstat_errors : List ℕ
fstat_errors = ebadf ∷ eacces ∷ ebadf ∷ einval ∷ enomem ∷ []

unfoldable pub fstat_allows : Reply → Bool
fstat_allows = zero_or fstat_errors
