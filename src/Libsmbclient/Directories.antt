-- ===== src/Libsmbclient/Directories.antt =====
-- The answers of the directory functions that libsmbclient.h documents.
use my_stest.Base.{ℕ, Bool, List, [], ◌∷◌}
use my_stest.World.Calls.{Reply}
use my_stest.World.Libc.{eperm, enoent, eacces, enodev}
use my_stest.Libsmbclient.Errors.{
  ebadf, enomem, eexist, exdev, enotdir, eisdir, einval, enotempty, zero_or, handle_or,
}

abbrev pub unlink_errors : List ℕ
unlink_errors = eacces ∷ eperm ∷ enoent ∷ einval ∷ eacces ∷ enomem ∷ []

unfoldable pub unlink_allows : Reply → Bool
unlink_allows = zero_or unlink_errors

abbrev pub rename_errors : List ℕ
rename_errors =
    eisdir ∷ eexist ∷ einval ∷ enotdir ∷ eacces ∷ eperm ∷ enoent ∷ exdev ∷ enomem ∷ eexist ∷ []

unfoldable pub rename_allows : Reply → Bool
rename_allows = zero_or rename_errors

abbrev pub opendir_errors : List ℕ
opendir_errors = eacces ∷ einval ∷ enoent ∷ enomem ∷ enotdir ∷ eperm ∷ enodev ∷ []

unfoldable pub opendir_allows : Reply → Bool
opendir_allows = handle_or opendir_errors

abbrev pub closedir_errors : List ℕ
closedir_errors = ebadf ∷ []

unfoldable pub closedir_allows : Reply → Bool
closedir_allows = zero_or closedir_errors

abbrev pub mkdir_errors : List ℕ
mkdir_errors = eexist ∷ eacces ∷ enoent ∷ einval ∷ enomem ∷ []

unfoldable pub mkdir_allows : Reply → Bool
mkdir_allows = zero_or mkdir_errors

abbrev pub rmdir_errors : List ℕ
rmdir_errors = eacces ∷ eperm ∷ einval ∷ enoent ∷ enotempty ∷ enomem ∷ []

unfoldable pub rmdir_allows : Reply → Bool
rmdir_allows = zero_or rmdir_errors
