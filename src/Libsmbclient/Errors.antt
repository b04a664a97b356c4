-- ===== src/Libsmbclient/Errors.antt =====
-- The error numbers that libsmbclient.h names (their values are those of errno-base.h and errno.h),
-- and the shapes of its answers.
use my_stest.Base.{
  ℕ, ℤ, pos, negsuc, Bool, true, false, List, [], ◌∷◌, ◌||◌, leb, if◌then◌else◌, is_negative,
  is_code,
}
use my_stest.World.Calls.{Reply}

abbrev pub ebadf : ℕ
ebadf = 9

abbrev pub enomem : ℕ
enomem = 12

abbrev pub ebusy : ℕ
ebusy = 16

abbrev pub eexist : ℕ
eexist = 17

abbrev pub exdev : ℕ
exdev = 18

abbrev pub enotdir : ℕ
enotdir = 20

abbrev pub eisdir : ℕ
eisdir = 21

abbrev pub einval : ℕ
einval = 22

abbrev pub enotempty : ℕ
enotempty = 39

-- `errno` is one of the codes.
abbrev pub one_of : List ℕ → ℤ → Bool
one_of [] err = false
one_of (code ∷ codes) err = is_code err code || one_of codes err

-- `0 on success, < 0 on error with errno set`
abbrev pub zero_or : List ℕ → Reply → Bool
zero_or codes r = if is_negative r.result then one_of codes r.error else is_code r.result 0

-- `Valid handle, < 0 on error with errno set`
abbrev pub handle_or : List ℕ → Reply → Bool
handle_or codes r = if is_negative r.result then one_of codes r.error else true

-- A number of bytes of a buffer, `< 0 on error, with errno set`
abbrev pub count_or : ℕ → List ℕ → Reply → Bool
count_or size codes r = elim r.result [ pos n ↦ leb n size | negsuc n ↦ one_of codes r.error ]
