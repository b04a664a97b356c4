-- ===== src/Libsmbclient/Contract.antt =====
-- The documentation of libsmbclient.h as one promise about every answer.
use my_stest.Base.{
  ℕ, ℤ, pos, negsuc, ◌≡◌, Bool, true, List, [], ◌∷◌, ◌&&◌, if◌then◌else◌, is_negative, is_code,
  IsPositive, arith,
}
use my_stest.World.Calls.{
  Call, Reply, Trace, Env, smbc_new_context, smbc_free_context, smbc_init_context, smbc_opendir,
  smbc_closedir, smbc_stat, smbc_fstat, smbc_creat, smbc_mkdir, smbc_rename, smbc_unlink,
  smbc_rmdir, smbc_open, smbc_lseek, smbc_read, smbc_write, smbc_close, setenv,
}
use my_stest.Libsmbclient.Errors.{enomem, einval, one_of, zero_or, count_or}
use my_stest.Libsmbclient.Files
use my_stest.Libsmbclient.Directories
use my_stest.Libsmbclient.Contexts

-- setenv(3)
abbrev pub setenv_errors : List ℕ
setenv_errors = einval ∷ enomem ∷ []

-- An answer that the documentation allows. A function that returns no number leaves 0 as result.
-- `setenv` is the C library's, and fails with EINVAL or ENOMEM.
unfoldable pub allows : Call → Reply → Bool
unfolding Files.open_allows Files.creat_allows Files.read_allows Files.write_allows
    Files.lseek_allows Files.close_allows Files.stat_allows Files.fstat_allows
    Directories.unlink_allows Directories.rename_allows Directories.opendir_allows
    Directories.closedir_allows Directories.mkdir_allows Directories.rmdir_allows
    Contexts.new_context_allows Contexts.init_context_allows Contexts.free_context_allows
allows smbc_new_context r = is_code r.result 0 && Contexts.new_context_allows r
allows (smbc_free_context c shutdown) r = Contexts.free_context_allows c r
allows (smbc_init_context c) r = is_code r.result 0 && Contexts.init_context_allows c r
allows (smbc_opendir url) r = Directories.opendir_allows r
allows (smbc_closedir dh) r = Directories.closedir_allows r
allows (smbc_stat url) r = Files.stat_allows r
allows (smbc_fstat fd) r = Files.fstat_allows r
allows (smbc_creat url mode) r = Files.creat_allows r
allows (smbc_mkdir url mode) r = Directories.mkdir_allows r
allows (smbc_rename url nurl) r = Directories.rename_allows r
allows (smbc_unlink url) r = Directories.unlink_allows r
allows (smbc_rmdir url) r = Directories.rmdir_allows r
allows (smbc_open url flags mode) r = Files.open_allows r
allows (smbc_lseek fd offset whence) r = Files.lseek_allows r
allows (smbc_read fd buffer size) r = Files.read_allows size r
allows (smbc_write fd buffer size) r = Files.write_allows size r
allows (smbc_close fd) r = Files.close_allows r
allows (setenv name value overwrite) r = zero_or setenv_errors r
allows _ r = is_code r.result 0

-- Every answer is one that the documentation allows.
pub record FollowsHeader (env : Env) : Type 0 where
  pub documented : (t : Trace) (c : Call) → allows c (env.reply t c) ≡ true

-- The error numbers that a call may leave.
abbrev pub errors_of : Call → List ℕ
errors_of (smbc_opendir url) = Directories.opendir_errors
errors_of (smbc_closedir dh) = Directories.closedir_errors
errors_of (smbc_stat url) = Files.stat_errors
errors_of (smbc_fstat fd) = Files.fstat_errors
errors_of (smbc_creat url mode) = Files.creat_errors
errors_of (smbc_mkdir url mode) = Directories.mkdir_errors
errors_of (smbc_rename url nurl) = Directories.rename_errors
errors_of (smbc_unlink url) = Directories.unlink_errors
errors_of (smbc_rmdir url) = Directories.rmdir_errors
errors_of (smbc_open url flags mode) = Files.open_errors
errors_of (smbc_lseek fd offset whence) = Files.lseek_errors
errors_of (smbc_read fd buffer size) = Files.read_errors
errors_of (smbc_write fd buffer size) = Files.write_errors
errors_of (smbc_close fd) = Files.close_errors
errors_of (setenv name value overwrite) = setenv_errors
errors_of _ = []

-- A negative result comes with one of the call's error numbers.
listed :
    (codes : List ℕ) (r : Reply) (other : Bool)
    → (if is_negative r.result then one_of codes r.error else other) ≡ true
    → is_negative r.result ≡ true
    → one_of codes r.error ≡ true
listed codes r other h n = rw n at h

counted :
    (size : ℕ) (codes : List ℕ) (r : Reply)
    → count_or size codes r ≡ true
    → is_negative r.result ≡ true
    → one_of codes r.error ≡ true
counted size codes r h n = ground arith

pub allows-one_of :
    (c : Call) (r : Reply)
    → allows c r ≡ true
    → is_negative r.result ≡ true
    → one_of (errors_of c) r.error ≡ true
unfolding allows
allows-one_of (smbc_opendir url) r h n = listed Directories.opendir_errors r _ h n
allows-one_of (smbc_closedir dh) r h n = listed Directories.closedir_errors r _ h n
allows-one_of (smbc_stat url) r h n = listed Files.stat_errors r _ h n
allows-one_of (smbc_fstat fd) r h n = listed Files.fstat_errors r _ h n
allows-one_of (smbc_creat url mode) r h n = listed Files.creat_errors r _ h n
allows-one_of (smbc_mkdir url mode) r h n = listed Directories.mkdir_errors r _ h n
allows-one_of (smbc_rename url nurl) r h n = listed Directories.rename_errors r _ h n
allows-one_of (smbc_unlink url) r h n = listed Directories.unlink_errors r _ h n
allows-one_of (smbc_rmdir url) r h n = listed Directories.rmdir_errors r _ h n
allows-one_of (smbc_open url flags mode) r h n = listed Files.open_errors r _ h n
allows-one_of (smbc_lseek fd offset whence) r h n = ground arith
allows-one_of (smbc_read fd buffer size) r h n = counted size Files.read_errors r h n
allows-one_of (smbc_write fd buffer size) r h n = counted size Files.write_errors r h n
allows-one_of (smbc_close fd) r h n = listed Files.close_errors r _ h n
allows-one_of (setenv name value overwrite) r h n = listed setenv_errors r _ h n
allows-one_of _ r h n = ground arith

-- The codes are error numbers of an `int`.
abbrev pub ArePositive : List ℕ → Type 0
ArePositive [] = Unit {0}
ArePositive (code ∷ codes) = IsPositive (pos code) × ArePositive codes

one_of-IsPositive :
    (codes : List ℕ) (err : ℤ) → ArePositive codes → one_of codes err ≡ true → IsPositive err
one_of-IsPositive [] err h e = cc
one_of-IsPositive (code ∷ codes) (pos n) h e = ground (arith, one_of-IsPositive codes (pos n) h.1)
one_of-IsPositive (code ∷ codes) (negsuc n) h e = one_of-IsPositive codes (negsuc n) h.1 e

errors_of-ArePositive : (c : Call) → ArePositive (errors_of c)
errors_of-ArePositive smbc_new_context = tt
errors_of-ArePositive _ = omega arith

pub allows-IsPositive :
    (c : Call) (r : Reply) → allows c r ≡ true → is_negative r.result ≡ true → IsPositive r.error
allows-IsPositive c r h n =
    one_of-IsPositive (errors_of c) r.error (errors_of-ArePositive c) (allows-one_of c r h n)
