-- ===== src/World/Libc.antt =====
-- Calls of libsmbclient and of the C library, `errno`, `new` and `delete`, and the numbers that
-- the bridge takes from the system's headers.
use my_stest.Base.{ℕ, ℤ, none, some}
use my_stest.World.Calls.{Ptr, Call, Reply, called, allocated, deleted}
use my_stest.World.State.{ok, Cmd, log, gets, Client, CredentialCache, update}

-- A call sets `errno` to what the reply says.
unfoldable pub call : Call → Cmd Reply
call c env s = let r = env.reply s.trace c in ok r (log (called c r) (record s { errno = r.error }))

abbrev pub get_errno : Cmd ℤ
get_errno = gets λ s. s.errno

-- errno-base.h
abbrev pub eperm : ℕ
eperm = 1

abbrev pub enoent : ℕ
enoent = 2

abbrev pub eacces : ℕ
eacces = 13

abbrev pub enodev : ℕ
enodev = 19

-- fcntl.h
abbrev pub o_rdonly : ℕ
o_rdonly = 0

abbrev pub o_wronly : ℕ
o_wronly = 1

abbrev pub o_rdwr : ℕ
o_rdwr = 2

abbrev pub o_trunc : ℕ
o_trunc = 0o1000

abbrev pub o_append : ℕ
o_append = 0o2000

-- `new SambaClient()` and `new CredentialCache()`: the address is the allocator's choice.
unfoldable pub new_client : Client → Cmd Ptr
new_client c env s =
    let p = env.new_address s.trace in
    ok p (log (allocated p) (record s { clients = update s.clients p (some c) }))

unfoldable pub new_cache : CredentialCache → Cmd Ptr
new_cache c env s =
    let p = env.new_address s.trace in
    ok p (log (allocated p) (record s { caches = update s.caches p (some c) }))

-- The memory of a client goes back.
unfoldable pub free_client : Ptr → Cmd (Unit {0})
free_client p env s = ok tt (log (deleted p) (record s { clients = update s.clients p none }))
