-- ===== src/Tests/Header.antt =====
-- The theorems on what libsmbclient.h documents at concrete inputs.
use my_stest.Base.{pos, ◌≡◌, refl, true, [], ◌∷◌, ◌++◌, Text, bytes, ℤ, to_word}
use my_stest.World.Calls.{called, got_buffer, smbc_stat, smbc_read, smbc_write}
use my_stest.World.State.{ok}
use my_stest.Libsmbclient.Errors.{ebadf, eisdir, einval}
use my_stest.Libsmbclient.Contract.{allows}
use my_stest.JniHelper.OpenFile.{mode_flag}
use my_stest.JniHelper.Handles
use my_stest.JniHelper.Ready.{Does}
use my_stest.JniHelper.Throws.{file_not_found, thrown}
use my_stest.JniHelper.HandleLaws.{errno_raised}
use my_stest.JniHelper.HeaderLaws.{stat, failure_of, failure_of-uniform}
use my_stest.JniHelper.HeaderBounds.{IsCount, read-write-IsCount}
use my_stest.Tests.Setting.{
  failure, success, documented, serving, serving-IsHealthy, documented-FollowsHeader, start,
  start-IsReady,
}

abbrev path : Text
path = bytes "smb://h/s/a"

no_such_file : allows (smbc_stat path) (failure 2 (smbc_stat path)) ≡ true
unfolding allows
no_such_file = refl

failure_of-uniform_example :
    Does start
      (failure_of (stat path) (pos 2) (serving success) start)
      tt
      (thrown (file_not_found (bytes "Can't find smb://h/s/a")) ∷ [])
unfolding bytes
failure_of-uniform_example =
    failure_of-uniform (serving-IsHealthy success) (stat path) (failure 2 (smbc_stat path))
      no_such_file refl start-IsReady

write_flag : mode_flag (b'w' ∷ []) (serving success) start ≡ ok (pos 0o1001) start
unfolding mode_flag
write_flag = refl

read-write-IsCount_example :
    let t = got_buffer 7 64 ∷ start.trace in
    let c = smbc_read (pos 5) 64 (to_word (pos 100)) in
    let d = smbc_write (pos 5) 64 (to_word (pos 100)) in
    (got put : ℤ) × Does start
      (Handles.read 1 (pos 5) 7 (pos 100) (serving documented) start)
      got
      (errno_raised (bytes "read") (documented c) ++ called c (documented c) ∷ got_buffer 7 64 ∷ [])
    × IsCount 100 (eisdir ∷ ebadf ∷ einval ∷ []) got
    × Does start (Handles.write 1 (pos 5) 7 (pos 100) (serving documented) start) put (
        errno_raised (bytes "write") (documented d)
        ++ called d (documented d) ∷ got_buffer 7 64 ∷ [])
    × IsCount 100 (eisdir ∷ ebadf ∷ einval ∷ []) put
read-write-IsCount_example =
    read-write-IsCount (serving-IsHealthy documented) documented-FollowsHeader start-IsReady 1
      (pos 5) 7 100
