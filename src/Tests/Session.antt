-- ===== src/Tests/Session.antt =====
-- The theorem on sequences of methods at a concrete sequence: each call of libsmbclient fails.
use my_stest.Base.{pos, List, [], ◌∷◌, arith, bytes}
use my_stest.World.Calls.{JString}
use my_stest.JniHelper.Session.{
  Request, open_dir, create_file, rename, open_file, read_dir, seek, read, close_file, perform_all,
}
use my_stest.JniHelper.Settles.{Settles}
use my_stest.JniHelper.SessionLaws.{perform_all-Settles}
use my_stest.Tests.Setting.{
  failure, serving, serving-IsHealthy, failing-SetsErrno, start, start-IsReady, jstring,
}

abbrev from : JString
from = jstring 1 (bytes "smb://h/s/a")

abbrev to : JString
to = jstring 2 (bytes "smb://h/s/b")

abbrev mode : JString
mode = jstring 3 (b'w' ∷ [])

abbrev requests : List Request
requests =
    open_dir 1 from
    ∷ read_dir 1 (pos 4)
    ∷ create_file 1 from
    ∷ open_file 1 from mode
    ∷ seek 1 (pos 5) (pos 10) (pos 0)
    ∷ read 1 (pos 5) 8 (pos 100)
    ∷ close_file 1 (pos 5)
    ∷ rename 1 from to
    ∷ []

perform_all-Settles_example : Settles start (perform_all requests (serving (failure 2)) start)
perform_all-Settles_example =
    perform_all-Settles (serving-IsHealthy (failure 2)) failing-SetsErrno requests start
      start-IsReady (tt, (tt, (tt, (omega arith, (tt, (tt, (tt, (tt, tt))))))))
