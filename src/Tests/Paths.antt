-- ===== src/Tests/Paths.antt =====
-- The theorems on files and directories at concrete inputs.
use my_stest.Base.{pos, negsuc, ◌≡◌, true, some, [], ◌∷◌, ◌++◌, bytes, neg_int, to_int32, arith}
use my_stest.World.Calls.{
  JString, Call, called, got_chars, released_chars, deleted_ref, smbc_opendir, smbc_stat,
  smbc_creat, smbc_rename, smbc_open, smbc_close, smbc_readdir, smbc_lseek, setenv, Trace, Event,
}
use my_stest.World.State.{ok}
use my_stest.JniHelper.Paths
use my_stest.JniHelper.OpenFile.{open_file, mode_flag}
use my_stest.JniHelper.Handles
use my_stest.JniHelper.Credentials.{set_env}
use my_stest.JniHelper.Modes.{access, access_flag, mode_flag-access}
use my_stest.JniHelper.Made.{stat_object, entry_object}
use my_stest.JniHelper.Ready.{Does}
use my_stest.JniHelper.Throws.{thrown, file_not_found}
use my_stest.JniHelper.PathLaws.{open_dir_lem, stat_lem, create_file_lem, rename_lem}
use my_stest.JniHelper.OpenLaws.{open_file_lem}
use my_stest.JniHelper.HandleLaws.{read_dir_lem, seek_lem}
use my_stest.JniHelper.EnvironmentLaws.{set_env_lem}
use my_stest.Tests.Setting.{
  status, failure, success, serving, serving-IsHealthy, failing-SetsErrno, working-SetsErrno, start,
  start-IsReady, jstring,
}

abbrev uri : JString
uri = jstring 1 (bytes "smb://h/s/a")

abbrev nuri : JString
nuri = jstring 2 (bytes "smb://h/s/b")

abbrev rwt : JString
rwt = jstring 3 (b'r' ∷ b'w' ∷ b't' ∷ [])

-- What stands around a failed call of a path method.
abbrev around : Event → Call → Trace
around e c = released_chars uri ∷ e ∷ called c (failure 2 c) ∷ got_chars uri true ∷ []

open_dir_lem_example : Does start (Paths.open_dir 1 uri (serving (failure 2)) start) (negsuc 1) (
    around
      (thrown (file_not_found (bytes "Directory at " ++ (uri.chars ++ bytes " can't be found."))))
      (smbc_opendir uri.chars))
unfolding neg_int
open_dir_lem_example =
    open_dir_lem (serving-IsHealthy (failure 2)) failing-SetsErrno start-IsReady 1 uri

stat_lem_example :
    let c = smbc_stat uri.chars in
    Does start
      (Paths.stat 1 uri (serving success) start)
      (some (stat_object status))
      (released_chars uri ∷ called c (success c) ∷ got_chars uri true ∷ [])
stat_lem_example = stat_lem (serving-IsHealthy success) working-SetsErrno start-IsReady 1 uri

create_file_lem_example :
    let c = smbc_creat uri.chars 0o755 in
    Does start (Paths.create_file 1 uri (serving success) start) tt (
      released_chars uri
      ∷ called (smbc_close (pos 0)) (success c)
      ∷ called c (success c)
      ∷ got_chars uri true
      ∷ [])
create_file_lem_example =
    create_file_lem (serving-IsHealthy success) working-SetsErrno start-IsReady 1 uri

rename_lem_example :
    let c = smbc_rename uri.chars nuri.chars in
    Does start (Paths.rename 1 uri nuri (serving success) start) tt (
      released_chars uri
      ∷ released_chars nuri
      ∷ called c (success c)
      ∷ got_chars nuri true
      ∷ got_chars uri true
      ∷ [])
rename_lem_example =
    rename_lem (serving-IsHealthy success) working-SetsErrno start-IsReady 1 uri nuri

open_file_lem_example :
    let c = smbc_open uri.chars 0o1002 0 in
    Does start (open_file 1 uri rwt (serving success) start) (pos 0) (
      released_chars rwt
      ∷ released_chars uri
      ∷ called c (success c)
      ∷ got_chars rwt true
      ∷ got_chars uri true
      ∷ [])
unfolding access access_flag
open_file_lem_example =
    open_file_lem (serving-IsHealthy success) working-SetsErrno start-IsReady 1 uri rwt
      (omega arith)

mode_flag-access_example :
    mode_flag (b'w' ∷ b'a' ∷ []) (serving success) start ≡ ok (pos 0o2001) start
unfolding access access_flag
mode_flag-access_example = mode_flag-access (b'w' ∷ b'a' ∷ []) (serving success) start (omega arith)

read_dir_lem_example :
    let c = smbc_readdir (pos 5) in
    Does start
      (Handles.read_dir 1 (pos 5) (serving success) start)
      (some (entry_object (record { smbc_type = 8; comment = b'c' ∷ []; name = b'n' ∷ [] })))
      (deleted_ref (b'c' ∷ []) ∷ deleted_ref (b'n' ∷ []) ∷ called c (success c) ∷ [])
read_dir_lem_example =
    read_dir_lem (serving-IsHealthy success) working-SetsErrno start-IsReady 1 (pos 5)

-- The offset 2 ^ 31 arrives as -2 ^ 31.
seek_lem_example :
    let c = smbc_lseek (pos 5) (negsuc 0x7fff_ffff) (pos 0) in
    Does start
      (Handles.seek 1 (pos 5) (pos 0x8000_0000) (pos 0) (serving success) start)
      (pos 0)
      (called c (success c) ∷ [])
unfolding to_int32
seek_lem_example =
    seek_lem (serving-IsHealthy success) working-SetsErrno start-IsReady 1 (pos 5) (pos 0x8000_0000)
      (pos 0)

set_env_lem_example :
    let c = setenv uri.chars nuri.chars true in
    Does start
      (set_env uri nuri (serving success) start)
      tt
      (released_chars uri ∷ called c (success c) ∷ got_chars nuri true ∷ got_chars uri true ∷ [])
set_env_lem_example = set_env_lem (serving-IsHealthy success) start-IsReady uri nuri
