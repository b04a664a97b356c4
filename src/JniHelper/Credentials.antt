-- ===== src/JniHelper/Credentials.antt =====
-- The native methods of `NativeCredentialCache`, and `SambaConfiguration.setEnv`
-- (jni_helper/JniHelper.cc).
use my_stest.Base.{none, some, true, Text, bytes, is_negative, if◌then◌else◌}
use my_stest.CredentialCache
use my_stest.World.Calls.{Ptr, JString, setenv}
use my_stest.World.State.{
  CredentialTuple, CredentialCache, Cmd, pure, ◌>>=◌, ◌>>◌, update, require, gets, modify,
}
use my_stest.World.Jni.{get_string_utf_chars, release_string_utf_chars}
use my_stest.World.Libc.{call, get_errno, new_cache}
use my_stest.JniHelper.Objects.{throw_new_errno_exception}

unfoldable pub native_init : Cmd Ptr
native_init = new_cache CredentialCache.empty

unfoldable pub read_cache : Ptr → Cmd CredentialCache
read_cache pointer = do found ← gets (λ s. s.caches pointer); require found

unfoldable pub write_cache : Ptr → CredentialCache → Cmd (Unit {0})
write_cache pointer c = modify λ s. record s { caches = update s.caches pointer (some c) }

-- The block in which all four strings are there.
unfoldable pub put_tuple : Ptr → Text → CredentialTuple → Cmd (Unit {0})
unfolding read_cache write_cache CredentialCache.put
put_tuple pointer uri tuple = do
  c ← read_cache pointer
  write_cache pointer (CredentialCache.put c uri tuple)

-- The labels release what was got before, in the opposite order.
unfoldable pub put_credential : Ptr → JString → JString → JString → JString → Cmd (Unit {0})
unfolding put_tuple
put_credential pointer uri_ workgroup_ username_ password_ = do
  uri ← get_string_utf_chars uri_
  elim uri [
    | none ↦ pure tt
    | some uri ↦ do
      workgroup ← get_string_utf_chars workgroup_
      elim workgroup [
        | none ↦ pure tt
        | some workgroup ↦ do
          username ← get_string_utf_chars username_
          elim username [
            | none ↦ pure tt
            | some username ↦ do
              password ← get_string_utf_chars password_
              elim password [
                | none ↦ pure tt
                | some password ↦ do
                  put_tuple pointer uri
                      (record { workgroup = workgroup; username = username; password = password })
                  release_string_utf_chars password_
              ]
              release_string_utf_chars username_
          ]
          release_string_utf_chars workgroup_
      ]
      release_string_utf_chars uri_
  ]

-- The bytes of `uri` are not released.
unfoldable pub remove_credential : Ptr → JString → Cmd (Unit {0})
unfolding read_cache write_cache CredentialCache.remove
remove_credential pointer uri_ = do
  uri ← get_string_utf_chars uri_
  elim uri [
    | none ↦ pure tt
    | some uri ↦ do c ← read_cache pointer; write_cache pointer (CredentialCache.remove c uri)
  ]

-- The bytes of `value` are not released.
unfoldable pub set_env : JString → JString → Cmd (Unit {0})
set_env var_ value_ = do
  var ← get_string_utf_chars var_
  elim var [
    | none ↦ pure tt
    | some var ↦ do
      value ← get_string_utf_chars value_
      elim value [
        | none ↦ pure tt
        | some value ↦ do
          r ← call (setenv var value true)
          if is_negative r.result
              then (do err ← get_errno; throw_new_errno_exception (bytes "setEnv") err)
              else pure tt
      ]
      release_string_utf_chars var_
  ]
