-- ===== src/JniHelper/OpenFile.antt =====
-- `NativeSambaFacade.openFile` (jni_helper/JniHelper.cc).
use Prim.Native.Nat.{bit_or}
use my_stest.Base.{
  ℕ, ℤ, pos, negsuc, is_negative, neg_int, none, some, [], ◌∷◌, ◌++◌, Text, bytes, ◌==◌,
  if◌then◌else◌, get_elem?,
}
use my_stest.World.Calls.{Ptr, JString}
use my_stest.World.State.{Cmd, pure, ◌>>=◌, ◌>>◌, require}
use my_stest.World.Jni.{get_string_utf_chars, release_string_utf_chars}
use my_stest.World.Libc.{enoent, eacces, enodev, o_rdonly, o_wronly, o_rdwr, o_trunc, o_append}
use my_stest.SambaClient.Files
use my_stest.JniHelper.Objects.{
  throw_new_file_not_found_exception, throw_new_errno_exception, throw_new_auth_failed_exception,
  switch,
}

-- `mode[i]` of a C string: its NUL can be read, what lies past that is a fault.
unfoldable pub read_char : Text → ℕ → Cmd ℕ
read_char s i = require (get_elem? (s ++ 0 ∷ []) i)

-- `mode[2] == 't' && mode[3] == '\0'` after `rw`.
unfoldable pub rw_flag : Text → Cmd ℤ
unfolding read_char
rw_flag mode = do
  c ← read_char mode 2
  if c == b't'
      then (do
        d ← read_char mode 3
        if d == 0 then pure (pos (bit_or o_rdwr o_trunc)) else pure (pos o_rdwr))
      else pure (pos o_rdwr)

-- The flag that a mode stands for; -1 if it stands for none.
unfoldable pub mode_flag : Text → Cmd ℤ
unfolding rw_flag
mode_flag mode = do
  c ← read_char mode 0
  if c == b'r'
      then (do
        d ← read_char mode 1
        if d == 0 then pure (pos o_rdonly) else if d == b'w' then rw_flag mode else pure (negsuc 0))
      else if c == b'w'
      then (do
        d ← read_char mode 1
        if d == b'a'
            then pure (pos (bit_or o_wronly o_append))
            else if d == 0
            then pure (pos (bit_or o_wronly o_trunc))
            else pure (pos o_wronly))
      else pure (negsuc 0)

-- The `switch` of `openFile`.
unfoldable pub open_file_failed : Text → ℤ → Cmd (Unit {0})
open_file_failed uri err =
    switch err
      ((
        enodev ∷ enoent ∷ [],
        throw_new_file_not_found_exception (bytes "File at " ++ (uri ++ bytes " can't be found.")),
      )
        ∷ (eacces ∷ [], throw_new_auth_failed_exception)
        ∷ [])
      (throw_new_errno_exception (bytes "openFile") err)

-- The call of `OpenFile`, if the flag is no negative number.
unfoldable pub open_with : Text → ℤ → Cmd ℤ
open_with uri (pos flag) = Files.open_file uri flag 0
open_with uri (negsuc n) = pure (negsuc 0)

unfoldable pub open_file : Ptr → JString → JString → Cmd ℤ
unfolding mode_flag open_file_failed open_with Files.open_file
open_file pointer uri_ mode_ = do
  chars ← get_string_utf_chars uri_
  elim chars [
    | none ↦ pure (negsuc 0)
    | some uri ↦ do
      mode_chars ← get_string_utf_chars mode_
      elim mode_chars [
        | none ↦ do release_string_utf_chars uri_; pure (negsuc 0)
        | some mode ↦ do
          flag ← mode_flag mode
          fd ← open_with uri flag
          if is_negative fd then open_file_failed uri (neg_int fd) else pure tt
          release_string_utf_chars uri_
          release_string_utf_chars mode_
          pure fd
      ]
  ]
