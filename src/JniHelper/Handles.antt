-- ===== src/JniHelper/Handles.antt =====
-- The native methods of `SambaDir` and `SambaFile` (jni_helper/JniHelper.cc), which work on a
-- descriptor. The build is for armeabi-v7a: `size_t`, `ssize_t` and `off_t` have 32 bits.
use my_stest.Base.{
  ℕ, ℤ, is_negative, neg_int, neg_long, to_int32, to_word, Option, none, some, bytes, if◌then◌else◌,
}
use my_stest.World.Calls.{Ptr, Jobject}
use my_stest.World.State.{Cmd, pure, ◌>>=◌, ◌>>◌}
use my_stest.World.Jni.{get_direct_buffer_address}
use my_stest.SambaClient.Files
use my_stest.JniHelper.Objects.{
  throw_new_errno_exception, create_directory_entry, create_structstat,
}

unfoldable pub read_dir : Ptr → ℤ → Cmd (Option Jobject)
unfolding Files.read_dir
read_dir pointer dh = do
  (result, dirent) ← Files.read_dir dh
  if is_negative result
      then (do throw_new_errno_exception (bytes "readDir") (neg_int result); pure none)
      else elim dirent [ none ↦ pure none | some ent ↦ create_directory_entry ent ]

unfoldable pub close_dir : Ptr → ℤ → Cmd (Unit {0})
unfolding Files.close_dir
close_dir pointer dh = do
  result ← Files.close_dir dh
  if is_negative result then throw_new_errno_exception (bytes "close") (neg_int result) else pure tt

unfoldable pub fstat : Ptr → ℤ → Cmd (Option Jobject)
unfolding Files.fstat
fstat pointer fd = do
  (result, st) ← Files.fstat fd
  if is_negative result
      then (do throw_new_errno_exception (bytes "stat") (neg_int result); pure none)
      else create_structstat st

-- The offset is converted to `off_t`, the result from `off_t`.
unfoldable pub seek : Ptr → ℤ → ℤ → ℤ → Cmd ℤ
unfolding Files.seek_file
seek pointer fd offset whence = do
  result ← Files.seek_file fd (to_int32 offset) whence
  if is_negative result
      then throw_new_errno_exception (bytes "seek") (to_int32 (neg_long result))
      else pure tt
  pure result

unfoldable pub read : Ptr → ℤ → ℕ → ℤ → Cmd ℤ
unfolding Files.read_file
read pointer fd buffer_ maxlen = do
  buffer ← get_direct_buffer_address buffer_
  size ← Files.read_file fd buffer (to_word maxlen)
  if is_negative size
      then throw_new_errno_exception (bytes "read") (to_int32 (neg_int size))
      else pure tt
  pure size

unfoldable pub write : Ptr → ℤ → ℕ → ℤ → Cmd ℤ
unfolding Files.write_file
write pointer fd buffer_ length = do
  buffer ← get_direct_buffer_address buffer_
  size ← Files.write_file fd buffer (to_word length)
  if is_negative size
      then throw_new_errno_exception (bytes "write") (to_int32 (neg_int size))
      else pure tt
  pure size

unfoldable pub close_file : Ptr → ℤ → Cmd (Unit {0})
unfolding Files.close_file
close_file pointer fd = do
  result ← Files.close_file fd
  if is_negative result then throw_new_errno_exception (bytes "close") (neg_int result) else pure tt
